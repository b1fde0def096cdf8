-- ===== src/Protocol/Operations.antt =====
-- `decode_operation` of atria-protocol/src/interface.rs, and its agreement with the table.
use atria.Base.{
  ℕ, zero, suc, ◌+◌, ◌≡◌, refl, List, [], ◌∷◌, some, arith, get_elem?, ◌↔◌, Result, ok, ok_or,
}
use atria.Protocol.Interface.{
  Interface, MessageKind, method, event, Operation, spec, methods, events,
}
use atria.Protocol.Error.{DecodeError, unknown_opcode}

pub listed : Interface → MessageKind → List Operation
listed i method = methods i
listed i event = events i

unfoldable pub decode_operation : Interface → MessageKind → ℕ → Result DecodeError Operation
unfolding listed
decode_operation i k opcode = ok_or (get_elem? (listed i k) opcode) (unknown_opcode i k opcode)

-- The operations of a list are filed under `i` and `k`, and their opcodes count up from `n`.
abbrev Filed : Interface → MessageKind → ℕ → List Operation → Type 0
Filed i k n [] = Unit {0}
Filed i k n (o ∷ os) =
    ((spec o).interface ≡ i) × ((spec o).kind ≡ k) × ((spec o).opcode ≡ n) × Filed i k (suc n) os

Filed-get :
    (i : Interface) (k : MessageKind) (n : ℕ) (os : List Operation) (c : ℕ) (o : Operation)
    → Filed i k n os
    → get_elem? os c ≡ some o
    → ((spec o).interface ≡ i) × ((spec o).kind ≡ k) × ((spec o).opcode ≡ n + c)
Filed-get i k n [] c o h e = cc
Filed-get i k n (x ∷ os) zero o h e = ground arith
Filed-get i k n (x ∷ os) (suc c) o h e = ground (arith, Filed-get i k (suc n) os c o)

methods-Filed : (i : Interface) → Filed i method 0 (methods i)
unfolding methods spec
methods-Filed Interface.display = ground arith
methods-Filed _ = ground arith

events-Filed : (i : Interface) → Filed i event 0 (events i)
unfolding events spec
events-Filed Interface.display = ground arith
events-Filed _ = ground arith

listed-Filed : (i : Interface) (k : MessageKind) → Filed i k 0 (listed i k)
unfolding listed
listed-Filed i method = methods-Filed i
listed-Filed i event = events-Filed i

-- Every operation is decoded from the interface, the kind and the opcode of its own row.
pub decode_operation-spec :
    (o : Operation) → decode_operation (spec o).interface (spec o).kind (spec o).opcode ≡ ok o
unfolding decode_operation spec methods events
decode_operation-spec Operation.display_sync = refl
decode_operation-spec _ = refl

decode_operation-get :
    (i : Interface) (k : MessageKind) (c : ℕ) (o : Operation)
    → decode_operation i k c ≡ ok o
    → get_elem? (listed i k) c ≡ some o
unfolding decode_operation
decode_operation-get i k c o h = ground arith

-- An opcode is decoded to an operation exactly when the operation's row has this interface, this
-- kind and this opcode.
pub decode_operation_iff :
    (i : Interface) (k : MessageKind) (c : ℕ) (o : Operation)
    → (decode_operation i k c ≡ ok o)
      ↔ (((spec o).interface ≡ i) × ((spec o).kind ≡ k) × ((spec o).opcode ≡ c))
decode_operation_iff i k c o = (
  λ h.
      let found =
        Filed-get i k 0 (listed i k) c o (listed-Filed i k) (decode_operation-get i k c o h) in
      (found.0, found.1, omega (arith, found.2)),
  λ h. cc (decode_operation-spec o, h.0, h.1, h.2),
)
