-- ===== src/Compositor/State/Connect/Granted.antt =====
-- What a connection may do from the start, and how many there are.
use atria.Base.{
  ℕ, ◌+◌, ◌≤◌, ◌<◌, ◌≡◌, ap, sym, ◌∙◌, Bool, true, ◌&&◌, ◌||◌, none, some, List, [], ◌∷◌, ◌==◌,
  if◌then◌else◌, length, arith, ok, any,
}
use atria.Base.Map.{lookup, insert, contains_key, ℕ_key, lookup-insert, length-insert}
use atria.Protocol.Capability.{
  Capability, CapabilitySet, contains, with_capability, intersection, satisfies, default_grants,
}
use atria.Protocol.Capability.SetLaws.{same, contains-operations, contains-same}
use atria.Compositor.Model.{ConnectionId}
use atria.Compositor.State.{CompositorState, Connection}
use atria.Compositor.State.Connect.{
  backend_facts, with_facts, available_to, new_connection, connect,
}

-- Is the capability one of those listed?
unfoldable pub is_any_of : List Capability → Capability → Bool
is_any_of cs k = any (λ c. same c k) cs

contains-with_facts :
    (cs : List Capability) (available granted : CapabilitySet) (k : Capability)
    → contains (with_facts cs available granted) k
      ≡ contains granted k || is_any_of cs k && contains available k
unfolding with_facts is_any_of
contains-with_facts [] available granted k = ground arith
contains-with_facts (c ∷ cs) available granted k =
    let next = if contains available c then with_capability granted c else granted in
    let added = (contains-operations granted granted c k).1 in
    contains-with_facts cs available next k ∙ ground (arith, added, contains-same available c k)

-- Every connection has a number below the next.
unfoldable pub IsNumbered : CompositorState → Type 0
IsNumbered s = (d : ConnectionId) → contains_key d s.connections ≡ true → d < s.next_connection

-- What `connect` has done where it succeeds.
pub connected :
    (s t : CompositorState) (client required : CapabilitySet) (c : ConnectionId)
    → connect s client required ≡ ok (t, c)
    → (c ≡ s.next_connection)
      × (t.connections
          ≡ insert s.next_connection (new_connection (available_to s client)) s.connections)
      × (t.next_connection ≡ s.next_connection + 1)
      × (t.max_connections ≡ s.max_connections)
      × (satisfies (available_to s client) required ≡ true)
      × (length s.connections < s.max_connections)
unfolding connect
connected s t client required c h = ground (arith, h)

connected-lookup :
    (s t : CompositorState) (c : ConnectionId) (client : Connection)
    → c ≡ s.next_connection
    → t.connections ≡ insert s.next_connection client s.connections
    → (d : ConnectionId)
    → lookup d t.connections ≡ (if c == d then some client else lookup d s.connections)
connected-lookup s t c client ec et d =
    ap (lookup d) et
    ∙ lookup-insert s.next_connection d client s.connections
    ∙ ap (λ (n : ℕ). if n == d then some client else lookup d s.connections) (sym ec)

-- A connection that is accepted, in a state whose connections are numbered below the next: its
-- number is new, every other connection is as it was, the numbering goes on, and there are no more
-- than `max_connections`. It has what it requires among what is available to it, and holds of
-- that just the default grants and the facts of the backend.
pub connect-granted :
    (s t : CompositorState) (client required : CapabilitySet) (c : ConnectionId)
    → IsNumbered s
    → connect s client required ≡ ok (t, c)
    → let available = available_to s client in
      (lookup c s.connections ≡ none)
      × ((d : ConnectionId)
          → lookup d t.connections
            ≡ (if c == d then some (new_connection available) else lookup d s.connections))
      × IsNumbered t
      × (length t.connections ≤ t.max_connections)
      × (satisfies available required ≡ true)
      × ((k : Capability)
          → contains (new_connection available).capabilities k
            ≡ contains available k && (contains default_grants k || is_any_of backend_facts k))
unfolding IsNumbered new_connection
connect-granted s t client required c numbered h =
    let (ec, et, en, em, enough, few) = connected s t client required c h in
    let available = available_to s client in
    (
      ground (arith, numbered c, ec),
      connected-lookup s t c (new_connection available) ec et,
      λ d k.
          ground (
            arith,
            numbered d,
            connected-lookup s t c (new_connection available) ec et d,
            ec,
            en,
            k,
          ),
      omega (
        arith,
        em,
        few,
        ap length et,
        length-insert s.next_connection (new_connection available) s.connections,
      ),
      enough,
      λ k.
          contains-with_facts backend_facts available (intersection available default_grants) k
          ∙ ground (arith, (contains-operations available default_grants k k).3),
    )
