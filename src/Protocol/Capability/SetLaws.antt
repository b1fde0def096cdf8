-- ===== src/Protocol/Capability/SetLaws.antt =====
-- A capability set is the set of the capabilities that it contains.
use atria.Base.{
  ℕ, zero, suc, ◌-◌, ◌^◌, ◌≤◌, ◌<◌, ◌≡◌, ◌↔◌, refl, ap, Bool, true, false, not, ◌&&◌, ◌||◌, ◌==◌,
  arith, bit_and, ◌∙◌, sym, ==_iff,
}
use atria.Base.Bits.{
  bit, bit-le, bit-zero, bit-bit_and, bit-bit_or, bit-pow, bit-complement, bit_and-pow_iff,
  eq_of_bits,
}
use atria.Protocol.Capability.{
  Capability, CapabilitySet, index, empty, default_grants, contains, with_capability,
  without_capability, intersection, satisfies,
}
use native.Mathlib.Decide.{dec_lt}

-- Is `c` the capability `d`?
abbrev pub same : Capability → Capability → Bool
same c d = index c == index d

index-lt : (c : Capability) → index c < 20
unfolding index
index-lt Capability.surface_create = omega arith
index-lt _ = omega arith

index-mask : (c : Capability) → 2 ^ index c < 2 ^ 64
unfolding index
index-mask Capability.surface_create = omega arith
index-mask _ = omega arith

-- Membership is one bit.
contains-bit : (s : CapabilitySet) (c : Capability) → contains s c ≡ (bit (index c) s.bits == 1)
unfolding contains
contains-bit s c = ground (arith, bit_and-pow_iff s.bits (index c), bit-le (index c) s.bits)

-- A capability is the number of its bit.
pub contains-same :
    (s : CapabilitySet) (c d : Capability) → same c d ≡ true → contains s c ≡ contains s d
contains-same s c d h =
    contains-bit s c
    ∙ ap (λ i. bit i s.bits == 1) ((==_iff (index c) (index d)).0 h)
    ∙ sym (contains-bit s d)

contains-empty : (c : Capability) → contains empty c ≡ false
unfolding empty
contains-empty c = ground (arith, contains-bit empty c, bit-zero (index c))

contains-with :
    (s : CapabilitySet) (c d : Capability)
    → contains (with_capability s c) d ≡ same c d || contains s d
unfolding with_capability
contains-with s c d = ground (
  arith,
  contains-bit (with_capability s c) d,
  contains-bit s d,
  bit-bit_or (index d) s.bits (2 ^ index c),
  bit-pow (index d) (index c),
  bit-le (index d) s.bits,
)

contains-without :
    (s : CapabilitySet) (c d : Capability)
    → contains (without_capability s c) d ≡ not (same c d) && contains s d
unfolding without_capability
contains-without s c d = ground (
  arith,
  contains-bit (without_capability s c) d,
  contains-bit s d,
  bit-bit_and (index d) s.bits (2 ^ 64 - 1 - 2 ^ index c),
  bit-complement 64 (index d) (2 ^ index c),
  index-lt d,
  index-mask c,
  bit-pow (index d) (index c),
  bit-le (index d) s.bits,
)

contains-intersection :
    (s t : CapabilitySet) (c : Capability)
    → contains (intersection s t) c ≡ contains s c && contains t c
unfolding intersection
contains-intersection s t c = ground (
  arith,
  contains-bit (intersection s t) c,
  contains-bit s c,
  contains-bit t c,
  bit-bit_and (index c) s.bits t.bits,
  bit-le (index c) s.bits,
  bit-le (index c) t.bits,
)

contains-default_grants :
    (c : Capability)
    → contains default_grants c
      ≡ same Capability.surface_create c || same Capability.buffer_import c
unfolding contains default_grants index
contains-default_grants Capability.surface_create = refl
contains-default_grants _ = refl

-- What each operation on a capability set does to membership: the empty set contains nothing, a
-- grant adds one capability and a removal takes one away, no other changes, an intersection holds
-- what both sets hold, and the default grants are `surface_create` and `buffer_import`.
pub contains-operations :
    (s t : CapabilitySet) (c d : Capability)
    → (contains empty d ≡ false)
      × (contains (with_capability s c) d ≡ same c d || contains s d)
      × (contains (without_capability s c) d ≡ not (same c d) && contains s d)
      × (contains (intersection s t) d ≡ contains s d && contains t d)
      × (contains default_grants d
          ≡ same Capability.surface_create d || same Capability.buffer_import d)
contains-operations s t c d = (
  contains-empty d,
  contains-with s c d,
  contains-without s c d,
  contains-intersection s t d,
  contains-default_grants d,
)

-- The capability at a bit.
of_index-lt : (k : ℕ) → k < 20 → (c : Capability) × (index c ≡ k)
unfolding index
of_index-lt zero h = (Capability.surface_create, refl)
of_index-lt (suc zero) h = (Capability.buffer_import, refl)
of_index-lt (suc (suc zero)) h = (Capability.extended_input, refl)
of_index-lt (suc (suc (suc zero))) h = (Capability.screencopy, refl)
of_index-lt (suc (suc (suc (suc zero)))) h = (Capability.privileged_session, refl)
of_index-lt (suc (suc (suc (suc (suc zero))))) h = (Capability.software_shm, refl)
of_index-lt (suc (suc (suc (suc (suc (suc zero)))))) h = (Capability.gpu_prime, refl)
of_index-lt (suc (suc (suc (suc (suc (suc (suc zero))))))) h = (Capability.explicit_gpu_fence, refl)
of_index-lt (suc (suc (suc (suc (suc (suc (suc (suc zero)))))))) h =
    (Capability.revocable_seat, refl)
of_index-lt (suc (suc (suc (suc (suc (suc (suc (suc (suc zero))))))))) h =
    (Capability.drm_dumb_buffer, refl)
of_index-lt (suc (suc (suc (suc (suc (suc (suc (suc (suc (suc zero)))))))))) h =
    (Capability.drm_atomic_commit, refl)
of_index-lt (suc (suc (suc (suc (suc (suc (suc (suc (suc (suc (suc zero))))))))))) h =
    (Capability.drm_page_flip, refl)
of_index-lt (suc (suc (suc (suc (suc (suc (suc (suc (suc (suc (suc (suc zero)))))))))))) h =
    (Capability.input_keys, refl)
of_index-lt (suc (suc (suc (suc (suc (suc (suc (suc (suc (suc (suc (suc (suc zero))))))))))))) h =
    (Capability.shell_control, refl)
of_index-lt (suc (suc (suc (suc (suc (suc (suc (suc (suc (suc (suc (suc (suc (suc zero))))))))))))))
      h =
    (Capability.output_control, refl)
of_index-lt
      (suc (suc (suc (suc (suc (suc (suc (suc (suc (suc (suc (suc (suc (suc (suc zero)))))))))))))))
      h =
    (Capability.global_input_observation, refl)
of_index-lt
      (suc (
        suc
          (suc (suc (suc (suc (suc (suc (suc (suc (suc (suc (suc (suc (suc (suc zero))))))))))))))))
      h =
    (Capability.input_injection, refl)
of_index-lt
      (suc (
        suc (
          suc (
            suc
              (suc (suc (suc (suc (suc (suc (suc (suc (suc (suc (suc (suc (suc zero)))))))))))))))))
      h =
    (Capability.lock_screen, refl)
of_index-lt
      (suc (
        suc (
          suc (
            suc (
              suc (
                suc
                  (suc (suc (suc (suc (suc (suc (suc (suc (suc (suc (suc (suc zero))))))))))))))))))
      h =
    (Capability.input_method, refl)
of_index-lt
      (suc (
        suc (
          suc (
            suc (
              suc (
                suc (
                  suc (
                    suc
                      (suc (suc (suc (suc (suc (suc (suc (suc (suc (suc (suc zero)))))))))))))))))))
      h =
    (Capability.shortcut_control, refl)
of_index-lt
      (suc (
        suc (
          suc (
            suc (
              suc (
                suc (
                  suc (
                    suc (
                      suc
                        (suc (suc (suc (suc (suc (suc (suc (suc (suc (suc (suc k))))))))))))))))))))
      h =
    absurd (omega arith)

-- A set that was built from capabilities has no other bits.
abbrev pub IsBuilt : CapabilitySet → Type 0
IsBuilt s = (k : ℕ) → 20 ≤ k → bit k s.bits ≡ 0

-- A set satisfies a requirement exactly when it contains every capability of it.
pub satisfies_iff :
    (s required : CapabilitySet)
    → IsBuilt required
    → (satisfies s required ≡ true)
      ↔ ((c : Capability) → contains required c ≡ true → contains s c ≡ true)
unfolding satisfies
satisfies_iff s required built = (
  λ h c wanted. ground (
    arith,
    contains-bit s c,
    contains-bit required c,
    ap (bit (index c)) (met h),
    bit-bit_and (index c) s.bits required.bits,
    bit-le (index c) s.bits,
  ),
  λ h. ground (arith, eq_of_bits (bit_and s.bits required.bits) required.bits (λ k. each h k)),
)
  where
    met :
        (bit_and s.bits required.bits == required.bits) ≡ true
        → bit_and s.bits required.bits ≡ required.bits
    met h = ground arith

    named :
        ((c : Capability) → contains required c ≡ true → contains s c ≡ true)
        → (k : ℕ) → ((c : Capability) × (index c ≡ k))
        → bit k (bit_and s.bits required.bits) ≡ bit k required.bits
    named h k (c, e) = ground (
      arith,
      h c,
      contains-bit s c,
      contains-bit required c,
      bit-bit_and k s.bits required.bits,
      bit-le k s.bits,
      bit-le k required.bits,
    )

    each :
        ((c : Capability) → contains required c ≡ true → contains s c ≡ true)
        → (k : ℕ) → bit k (bit_and s.bits required.bits) ≡ bit k required.bits
    each h k = elim (dec_lt k 20) [
      | yes l ↦ named h k (of_index-lt k l)
      | no g ↦ ground (arith, built k (omega arith), bit-bit_and k s.bits required.bits)
    ]
