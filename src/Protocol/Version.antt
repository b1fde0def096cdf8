-- ===== src/Protocol/Version.antt =====
-- atria-protocol/src/version.rs: inclusive version ranges and their overlap.
use atria.Base.{ℕ, ◌≤◌, ◌≡◌, ◌↔◌, Option, none, some, leb, ltb, if◌then◌else◌, arith}

pub record VersionRange : Type 0 where
  pub minimum : ℕ
  pub maximum : ℕ

pub new : ℕ → ℕ → Option VersionRange
new minimum maximum =
    if leb minimum maximum then some (record { minimum = minimum; maximum = maximum }) else none

unfoldable pub overlap : VersionRange → VersionRange → Option VersionRange
unfolding new
overlap a b =
    let minimum = if ltb b.minimum a.minimum then a.minimum else b.minimum in
    let maximum = if ltb a.maximum b.maximum then a.maximum else b.maximum in new minimum maximum

-- The range holds the version.
abbrev pub Offers : VersionRange → ℕ → Type 0
Offers r v = (r.minimum ≤ v) × (v ≤ r.maximum)

-- The overlap holds exactly the versions that both peers offer.
pub overlap-Offers :
    (a b r : VersionRange) (v : ℕ) → overlap a b ≡ some r → Offers r v ↔ (Offers a v × Offers b v)
unfolding overlap
overlap-Offers a b r v h = ground arith

-- There is no overlap exactly when no version is offered by both.
pub overlap-none_iff :
    (a b : VersionRange) → (overlap a b ≡ none) ↔ ((v : ℕ) → Offers a v → ¬ Offers b v)
unfolding overlap
overlap-none_iff a b = (λ h v p q. ground arith, λ h. ground (arith, h a.minimum, h b.minimum))
