-- ===== src/Compositor/Output.antt =====
-- atria-compositor/src/output.rs: the displays that have been seen, attached or not, and the area
-- that those attached cover.
pub mod Topology
pub mod Reachable
use atria.Base.{
  ℕ, zero, suc, ◌+◌, ◌-◌, ◌%◌, ◌≤◌, ◌<◌, Bool, true, false, not, ◌&&◌, ◌||◌, Option, none, some,
  List, [], ◌∷◌, ◌++◌, ◌==◌, leb, ltb, if◌then◌else◌, is_some, any, length,
}
use atria.Base.Int.{ℤ, pos, ◌-ℤ◌, ◌+ℤ◌, ◌*ℤ◌, leb_ℤ, ltb_ℤ, i32_saturating_add_unsigned, i64_wrap}
use atria.Base.Map.{Map, lookup, insert, remove, update, contains_key, keys, ℕ_key}
use atria.Compositor.Model.{Point, Size, Rect, IdentitySource}

abbrev pub OutputIdentity : Type 0
OutputIdentity = ℕ

pub record OutputInfo : Type 0 where
  pub size : Size
  pub physical_millimetres : Size
  pub scale_numerator : ℕ
  pub scale_denominator : ℕ
  pub refresh_millihertz : ℕ

unfoldable pub size_eqb : Size → Size → Bool
size_eqb a b = a.width == b.width && a.height == b.height

-- The derived equality.
unfoldable pub info_eqb : OutputInfo → OutputInfo → Bool
unfolding size_eqb
info_eqb a b =
    size_eqb a.size b.size
    && size_eqb a.physical_millimetres b.physical_millimetres
    && a.scale_numerator == b.scale_numerator
    && a.scale_denominator == b.scale_denominator
    && a.refresh_millihertz == b.refresh_millihertz

-- The loop ends before the fuel does: the second number falls in each round.
gcd_loop : ℕ → ℕ → ℕ → ℕ
gcd_loop zero a b = a
gcd_loop (suc fuel) a b = let rest = gcd_loop fuel b (a % b) in if b == 0 then a else rest

unfoldable pub greatest_common_divisor : ℕ → ℕ → ℕ
unfolding gcd_loop
greatest_common_divisor a b = gcd_loop (suc b) a b

abbrev pub max_scale_term : ℕ
max_scale_term = 65536

unfoldable pub scale_is_canonical : OutputInfo → Bool
unfolding greatest_common_divisor
scale_is_canonical o =
    if o.scale_numerator == 0 || o.scale_denominator == 0
    then false
    else (if ltb max_scale_term o.scale_numerator || ltb max_scale_term o.scale_denominator
        then false
        else greatest_common_divisor o.scale_numerator o.scale_denominator == 1)

unfoldable pub overlaps : Rect → Rect → Bool
overlaps a b =
    let a_right = i32_saturating_add_unsigned a.x a.width in
    let a_bottom = i32_saturating_add_unsigned a.y a.height in
    let b_right = i32_saturating_add_unsigned b.x b.width in
    let b_bottom = i32_saturating_add_unsigned b.y b.height in
    ltb_ℤ a.x b_right && ltb_ℤ b.x a_right && ltb_ℤ a.y b_bottom && ltb_ℤ b.y a_bottom

-- `u32::saturating_sub` is the subtraction of ℕ.
unfoldable pub clamp_into : Rect → Rect → Point
clamp_into screen area =
    let max_x = i32_saturating_add_unsigned screen.x (screen.width - area.width) in
    let max_y = i32_saturating_add_unsigned screen.y (screen.height - area.height) in
    record {
      x =
          if ltb_ℤ area.x screen.x
          then screen.x
          else (if ltb_ℤ max_x area.x then max_x else area.x);
      y =
          if ltb_ℤ area.y screen.y
          then screen.y
          else (if ltb_ℤ max_y area.y then max_y else area.y);
    }

pub record Output : Type 0 where
  pub info : OutputInfo
  pub source : IdentitySource
  pub present : Bool
  pub position : Option Point

pub record TopologyDelta : Type 0 where
  pub arrived : List OutputIdentity
  pub returned : List OutputIdentity
  pub departed : List OutputIdentity
  pub reconfigured : List OutputIdentity

abbrev pub no_change : TopologyDelta
no_change = record { arrived = []; returned = []; departed = []; reconfigured = [] }

abbrev pub OutputSet : Type 0
OutputSet = Map OutputIdentity Output

-- What a backend lists: the whole set of attached displays.
pub record Listed : Type 0 where
  pub identity : OutputIdentity
  pub source : IdentitySource
  pub info : OutputInfo

abbrev pub Applied : Type 0
Applied = OutputSet × TopologyDelta

-- One listed display, by what was known of it.
list_known : Listed → Option Output → Applied → Applied
list_known l none (outputs, delta) = (
  insert l.identity (record { info = l.info; source = l.source; present = true; position = none })
      outputs,
  record delta { arrived = delta.arrived ++ l.identity ∷ [] },
)
list_known l (some output) (outputs, delta) =
    let seen =
      insert l.identity (record output { info = l.info; source = l.source; present = true })
        outputs in
    if output.present
    then (
      seen,
      (if info_eqb output.info l.info
          then delta
          else record delta { reconfigured = delta.reconfigured ++ l.identity ∷ [] }),
    )
    else (seen, record delta { returned = delta.returned ++ l.identity ∷ [] })

-- The first loop of `apply`.
list_all : List Listed → Applied → Applied
unfolding list_known
list_all [] a = a
list_all (l ∷ ls) a = list_all ls (list_known l (lookup l.identity a.0) a)

pub is_listed : OutputIdentity → List Listed → Bool
is_listed identity present = any (λ l. l.identity == identity) present

-- The second loop of `apply`: the known displays that are not listed have gone.
depart : List Listed → OutputSet → OutputSet × List OutputIdentity
unfolding is_listed
depart present [] = ([], [])
depart present ((identity, output) ∷ rest) =
    let (rest', gone) = depart present rest in
    if output.present && not (is_listed identity present)
    then ((identity, record output { present = false }) ∷ rest', identity ∷ gone)
    else ((identity, output) ∷ rest', gone)

-- `OutputSet::apply`.
unfoldable pub apply : List Listed → OutputSet → Applied
unfolding list_all depart
apply present outputs =
    let (listed, delta) = list_all present (outputs, no_change) in
    let (after, gone) = depart present listed in (after, record delta { departed = gone })

-- The set, and whether the display is known. Either arm of the `map_or` is the new position.
unfoldable pub place : OutputIdentity → Point → OutputSet → OutputSet × Bool
place identity position outputs = (
  update identity (λ o. record o { position = some position }) outputs,
  contains_key identity outputs,
)

unfoldable pub output_area : Output → Option Rect
output_area o = if not o.present then none else (elim o.position [
  | none ↦ none
  | some p ↦
      some (record { x = p.x; y = p.y; width = o.info.size.width; height = o.info.size.height })
])

unfoldable pub area : OutputIdentity → OutputSet → Option Rect
unfolding output_area
area identity outputs = elim (lookup identity outputs) [ none ↦ none | some o ↦ output_area o ]

unfoldable pub source : OutputIdentity → OutputSet → Option IdentitySource
source identity outputs = elim (lookup identity outputs) [ none ↦ none | some o ↦ some o.source ]

unfoldable pub info : OutputIdentity → OutputSet → Option OutputInfo
info identity outputs = elim (lookup identity outputs) [ none ↦ none | some o ↦ some o.info ]

unfoldable pub is_present : OutputIdentity → OutputSet → Bool
is_present identity outputs = elim (lookup identity outputs) [ none ↦ false | some o ↦ o.present ]

unfoldable pub is_known : OutputIdentity → OutputSet → Bool
is_known identity outputs = contains_key identity outputs

unfoldable pub forget : OutputIdentity → OutputSet → OutputSet × Bool
forget identity outputs = (remove identity outputs, contains_key identity outputs)

-- The areas of the attached and placed displays, in the order of their identities.
unfoldable pub screens : OutputSet → List Rect
unfolding output_area
screens [] = []
screens ((identity, output) ∷ rest) =
    let others = screens rest in elim (output_area output) [ none ↦ others | some r ↦ r ∷ others ]

unfoldable pub is_reachable : Rect → OutputSet → Bool
unfolding screens
is_reachable r outputs = any (λ screen. overlaps screen r) (screens outputs)

-- The square of the distance as an `i64`. The differences of two `i32` fit; a square and the sum wrap,
-- as they do where the build has no overflow checks. With them, a square of 2^63 or more panics.
unfoldable pub distance : Rect → Point → ℤ
unfolding i64_wrap
distance r p =
    let dx = p.x -ℤ r.x in
    let dy = p.y -ℤ r.y in i64_wrap (i64_wrap (dx *ℤ dx) +ℤ i64_wrap (dy *ℤ dy))

-- `min_by_key` keeps the first of the least.
unfoldable pub nearest : Rect → Point → List Point → Point
unfolding distance
nearest r best [] = best
nearest r best (p ∷ ps) = nearest r (if ltb_ℤ (distance r p) (distance r best) then p else best) ps

unfoldable pub clamped : Rect → List Rect → List Point
clamped r [] = []
clamped r (screen ∷ rest) = clamp_into screen r ∷ clamped r rest

unfoldable pub nearest_of : Rect → List Point → Option Point
unfolding nearest
nearest_of r [] = none
nearest_of r (p ∷ ps) = some (nearest r p ps)

unfoldable pub nearest_reachable : Rect → OutputSet → Option Point
unfolding is_reachable nearest_of clamped
nearest_reachable r outputs =
    if is_reachable r outputs
    then some (record { x = r.x; y = r.y })
    else nearest_of r (clamped r (screens outputs))
