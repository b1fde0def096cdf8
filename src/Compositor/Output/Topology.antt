-- ===== src/Compositor/Output/Topology.antt =====
-- `OutputSet::apply` of atria-compositor/src/output.rs: what a topology change does to each display.
use atria.Base.{
  ◌≡◌, refl, Bool, true, false, not, ◌&&◌, ◌||◌, Option, none, some, List, [], ◌∷◌, ◌==◌, ==_iff,
  if◌then◌else◌, is_some, arith,
}
use atria.Base.Map.{lookup, insert, ℕ_key, lookup-insert}
use atria.Compositor.Model.{Point}
use atria.Compositor.Output.{
  OutputIdentity, Output, OutputSet, Applied, Listed, no_change, list_known, list_all, is_listed,
  depart, apply, is_present, is_known,
}

-- Where a display was placed, attached or not.
abbrev pub position_of : Option Output → Option Point
position_of none = none
position_of (some o) = o.position

abbrev was_present : Option Output → Bool
was_present none = false
was_present (some o) = o.present

-- What a listed display is afterwards, by what it was.
abbrev seen : Listed → Option Output → Output
seen l o = record { info = l.info; source = l.source; present = true; position = position_of o }

list_known-outputs :
    (l : Listed) (o : Option Output) (a : Applied)
    → (list_known l o a).0 ≡ insert l.identity (seen l o) a.0
unfolding list_known
list_known-outputs l none a = refl
list_known-outputs l (some o) a = ground arith

list_known-lookup :
    (l : Listed) (a : Applied) (j : OutputIdentity)
    → lookup j (list_known l (lookup l.identity a.0) a).0
      ≡ (if l.identity == j then some (seen l (lookup l.identity a.0)) else lookup j a.0)
list_known-lookup l a j =
    rw (list_known-outputs l (lookup l.identity a.0) a)
      (lookup-insert l.identity j (seen l (lookup l.identity a.0)) a.0)

list_all-outputs :
    (ls : List Listed) (a : Applied) (j : OutputIdentity)
    → (was_present (lookup j (list_all ls a).0) ≡ is_listed j ls || was_present (lookup j a.0))
      × (is_some (lookup j (list_all ls a).0) ≡ is_listed j ls || is_some (lookup j a.0))
      × (position_of (lookup j (list_all ls a).0) ≡ position_of (lookup j a.0))
unfolding list_all is_listed
list_all-outputs [] a j = (refl, refl, refl)
list_all-outputs (l ∷ ls) a j =
    let b = list_known l (lookup l.identity a.0) a in
    ground (arith, list_all-outputs ls b j, list_known-lookup l a j, ==_iff l.identity j)

left_by : List Listed → OutputIdentity → Output → Output
left_by present j o =
    if o.present && not (is_listed j present) then record o { present = false } else o

depart-lookup :
    (present : List Listed) (m : OutputSet) (j : OutputIdentity)
    → lookup j (depart present m).0
      ≡ (elim (lookup j m) [ none ↦ none | some o ↦ some (left_by present j o) ])
unfolding depart lookup left_by
depart-lookup present [] j = refl
depart-lookup present ((i, o) ∷ m) j = ground (arith, depart-lookup present m j, ==_iff i j)

-- After a topology change exactly the listed displays are attached; a display is known if it was
-- known or is listed, so none is forgotten; and each keeps the place that it was given, whether it
-- stayed, left or came back.
pub apply-outputs :
    (present : List Listed) (outputs : OutputSet) (j : OutputIdentity)
    → let after = (apply present outputs).0 in
      (is_present j after ≡ is_listed j present)
      × (is_known j after ≡ is_listed j present || is_known j outputs)
      × (position_of (lookup j after) ≡ position_of (lookup j outputs))
unfolding apply is_present is_known left_by
apply-outputs present outputs j = ground (
  arith,
  depart-lookup present (list_all present (outputs, no_change)).0 j,
  list_all-outputs present (outputs, no_change) j,
)
