-- ===== src/Compositor/State/Composition.antt =====
-- `refresh_composition` of atria-compositor/src/state/text.rs, over a given `close_connection`: which
-- field the input method composes into.
use atria.Base.{Bool, true, false, ◌&&◌, Option, none, some, List, [], ◌∷◌, ◌==◌, if◌then◌else◌}
use atria.Base.Int.{ℤ, negsuc}
use atria.Base.Map.{values, ℕ_key, pair_key}
use atria.Compositor.Model.{ConnectionId, ObjectId, null_id, admits_composition}
use atria.Compositor.Request.{EventKind}
use atria.Compositor.State.{CompositorState, TextField}
use atria.Compositor.State.Push.{push_by, push_method_by, u32_next}

find_field : ConnectionId → List TextField → Option TextField
find_field c [] = none
find_field c (f ∷ fs) = if f.connection == c then some f else find_field c fs

admitted : Option TextField → Option TextField
admitted none = none
admitted (some f) = if admits_composition f.purpose then some f else none

-- The field that the input method should compose into.
unfoldable pub wanted_field : CompositorState → Option TextField
unfolding find_field admitted
wanted_field s = elim s.keyboard_focus [
  | none ↦ none
  | some key ↦ admitted (find_field key.0 (values s.fields))
]

unfoldable pub same_field : Option TextField → Option TextField → Bool
same_field none none = true
same_field none (some now) = false
same_field (some was) none = false
same_field (some was) (some now) = was.connection == now.connection && was.object == now.object

unfoldable pub focused_object : CompositorState → ObjectId
focused_object s = elim s.keyboard_focus [ none ↦ null_id | some key ↦ key.1 ]

abbrev pub minus_one : ℤ
minus_one = negsuc 0

module _ (close : CompositorState → ConnectionId → CompositorState) where
  -- The field that is let go of: its preedit is cleared first.
  unfoldable pub leave_field : CompositorState → Option TextField → CompositorState
  unfolding focused_object push_method_by
  leave_field s none = s
  leave_field s (some was) =
      let surface = focused_object s in
      let a =
        push_by close (record s { composing = none }) was.connection was.object
          (EventKind.text_preedit s.composition [] minus_one minus_one) in
      let b = push_by close a was.connection was.object (EventKind.text_leave surface) in
      push_method_by close b b.method EventKind.method_deactivated

  unfoldable pub enter_field :
      CompositorState → Option TextField → Option (ConnectionId × ObjectId) → CompositorState
  unfolding focused_object
  enter_field s none method = s
  enter_field s (some now) none = s
  enter_field s (some now) (some (c, id)) =
      let surface = focused_object s in
      let a =
        push_by close (record s { composition = u32_next s.composition; composing = some now })
          now.connection now.object (EventKind.text_enter surface) in
      push_by close a c id (EventKind.method_activated surface now.purpose a.composition)

  -- `refresh_composition`.
  unfoldable pub refresh_by : CompositorState → CompositorState
  unfolding wanted_field same_field leave_field enter_field
  refresh_by s =
      let wanted = wanted_field s in
      if same_field s.composing wanted
      then s
      else (let left = leave_field s s.composing in enter_field left wanted left.method)
