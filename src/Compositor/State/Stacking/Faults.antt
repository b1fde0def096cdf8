-- ===== src/Compositor/State/Stacking/Faults.antt =====
-- `scene_faults` finds nothing, and what places and raises surfaces keeps it so.
use atria.Base.{
  ◌↔◌, ◌≡◌, refl, ◌∙◌, sym, subst, true, not, List, [], ◌∷◌, ◌++◌, arith, is_some, ok, Result-cases,
  Bool-cases, inl, inr,
}
use atria.Base.Map.{
  Map, lookup, insert, contains_key, keys, ℕ_key, pair_key, pair_eqb_iff, lookup-insert,
}
use atria.Compositor.Model.{ConnectionId, ObjectId, SurfaceKey, Point}
use atria.Compositor.Request.{EventKind}
use atria.Compositor.State.{CompositorState}
use atria.Compositor.State.Access.{key_eqb, surface, surface_snapshot}
use atria.Compositor.State.Teardown.{push_event, close_connection}
use atria.Compositor.State.Teardown.Induction.{push_event-kept, closed-kept}
use atria.Compositor.State.Surface.{stacked, unstack}
use atria.Compositor.State.Stacking.{
  place_surface, raise_surface, scene_faults, stack_faults, position_faults, entry_fault,
  connection_fault, kind_fault,
}
use atria.Compositor.Registry.{kind_of}
use atria.Compositor.State.Stacking.Effects.{
  entry_of, registry_entry, content_of, surface-surface_of, is_shown, is_shown_lem,
}
use atria.Compositor.State.Stacking.Sound.{
  IsComposed, IsComposed-kept, key_eqb_iff, stacked-keep, stacked-append,
}

-- What a scene without faults is: what is stacked is a surface with content and has a position, and
-- every position belongs to a connection.
pub record IsFaultless (s : CompositorState) : Type 0 where
  pub shown :
      (key : SurfaceKey)
      → stacked key s.scene.stack ≡ true
      → content_of (entry_of s key.0 key.1) ≡ true
  pub placed :
      (key : SurfaceKey)
      → stacked key s.scene.stack ≡ true
      → contains_key key s.scene.positions ≡ true
  pub connected :
      (key : SurfaceKey)
      → contains_key key s.scene.positions ≡ true
      → contains_key key.0 s.connections ≡ true

-- An entry of the stack has no fault.
abbrev Stands : CompositorState → SurfaceKey → Type 0
Stands s key =
    (content_of (entry_of s key.0 key.1) ≡ true) × (contains_key key s.scene.positions ≡ true)

entry_fault_iff :
    (s : CompositorState) (key : SurfaceKey) → (entry_fault s key ≡ ok tt) ↔ Stands s key
unfolding entry_fault connection_fault kind_fault kind_of entry_of registry_entry content_of
    is_shown
entry_fault_iff s key = ground (arith, is_shown_lem s key)

stack_faults_iff :
    (s : CompositorState) (xs : List SurfaceKey)
    → (stack_faults s xs ≡ ok tt) ↔ ((key : SurfaceKey) → stacked key xs ≡ true → Stands s key)
unfolding stack_faults
stack_faults_iff s [] = ((λ h key k. ground (arith, k)), (λ h. refl))
stack_faults_iff s (x ∷ rest) =
    let others = stack_faults_iff s rest in
    let (sound, complete) = entry_fault_iff s x in
    (
      λ h key k. elim (Bool-cases (key_eqb x key)) [
        | inl e ↦
            let same : x ≡ key = ground (arith, e, key_eqb_iff x key) in
            subst (Stands s) same (sound (ground (arith, h)))
        | inr e ↦ others.0 (ground (arith, h)) key (ground (arith, k, e))
      ],
      λ h.
          let first = complete (h x (ground (arith, key_eqb_iff x x))) in
          let later = others.1 (λ key k. h key (ground (arith, k))) in ground (arith, first, later),
    )

stacked-keys :
    (key : SurfaceKey) (m : Map SurfaceKey Point) → stacked key (keys m) ≡ contains_key key m
unfolding lookup key_eqb
stacked-keys key [] = refl
stacked-keys key ((k, v) ∷ m) = ground (arith, stacked-keys key m)

position_faults_iff :
    (s : CompositorState) (xs : List SurfaceKey)
    → (position_faults s xs ≡ ok tt)
      ↔ ((key : SurfaceKey) → stacked key xs ≡ true → contains_key key.0 s.connections ≡ true)
unfolding position_faults
position_faults_iff s [] = ((λ h key k. ground (arith, k)), (λ h. refl))
position_faults_iff s (x ∷ rest) =
    let others = position_faults_iff s rest in
    (
      λ h key k. elim (Bool-cases (key_eqb x key)) [
        | inl e ↦
            let same : x ≡ key = ground (arith, e, key_eqb_iff x key) in
            subst (λ j. contains_key j.0 s.connections ≡ true) same (ground (arith, h))
        | inr e ↦ others.0 (ground (arith, h)) key (ground (arith, k, e))
      ],
      λ h.
          let first = h x (ground (arith, key_eqb_iff x x)) in
          let later = others.1 (λ key k. h key (ground (arith, k))) in ground (arith, first, later),
    )

both-ok :
    (s : CompositorState)
    → (scene_faults s ≡ ok tt) ↔ (
        (stack_faults s s.scene.stack ≡ ok tt)
        × (position_faults s (keys s.scene.positions) ≡ ok tt))
unfolding scene_faults
both-ok s = ground arith

-- `scene_faults` finds no fault exactly where everything that is stacked is a surface of a connection,
-- with content and a position, and every position, also of what is not stacked, is on a connection.
pub scene_faults_iff : (s : CompositorState) → (scene_faults s ≡ ok tt) ↔ IsFaultless s
scene_faults_iff s =
    let both = both-ok s in
    let stack = stack_faults_iff s s.scene.stack in
    let positions = position_faults_iff s (keys s.scene.positions) in
    (
      λ h.
          let (a, b) = both.0 h in
          record {
            shown = λ key k. (stack.0 a key k).0;
            placed = λ key k. (stack.0 a key k).1;
            connected = λ key k. positions.0 b key (stacked-keys key s.scene.positions ∙ k);
          },
      λ p. both.1 (
        stack.1 (λ key k. (p.shown key k, p.placed key k)),
        positions.1 (λ key k. p.connected key (sym (stacked-keys key s.scene.positions) ∙ k)),
      ),
    )

-- So it finds none where just the surfaces with content are stacked, each with a position on a
-- connection.
pub scene_faults-IsComposed : (s : CompositorState) → IsComposed s → scene_faults s ≡ ok tt
unfolding entry_of registry_entry
scene_faults-IsComposed s p = (scene_faults_iff s).1 (record {
  shown = λ key k. p.shown key.0 key.1 ∙ k;
  placed = p.placed;
  connected = p.connected;
})

-- A position for a surface of a connection that is there.
moved-IsComposed :
    (s : CompositorState) (key : SurfaceKey) (position : Point)
    → contains_key key.0 s.connections ≡ true
    → IsComposed s
    → IsComposed
        (record s { scene = record s.scene { positions = insert key position s.scene.positions } })
moved-IsComposed s key position here p = record {
  shown = p.shown;
  placed = λ k h. ground (arith, p.placed k h, lookup-insert key k position s.scene.positions);
  connected = λ k h. ground (
    arith,
    p.connected k,
    here,
    lookup-insert key k position s.scene.positions,
    pair_eqb_iff ℕ_key ℕ_key key k,
  );
}

-- Content and the stack agree, so placing never stacks.
shown-stacked :
    (s : CompositorState) (key : SurfaceKey)
    → IsComposed s
    → is_some (surface_snapshot s key.0 key.1) ≡ stacked key s.scene.stack
unfolding is_shown entry_of
shown-stacked s (c, id) p = is_shown_lem s (c, id) ∙ p.shown c id

pub place-IsComposed :
    (s t : CompositorState) (key : SurfaceKey) (position : Point)
    → place_surface s key position ≡ ok t
    → IsComposed s
    → IsComposed t
unfolding place_surface
place-IsComposed s t (c, id) position h p = elim (Result-cases (surface s c id)) [
  | inl (v, e) ↦
      let (there, here) = surface-surface_of s c id v e in
      let placed : record s {
        scene = record s.scene { positions = insert (c, id) position s.scene.positions };
      }
          ≡ t =
        ground (arith, h, e, shown-stacked s (c, id) p) in
      subst (λ u. IsComposed u) placed (moved-IsComposed s (c, id) position here p)
  | inr (x, e) ↦ ground (arith, h, e)
]

stacked-raise :
    (key k : SurfaceKey) (stack : List SurfaceKey)
    → stacked key stack ≡ true
    → stacked k (unstack key stack ++ key ∷ []) ≡ stacked k stack
stacked-raise key k stack stands = ground (
  arith,
  stacked-append k (unstack key stack) (key ∷ []),
  stacked-keep (λ j. not (key_eqb j key)) k stack,
  key_eqb_iff k key,
  key_eqb_iff key k,
  stands,
)

raised-IsComposed :
    (s : CompositorState) (key : SurfaceKey)
    → stacked key s.scene.stack ≡ true
    → IsComposed s
    → IsComposed
        (record s { scene = record s.scene { stack = unstack key s.scene.stack ++ key ∷ [] } })
raised-IsComposed s key stands p = record {
  shown = λ d j. p.shown d j ∙ sym (stacked-raise key (d, j) s.scene.stack stands);
  placed = λ k h. p.placed k (sym (stacked-raise key k s.scene.stack stands) ∙ h);
  connected = p.connected;
}

pub raise-IsComposed :
    (s t : CompositorState) (key : SurfaceKey)
    → raise_surface s key ≡ ok t
    → IsComposed s
    → IsComposed t
unfolding raise_surface
raise-IsComposed s t (c, id) h p = elim (Bool-cases (stacked (c, id) s.scene.stack)) [
  | inl stands ↦
      let raised : record s {
        scene = record s.scene { stack = unstack (c, id) s.scene.stack ++ (c, id) ∷ [] };
      }
          ≡ t =
        ground (arith, h, shown-stacked s (c, id) p, stands) in
      subst (λ u. IsComposed u) raised (raised-IsComposed s (c, id) stands p)
  | inr absent ↦
      let kept : s ≡ t = ground (arith, h, shown-stacked s (c, id) p, absent) in
      subst (λ u. IsComposed u) kept p
]

-- Placing a surface and raising one, where they succeed, an event to any connection and the end of
-- any connection leave a scene in which just the surfaces with content are stacked, each with a
-- position on a connection, if it was so before.
pub place-raise-IsComposed :
    (s placed raised : CompositorState) (key : SurfaceKey) (position : Point) (d : ConnectionId)
    (id : ObjectId) (kind : EventKind)
    → IsComposed s
    → place_surface s key position ≡ ok placed
    → raise_surface s key ≡ ok raised
    → IsComposed placed
      × IsComposed raised
      × IsComposed (push_event s d id kind)
      × IsComposed (close_connection s d).0
place-raise-IsComposed s placed raised key position d id kind p hp hr = (
  place-IsComposed s placed key position hp p,
  raise-IsComposed s raised key hr p,
  push_event-kept (λ u. IsComposed u) IsComposed-kept s d id kind p,
  closed-kept (λ u. IsComposed u) IsComposed-kept s d p,
)
