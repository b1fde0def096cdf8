-- ===== src/Compositor/State/Follows/Globals.antt =====
-- That binding a global is steps of `Follows`.
use atria.Base.{ℕ, refl, none, some, List, [], ◌∷◌, is_some, map, ok, err, if_intro}
use atria.Base.Map.{lookup, ℕ_key, pair_key}
use atria.Compositor.Request.{EventKind}
use atria.Compositor.Model.{ConnectionId, ObjectId, chord_key, ObjectKind}
use atria.Compositor.State.{CompositorState, Object, Global}
use atria.Compositor.State.Access.{allocate_client}
use atria.Compositor.State.Follows.{Follows}
use atria.Compositor.State.Follows.Steps.{
  after-Follows, after_state-Follows, moved, push_event-Follows, refresh_composition-Follows,
  modify_object-Follows, allocate_client-Holds,
}
use atria.Compositor.State.Outcome.{Outcome}
use atria.Compositor.State.Globals.{
  announce_globals, push_each, describe_output, display_of, description,
}
use atria.Compositor.State.Bind.{
  ToplevelRecord, shell_toplevels, snapshot_for_shell, bindable, take_method, describe_bound,
  bind_taken, bind_global,
}

module _ (start : CompositorState) where
  pub announce_globals-Follows :
      (c : ConnectionId) (registry : ObjectId) (gs : List (ℕ × Global)) (s : CompositorState)
      → Follows start s
      → Follows start (announce_globals c registry gs s)
  unfolding announce_globals
  announce_globals-Follows c registry [] s p = p
  announce_globals-Follows c registry ((name, g) ∷ rest) s p =
      announce_globals-Follows c registry rest _ (push_event-Follows start s c registry _ p)

  pub push_each-Follows :
      (c : ConnectionId) (id : ObjectId) (ks : List EventKind) (s : CompositorState)
      → Follows start s
      → Follows start (push_each c id ks s)
  unfolding push_each
  push_each-Follows c id [] s p = p
  push_each-Follows c id (k ∷ ks) s p =
      push_each-Follows c id ks _ (push_event-Follows start s c id k p)

  pub describe_output-Follows :
      (name : ℕ) (c : ConnectionId) (id : ObjectId) (s : CompositorState)
      → Follows start s
      → Follows start (describe_output name c id s)
  unfolding describe_output
  describe_output-Follows name c id s p =
      elim (display_of (lookup name s.globals))
        as (λ found. Follows start (elim found [
          | none ↦ s
          | some identity ↦ push_each c id (description s.outputs identity) s
        ])) [
          | none ↦ p
          | some identity ↦ push_each-Follows c id (description s.outputs identity) s p
        ]

  snapshot_for_shell-Follows :
      (s : CompositorState) (c : ConnectionId) (control : ObjectId)
      → Follows start s
      → Follows start (snapshot_for_shell s c control)
  unfolding snapshot_for_shell
  snapshot_for_shell-Follows s c control p =
      push_event-Follows start _ c control EventKind.shell_snapshot_done (
        push_event-Follows start _ c control _ (
          push_each-Follows c control
            (map (λ (r : ToplevelRecord). EventKind.shell_toplevel r.handle r.title)
              (shell_toplevels s))
            s p))

  take_method-Follows :
      (s : CompositorState) (c : ConnectionId) (id : ObjectId) (k : ObjectKind)
      → Follows start s
      → Follows start (take_method s c id k).0
  unfolding take_method
  take_method-Follows s c id ObjectKind.input_method p =
      if_intro (λ (r : Outcome (Unit {0})). Follows start r.0) (is_some s.method) (λ e. p)
        (λ e.
          refresh_composition-Follows start (record s { method = some (c, id) })
            (moved start p (refl, refl, refl, refl)))
  take_method-Follows s c id _ p = p

  describe_bound-Follows :
      (s : CompositorState) (c : ConnectionId) (id : ObjectId) (name : ℕ) (k : ObjectKind)
      → Follows start s
      → Follows start (describe_bound s c id name k)
  unfolding describe_bound
  describe_bound-Follows s c id name ObjectKind.output p = describe_output-Follows name c id s p
  describe_bound-Follows s c id name ObjectKind.shell_control p =
      snapshot_for_shell-Follows s c id p
  describe_bound-Follows s c id name ObjectKind.seat p = modify_object-Follows start s c id _ p
  describe_bound-Follows s c id name _ p = p

  bind_taken-Follows :
      (c : ConnectionId) (id : ObjectId) (name : ℕ) (k : ObjectKind) (r : Outcome (Unit {0}))
      → Follows start r.0
      → Follows start (bind_taken c id name k r).0
  unfolding bind_taken
  bind_taken-Follows c id name k (s, err e) p = p
  bind_taken-Follows c id name k (s, ok x) p =
      after_state-Follows start s (allocate_client s c id k Object.global) _ p
        (allocate_client-Holds start s c id k _ p) λ t q. describe_bound-Follows t c id name k q

  pub bind_global-Follows :
      (s : CompositorState) (c : ConnectionId) (name version : ℕ) (id : ObjectId)
      → Follows start s
      → Follows start (bind_global s c name version id).0
  unfolding bind_global
  bind_global-Follows s c name version id p =
      after-Follows start s (bindable s c name version id) _ p
        λ (g : Global). bind_taken-Follows c id name g.kind _ (take_method-Follows s c id g.kind p)
