-- ===== src/Compositor/State/Teardown/Induction.antt =====
-- Induction over `close_connection` and `push_event`: what every single step of them keeps, they
-- keep, on any fuel. The single steps are an event queued for a connection with room, the error that
-- is queued for one without, the removal of a connection, and the input method's own fields.
use atria.Base.{
  refl, if_intro, ◌==◌, ℕ, zero, suc, ◌+◌, ◌≡◌, false, Option, none, some, List, [], ◌∷◌, leb,
  length,
}
use atria.Base.Map.{lookup, ℕ_key}
use atria.Compositor.Model.{ConnectionId, ObjectId, ObjectKind, ToplevelHandle, display_id}
use atria.Compositor.Request.{EventKind}
use atria.Compositor.State.{CompositorState, Connection, TextField}
use atria.Compositor.State.Access.{modify_connection, bound_of_kind}
use atria.Compositor.State.Push.{
  queue, push_to, push_by, push_all_by, tell_shells_by, push_method_by, u32_next,
}
use atria.Compositor.State.Composition.{
  refresh_by, leave_field, enter_field, wanted_field, same_field,
}
use atria.Compositor.State.Teardown.{
  drop_composition, drop_method, tell_all_gone, detach_connection, forget_composing,
  retired_handles, close_found, close_by, close_fuel, closed, push_event, push_all, tell_shells,
  refresh_composition, close_connection,
}

-- One event more for the connection to read.
unfoldable pub send : ConnectionId → ObjectId → EventKind → CompositorState → CompositorState
unfolding queue modify_connection
send c id kind s =
    queue c id kind
      (modify_connection c (λ v. record v { pending_events = v.pending_events + 1 }) s)

pub record IsKept (P : CompositorState → Type 0) : Type 0 where
  pub sent :
      (s : CompositorState) (c : ConnectionId) (id : ObjectId) (kind : EventKind)
      (client : Connection)
      → lookup c s.connections ≡ some client
      → leb s.limits.max_pending_events client.pending_events ≡ false
      → P s
      → P (send c id kind s)
  pub overflowed :
      (s : CompositorState) (c : ConnectionId) (kind : EventKind)
      → P s
      → P (queue c display_id kind s)
  pub detached : (s : CompositorState) (c : ConnectionId) → P s → P (detach_connection c s)
  pub composed :
      (s : CompositorState) (method : Option (ConnectionId × ObjectId))
      (composing : Option TextField) (n : ℕ)
      → P s
      → P (record s { method = method; composing = composing; composition = n })

module _ (P : CompositorState → Type 0) (kept : IsKept P) where
  module _ (close : CompositorState → ConnectionId → CompositorState)
      (closes : (s : CompositorState) (c : ConnectionId) → P s → P (close s c)) where
    pub push_to-kept :
        (s : CompositorState) (c : ConnectionId) (id : ObjectId) (kind : EventKind)
        (found : Option Connection)
        → lookup c s.connections ≡ found
        → P s
        → P (push_to close s c id kind found)
    unfolding push_to send
    push_to-kept s c id kind none e p = p
    push_to-kept s c id kind (some client) e p =
        if_intro P (leb s.limits.max_pending_events client.pending_events)
          (λ full. closes _ c (kept.overflowed s c _ p))
          (λ room. kept.sent s c id kind client e room p)

    pub push_by-kept :
        (s : CompositorState) (c : ConnectionId) (id : ObjectId) (kind : EventKind)
        → P s
        → P (push_by close s c id kind)
    unfolding push_by
    push_by-kept s c id kind p = push_to-kept s c id kind (lookup c s.connections) refl p

    pub push_all_by-kept :
        (s : CompositorState) (to : List (ConnectionId × ObjectId)) (kind : EventKind)
        → P s
        → P (push_all_by close s to kind)
    unfolding push_all_by
    push_all_by-kept s [] kind p = p
    push_all_by-kept s ((c, id) ∷ rest) kind p =
        push_all_by-kept (push_by close s c id kind) rest kind (push_by-kept s c id kind p)

    pub tell_shells_by-kept :
        (s : CompositorState) (kind : EventKind) → P s → P (tell_shells_by close s kind)
    unfolding tell_shells_by
    tell_shells_by-kept s kind p =
        push_all_by-kept s (bound_of_kind ObjectKind.shell_control s.connections) kind p

    pub push_method_by-kept :
        (s : CompositorState) (method : Option (ConnectionId × ObjectId)) (kind : EventKind)
        → P s
        → P (push_method_by close s method kind)
    unfolding push_method_by
    push_method_by-kept s none kind p = p
    push_method_by-kept s (some (c, id)) kind p = push_by-kept s c id kind p

    pub leave_field-kept :
        (s : CompositorState) (was : Option TextField) → P s → P (leave_field close s was)
    unfolding leave_field
    leave_field-kept s none p = p
    leave_field-kept s (some was) p =
        let a =
          push_by-kept _ was.connection was.object _
            (kept.composed s s.method none s.composition p) in
        push_method_by-kept _ _ _ (push_by-kept _ was.connection was.object _ a)

    pub enter_field-kept :
        (s : CompositorState) (wanted : Option TextField)
        (method : Option (ConnectionId × ObjectId))
        → P s
        → P (enter_field close s wanted method)
    unfolding enter_field
    enter_field-kept s none method p = p
    enter_field-kept s (some now) none p = p
    enter_field-kept s (some now) (some (c, id)) p =
        let a = kept.composed s s.method (some now) (u32_next s.composition) p in
        push_by-kept _ c id _ (push_by-kept _ now.connection now.object _ a)

    pub refresh_by-kept : (s : CompositorState) → P s → P (refresh_by close s)
    unfolding refresh_by
    refresh_by-kept s p =
        if_intro P (same_field s.composing (wanted_field s)) (λ same. p)
          (λ other. enter_field-kept _ _ _ (leave_field-kept s s.composing p))

    pub tell_all_gone-kept :
        (hs : List ToplevelHandle) (s : CompositorState) → P s → P (tell_all_gone close s hs)
    unfolding tell_all_gone
    tell_all_gone-kept [] s p = p
    tell_all_gone-kept (h ∷ hs) s p = tell_all_gone-kept hs _ (tell_shells_by-kept s _ p)

    drop_composition-kept :
        (s : CompositorState) (field : Option TextField) → P s → P (drop_composition close s field)
    unfolding drop_composition
    drop_composition-kept s none p = kept.composed s none s.composing s.composition p
    drop_composition-kept s (some f) p =
        let a = kept.composed s none none (u32_next s.composition) p in
        push_by-kept _ f.connection f.object _ (push_by-kept _ f.connection f.object _ a)

    pub drop_method-kept :
        (s : CompositorState) (c : ConnectionId) (method : Option (ConnectionId × ObjectId))
        → P s
        → P (drop_method close s c method)
    unfolding drop_method
    drop_method-kept s c none p = p
    drop_method-kept s c (some (owner, id)) p =
        if_intro P (owner == c) (λ own. drop_composition-kept s s.composing p) (λ other. p)

    -- After the connection is detached, the rest of `close_connection` keeps what its steps keep.
    pub close_found-kept :
        (s : CompositorState) (c : ConnectionId) (client : Connection)
        → P (detach_connection c s)
        → P (close_found close s c (some client)).0
    unfolding close_found forget_composing
    close_found-kept s c client p =
        let silent = drop_method-kept _ c _ p in
        tell_all_gone-kept (retired_handles c s.toplevels) _
          (refresh_by-kept _ (kept.composed _ _ _ _ silent))

    pub close_by-kept : (s : CompositorState) (c : ConnectionId) → P s → P (close_by close s c).0
    unfolding close_by close_found
    close_by-kept s c p =
        elim (lookup c s.connections) as (λ found. P (close_found close s c found).0) [
          | none ↦ p
          | some client ↦ close_found-kept s c client (kept.detached s c p)
        ]

  pub close_fuel-kept :
      (fuel : ℕ) (s : CompositorState) (c : ConnectionId) → P s → P (close_fuel fuel s c).0
  unfolding close_fuel
  close_fuel-kept zero s c p = p
  close_fuel-kept (suc fuel) s c p =
      close_by-kept (λ t d. (close_fuel fuel t d).0) (λ t d. close_fuel-kept fuel t d) s c p

  pub closed-kept : (s : CompositorState) (c : ConnectionId) → P s → P (close_connection s c).0
  unfolding close_connection
  closed-kept s c p = close_fuel-kept (length s.connections) s c p

  pub push_event-kept :
      (s : CompositorState) (c : ConnectionId) (id : ObjectId) (kind : EventKind)
      → P s
      → P (push_event s c id kind)
  unfolding push_event
  push_event-kept s c id kind p = push_by-kept closed closed-kept s c id kind p

  pub push_all-kept :
      (s : CompositorState) (to : List (ConnectionId × ObjectId)) (kind : EventKind)
      → P s
      → P (push_all s to kind)
  unfolding push_all
  push_all-kept s to kind p = push_all_by-kept closed closed-kept s to kind p

  pub tell_shells-kept : (s : CompositorState) (kind : EventKind) → P s → P (tell_shells s kind)
  unfolding tell_shells
  tell_shells-kept s kind p = tell_shells_by-kept closed closed-kept s kind p

  pub refresh_composition-kept : (s : CompositorState) → P s → P (refresh_composition s)
  unfolding refresh_composition
  refresh_composition-kept s p = refresh_by-kept closed closed-kept s p
