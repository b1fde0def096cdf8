-- ===== src/Compositor/State/Push.antt =====
-- `push_event` and `tell_shells` of atria-compositor/src/state/mod.rs, over a given
-- `close_connection`: an event for a connection whose queue is full closes that connection.
use atria.Base.{ℕ, ◌+◌, ◌%◌, ◌^◌, Option, none, some, List, [], ◌∷◌, ◌++◌, leb, if◌then◌else◌}
use atria.Base.Map.{lookup, ℕ_key, pair_key}
use atria.Compositor.Model.{ConnectionId, ObjectId, display_id, ObjectKind}
use atria.Compositor.Error.{StateError}
use atria.Compositor.Request.{EventKind}
use atria.Compositor.State.{CompositorState, Connection}
use atria.Compositor.State.Access.{modify_connection, bound_of_kind}

-- The event behind those that wait.
unfoldable pub queue : ConnectionId → ObjectId → EventKind → CompositorState → CompositorState
queue c id kind s = record s {
  events = s.events ++ record { connection = c; object_id = id; kind = kind } ∷ [];
}

abbrev pub u32_next : ℕ → ℕ
u32_next n = (n + 1) % 2 ^ 32

module _ (close : CompositorState → ConnectionId → CompositorState) where
  unfoldable pub push_to :
      CompositorState → ConnectionId → ObjectId → EventKind → Option Connection → CompositorState
  unfolding queue modify_connection
  push_to s c id kind none = s
  push_to s c id kind (some client) =
      if leb s.limits.max_pending_events client.pending_events
      then close
          (queue c display_id
            (EventKind.error (StateError.event_queue_overflow client.pending_events)) s)
          c
      else queue c id kind
          (modify_connection c (λ v. record v { pending_events = v.pending_events + 1 }) s)

  -- `push_event`.
  unfoldable pub push_by : CompositorState → ConnectionId → ObjectId → EventKind → CompositorState
  unfolding push_to
  push_by s c id kind = push_to s c id kind (lookup c s.connections)

  -- The same event to each of these objects, in turn.
  unfoldable pub push_all_by :
      CompositorState → List (ConnectionId × ObjectId) → EventKind → CompositorState
  unfolding push_by
  push_all_by s [] kind = s
  push_all_by s ((c, id) ∷ rest) kind = push_all_by (push_by s c id kind) rest kind

  -- `tell_shells`.
  unfoldable pub tell_shells_by : CompositorState → EventKind → CompositorState
  unfolding push_all_by bound_of_kind
  tell_shells_by s kind = push_all_by s (bound_of_kind ObjectKind.shell_control s.connections) kind

  unfoldable pub push_method_by :
      CompositorState → Option (ConnectionId × ObjectId) → EventKind → CompositorState
  unfolding push_by
  push_method_by s none kind = s
  push_method_by s (some (c, id)) kind = push_by s c id kind
