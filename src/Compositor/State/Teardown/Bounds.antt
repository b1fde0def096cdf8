-- ===== src/Compositor/State/Teardown/Bounds.antt =====
-- The queue of a connection is bounded, whoever sends to it and whatever closes meanwhile.
use atria.Base.{◌+◌, ◌≤◌, ◌≡◌, some, arith, ==_iff}
use atria.Base.Map.{lookup, ℕ_key, lookup-update, lookup-remove}
use atria.Compositor.Model.{ConnectionId, ObjectId}
use atria.Compositor.Request.{EventKind}
use atria.Compositor.State.{CompositorState, Connection}
use atria.Compositor.State.Push.{queue}
use atria.Compositor.State.Teardown.{
  detach_connection, close_connection, push_event, tell_shells, refresh_composition,
}
use atria.Compositor.State.Teardown.Induction.{
  send, IsKept, closed-kept, push_event-kept, tell_shells-kept, refresh_composition-kept,
}

-- No connection has more events to read than it may.
unfoldable pub IsBounded : CompositorState → Type 0
IsBounded s =
    (d : ConnectionId) (client : Connection)
    → lookup d s.connections ≡ some client
    → client.pending_events ≤ s.limits.max_pending_events

IsBounded-kept : IsKept IsBounded
unfolding IsBounded send queue detach_connection
IsBounded-kept = record {
  sent = λ s c id kind client e room p d v h. ground (
    arith,
    lookup-update c d (λ v. record v { pending_events = v.pending_events + 1 }) s.connections,
    ==_iff c d,
    p d v,
  );
  overflowed = λ s c kind p. p;
  detached = λ s c p d v h. ground (arith, lookup-remove c d s.connections, p d v);
  composed = λ s method composing n p. p;
}

-- In a state where no connection has more events to read than `max_pending_events`, an event for
-- any connection, one for every shell, the choice of the field to compose into, and the end of any
-- connection all leave no connection with more than that.
pub IsBounded-push_event :
    (s : CompositorState) (c : ConnectionId) (id : ObjectId) (kind : EventKind)
    → IsBounded s
    → IsBounded (push_event s c id kind)
      × IsBounded (tell_shells s kind)
      × IsBounded (refresh_composition s)
      × IsBounded (close_connection s c).0
IsBounded-push_event s c id kind p = (
  push_event-kept IsBounded IsBounded-kept s c id kind p,
  tell_shells-kept IsBounded IsBounded-kept s kind p,
  refresh_composition-kept IsBounded IsBounded-kept s p,
  closed-kept IsBounded IsBounded-kept s c p,
)
