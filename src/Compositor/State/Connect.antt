-- ===== src/Compositor/State/Connect.antt =====
-- Connections and what the platform's policy grants them, of atria-compositor/src/state/mod.rs.
pub mod Granted
use atria.Base.{
  ℕ, ◌+◌, ◌-◌, Bool, false, not, Option, none, some, List, [], ◌∷◌, ◌==◌, leb, if◌then◌else◌,
  is_some, length, Result, ok, ◌>>=◌, ◌>>◌, guard, word_end,
}
use atria.Base.Map.{insert, ℕ_key}
use atria.Protocol.Capability.{
  Capability, CapabilitySet, contains, with_capability, intersection, satisfies, default_grants,
}
use atria.Compositor.Model.{ConnectionId, ObjectId, display_id, ObjectKind, SeatCapabilities}
use atria.Compositor.Error.{StateError}
use atria.Compositor.State.{CompositorState, Connection, Object}
use atria.Compositor.State.Access.{
  connection, modify_connection, expect_kind, require_capability, allocate_client,
}
use atria.Compositor.Registry

pub data NegotiationError : Type 0 where
  unsupported_capabilities : CapabilitySet → CapabilitySet → NegotiationError
  connection_limit_reached : ℕ → NegotiationError
  connection_id_exhausted : NegotiationError

-- The backend's facts, which need no grant.
abbrev pub backend_facts : List Capability
backend_facts =
    Capability.software_shm ∷ Capability.gpu_prime ∷ Capability.explicit_gpu_fence
    ∷ Capability.revocable_seat ∷ []

-- The set with those of the listed capabilities that are available.
unfoldable pub with_facts : List Capability → CapabilitySet → CapabilitySet → CapabilitySet
with_facts [] available granted = granted
with_facts (c ∷ cs) available granted =
    let next = if contains available c then with_capability granted c else granted in
    with_facts cs available next

unfoldable pub available_to : CompositorState → CapabilitySet → CapabilitySet
available_to s client =
    with_capability
      (with_capability (intersection s.server_capabilities client) Capability.surface_create)
      Capability.buffer_import

unfoldable pub new_connection : CapabilitySet → Connection
unfolding with_facts
new_connection available = record {
  pending_events = 0;
  session = none;
  available_capabilities = available;
  capabilities = with_facts backend_facts available (intersection available default_grants);
  registry = Registry.new Object.display;
}

unfoldable pub connect :
    CompositorState
    → CapabilitySet
    → CapabilitySet
    → Result NegotiationError (CompositorState × ConnectionId)
unfolding available_to new_connection
connect s client required = do
  let available = available_to s client
  guard (satisfies available required)
      (NegotiationError.unsupported_capabilities required available)
  guard (not (leb s.max_connections (length s.connections)))
      (NegotiationError.connection_limit_reached s.max_connections)
  guard (not (s.next_connection == word_end - 1)) NegotiationError.connection_id_exhausted
  ok (
    record s {
      next_connection = s.next_connection + 1;
      connections = insert s.next_connection (new_connection available) s.connections;
    },
    s.next_connection,
  )

unfoldable pub grant_capability :
    CompositorState → ConnectionId → Capability → Result StateError CompositorState
unfolding connection modify_connection
grant_capability s c capability = do
  client ← connection s c
  guard (contains client.available_capabilities capability)
      (StateError.unsupported_capability display_id capability)
  ok (
      modify_connection c
        (λ v. record v { capabilities = with_capability v.capabilities capability }) s)

unfoldable pub create_seat :
    CompositorState
    → ConnectionId
    → ObjectId
    → SeatCapabilities
    → Bool
    → Result StateError CompositorState
unfolding allocate_client
create_seat s c id seat_capabilities active =
    allocate_client s c id ObjectKind.seat
      (Object.seat (record { capabilities = seat_capabilities; active = active }))

unfoldable pub expect_seat :
    CompositorState → ConnectionId → Option ObjectId → Result StateError (Unit {0})
unfolding expect_kind
expect_seat s c none = ok tt
expect_seat s c (some id) = expect_kind s c id ObjectKind.seat

-- One session for a connection.
unfoldable pub create_session :
    CompositorState
    → ConnectionId
    → ObjectId
    → Option ObjectId
    → Bool
    → Result StateError CompositorState
unfolding expect_seat connection allocate_client modify_connection
create_session s c id seat_id active = do
  expect_seat s c seat_id
  client ← connection s c
  guard (not (is_some client.session)) (StateError.invalid_state id)
  t ←
      allocate_client s c id ObjectKind.session
        (Object.session (record { seat = seat_id; active = active }))
  ok (modify_connection c (λ v. record v { session = some id }) t)

unfoldable pub create_fence :
    CompositorState → ConnectionId → ObjectId → Result StateError CompositorState
unfolding require_capability allocate_client
create_fence s c id = do
  require_capability s c id Capability.explicit_gpu_fence
  allocate_client s c id ObjectKind.fence (Object.fence (record { signaled = false }))

unfoldable pub create_input_stream :
    CompositorState → ConnectionId → ObjectId → Result StateError CompositorState
unfolding require_capability allocate_client
create_input_stream s c id = do
  require_capability s c id Capability.extended_input
  allocate_client s c id ObjectKind.input_stream Object.input_stream
