-- ===== src/Compositor/Tests.antt =====
-- The theorems on the compositor at concrete states.
mod Scene
mod Requests
use atria.Base.{
  ◌&&◌, ◌≤◌, Option, ℕ, ◌≡◌, ◌↔◌, refl, List, [], ◌∷◌, none, some, Bool, true, false, ◌||◌, ok, err,
  arith, ◌==◌, if◌then◌else◌, is_ok, All,
}
use atria.Base.{length}
use atria.Base.Int.{i64_wrap, pos, negsuc, ◌+ℤ◌, ◌-ℤ◌, ◌*ℤ◌}
use atria.Base.Map.{lookup, insert, contains_key, ℕ_key, any_entry}
use atria.Compositor.Model.{ObjectKind, Rect, Point, origin, IdentitySource}
use atria.Compositor.Error.{StateError}
use atria.Compositor.Request.{EventKind}
use atria.Compositor.Registry.{
  ObjectRegistry, RegistryEntry, allocate_client, retire, remove_object, kind_of,
}
use atria.Compositor.Registry
use atria.Compositor.Registry.Lifetime.{
  Step, Reach, IsTracked, Reach-new-IsTracked, identifier_lifetime, kind_of-allocate_client,
}
use atria.Compositor.Output.{
  OutputInfo, OutputSet, Listed, apply, is_present, is_known, is_listed, nearest_reachable,
  is_reachable, screens, output_area, overlaps, nearest_of, nearest, clamped, clamp_into, distance,
}
use atria.Compositor.Output.Topology.{position_of, apply-outputs}
use atria.Compositor.Output.Reachable.{
  IsOnGrid, moved, nearest_reachable-reachable, nearest_reachable-none_iff, IsAway,
}
use atria.Compositor.State.{CompositorState, Connection, Object, default_limits}
use atria.Compositor.State
use atria.Base.Map.{pair_key}
use atria.Compositor.Model.{BufferDescriptor, BufferTransport, BufferState, Damage, Size}
use atria.Compositor.State.{
  CurrentSurface, PendingAttachment, nothing_pending, SurfaceState, BufferObject,
}
use atria.Compositor.State.Access.{
  kind_eqb, key_eqb, surface, surface_snapshot, object, object_entry, connection, as_surface,
}
use atria.Compositor.Registry.{entry}
use atria.Compositor.State.Surface.{commit}
use atria.Compositor.State.Stacking.{place_surface, raise_surface, scene_faults}
use atria.Compositor.State.Stacking.Effects.{content_of, registry_entry, has_content}
use atria.Compositor.State.Stacking.Sound.{Agree, IsComposed}
use atria.Compositor.State.Stacking.Commit.{commit-IsComposed}
use atria.Compositor.State.Stacking.Faults.{place-raise-IsComposed}
use atria.Compositor.State.Teardown.{
  close_fuel, close_connection, push_event, tell_shells, refresh_composition,
}
use atria.Compositor.State.Teardown.Bounds.{IsBounded, IsBounded-push_event}
use atria.Compositor.State.Teardown.Gone.{IsForgotten, close_connection-IsForgotten}
use atria.Compositor.State.Teardown.Fuel.{close_connection-enough}
use atria.Protocol.Capability.{
  Capability, contains, satisfies, default_grants, with_capability, intersection,
}
use atria.Compositor.Model.{ConnectionId}
use atria.Compositor.State.Connect.{connect, available_to, new_connection, backend_facts}
use atria.Compositor.State.Connect.Granted.{IsNumbered, is_any_of, connect-granted}

-- A registry of numbers with a surface under 7.
abbrev start : ObjectRegistry ℕ
start = Registry.new 0

abbrev with_surface : ObjectRegistry ℕ
with_surface = record {
  live =
      (1, record { kind = ObjectKind.display; value = 0 })
      ∷ (7, record { kind = ObjectKind.surface; value = 40 })
      ∷ [];
  used = (1, tt) ∷ (7, tt) ∷ [];
  creation_order = 1 ∷ 7 ∷ [];
}

allocated : allocate_client 7 ObjectKind.surface 40 start ≡ ok with_surface
unfolding allocate_client Registry.new insert lookup
allocated = refl

reached : Reach (Registry.new 0) with_surface
reached = Reach.next Reach.here (Step.allocates 7 ObjectKind.surface 40 allocated)

Reach-new-IsTracked_example : IsTracked with_surface
Reach-new-IsTracked_example = Reach-new-IsTracked 0 with_surface reached

with_surface-IsTracked : IsTracked with_surface
with_surface-IsTracked = Reach-new-IsTracked 0 with_surface reached

lives : contains_key 7 with_surface.live ≡ true
unfolding lookup
lives = refl

identifier_lifetime_example :
    let gone = (remove_object 7 with_surface).0 in
    (allocate_client 7 ObjectKind.buffer 41 with_surface
      ≡ err (StateError.object_id_already_used 7))
    × ((retire 7 with_surface).1 ≡ false)
    × (allocate_client 7 ObjectKind.buffer 41 gone ≡ err (StateError.object_id_already_used 7))
    × ((retire 7 gone).1 ≡ true)
    × (is_ok (allocate_client 7 ObjectKind.buffer 41 (retire 7 gone).0) ≡ true)
identifier_lifetime_example =
    identifier_lifetime with_surface 7 ObjectKind.buffer 41 with_surface-IsTracked lives refl

kind_of-allocate_client_example :
    kind_of 7 with_surface ≡ (if 7 == 7 then some ObjectKind.surface else kind_of 7 start)
kind_of-allocate_client_example =
    kind_of-allocate_client start with_surface 7 ObjectKind.surface 40 7 allocated

-- A display of 100 by 80 at the origin, known and gone, that a backend lists again.
abbrev info : OutputInfo
info = record {
  size = record { width = 100; height = 80 };
  physical_millimetres = record { width = 300; height = 240 };
  scale_numerator = 1;
  scale_denominator = 1;
  refresh_millihertz = 60000;
}

abbrev display_at : Bool → OutputSet
display_at present =
    (
      3,
      record {
        info = info;
        source = IdentitySource.panel;
        present = present;
        position = some origin;
      },
    )
    ∷ []

abbrev listed_3 : List Listed
listed_3 = record { identity = 3; source = IdentitySource.panel; info = info } ∷ []

apply-outputs_example :
    let after = (apply listed_3 (display_at false)).0 in
    (is_present 3 after ≡ is_listed 3 listed_3)
    × (is_known 3 after ≡ is_listed 3 listed_3 || is_known 3 (display_at false))
    × (position_of (lookup 3 after) ≡ position_of (lookup 3 (display_at false)))
apply-outputs_example = apply-outputs listed_3 (display_at false) 3

-- A window that lies off the display.
abbrev window : Rect
window = record { x = pos 500; y = negsuc 299; width = 20; height = 10 }

on_screen : Point
on_screen = record { x = pos 80; y = pos 0 }

grid : All IsOnGrid (screens (display_at true))
unfolding screens output_area ◌+ℤ◌
grid = (
  record {
    wide = omega arith;
    high = omega arith;
    left = omega arith;
    top = omega arith;
    right = omega arith;
    bottom = omega arith;
  },
  tt,
)

moved_to : nearest_reachable window (display_at true) ≡ some (record { x = pos 80; y = pos 0 })
unfolding nearest_reachable is_reachable screens output_area overlaps nearest_of nearest clamped
    clamp_into distance ◌+ℤ◌
moved_to = refl

-- Across the whole range of the coordinates the square wraps to a negative number.
distance_wraps :
    distance
      (record { x = negsuc 2147483647; y = pos 0; width = 1; height = 1 })
      (record { x = pos 2147483647; y = pos 0 })
    ≡ negsuc 8589934590
unfolding distance i64_wrap ◌+ℤ◌ ◌-ℤ◌ ◌*ℤ◌
distance_wraps = refl

nearest_reachable-reachable_example :
    is_reachable (moved window (record { x = pos 80; y = pos 0 })) (display_at true) ≡ true
nearest_reachable-reachable_example =
    nearest_reachable-reachable window (display_at true) (record { x = pos 80; y = pos 0 })
      (omega arith) (omega arith) grid moved_to

nearest_reachable-none_iff_example :
    (nearest_reachable window (display_at true) ≡ none) ↔ All (λ e. IsAway e.1) (display_at true)
nearest_reachable-none_iff_example = nearest_reachable-none_iff window (display_at true)

-- Two connections, the first of which has a full queue.
abbrev client_with : ℕ → Connection
client_with pending = record {
  pending_events = pending;
  session = none;
  available_capabilities = record { bits = 3 };
  capabilities = record { bits = 3 };
  registry = Registry.new Object.display;
}

abbrev two_clients : CompositorState
two_clients = record (State.new (record { bits = 3 }) 8 default_limits) {
  connections = (1, client_with 256) ∷ (2, client_with 0) ∷ [];
}

found_1 : lookup 1 two_clients.connections ≡ some (client_with 256)
unfolding lookup
found_1 = refl

two_clients-IsBounded : IsBounded two_clients
unfolding IsBounded lookup State.new
two_clients-IsBounded d client h = ground arith

IsBounded-push_event_example :
    IsBounded (push_event two_clients 1 1 EventKind.close)
    × IsBounded (tell_shells two_clients EventKind.close)
    × IsBounded (refresh_composition two_clients)
    × IsBounded (close_connection two_clients 1).0
IsBounded-push_event_example =
    IsBounded-push_event two_clients 1 1 EventKind.close two_clients-IsBounded

close_connection-IsForgotten_example : IsForgotten 1 (close_connection two_clients 1).0
close_connection-IsForgotten_example =
    close_connection-IsForgotten two_clients 1 (client_with 256) found_1

close_connection-enough_example : close_fuel 5 two_clients 1 ≡ close_connection two_clients 1
unfolding State.new
close_connection-enough_example = close_connection-enough 5 two_clients 1 (omega arith)

-- A second connection, to a compositor that has one and numbers the next 2.
abbrev one_client : CompositorState
one_client = record (State.new (record { bits = 3 }) 8 default_limits) {
  next_connection = 2;
  connections = (1, client_with 0) ∷ [];
}

abbrev connected_2 : CompositorState
connected_2 = record one_client {
  next_connection = 3;
  connections =
      (1, client_with 0) ∷ (2, new_connection (available_to one_client (record { bits = 3 }))) ∷ [];
}

one_client-IsNumbered : IsNumbered one_client
unfolding IsNumbered lookup State.new
one_client-IsNumbered d h = ground (arith, h)

second_accepted :
    connect one_client (record { bits = 3 }) (record { bits = 1 }) ≡ ok (connected_2, 2)
unfolding connect satisfies with_capability intersection State.new insert
second_accepted = refl

connect-granted_example :
    let available = available_to one_client (record { bits = 3 }) in
    (lookup 2 one_client.connections ≡ none)
    × ((d : ConnectionId)
        → lookup d connected_2.connections
          ≡ (if 2 == d then some (new_connection available) else lookup d one_client.connections))
    × IsNumbered connected_2
    × (length connected_2.connections ≤ connected_2.max_connections)
    × (satisfies available (record { bits = 1 }) ≡ true)
    × ((k : Capability)
        → contains (new_connection available).capabilities k
          ≡ contains available k && (contains default_grants k || is_any_of backend_facts k))
connect-granted_example =
    connect-granted one_client connected_2 (record { bits = 3 }) (record { bits = 1 }) 2
      one_client-IsNumbered second_accepted
