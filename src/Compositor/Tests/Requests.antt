-- ===== src/Compositor/Tests/Requests.antt =====
-- The theorems on requests and input at concrete states.
use atria.Base.{
  ℕ, ◌+◌, ◌*◌, ◌≡◌, ◌≢◌, refl, ◌≤◌, true, false, none, some, [], ◌∷◌, ◌++◌, ok, err, is_ok, arith,
}
use atria.Base.Int.{pos}
use atria.Base.Map.{lookup, insert, update, contains_key, ℕ_key, pair_key}
use atria.Protocol.Capability.{Capability, contains, with_capability}
use atria.Compositor.Error.{StateError, ShellError, error_category}
use atria.Compositor.Request.{ClientRequest, EventKind}
use atria.Compositor.Model.{
  Chord, chord_key, ObjectKind, Point, Size, BufferDescriptor, BufferTransport, BufferState,
  is_structurally_valid, pixel_format_is_known, SharedMemory,
}
use atria.Compositor.State.{
  CompositorState, Connection, Object, ToplevelState, SurfaceState, SeatState, SessionState,
  BufferObject, BufferSource, CurrentSurface, PendingAttachment, PendingSurface, nothing_pending,
  FenceState, TextField, ShortcutClaim, Global, KeyboardRouting, PointerRouting, SeatRouting, Scene,
  max_held_keys, max_shortcuts, max_text_fields,
}
use atria.Compositor.State.Access.{
  object_entry, expect_any, expect_kind, capabilities, holds, pool_memory,
}
use atria.Compositor.State.Teardown.{push_event}
use atria.Protocol.Error.{ErrorCategory}
use atria.Compositor.Model.{ChordMatch}
use atria.Compositor.Registry
use atria.Compositor.State.Teardown.Delivery.{push_event-delivers}
use atria.Compositor.State.Stacking.{take_events_for}
use atria.Compositor.State.Toplevels.{create_buffer}
use atria.Compositor.State.Toplevels.Carving.{create_buffer-inside}
use atria.Compositor.State.Keyboard.{
  turn_modifier, modifier_of, register_shortcut, claimed, with_keyboard, key,
}
use atria.Compositor.State.Keyboard.Exclusive.{register_shortcut-exclusive}
use atria.Compositor.State.Push.{u32_next}
use atria.Compositor.State.Keyboard.Swallowed.{with_key, swallowing, without_key, key-swallowed}
use atria.Protocol.Capability.{satisfies, intersection}
use atria.Compositor.State.{default_limits}
use atria.Compositor.State
use atria.Compositor.State.Connect.{available_to, new_connection, connect}
use atria.Compositor.State.Dispatch.{
  dispatch_own, dispatch_object, unknown_request, is_shell_request, dispatch_checked, dispatch,
}
use atria.Compositor.State.Dispatch.Penalty.{dispatch-disconnects}
use atria.Compositor.State.Shell.{
  shell_configure, shell_close, shell_place, shell_raise, shell_focus, shell_grab,
}
use atria.Compositor.State.Shell.Refusals.{shell-not_granted}
use atria.Compositor.State.Follows.Grants.{IsUngranted, dispatch-IsUngranted}
use atria.Compositor.State.Follows.Life.{Life, begins, connects, asks, IsRunning, Life-IsRunning}
use atria.Compositor.Tests.{client_with, two_clients}
use atria.Compositor.Tests.Scene.{drawing}

dispatch-IsUngranted_example : IsUngranted drawing (dispatch drawing 1 (ClientRequest.destroy 5)).0
dispatch-IsUngranted_example = dispatch-IsUngranted drawing 1 (ClientRequest.destroy 5)

abbrev fresh : CompositorState
fresh = record (State.new (record { bits = 3 }) 8 default_limits) {
  next_connection = 2;
  connections =
      (
        1,
        new_connection
            (available_to (State.new (record { bits = 3 }) 8 default_limits) (record { bits = 3 })),
      )
      ∷ [];
}

first_accepted :
    connect
      (State.new (record { bits = 3 }) 8 default_limits)
      (record { bits = 3 })
      (record { bits = 1 })
    ≡ ok (fresh, 1)
unfolding connect satisfies with_capability intersection State.new insert
first_accepted = refl

abbrev lived : Life (dispatch fresh 1 (ClientRequest.create_registry 7)).0
lived = asks 1 (ClientRequest.create_registry 7) (
    connects (record { bits = 3 }) (record { bits = 1 }) 1
      (begins (record { bits = 3 }) 8 default_limits (omega arith)) first_accepted)

Life-IsRunning_example : IsRunning (dispatch fresh 1 (ClientRequest.create_registry 7)).0
Life-IsRunning_example = Life-IsRunning lived

no_shell : holds two_clients 1 Capability.shell_control ≡ false
unfolding holds capabilities lookup contains
no_shell = refl

abbrev place : Point
place = record { x = pos 10; y = pos 20 }

abbrev small : Size
small = record { width = 4; height = 2 }

shell-not_granted_example :
    (shell_configure two_clients 1 4 small 0 ≡ (two_clients, err ShellError.not_granted))
    × (shell_close two_clients 1 4 ≡ (two_clients, err ShellError.not_granted))
    × (shell_place two_clients 1 4 place ≡ (two_clients, err ShellError.not_granted))
    × (shell_raise two_clients 1 4 ≡ (two_clients, err ShellError.not_granted))
    × (shell_focus two_clients 1 1 4 ≡ (two_clients, err ShellError.not_granted))
    × (shell_grab two_clients 1 1 4 9 ≡ (two_clients, err ShellError.not_granted))
shell-not_granted_example = shell-not_granted two_clients 1 4 small 0 place 9 no_shell

unknown_refused :
    dispatch_checked two_clients 2 (ClientRequest.unknown 1 9)
    ≡ (two_clients, err (StateError.unknown_opcode 1 9))
unfolding dispatch_checked dispatch_own dispatch_object unknown_request expect_any object_entry
    lookup is_shell_request Registry.new
unknown_refused = refl

found_2 : lookup 2 two_clients.connections ≡ some (client_with 0)
unfolding lookup
found_2 = refl

unknown-protocol : error_category (StateError.unknown_opcode 1 9) ≡ ErrorCategory.protocol
unfolding error_category
unknown-protocol = refl

dispatch-disconnects_example :
    (lookup 2 (dispatch two_clients 2 (ClientRequest.unknown 1 9)).0.connections ≡ none)
    × ((dispatch two_clients 2 (ClientRequest.unknown 1 9)).1 ≡ err (StateError.unknown_opcode 1 9))
dispatch-disconnects_example =
    dispatch-disconnects two_clients two_clients 2 (ClientRequest.unknown 1 9) (client_with 0)
      (StateError.unknown_opcode 1 9) found_2 unknown_refused unknown-protocol

push_event-delivers_example :
    let told = push_event two_clients 2 1 EventKind.close in
    let rest = (take_events_for told 2).0 in
    ((take_events_for told 2).1
      ≡ (take_events_for two_clients 2).1
        ++ record { connection = 2; object_id = 1; kind = EventKind.close } ∷ [])
    × ((take_events_for rest 2).1 ≡ [])
    × (lookup 2 rest.connections ≡ some (record (client_with 0) { pending_events = 0 }))
    × ((◌≢◌ {A = ℕ} 1 2)
        → ((take_events_for told 1).1 ≡ (take_events_for two_clients 1).1)
          × ((take_events_for rest 1).1 ≡ (take_events_for two_clients 1).1))
unfolding State.new
push_event-delivers_example =
    push_event-delivers two_clients 2 1 1 EventKind.close (client_with 0) found_2 (omega arith)

-- A client with a pool of 64 bytes and a manager of shortcuts.
abbrev pool : SharedMemory
pool = record { id = 1; size = 64 }

abbrev working : CompositorState
working = record two_clients {
  connections =
      (
        1,
        record (client_with 0) {
          registry = record {
            live =
                (1, record { kind = ObjectKind.display; value = Object.display })
                ∷ (5, record { kind = ObjectKind.shm_pool; value = Object.shm_pool pool })
                ∷ (6, record { kind = ObjectKind.shortcuts; value = Object.global })
                ∷ [];
            used = (1, tt) ∷ (5, tt) ∷ (6, tt) ∷ [];
            creation_order = 1 ∷ 5 ∷ 6 ∷ [];
          };
        },
      )
      ∷ [];
}

abbrev carved_buffer : Object
carved_buffer =
    let shape : BufferDescriptor = record {
      transport = BufferTransport.software_shm;
      size = small;
      stride = 16;
      byte_len = 32;
    } in
    Object.buffer (record {
      descriptor = shape;
      state = BufferState.available;
      source = some (record { memory = pool; offset = 8; descriptor = shape });
    })

abbrev carved_state : CompositorState
carved_state = record working {
  connections =
      (
        1,
        record (client_with 0) {
          registry = record {
            live =
                (1, record { kind = ObjectKind.display; value = Object.display })
                ∷ (5, record { kind = ObjectKind.shm_pool; value = Object.shm_pool pool })
                ∷ (6, record { kind = ObjectKind.shortcuts; value = Object.global })
                ∷ (7, record { kind = ObjectKind.buffer; value = carved_buffer })
                ∷ [];
            used = (1, tt) ∷ (5, tt) ∷ (6, tt) ∷ (7, tt) ∷ [];
            creation_order = 1 ∷ 5 ∷ 6 ∷ 7 ∷ [];
          };
        },
      )
      ∷ [];
}

buffer_carved : create_buffer working 1 7 5 8 small 16 0 ≡ ok carved_state
unfolding create_buffer lookup insert update State.new contains is_structurally_valid Registry.len
    Registry.allocate_client
buffer_carved = refl

create_buffer-inside_example :
    (memory : SharedMemory) × (pool_memory working 1 5 ≡ some memory)
    × (pixel_format_is_known 0 ≡ true)
    × (◌≢◌ {A = ℕ} 4 0)
    × (◌≢◌ {A = ℕ} 2 0)
    × (◌≢◌ {A = ℕ} 16 0)
    × (8 + 16 * 2 ≤ memory.size)
create_buffer-inside_example =
    create_buffer-inside working carved_state 1 7 5 8 small 16 0 buffer_carved

abbrev super_q : Chord
super_q = record { trigger = 20; modifiers = 8; mode = ChordMatch.exact }

abbrev claim : ShortcutClaim
claim = record { holder = 1; manager = 6; shortcut = 3 }

abbrev claiming : CompositorState
claiming = record working { shortcuts = ((1, super_q), claim) ∷ [] }

super_q_claimed : register_shortcut working 1 6 3 1 super_q ≡ ok claiming
unfolding register_shortcut expect_kind lookup insert State.new
super_q_claimed = refl

register_shortcut-exclusive_example :
    (lookup (1, super_q) claiming.shortcuts ≡ some claim)
    × (lookup (1, super_q) working.shortcuts ≡ none)
    × (is_ok (register_shortcut claiming 2 9 4 1 super_q) ≡ false)
register_shortcut-exclusive_example =
    register_shortcut-exclusive working claiming 1 2 6 9 3 4 1 super_q super_q_claimed

-- The meta key is down.
abbrev holding : CompositorState
holding = record claiming {
  seat = record claiming.seat {
    keyboard = record { modifiers = 8; held = (227, tt) ∷ []; consumed = [] };
  };
}

q_completes : claimed (with_keyboard (with_key 20) holding) 20 ≡ some claim
unfolding claimed with_keyboard State.new insert turn_modifier modifier_of
q_completes = refl

q_up : contains_key 20 holding.seat.keyboard.held ≡ false
unfolding lookup
q_up = refl

key-swallowed_example :
    (key holding 20 true 5
      ≡ push_event (swallowing holding 20) claim.holder claim.manager (
          EventKind.shortcut_triggered claim.shortcut 1
            (u32_next holding.seat.serial)
            5
            holding.seat.epoch))
    × (key (key holding 20 true 5) 20 false 9
        ≡ with_keyboard (without_key 20) (key holding 20 true 5))
key-swallowed_example = key-swallowed holding 20 5 9 claim q_up (omega arith) q_completes
