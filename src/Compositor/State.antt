-- ===== src/Compositor/State.antt =====
-- The records of atria-compositor/src/state/mod.rs: objects, surfaces, connections, the scene and
-- the compositor as a whole.
pub mod Access
pub mod Push
pub mod Composition
pub mod Teardown
pub mod Surface
pub mod Frame
pub mod Stacking
pub mod Outcome
pub mod Present
pub mod Focus
pub mod Destroy
pub mod Toplevels
pub mod Globals
pub mod Bind
pub mod Pointer
pub mod Shell
pub mod Keyboard
pub mod Text
pub mod Dispatch
pub mod Inspect
pub mod Follows
pub mod Connect
use atria.Base.{ℕ, List, [], Option, none, some, Bool, false}
use atria.Base.Map.{Map, ℕ_key, pair_key, Key, pair_eqb, pair_lt}
use atria.Protocol.Interface.{Interface}
use atria.Protocol.Capability.{Capability, CapabilitySet, with_capability}
use atria.Compositor.Model.{
  ConnectionId, ObjectId, CommitId, SeatId, ToplevelHandle, SurfaceKey, Chord, ObjectKind, Point,
  origin, Size, Rect, Damage, BufferDescriptor, BufferState, SeatCapabilities, TextPurpose,
  SharedMemory, TitleText,
}
use atria.Compositor.Request.{Event, SurfaceSnapshot}
use atria.Compositor.Registry.{ObjectRegistry}
use atria.Compositor.Output.{OutputIdentity, OutputSet}

pub record ConnectionLimits : Type 0 where
  pub max_objects : ℕ
  pub max_surfaces : ℕ
  pub max_buffers : ℕ
  pub max_imported_handles : ℕ
  pub max_damage_rects_per_commit : ℕ
  pub max_pending_events : ℕ

abbrev pub default_limits : ConnectionLimits
default_limits = record {
  max_objects = 1024;
  max_surfaces = 256;
  max_buffers = 64;
  max_imported_handles = 64;
  max_damage_rects_per_commit = 256;
  max_pending_events = 256;
}

pub record SeatState : Type 0 where
  pub capabilities : SeatCapabilities
  pub active : Bool

pub record SessionState : Type 0 where
  pub seat : Option ObjectId
  pub active : Bool

pub data PendingAttachment : Type 0 where
  unchanged : PendingAttachment
  set_buffer : ObjectId → Point → PendingAttachment
  detach : PendingAttachment

pub record PendingSurface : Type 0 where
  pub attachment : PendingAttachment
  pub acquire_fence : Option ObjectId
  pub damage : List Damage
  pub refresh_range : Option (ℕ × ℕ)

abbrev pub nothing_pending : PendingSurface
nothing_pending = record {
  attachment = unchanged;
  acquire_fence = none;
  damage = [];
  refresh_range = none;
}

pub record CurrentSurface : Type 0 where
  pub snapshot : SurfaceSnapshot
  pub frame_callback : Bool
  pub frame_serial : ℕ

pub record SurfaceState : Type 0 where
  pub session : ObjectId
  pub role : Option ℕ
  pub pending : PendingSurface
  pub current : Option CurrentSurface
  pub frame_requested : Bool
  pub frame_serial : ℕ
  pub consecutive_deadline_misses : ℕ

pub record BufferSource : Type 0 where
  pub memory : SharedMemory
  pub offset : ℕ
  pub descriptor : BufferDescriptor

pub record BufferObject : Type 0 where
  pub descriptor : BufferDescriptor
  pub state : BufferState
  pub source : Option BufferSource

pub record ToplevelState : Type 0 where
  pub surface : ObjectId
  pub title : TitleText
  pub minimum : Option Size
  pub maximum : Option Size
  pub last_configure : ℕ
  pub configured : Option Size
  pub handle : ToplevelHandle

pub record FenceState : Type 0 where
  pub signaled : Bool

pub data Object : Type 0 where
  display registry global input_stream : Object
  toplevel : ToplevelState → Object
  shm_pool : SharedMemory → Object
  seat : SeatState → Object
  session : SessionState → Object
  surface : SurfaceState → Object
  buffer : BufferObject → Object
  fence : FenceState → Object

pub record Connection : Type 0 where
  pub pending_events : ℕ
  pub session : Option ObjectId
  pub available_capabilities : CapabilitySet
  pub capabilities : CapabilitySet
  pub registry : ObjectRegistry Object

-- The stack runs from the bottom to the top.
pub record Scene : Type 0 where
  pub positions : Map SurfaceKey Point
  pub stack : List SurfaceKey

abbrev pub max_held_keys : ℕ
max_held_keys = 32

abbrev pub max_shortcuts : ℕ
max_shortcuts = 256

abbrev pub max_text_fields : ℕ
max_text_fields = 256

pub record KeyboardRouting : Type 0 where
  pub modifiers : ℕ
  pub held : Map ℕ (Unit {0})
  pub consumed : Map ℕ (Unit {0})

pub record PointerRouting : Type 0 where
  pub position : Point
  pub target : Option SurfaceKey
  pub buttons_held : ℕ
  pub shell_grab : Option (ConnectionId × ObjectId)

pub record SeatRouting : Type 0 where
  pub epoch : ℕ
  pub serial : ℕ
  pub pointer : PointerRouting
  pub keyboard : KeyboardRouting

pub record TextField : Type 0 where
  pub connection : ConnectionId
  pub object : ObjectId
  pub purpose : TextPurpose
  pub caret : Rect

pub record ShortcutClaim : Type 0 where
  pub holder : ConnectionId
  pub manager : ObjectId
  pub shortcut : ℕ

pub record Global : Type 0 where
  pub interface : Interface
  pub kind : ObjectKind
  pub version : ℕ
  pub output : Option OutputIdentity

pub record CompositorState : Type 0 where
  pub server_capabilities : CapabilitySet
  pub globals : Map ℕ Global
  pub next_global : ℕ
  pub outputs : OutputSet
  pub seat : SeatRouting
  pub shortcuts : Map (SeatId × Chord) ShortcutClaim
  pub fields : Map (ConnectionId × ObjectId) TextField
  pub method : Option (ConnectionId × ObjectId)
  pub composing : Option TextField
  pub composition : ℕ
  pub next_configure : ℕ
  pub toplevels : Map ToplevelHandle (ConnectionId × ObjectId)
  pub next_handle : ℕ
  pub max_connections : ℕ
  pub limits : ConnectionLimits
  pub next_connection : ℕ
  pub next_commit : ℕ
  pub connections : Map ConnectionId Connection
  pub scene : Scene
  pub keyboard_focus : Option SurfaceKey
  pub pointer_target : Option SurfaceKey
  -- From the oldest.
  pub events : List Event

unfoldable pub new : CapabilitySet → ℕ → ConnectionLimits → CompositorState
new capabilities max_connections limits = record {
  server_capabilities =
      with_capability (with_capability capabilities Capability.surface_create)
        Capability.buffer_import;
  globals = [];
  next_global = 1;
  outputs = [];
  seat = record {
    epoch = 0;
    serial = 0;
    pointer = record { position = origin; target = none; buttons_held = 0; shell_grab = none };
    keyboard = record { modifiers = 0; held = []; consumed = [] };
  };
  shortcuts = [];
  fields = [];
  method = none;
  composing = none;
  composition = 0;
  next_configure = 1;
  toplevels = [];
  next_handle = 1;
  max_connections = max_connections;
  limits = limits;
  next_connection = 1;
  next_commit = 1;
  connections = [];
  scene = record { positions = []; stack = [] };
  keyboard_focus = none;
  pointer_target = none;
  events = [];
}
