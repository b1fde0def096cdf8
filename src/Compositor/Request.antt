-- ===== src/Compositor/Request.antt =====
-- `ClientRequest` and `EventKind` of atria-compositor/src/model.rs: what a client asks, and what it
-- is told.
use atria.Base.{ℕ, List, Option, Bool}
use atria.Base.Int.{ℤ}
use atria.Protocol.Interface.{Interface}
use atria.Protocol.Capability.{Capability}
use atria.Compositor.Model.{
  ConnectionId, ObjectId, CommitId, SeatId, ToplevelHandle, SurfaceKey, Chord, ObjectKind, Point,
  Size, Rect, Damage, BufferDescriptor, TextPurpose, SharedMemory, TitleText, TextBuffer,
  IdentitySource,
}
use atria.Compositor.Error.{StateError}

pub data ClientRequest : Type 0 where
  create_registry : ObjectId → ClientRequest
  -- A name, a version and the new object.
  bind : ℕ → ℕ → ObjectId → ClientRequest
  create_pool : ObjectId → SharedMemory → ClientRequest
  -- The new object, its pool, an offset, a size, a stride and a format.
  create_buffer : ObjectId → ObjectId → ℕ → Size → ℕ → ℕ → ClientRequest
  create_surface : ObjectId → ClientRequest
  import_buffer : ObjectId → BufferDescriptor → ClientRequest
  shell_configure : ObjectId → ToplevelHandle → Size → ℕ → ClientRequest
  shell_place : ObjectId → ToplevelHandle → Point → ClientRequest
  shell_raise : ObjectId → ToplevelHandle → ClientRequest
  shell_focus : ObjectId → SeatId → ToplevelHandle → ClientRequest
  shell_close : ObjectId → ToplevelHandle → ClientRequest
  shell_grab : ObjectId → SeatId → ToplevelHandle → ClientRequest
  -- A seat and the new object.
  get_pointer : ObjectId → ObjectId → ClientRequest
  get_keyboard : ObjectId → ObjectId → ClientRequest
  -- A manager, a shortcut's number, a seat and a chord.
  register_shortcut : ObjectId → ℕ → SeatId → Chord → ClientRequest
  unregister_shortcut : ObjectId → ℕ → ClientRequest
  enable_text : ObjectId → TextPurpose → ClientRequest
  disable_text : ObjectId → ClientRequest
  set_cursor_area : ObjectId → Rect → ClientRequest
  -- A method, a composition, a text and where its cursor begins and ends.
  set_preedit : ObjectId → ℕ → TextBuffer → ℤ → ℤ → ClientRequest
  commit_text : ObjectId → ℕ → TextBuffer → ClientRequest
  text_done : ObjectId → ℕ → ℕ → ClientRequest
  -- A surface and the new object.
  get_toplevel : ObjectId → ObjectId → ClientRequest
  set_title : ObjectId → TitleText → ClientRequest
  set_min_size : ObjectId → Size → ClientRequest
  set_max_size : ObjectId → Size → ClientRequest
  -- A surface, a buffer, an offset and a fence.
  attach : ObjectId → ObjectId → Point → Option ObjectId → ClientRequest
  damage : ObjectId → Rect → ClientRequest
  commit : ObjectId → ClientRequest
  set_role : ObjectId → ℕ → ClientRequest
  request_frame : ObjectId → ℕ → ClientRequest
  set_refresh_range : ObjectId → ℕ → ℕ → ClientRequest
  destroy : ObjectId → ClientRequest
  unknown : ObjectId → ℕ → ClientRequest

pub data EventKind : Type 0 where
  error : StateError → EventKind
  capability_revoked : Capability → EventKind
  object_destroyed : ObjectKind → EventKind
  id_retired : EventKind
  -- A serial, a size and a state.
  configure : ℕ → Size → ℕ → EventKind
  close : EventKind
  global : ℕ → Interface → ℕ → EventKind
  global_remove : ℕ → EventKind
  buffer_release : EventKind
  buffer_release_with_fence : ObjectId → EventKind
  -- A serial and a time.
  frame_done : ℕ → ℕ → EventKind
  frame_deadline : ℕ → ℕ → EventKind
  frame_late : EventKind
  keyboard_leave : EventKind
  keyboard_enter : EventKind
  -- A serial, a surface, modifiers, an epoch and the keys held.
  key_focus_gained : ℕ → ObjectId → ℕ → ℕ → List ℕ → EventKind
  key_focus_lost : ℕ → ObjectId → ℕ → EventKind
  -- A serial, a time, a key, whether it is down and an epoch.
  key : ℕ → ℕ → ℕ → Bool → ℕ → EventKind
  key_modifiers : ℕ → ℕ → EventKind
  text_enter : ObjectId → EventKind
  text_leave : ObjectId → EventKind
  text_preedit : ℕ → TextBuffer → ℤ → ℤ → EventKind
  text_commit : ℕ → TextBuffer → EventKind
  text_done : ℕ → EventKind
  method_activated : ObjectId → TextPurpose → ℕ → EventKind
  method_deactivated : EventKind
  -- A shortcut, a seat, a serial, a time and an epoch.
  shortcut_triggered : ℕ → SeatId → ℕ → ℕ → ℕ → EventKind
  pointer_enter : ℕ → ObjectId → Point → ℕ → EventKind
  pointer_leave : ℕ → ObjectId → ℕ → EventKind
  pointer_motion : ℕ → Point → ℕ → EventKind
  -- A serial, a time, a button, whether it is down and an epoch.
  pointer_button : ℕ → ℕ → ℕ → Bool → ℕ → EventKind
  -- A pointer press: a seat, a window, a serial and a place in the window.
  shell_interaction : SeatId → ToplevelHandle → ℕ → Point → EventKind
  shell_grab_motion : SeatId → Point → EventKind
  shell_grab_end : SeatId → EventKind
  output_identity : ℕ → EventKind
  output_geometry : Point → Size → IdentitySource → EventKind
  output_mode : Size → ℕ → EventKind
  output_scale : ℕ → ℕ → EventKind
  shell_toplevel : ToplevelHandle → List ℕ → EventKind
  shell_toplevel_gone : ToplevelHandle → EventKind
  shell_focus_changed : SeatId → ToplevelHandle → EventKind
  shell_snapshot_done : EventKind
  output_done : EventKind

pub record Event : Type 0 where
  pub connection : ConnectionId
  pub object_id : ObjectId
  pub kind : EventKind

pub data FocusEvent : Type 0 where
  keyboard_leave keyboard_enter : SurfaceKey → FocusEvent

pub record SurfaceSnapshot : Type 0 where
  pub role : Option ℕ
  pub buffer : ObjectId
  pub offset : Point
  pub damage : List Damage
  pub commit : CommitId
  pub refresh_range : Option (ℕ × ℕ)
  pub acquire_fence : Option ObjectId
