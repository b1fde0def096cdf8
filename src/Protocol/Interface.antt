-- ===== src/Protocol/Interface.antt =====
-- atria-protocol/src/interface.rs: the table of interfaces and operations, opcodes and payloads.
use Prim.Native.String.{String}
use atria.Base.{ℕ, ◌+◌, List, [], ◌∷◌, Option, none, some}

-- `HandleKind` of wire.rs.
pub data HandleKind : Type 0 where
  shared_memory gpu_image fence : HandleKind

pub data Field : Type 0 where
  object u32 i32 u64 string array : Field
  handle : HandleKind → Field

-- The bytes that a field takes, or `none` for a variable length.
unfoldable pub field_size : Field → Option ℕ
field_size u64 = some 8
field_size string = none
field_size array = none
field_size _ = some 4

pub data Interface : Type 0 where
  display registry compositor shm shm_pool buffer surface shell toplevel output shell_control seat
        pointer keyboard shortcuts text_input input_method :
      Interface

pub data MessageKind : Type 0 where
  method event : MessageKind

pub record OperationSpec : Type 0 where
  pub interface : Interface
  pub kind : MessageKind
  pub opcode : ℕ
  pub name : String
  pub payload : List Field

pub data Operation : Type 0 where
  display_sync : Operation
  display_get_registry : Operation
  display_error : Operation
  display_delete_id : Operation
  display_sync_done : Operation
  registry_bind : Operation
  registry_global : Operation
  registry_global_remove : Operation
  compositor_create_surface : Operation
  shm_create_pool : Operation
  shm_format : Operation
  shm_pool_create_buffer : Operation
  shm_pool_resize : Operation
  shm_pool_destroy : Operation
  buffer_destroy : Operation
  buffer_release : Operation
  surface_destroy : Operation
  surface_attach : Operation
  surface_damage_buffer : Operation
  surface_commit : Operation
  surface_frame : Operation
  surface_enter : Operation
  surface_leave : Operation
  surface_frame_done : Operation
  shell_get_toplevel : Operation
  toplevel_destroy : Operation
  toplevel_set_title : Operation
  toplevel_set_min_size : Operation
  toplevel_set_max_size : Operation
  toplevel_configure : Operation
  toplevel_close : Operation
  output_identity : Operation
  output_geometry : Operation
  output_mode : Operation
  output_scale : Operation
  output_done : Operation
  shell_control_configure : Operation
  shell_control_place : Operation
  shell_control_raise : Operation
  shell_control_focus : Operation
  shell_control_close : Operation
  shell_control_toplevel : Operation
  shell_control_toplevel_gone : Operation
  shell_control_focus_changed : Operation
  shell_control_snapshot_done : Operation
  shell_control_interaction : Operation
  shell_control_grab : Operation
  shell_control_grab_motion : Operation
  shell_control_grab_end : Operation
  seat_get_pointer : Operation
  pointer_destroy : Operation
  pointer_enter : Operation
  pointer_leave : Operation
  pointer_motion : Operation
  pointer_button : Operation
  pointer_axis : Operation
  seat_get_keyboard : Operation
  keyboard_destroy : Operation
  keyboard_enter : Operation
  keyboard_leave : Operation
  keyboard_key : Operation
  keyboard_modifiers : Operation
  shortcuts_register : Operation
  shortcuts_unregister : Operation
  shortcuts_triggered : Operation
  text_input_enable : Operation
  text_input_disable : Operation
  text_input_set_cursor_area : Operation
  text_input_enter : Operation
  text_input_leave : Operation
  text_input_preedit : Operation
  text_input_commit : Operation
  text_input_done : Operation
  input_method_set_preedit : Operation
  input_method_commit : Operation
  input_method_done : Operation
  input_method_activate : Operation
  input_method_deactivate : Operation
  input_method_key : Operation

row : Interface → MessageKind → ℕ → String → List Field → OperationSpec
row i k c n fs = record { interface = i; kind = k; opcode = c; name = n; payload = fs }

-- The table row of an operation.
unfoldable pub spec : Operation → OperationSpec
unfolding row
spec display_sync = row Interface.display method 0 "sync" (u32 ∷ [])
spec display_get_registry = row Interface.display method 1 "get_registry" (object ∷ [])
spec display_error = row Interface.display event 0 "error" (object ∷ u32 ∷ string ∷ [])
spec display_delete_id = row Interface.display event 1 "delete_id" (object ∷ [])
spec display_sync_done = row Interface.display event 2 "sync_done" (u32 ∷ [])
spec registry_bind = row Interface.registry method 0 "bind" (u32 ∷ u32 ∷ object ∷ [])
spec registry_global = row Interface.registry event 0 "global" (u32 ∷ string ∷ u32 ∷ [])
spec registry_global_remove = row Interface.registry event 1 "global_remove" (u32 ∷ [])
spec compositor_create_surface = row Interface.compositor method 0 "create_surface" (object ∷ [])
spec shm_create_pool =
    row Interface.shm method 0 "create_pool" (object ∷ (handle shared_memory) ∷ u32 ∷ [])
spec shm_format = row Interface.shm event 0 "format" (u32 ∷ [])
spec shm_pool_create_buffer =
    row Interface.shm_pool method 0 "create_buffer" (object ∷ u32 ∷ u32 ∷ u32 ∷ u32 ∷ u32 ∷ [])
spec shm_pool_resize = row Interface.shm_pool method 1 "resize" (u32 ∷ [])
spec shm_pool_destroy = row Interface.shm_pool method 2 "destroy" ([])
spec buffer_destroy = row Interface.buffer method 0 "destroy" ([])
spec buffer_release = row Interface.buffer event 0 "release" ([])
spec surface_destroy = row Interface.surface method 0 "destroy" ([])
spec surface_attach = row Interface.surface method 1 "attach" (object ∷ i32 ∷ i32 ∷ [])
spec surface_damage_buffer =
    row Interface.surface method 2 "damage_buffer" (i32 ∷ i32 ∷ u32 ∷ u32 ∷ [])
spec surface_commit = row Interface.surface method 3 "commit" (u64 ∷ u32 ∷ [])
spec surface_frame = row Interface.surface method 4 "frame" (u32 ∷ [])
spec surface_enter = row Interface.surface event 0 "enter" (object ∷ [])
spec surface_leave = row Interface.surface event 1 "leave" (object ∷ [])
spec surface_frame_done = row Interface.surface event 2 "frame_done" (u32 ∷ u64 ∷ [])
spec shell_get_toplevel = row Interface.shell method 0 "get_toplevel" (object ∷ object ∷ [])
spec toplevel_destroy = row Interface.toplevel method 0 "destroy" ([])
spec toplevel_set_title = row Interface.toplevel method 1 "set_title" (string ∷ [])
spec toplevel_set_min_size = row Interface.toplevel method 2 "set_min_size" (u32 ∷ u32 ∷ [])
spec toplevel_set_max_size = row Interface.toplevel method 3 "set_max_size" (u32 ∷ u32 ∷ [])
spec toplevel_configure = row Interface.toplevel event 0 "configure" (u32 ∷ u32 ∷ u32 ∷ u32 ∷ [])
spec toplevel_close = row Interface.toplevel event 1 "close" ([])
spec output_identity = row Interface.output event 0 "identity" (u64 ∷ u64 ∷ [])
spec output_geometry = row Interface.output event 1 "geometry" (i32 ∷ i32 ∷ u32 ∷ u32 ∷ u32 ∷ [])
spec output_mode = row Interface.output event 2 "mode" (u32 ∷ u32 ∷ u32 ∷ [])
spec output_scale = row Interface.output event 3 "scale" (u32 ∷ u32 ∷ [])
spec output_done = row Interface.output event 4 "done" ([])
spec shell_control_configure =
    row Interface.shell_control method 0 "configure" (u64 ∷ u32 ∷ u32 ∷ u32 ∷ [])
spec shell_control_place = row Interface.shell_control method 1 "place" (u64 ∷ i32 ∷ i32 ∷ [])
spec shell_control_raise = row Interface.shell_control method 2 "raise" (u64 ∷ [])
spec shell_control_focus = row Interface.shell_control method 3 "focus" (u64 ∷ u64 ∷ [])
spec shell_control_close = row Interface.shell_control method 4 "close" (u64 ∷ [])
spec shell_control_toplevel = row Interface.shell_control event 0 "toplevel" (u64 ∷ string ∷ [])
spec shell_control_toplevel_gone = row Interface.shell_control event 1 "toplevel_gone" (u64 ∷ [])
spec shell_control_focus_changed =
    row Interface.shell_control event 2 "focus_changed" (u64 ∷ u64 ∷ [])
spec shell_control_snapshot_done = row Interface.shell_control event 3 "snapshot_done" ([])
spec shell_control_interaction =
    row Interface.shell_control event 4 "interaction" (u64 ∷ u64 ∷ u32 ∷ u32 ∷ i32 ∷ i32 ∷ [])
spec shell_control_grab = row Interface.shell_control method 5 "grab" (u64 ∷ u64 ∷ [])
spec shell_control_grab_motion =
    row Interface.shell_control event 5 "grab_motion" (u64 ∷ i32 ∷ i32 ∷ [])
spec shell_control_grab_end = row Interface.shell_control event 6 "grab_end" (u64 ∷ [])
spec seat_get_pointer = row Interface.seat method 0 "get_pointer" (object ∷ [])
spec pointer_destroy = row Interface.pointer method 0 "destroy" ([])
spec pointer_enter = row Interface.pointer event 0 "enter" (u32 ∷ object ∷ i32 ∷ i32 ∷ u32 ∷ [])
spec pointer_leave = row Interface.pointer event 1 "leave" (u32 ∷ object ∷ u32 ∷ [])
spec pointer_motion = row Interface.pointer event 2 "motion" (u64 ∷ i32 ∷ i32 ∷ u32 ∷ [])
spec pointer_button = row Interface.pointer event 3 "button" (u32 ∷ u64 ∷ u32 ∷ u32 ∷ u32 ∷ [])
spec pointer_axis = row Interface.pointer event 4 "axis" (u64 ∷ u32 ∷ i32 ∷ u32 ∷ [])
spec seat_get_keyboard = row Interface.seat method 1 "get_keyboard" (object ∷ [])
spec keyboard_destroy = row Interface.keyboard method 0 "destroy" ([])
spec keyboard_enter = row Interface.keyboard event 0 "enter" (u32 ∷ object ∷ u32 ∷ u32 ∷ array ∷ [])
spec keyboard_leave = row Interface.keyboard event 1 "leave" (u32 ∷ object ∷ u32 ∷ [])
spec keyboard_key = row Interface.keyboard event 2 "key" (u32 ∷ u64 ∷ u32 ∷ u32 ∷ u32 ∷ [])
spec keyboard_modifiers =
    row Interface.keyboard event 3 "modifiers" (u32 ∷ u32 ∷ u32 ∷ u32 ∷ u32 ∷ [])
spec shortcuts_register =
    row Interface.shortcuts method 0 "register" (u32 ∷ u64 ∷ u32 ∷ u32 ∷ u32 ∷ [])
spec shortcuts_unregister = row Interface.shortcuts method 1 "unregister" (u32 ∷ [])
spec shortcuts_triggered =
    row Interface.shortcuts event 0 "triggered" (u32 ∷ u64 ∷ u32 ∷ u64 ∷ u32 ∷ [])
spec text_input_enable = row Interface.text_input method 0 "enable" (u32 ∷ [])
spec text_input_disable = row Interface.text_input method 1 "disable" ([])
spec text_input_set_cursor_area =
    row Interface.text_input method 2 "set_cursor_area" (i32 ∷ i32 ∷ u32 ∷ u32 ∷ [])
spec text_input_enter = row Interface.text_input event 0 "enter" (object ∷ [])
spec text_input_leave = row Interface.text_input event 1 "leave" (object ∷ [])
spec text_input_preedit = row Interface.text_input event 2 "preedit" (string ∷ i32 ∷ i32 ∷ [])
spec text_input_commit = row Interface.text_input event 3 "commit" (string ∷ [])
spec text_input_done = row Interface.text_input event 4 "done" (u32 ∷ [])
spec input_method_set_preedit =
    row Interface.input_method method 0 "set_preedit" (u32 ∷ string ∷ i32 ∷ i32 ∷ [])
spec input_method_commit = row Interface.input_method method 1 "commit" (u32 ∷ string ∷ [])
spec input_method_done = row Interface.input_method method 2 "done" (u32 ∷ u32 ∷ [])
spec input_method_activate = row Interface.input_method event 0 "activate" (object ∷ u32 ∷ u32 ∷ [])
spec input_method_deactivate = row Interface.input_method event 1 "deactivate" ([])
spec input_method_key = row Interface.input_method event 2 "key" (u32 ∷ u64 ∷ u32 ∷ u32 ∷ u32 ∷ [])

-- The bytes of a payload of fixed size behind `total` bytes.
payload_size : ℕ → List Field → Option ℕ
unfolding field_size
payload_size total [] = some total
payload_size total (f ∷ fs) =
    let rest = λ (n : ℕ). payload_size (total + n) fs in
    elim (field_size f) [ none ↦ none | some n ↦ rest n ]

unfoldable pub message_size : OperationSpec → Option ℕ
unfolding payload_size
message_size s = payload_size 12 s.payload

unfoldable pub interface_name : Interface → String
interface_name Interface.display = "atria_display"
interface_name Interface.registry = "atria_registry"
interface_name Interface.compositor = "atria_compositor"
interface_name Interface.shm = "atria_shm"
interface_name Interface.shm_pool = "atria_shm_pool"
interface_name Interface.buffer = "atria_buffer"
interface_name Interface.surface = "atria_surface"
interface_name Interface.shell = "atria_shell"
interface_name Interface.toplevel = "atria_toplevel"
interface_name Interface.output = "atria_output"
interface_name Interface.shell_control = "atria_shell_control"
interface_name Interface.seat = "atria_seat"
interface_name Interface.pointer = "atria_pointer"
interface_name Interface.keyboard = "atria_keyboard"
interface_name Interface.shortcuts = "atria_shortcuts"
interface_name Interface.text_input = "atria_text_input"
interface_name Interface.input_method = "atria_input_method"

-- In the order of the opcodes.
unfoldable pub methods : Interface → List Operation
methods Interface.display = display_sync ∷ display_get_registry ∷ []
methods Interface.registry = registry_bind ∷ []
methods Interface.compositor = compositor_create_surface ∷ []
methods Interface.shm = shm_create_pool ∷ []
methods Interface.shm_pool = shm_pool_create_buffer ∷ shm_pool_resize ∷ shm_pool_destroy ∷ []
methods Interface.buffer = buffer_destroy ∷ []
methods Interface.surface =
    surface_destroy ∷ surface_attach ∷ surface_damage_buffer ∷ surface_commit ∷ surface_frame ∷ []
methods Interface.shell = shell_get_toplevel ∷ []
methods Interface.toplevel =
    toplevel_destroy ∷ toplevel_set_title ∷ toplevel_set_min_size ∷ toplevel_set_max_size ∷ []
methods Interface.output = []
methods Interface.shell_control =
    shell_control_configure ∷ shell_control_place ∷ shell_control_raise ∷ shell_control_focus
    ∷ shell_control_close ∷ shell_control_grab ∷ []
methods Interface.seat = seat_get_pointer ∷ seat_get_keyboard ∷ []
methods Interface.pointer = pointer_destroy ∷ []
methods Interface.keyboard = keyboard_destroy ∷ []
methods Interface.shortcuts = shortcuts_register ∷ shortcuts_unregister ∷ []
methods Interface.text_input =
    text_input_enable ∷ text_input_disable ∷ text_input_set_cursor_area ∷ []
methods Interface.input_method =
    input_method_set_preedit ∷ input_method_commit ∷ input_method_done ∷ []

-- In the order of the opcodes.
unfoldable pub events : Interface → List Operation
events Interface.display = display_error ∷ display_delete_id ∷ display_sync_done ∷ []
events Interface.registry = registry_global ∷ registry_global_remove ∷ []
events Interface.compositor = []
events Interface.shm = shm_format ∷ []
events Interface.shm_pool = []
events Interface.buffer = buffer_release ∷ []
events Interface.surface = surface_enter ∷ surface_leave ∷ surface_frame_done ∷ []
events Interface.shell = []
events Interface.toplevel = toplevel_configure ∷ toplevel_close ∷ []
events Interface.output =
    output_identity ∷ output_geometry ∷ output_mode ∷ output_scale ∷ output_done ∷ []
events Interface.shell_control =
    shell_control_toplevel ∷ shell_control_toplevel_gone ∷ shell_control_focus_changed
    ∷ shell_control_snapshot_done ∷ shell_control_interaction ∷ shell_control_grab_motion
    ∷ shell_control_grab_end ∷ []
events Interface.seat = []
events Interface.pointer =
    pointer_enter ∷ pointer_leave ∷ pointer_motion ∷ pointer_button ∷ pointer_axis ∷ []
events Interface.keyboard = keyboard_enter ∷ keyboard_leave ∷ keyboard_key ∷ keyboard_modifiers ∷ []
events Interface.shortcuts = shortcuts_triggered ∷ []
events Interface.text_input =
    text_input_enter ∷ text_input_leave ∷ text_input_preedit ∷ text_input_commit ∷ text_input_done
    ∷ []
events Interface.input_method =
    input_method_activate ∷ input_method_deactivate ∷ input_method_key ∷ []
