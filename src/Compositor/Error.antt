-- ===== src/Compositor/Error.antt =====
-- atria-compositor/src/error.rs: errors, their codes and categories, the scene's faults; and the
-- refusals of shell.rs.
use atria.Base.{ℕ}
use atria.Protocol.Capability.{Capability}
use atria.Protocol.Error.{ErrorCategory, protocol, object, resource}
use atria.Compositor.Model.{ObjectId, display_id, ObjectKind, SurfaceKey, ToplevelHandle, SeatId}

pub data ErrorCode : Type 0 where
  invalid_object invalid_object_id object_id_already_used wrong_object_type : ErrorCode
  unknown_opcode connection_closed invalid_state unsupported_capability : ErrorCode
  quota_exceeded event_queue_overflow : ErrorCode

unfoldable pub code_category : ErrorCode → ErrorCategory
code_category ErrorCode.invalid_state = object
code_category ErrorCode.unsupported_capability = object
code_category ErrorCode.quota_exceeded = resource
code_category ErrorCode.event_queue_overflow = resource
code_category _ = protocol

pub data StateError : Type 0 where
  invalid_object : ObjectId → StateError
  invalid_object_id : ObjectId → StateError
  object_id_already_used : ObjectId → StateError
  wrong_object_type : ObjectId → ObjectKind → ObjectKind → StateError
  unknown_opcode : ObjectId → ℕ → StateError
  connection_closed : StateError
  invalid_state : ObjectId → StateError
  unsupported_capability : ObjectId → Capability → StateError
  quota_exceeded : ObjectId → StateError
  event_queue_overflow : ℕ → StateError

unfoldable pub error_code : StateError → ErrorCode
error_code (StateError.invalid_object o) = ErrorCode.invalid_object
error_code (StateError.invalid_object_id o) = ErrorCode.invalid_object_id
error_code (StateError.object_id_already_used o) = ErrorCode.object_id_already_used
error_code (StateError.wrong_object_type o e a) = ErrorCode.wrong_object_type
error_code (StateError.unknown_opcode o c) = ErrorCode.unknown_opcode
error_code StateError.connection_closed = ErrorCode.connection_closed
error_code (StateError.invalid_state o) = ErrorCode.invalid_state
error_code (StateError.unsupported_capability o c) = ErrorCode.unsupported_capability
error_code (StateError.quota_exceeded o) = ErrorCode.quota_exceeded
error_code (StateError.event_queue_overflow n) = ErrorCode.event_queue_overflow

unfoldable pub error_category : StateError → ErrorCategory
unfolding error_code code_category
error_category e = code_category (error_code e)

unfoldable pub error_object_id : StateError → ObjectId
error_object_id (StateError.invalid_object o) = o
error_object_id (StateError.invalid_object_id o) = o
error_object_id (StateError.object_id_already_used o) = o
error_object_id (StateError.wrong_object_type o e a) = o
error_object_id (StateError.unknown_opcode o c) = o
error_object_id (StateError.invalid_state o) = o
error_object_id (StateError.unsupported_capability o c) = o
error_object_id (StateError.quota_exceeded o) = o
error_object_id _ = display_id

pub data SceneFault : Type 0 where
  connection_gone object_gone not_a_surface no_content no_position : SurfaceKey → SceneFault

pub data ShellError : Type 0 where
  not_granted : ShellError
  unknown_handle : ToplevelHandle → ShellError
  unknown_seat : SeatId → ShellError
