-- ===== src/Compositor/State/Follows/Requests.antt =====
-- That every request of a client is steps of `Follows`: `dispatch` implements the relation.
use atria.Base.{
  ℕ, refl, not, Option, none, some, ◌==◌, leb, length, ok, err, guard, ok_or, if_intro,
}
use atria.Base.Int.{ℤ}
use atria.Base.Map.{insert, remove, contains_key, ℕ_key, pair_key}
use atria.Protocol.Capability.{Capability}
use atria.Compositor.Error.{StateError, error_category, error_object_id}
use atria.Compositor.Request.{ClientRequest, EventKind}
use atria.Compositor.Model.{
  ConnectionId, ObjectId, display_id, SeatId, Chord, chord_key, ObjectKind, Rect, empty_rect,
  BufferDescriptor, transport_capability, is_structurally_valid, TextPurpose, SharedMemory,
  TextBuffer,
}
use atria.Compositor.State.{CompositorState, Object, TextField, max_shortcuts, max_text_fields}
use atria.Compositor.State.Access.{
  expect_any, expect_kind, buffer, require_capability, session_of, expect_active_session,
  check_kind_quota, allocate_client,
}
use atria.Compositor.State.Follows.{Follows, stays}
use atria.Compositor.State.Follows.Steps.{
  Holds, bind-Holds, bind_state-Holds, settle-Follows, after-Follows, moved, push_event-Follows,
  refresh_composition-Follows, close_connection-Follows, allocate_client-Holds,
}
use atria.Compositor.State.Outcome.{Outcome}
use atria.Protocol.Error.{ErrorCategory}
use atria.Compositor.State.Access.{connection}
use atria.Compositor.State.Keyboard.{register_shortcut, unregister_shortcut}
use atria.Compositor.State.Text.{
  tell_composing, tell_field, enable_text, disable_text, set_cursor_area, set_preedit, commit_text,
  text_done,
}
use atria.Compositor.State.Dispatch.{
  get_device, create_registry, create_pool, create_surface, import_buffer, in_use, destroy,
  unknown_request, dispatch_object, dispatch_own, is_shell_request, dispatch_checked, penalize,
  answer, dispatch,
}
use atria.Compositor.State.Follows.Surfaces.{
  attach-Holds, damage-Holds, set_role-Holds, request_frame-Holds, set_refresh_range-Holds,
  commit-Follows,
}
use atria.Compositor.State.Follows.Objects.{destroy_object-Follows}
use atria.Compositor.State.Follows.Windows.{
  create_buffer-Holds, get_toplevel-Follows, set_title-Holds, set_min_size-Holds,
  set_max_size-Holds,
}
use atria.Compositor.State.Follows.Shells.{dispatch_shell-Follows}
use atria.Compositor.State.Follows.Globals.{announce_globals-Follows, bind_global-Follows}

module _ (start : CompositorState) where
  get_device-Holds :
      (s : CompositorState) (c : ConnectionId) (id new_id : ObjectId) (k : ObjectKind)
      → Follows start s
      → Holds start (get_device s c id new_id k)
  unfolding get_device
  get_device-Holds s c id new_id k p =
      bind-Holds start (expect_kind s c id ObjectKind.seat) _
        λ x e. allocate_client-Holds start s c new_id k _ p

  create_registry-Holds :
      (s : CompositorState) (c : ConnectionId) (id : ObjectId)
      → Follows start s
      → Holds start (create_registry s c id)
  unfolding create_registry Holds
  create_registry-Holds s c id p =
      bind_state-Holds start (allocate_client s c id ObjectKind.registry Object.registry) _
        (allocate_client-Holds start s c id _ _ p)
        λ t q. announce_globals-Follows start c id t.globals t q

  create_pool-Holds :
      (s : CompositorState) (c : ConnectionId) (id : ObjectId) (memory : SharedMemory)
      → Follows start s
      → Holds start (create_pool s c id memory)
  unfolding create_pool
  create_pool-Holds s c id memory p =
      bind-Holds start (require_capability s c id Capability.buffer_import) _ λ x e.
        bind-Holds start (check_kind_quota s c ObjectKind.shm_pool) _
          λ x e. allocate_client-Holds start s c id _ _ p

  create_surface-Holds :
      (s : CompositorState) (c : ConnectionId) (id : ObjectId)
      → Follows start s
      → Holds start (create_surface s c id)
  unfolding create_surface
  create_surface-Holds s c id p =
      bind-Holds start (require_capability s c id Capability.surface_create) _ λ x e.
        bind-Holds start (ok_or (session_of s c) (StateError.invalid_state id)) _ λ owner e.
          bind-Holds start (expect_active_session s c owner) _ λ x e.
            bind-Holds start (check_kind_quota s c ObjectKind.surface) _
              λ x e. allocate_client-Holds start s c id _ _ p

  import_buffer-Holds :
      (s : CompositorState) (c : ConnectionId) (id : ObjectId) (d : BufferDescriptor)
      → Follows start s
      → Holds start (import_buffer s c id d)
  unfolding import_buffer
  import_buffer-Holds s c id d p =
      bind-Holds start (require_capability s c id Capability.buffer_import) _ λ x e.
        bind-Holds start (require_capability s c id (transport_capability d.transport)) _ λ x e.
          bind-Holds start (guard (is_structurally_valid d) (StateError.invalid_state id)) _ λ x e.
            bind-Holds start (check_kind_quota s c ObjectKind.buffer) _
              λ x e. allocate_client-Holds start s c id _ _ p

  register_shortcut-Holds :
      (s : CompositorState) (c : ConnectionId) (manager : ObjectId) (n : ℕ) (seat_id : SeatId)
      (chord : Chord)
      → Follows start s
      → Holds start (register_shortcut s c manager n seat_id chord)
  unfolding register_shortcut Holds
  register_shortcut-Holds s c manager n seat_id chord p =
      bind-Holds start (expect_kind s c manager ObjectKind.shortcuts) _ λ x e.
        bind-Holds start
          (guard (not (leb max_shortcuts (length s.shortcuts))) (StateError.quota_exceeded manager))
          _
          λ x e.
            bind-Holds start
              (guard (not (contains_key (seat_id, chord) s.shortcuts))
                (StateError.invalid_state manager))
              _ λ x e. moved start p (refl, refl, refl, refl)

  unregister_shortcut-Holds :
      (s : CompositorState) (c : ConnectionId) (manager : ObjectId) (n : ℕ)
      → Follows start s
      → Holds start (unregister_shortcut s c manager n)
  unfolding unregister_shortcut Holds
  unregister_shortcut-Holds s c manager n p =
      bind-Holds start (expect_kind s c manager ObjectKind.shortcuts) _
        λ x e. moved start p (refl, refl, refl, refl)

  enable_text-Holds :
      (s : CompositorState) (c : ConnectionId) (id : ObjectId) (purpose : TextPurpose)
      → Follows start s
      → Holds start (enable_text s c id purpose)
  unfolding enable_text Holds
  enable_text-Holds s c id purpose p =
      bind-Holds start (expect_kind s c id ObjectKind.text_input) _ λ x e.
        bind-Holds start
          (guard (not (leb max_text_fields (length s.fields))) (StateError.quota_exceeded id)) _
          λ x e.
            let field : TextField = record {
              connection = c;
              object = id;
              purpose = purpose;
              caret = empty_rect;
            } in
            refresh_composition-Follows start (record s { fields = insert (c, id) field s.fields })
              (moved start p (refl, refl, refl, refl))

  disable_text-Holds :
      (s : CompositorState) (c : ConnectionId) (id : ObjectId)
      → Follows start s
      → Holds start (disable_text s c id)
  unfolding disable_text Holds
  disable_text-Holds s c id p = bind-Holds start (expect_kind s c id ObjectKind.text_input) _ λ x e.
      refresh_composition-Follows start (record s { fields = remove (c, id) s.fields })
        (moved start p (refl, refl, refl, refl))

  set_cursor_area-Holds :
      (s : CompositorState) (c : ConnectionId) (id : ObjectId) (r : Rect)
      → Follows start s
      → Holds start (set_cursor_area s c id r)
  unfolding set_cursor_area Holds
  set_cursor_area-Holds s c id r p =
      bind-Holds start (expect_kind s c id ObjectKind.text_input) _
        λ x e. moved start p (refl, refl, refl, refl)

  tell_composing-Follows :
      (s : CompositorState) (kind : EventKind) (field : Option TextField)
      → Follows start s
      → Follows start (tell_composing s kind field)
  unfolding tell_composing
  tell_composing-Follows s kind none p = p
  tell_composing-Follows s kind (some f) p = push_event-Follows start s f.connection f.object kind p

  tell_field-Follows :
      (s : CompositorState) (n : ℕ) (kind : EventKind)
      → Follows start s
      → Follows start (tell_field s n kind)
  unfolding tell_field
  tell_field-Follows s n kind p =
      if_intro (Follows start) (n == s.composition)
        (λ e. tell_composing-Follows s kind s.composing p) (λ e. p)

  set_preedit-Holds :
      (s : CompositorState) (c : ConnectionId) (id : ObjectId) (n : ℕ) (text : TextBuffer) (a b : ℤ)
      → Follows start s
      → Holds start (set_preedit s c id n text a b)
  unfolding set_preedit Holds
  set_preedit-Holds s c id n text a b p =
      bind-Holds start (expect_kind s c id ObjectKind.input_method) _
        λ x e. tell_field-Follows s n _ p

  commit_text-Holds :
      (s : CompositorState) (c : ConnectionId) (id : ObjectId) (n : ℕ) (text : TextBuffer)
      → Follows start s
      → Holds start (commit_text s c id n text)
  unfolding commit_text Holds
  commit_text-Holds s c id n text p =
      bind-Holds start (expect_kind s c id ObjectKind.input_method) _
        λ x e. tell_field-Follows s n _ p

  text_done-Holds :
      (s : CompositorState) (c : ConnectionId) (id : ObjectId) (n serial : ℕ)
      → Follows start s
      → Holds start (text_done s c id n serial)
  unfolding text_done Holds
  text_done-Holds s c id n serial p =
      bind-Holds start (expect_kind s c id ObjectKind.input_method) _
        λ x e. tell_field-Follows s n _ p

  destroy-Holds :
      (s : CompositorState) (c : ConnectionId) (id : ObjectId)
      → Follows start s
      → Holds start (destroy s c id)
  unfolding destroy Holds
  destroy-Holds s c id p =
      bind-Holds start (guard (not (id == display_id)) (StateError.invalid_state id)) _ λ x e.
        bind-Holds start (expect_any s c id) _ λ x e.
          bind-Holds start (guard (not (in_use (buffer s c id))) (StateError.invalid_state id)) _
            λ x e. destroy_object-Follows start s c id p

  unknown_request-Holds :
      (s : CompositorState) (c : ConnectionId) (id : ObjectId) (opcode : ℕ)
      → Holds start (unknown_request s c id opcode)
  unfolding unknown_request Holds
  unknown_request-Holds s c id opcode = bind-Holds start (expect_any s c id) _ λ x e. tt

  dispatch_object-Holds :
      (s : CompositorState) (c : ConnectionId) (request : ClientRequest)
      → Follows start s
      → Holds start (dispatch_object s c request)
  unfolding dispatch_object Holds
  dispatch_object-Holds s c (ClientRequest.create_registry new_id) p =
      create_registry-Holds s c new_id p
  dispatch_object-Holds s c (ClientRequest.create_pool new_id memory) p =
      create_pool-Holds s c new_id memory p
  dispatch_object-Holds s c (ClientRequest.create_buffer new_id pool offset size stride format) p =
      create_buffer-Holds start s c new_id pool offset size stride format p
  dispatch_object-Holds s c (ClientRequest.create_surface new_id) p =
      create_surface-Holds s c new_id p
  dispatch_object-Holds s c (ClientRequest.import_buffer new_id d) p =
      import_buffer-Holds s c new_id d p
  dispatch_object-Holds s c (ClientRequest.get_pointer id new_id) p =
      get_device-Holds s c id new_id _ p
  dispatch_object-Holds s c (ClientRequest.get_keyboard id new_id) p =
      get_device-Holds s c id new_id _ p
  dispatch_object-Holds s c (ClientRequest.register_shortcut manager n seat_id chord) p =
      register_shortcut-Holds s c manager n seat_id chord p
  dispatch_object-Holds s c (ClientRequest.unregister_shortcut manager n) p =
      unregister_shortcut-Holds s c manager n p
  dispatch_object-Holds s c (ClientRequest.enable_text id purpose) p =
      enable_text-Holds s c id purpose p
  dispatch_object-Holds s c (ClientRequest.disable_text id) p = disable_text-Holds s c id p
  dispatch_object-Holds s c (ClientRequest.set_cursor_area id r) p =
      set_cursor_area-Holds s c id r p
  dispatch_object-Holds s c (ClientRequest.set_preedit id n text a b) p =
      set_preedit-Holds s c id n text a b p
  dispatch_object-Holds s c (ClientRequest.commit_text id n text) p =
      commit_text-Holds s c id n text p
  dispatch_object-Holds s c (ClientRequest.text_done id n serial) p =
      text_done-Holds s c id n serial p
  dispatch_object-Holds s c (ClientRequest.set_title id title) p =
      set_title-Holds start s c id title p
  dispatch_object-Holds s c (ClientRequest.set_min_size id size) p =
      set_min_size-Holds start s c id size p
  dispatch_object-Holds s c (ClientRequest.set_max_size id size) p =
      set_max_size-Holds start s c id size p
  dispatch_object-Holds s c (ClientRequest.attach id b offset f) p =
      attach-Holds start s c id b offset f p
  dispatch_object-Holds s c (ClientRequest.damage id r) p = damage-Holds start s c id r p
  dispatch_object-Holds s c (ClientRequest.set_role id role) p = set_role-Holds start s c id role p
  dispatch_object-Holds s c (ClientRequest.request_frame id serial) p =
      request_frame-Holds start s c id serial p
  dispatch_object-Holds s c (ClientRequest.set_refresh_range id a b) p =
      set_refresh_range-Holds start s c id a b p
  dispatch_object-Holds s c (ClientRequest.destroy id) p = destroy-Holds s c id p
  dispatch_object-Holds s c (ClientRequest.unknown id opcode) p =
      unknown_request-Holds s c id opcode
  dispatch_object-Holds s c _ p = p

  dispatch_own-Follows :
      (s : CompositorState) (c : ConnectionId) (request : ClientRequest)
      → Follows start s
      → Follows start (dispatch_own s c request).0
  unfolding dispatch_own
  dispatch_own-Follows s c (ClientRequest.bind name version new_id) p =
      bind_global-Follows start s c name version new_id p
  dispatch_own-Follows s c (ClientRequest.get_toplevel id new_id) p =
      get_toplevel-Follows start s c id new_id p
  dispatch_own-Follows s c (ClientRequest.commit id) p = commit-Follows start s c id p
  dispatch_own-Follows s c request p =
      settle-Follows start s _ p (dispatch_object-Holds s c request p)

  dispatch_checked-Follows :
      (s : CompositorState) (c : ConnectionId) (request : ClientRequest)
      → Follows start s
      → Follows start (dispatch_checked s c request).0
  unfolding dispatch_checked
  dispatch_checked-Follows s c request p =
      if_intro (λ (r : Outcome (Unit {0})). Follows start r.0) (is_shell_request request)
        (λ e. dispatch_shell-Follows start s c request p) (λ e. dispatch_own-Follows s c request p)

  penalize-Follows :
      (s : CompositorState) (c : ConnectionId) (id : ObjectId) (category : ErrorCategory)
      → Follows start s
      → Follows start (penalize s c id category)
  unfolding penalize
  penalize-Follows s c id ErrorCategory.protocol p = close_connection-Follows start s c p
  penalize-Follows s c id ErrorCategory.object p = destroy_object-Follows start s c id p
  penalize-Follows s c id ErrorCategory.resource p = p
  penalize-Follows s c id ErrorCategory.compositor p = p

  answer-Follows :
      (c : ConnectionId) (r : Outcome (Unit {0})) → Follows start r.0 → Follows start (answer c r).0
  unfolding answer
  answer-Follows c (s, ok x) p = p
  answer-Follows c (s, err e) p =
      penalize-Follows _ c (error_object_id e) (error_category e)
        (push_event-Follows start s c _ _ p)

  dispatched :
      (s : CompositorState) (c : ConnectionId) (request : ClientRequest)
      → Follows start s
      → Follows start (dispatch s c request).0
  unfolding dispatch
  dispatched s c request p =
      after-Follows start s (connection s c) _ p
        λ client. answer-Follows c _ (dispatch_checked-Follows s c request p)

-- Whatever a client asks, whether it is granted, refused or punished, the compositor goes from its
-- state to the next by steps of the relation `Follows`.
pub dispatch-Follows :
    (s : CompositorState) (c : ConnectionId) (request : ClientRequest)
    → Follows s (dispatch s c request).0
dispatch-Follows s c request = dispatched s s c request stays
