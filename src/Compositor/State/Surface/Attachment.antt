-- ===== src/Compositor/State/Surface/Attachment.antt =====
-- A buffer is attached to one surface at a time, and a surface has one attachment before its commit.
use atria.Base.{
  ◌≡◌, ◌≢◌, refl, ap, sym, subst, ◌∙◌, true, false, Option, none, some, if◌then◌else◌, arith,
  Result, ok, err, is_ok, Result-cases, inl, inr,
}
use atria.Compositor.Model.{ConnectionId, ObjectId, null_id, ObjectKind, Point, BufferState}
use atria.Compositor.Registry.{RegistryEntry, entry}
use atria.Compositor.State.{CompositorState, Object, SurfaceState, BufferObject, PendingAttachment}
use atria.Compositor.State.Access.{
  buffer, surface, object, object_entry, connection, as_buffer, kind_eqb, key_eqb, modify_object,
  modify_surface, in_surface, with_buffer_state, set_buffer_state,
}
use atria.Compositor.State.Surface.{attach, attach_buffer, is_unchanged, is_available}
use atria.Compositor.State.Stacking.Effects.{
  entry_of, registry_entry, entry_of-modify_object, changed,
}

-- A buffer, or a surface, by its entry.
buffer_value : Option (RegistryEntry Object) → Result (Unit {0}) BufferObject
unfolding as_buffer kind_eqb
buffer_value none = err tt
buffer_value (some e) =
    if kind_eqb e.kind ObjectKind.buffer
    then elim (as_buffer 0 e.value) [ ok x ↦ ok x | err x ↦ err tt ]
    else err tt

buffer-buffer_value :
    (s : CompositorState) (c : ConnectionId) (b : ObjectId) (x : BufferObject)
    → (buffer s c b ≡ ok x → buffer_value (entry_of s c b) ≡ ok x)
      × (buffer_value (entry_of s c b) ≡ ok x → buffer s c b ≡ ok x)
unfolding buffer object object_entry connection entry entry_of registry_entry as_buffer kind_eqb
    buffer_value
buffer-buffer_value s c b x = (λ h. ground (arith, h), λ h. ground (arith, h))

attached :
    (s t : CompositorState) (c : ConnectionId) (id b : ObjectId) (offset : Point)
    (f : Option ObjectId)
    → b ≢ null_id
    → attach s c id b offset f ≡ ok t
    → (v : SurfaceState) × (x : BufferObject) × (surface s c id ≡ ok v)
      × (buffer s c b ≡ ok x)
      × (is_unchanged v.pending.attachment ≡ true)
      × (is_available x.state ≡ true)
      × (t
          ≡ modify_surface c id
              (λ v. record v {
                pending = record v.pending {
                  attachment = PendingAttachment.set_buffer b offset;
                  acquire_fence = f;
                };
              })
              (modify_object c b (with_buffer_state (BufferState.pending (c, id))) s))
unfolding attach attach_buffer set_buffer_state
attached s t c id b offset f nonzero h = elim (Result-cases (surface s c id)) [
  | inl (v, e) ↦ elim (Result-cases (buffer s c b)) [
    | inl (x, d) ↦ (
      v,
      x,
      e,
      d,
      ground (arith, h, e, d, nonzero),
      ground (arith, h, e, d, nonzero),
      ground (arith, h, e, d, nonzero),
    )
    | inr (x, d) ↦ ground (arith, h, e, d, nonzero)
  ]
  | inr (x, e) ↦ ground (arith, h, e)
]

key_eqb_refl : (c : ConnectionId) (b : ObjectId) → key_eqb (c, b) (c, b) ≡ true
unfolding key_eqb
key_eqb_refl c b = ground arith

value-with_state :
    (y : BufferState) (e : Option (RegistryEntry Object)) (x : BufferObject)
    → buffer_value e ≡ ok x
    → buffer_value (changed (with_buffer_state y) e) ≡ ok (record x { state = y })
unfolding buffer_value changed with_buffer_state as_buffer
value-with_state y e x h = ground (arith, h)

value-in_surface :
    (g : SurfaceState → SurfaceState) (e : Option (RegistryEntry Object)) (x : BufferObject)
    → buffer_value e ≡ ok x
    → buffer_value (changed (in_surface g) e) ≡ ok x
unfolding buffer_value changed in_surface as_buffer
value-in_surface g e x h = ground (arith, h)

-- A write to the attached buffer, then one to a surface, as the buffer sees them.
buffer-pending :
    (s : CompositorState) (c : ConnectionId) (id b : ObjectId) (y : BufferState)
    (g : SurfaceState → SurfaceState) (x : BufferObject)
    → buffer s c b ≡ ok x
    → buffer (modify_surface c id g (modify_object c b (with_buffer_state y) s)) c b
      ≡ ok (record x { state = y })
unfolding modify_surface
buffer-pending s c id b y g x h =
    let t : CompositorState = modify_object c b (with_buffer_state y) s in
    let after : BufferObject = record x { state = y } in
    let first : buffer_value (entry_of t c b) ≡ ok after =
      ap buffer_value (entry_of-modify_object c b (with_buffer_state y) s c b)
      ∙ ground (
        arith,
        value-with_state y (entry_of s c b) x ((buffer-buffer_value s c b x).0 h),
        key_eqb_refl c b,
      ) in
    (buffer-buffer_value (modify_object c id (in_surface g) t) c b after).1 (
      ap buffer_value (entry_of-modify_object c id (in_surface g) t c b)
      ∙ ground (arith, first, value-in_surface g (entry_of t c b) after first))

available_state : (y : BufferState) → is_available y ≡ true → y ≡ BufferState.available
unfolding is_available
available_state y h = ground (arith, h)

-- A buffer that is not available cannot be attached.
refused :
    (t : CompositorState) (c : ConnectionId) (b other : ObjectId) (place : Point)
    (g : Option ObjectId) (x : BufferObject)
    → b ≢ null_id
    → buffer t c b ≡ ok x
    → is_available x.state ≡ false
    → is_ok (attach t c other b place g) ≡ false
unfolding attach attach_buffer
refused t c b other place g x nonzero h taken = ground (arith, h, taken, nonzero)

-- Attaching a buffer to a surface succeeds only where the buffer is available, and leaves it pending at
-- that surface; in any later state in which the buffer is still as the attachment left it, no surface of
-- the connection, the same one included, can take it, whatever the offset and the fence.
pub attach-exclusive :
    (s t later : CompositorState) (c : ConnectionId) (id b : ObjectId) (offset : Point)
    (f : Option ObjectId)
    → b ≢ null_id
    → attach s c id b offset f ≡ ok t
    → buffer later c b ≡ buffer t c b
    → (x : BufferObject) × (buffer s c b ≡ ok x)
      × (x.state ≡ BufferState.available)
      × (buffer t c b ≡ ok (record x { state = BufferState.pending (c, id) }))
      × ((other : ObjectId) (place : Point) (g : Option ObjectId)
          → is_ok (attach later c other b place g) ≡ false)
unfolding is_available
attach-exclusive s t later c id b offset f nonzero h unmoved =
    let (v, x, e, d, unchanged, available, et) = attached s t c id b offset f nonzero h in
    let give : SurfaceState → SurfaceState = λ v. record v {
      pending = record v.pending {
        attachment = PendingAttachment.set_buffer b offset;
        acquire_fence = f;
      };
    } in
    let after : BufferObject = record x { state = BufferState.pending (c, id) } in
    let held : buffer t c b ≡ ok after =
      subst (λ u. buffer u c b ≡ ok after) (sym et)
        (buffer-pending s c id b (BufferState.pending (c, id)) give x d) in
    (
      x,
      d,
      available_state x.state available,
      held,
      λ other place g. refused later c b other place g after nonzero (unmoved ∙ held) refl,
    )
