-- ===== src/Compositor/State/Stacking/Effects.antt =====
-- What a write to one object does to the content of every surface.
use atria.Base.{
  true, false, ok, Bool, ◌≡◌, refl, ap, ◌∙◌, ◌&&◌, Option, none, some, ◌==◌, if◌then◌else◌, arith,
  is_some,
}
use atria.Base.Map.{lookup, ℕ_key, lookup-update}
use mathlib.Core.Option
use atria.Compositor.Model.{ConnectionId, ObjectId, ObjectKind, SurfaceKey}
use atria.Compositor.Registry.{RegistryEntry, set_value, entry}
use atria.Compositor.State.{SurfaceState, CompositorState, Connection, Object}
use atria.Compositor.State.Access.{
  in_surface, connection, object_entry, object, surface, surface_snapshot, kind_eqb, key_eqb,
  modify_connection, modify_object, as_surface,
}

-- An entry of a connection's registry, if there is one.
unfoldable pub registry_entry : ObjectId → Option Connection → Option (RegistryEntry Object)
registry_entry id none = none
registry_entry id (some client) = lookup id client.registry.live

unfoldable pub entry_of : CompositorState → ConnectionId → ObjectId → Option (RegistryEntry Object)
unfolding registry_entry
entry_of s c id = registry_entry id (lookup c s.connections)

-- Has the object content?
unfoldable pub has_content : Object → Bool
has_content (Object.surface v) = is_some v.current
has_content _ = false

unfoldable pub content_of : Option (RegistryEntry Object) → Bool
unfolding has_content
content_of none = false
content_of (some e) = kind_eqb e.kind ObjectKind.surface && has_content e.value

-- Has the surface content?
unfoldable pub is_shown : CompositorState → SurfaceKey → Bool
unfolding surface_snapshot
is_shown s key = is_some (surface_snapshot s key.0 key.1)

pub is_shown_lem :
    (s : CompositorState) (key : SurfaceKey) → is_shown s key ≡ content_of (entry_of s key.0 key.1)
unfolding is_shown entry_of content_of surface_snapshot surface object object_entry connection entry
    registry_entry as_surface has_content kind_eqb
is_shown_lem s key = ground arith

unfoldable pub changed :
    (Object → Object) → Option (RegistryEntry Object) → Option (RegistryEntry Object)
changed f none = none
changed f (some e) = some (record e { value = f e.value })

unfoldable pub written : ObjectId → (Object → Object) → Connection → Connection
written i f client = record client { registry = set_value i f client.registry }

lookup-set_value :
    (i j : ObjectId) (f : Object → Object) (client : Connection)
    → lookup j (written i f client).registry.live ≡ (
        if i == j then changed f (lookup j client.registry.live) else lookup j client.registry.live)
unfolding written set_value changed
lookup-set_value i j f client =
    ground (arith, lookup-update i j (λ e. record e { value = f e.value }) client.registry.live)

entry-written :
    (c : ConnectionId) (i : ObjectId) (f : Object → Object) (d : ConnectionId) (j : ObjectId)
    (found : Option Connection)
    → registry_entry j (if c == d then Option.map (written i f) found else found)
      ≡ (if c == d && i == j then changed f (registry_entry j found) else registry_entry j found)
unfolding registry_entry changed
entry-written c i f d j none = ground arith
entry-written c i f d j (some client) = ground (arith, lookup-set_value i j f client)

pub entry_of-modify_object :
    (c : ConnectionId) (i : ObjectId) (f : Object → Object) (s : CompositorState) (d : ConnectionId)
    (j : ObjectId)
    → entry_of (modify_object c i f s) d j
      ≡ (if key_eqb (c, i) (d, j) then changed f (entry_of s d j) else entry_of s d j)
unfolding entry_of modify_object modify_connection key_eqb written
entry_of-modify_object c i f s d j =
    ap (registry_entry j) (lookup-update c d (written i f) s.connections)
    ∙ entry-written c i f d j (lookup d s.connections)

content-changed :
    (f : Object → Object) (e : Option (RegistryEntry Object))
    → ((o : Object) → has_content (f o) ≡ has_content o)
    → content_of (changed f e) ≡ content_of e
unfolding content_of changed
content-changed f none same = refl
content-changed f (some e) same = ap (λ b. kind_eqb e.kind ObjectKind.surface && b) (same e.value)

-- A write to an object that leaves the content of surfaces as it is.
pub content-written :
    (i j : ObjectId) (f : Object → Object) (v : Connection)
    → ((o : Object) → has_content (f o) ≡ has_content o)
    → content_of (lookup j (written i f v).registry.live) ≡ content_of (lookup j v.registry.live)
content-written i j f v same =
    ap content_of (lookup-set_value i j f v)
    ∙ ground (arith, content-changed f (lookup j v.registry.live) same)

-- Is the object a surface, by its entry and by its value?
unfoldable pub is_surface : Object → Bool
is_surface (Object.surface v) = true
is_surface _ = false

unfoldable pub surface_of : Option (RegistryEntry Object) → Bool
unfolding is_surface
surface_of none = false
surface_of (some e) = kind_eqb e.kind ObjectKind.surface && is_surface e.value

pub surface-surface_of :
    (s : CompositorState) (c : ConnectionId) (id : ObjectId) (v : SurfaceState)
    → surface s c id ≡ ok v
    → (surface_of (entry_of s c id) ≡ true) × (is_some (lookup c s.connections) ≡ true)
unfolding surface object object_entry connection entry entry_of registry_entry as_surface surface_of
    is_surface kind_eqb
surface-surface_of s c id v h = ground arith

surface-changed :
    (f : Object → Object) (e : Option (RegistryEntry Object))
    → ((o : Object) → is_surface (f o) ≡ is_surface o)
    → surface_of (changed f e) ≡ surface_of e
unfolding surface_of changed
surface-changed f none same = refl
surface-changed f (some e) same = ap (λ b. kind_eqb e.kind ObjectKind.surface && b) (same e.value)

pub surface_of-modify_object :
    (c : ConnectionId) (i : ObjectId) (f : Object → Object) (s : CompositorState) (d : ConnectionId)
    (j : ObjectId)
    → ((o : Object) → is_surface (f o) ≡ is_surface o)
    → surface_of (entry_of (modify_object c i f s) d j) ≡ surface_of (entry_of s d j)
surface_of-modify_object c i f s d j same =
    ap surface_of (entry_of-modify_object c i f s d j)
    ∙ ground (arith, surface-changed f (entry_of s d j) same)

given_value :
    (f : SurfaceState → SurfaceState) (b : Bool) (o : Object)
    → ((v : SurfaceState) → is_some (f v).current ≡ b)
    → has_content (in_surface f o) ≡ (if is_surface o then b else false)
unfolding has_content in_surface is_surface
given_value f b (Object.surface v) given = given v
given_value f b Object.display given = refl
given_value f b Object.registry given = refl
given_value f b Object.global given = refl
given_value f b Object.input_stream given = refl
given_value f b (Object.toplevel x) given = refl
given_value f b (Object.shm_pool x) given = refl
given_value f b (Object.seat x) given = refl
given_value f b (Object.session x) given = refl
given_value f b (Object.buffer x) given = refl
given_value f b (Object.fence x) given = refl

-- A surface that is given content has it, and one that loses it has none.
pub content-given :
    (f : SurfaceState → SurfaceState) (b : Bool) (e : Option (RegistryEntry Object))
    → ((v : SurfaceState) → is_some (f v).current ≡ b)
    → content_of (changed (in_surface f) e) ≡ (if surface_of e then b else false)
unfolding content_of changed surface_of has_content in_surface is_surface
content-given f b none given = refl
content-given f b (some e) given = ground (arith, given_value f b e.value given)
