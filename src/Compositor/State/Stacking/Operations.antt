-- ===== src/Compositor/State/Stacking/Operations.antt =====
-- The operations on surfaces keep the scene as it should be.
use atria.Base.{
  ◌≡◌, refl, ap, ◌∙◌, subst, Bool, true, false, not, ◌||◌, none, some, [], ◌∷◌, if◌then◌else◌,
  arith, is_some, ok, if_intro,
}
use atria.Base.Map.{
  lookup, update, contains_key, ℕ_key, pair_key, pair_eqb_iff, lookup-update, lookup-insert,
}
use atria.Compositor.Model.{ConnectionId, ObjectId, SurfaceKey, BufferState, origin}
use atria.Compositor.State.{CompositorState, Object, SurfaceState, CurrentSurface}
use atria.Compositor.State.Access.{
  key_eqb, modify_connection, modify_object, modify_surface, in_surface, set_buffer_state,
  with_buffer_state,
}
use atria.Compositor.State.Surface.{stacked, unstack, map}
use atria.Compositor.State.Stacking.Effects.{
  entry_of, content_of, registry_entry, has_content, written, content-written, is_surface,
  surface_of, surface_of-modify_object, content-given, entry_of-modify_object,
}
use atria.Compositor.State.Stacking.Sound.{
  IsComposed, modify-IsComposed, key_eqb_iff, stacked-keep, stacked-append,
}

-- A write that leaves the content of every object.
pub write-IsComposed :
    (s : CompositorState) (c : ConnectionId) (i : ObjectId) (f : Object → Object)
    → ((o : Object) → has_content (f o) ≡ has_content o)
    → IsComposed s
    → IsComposed (modify_object c i f s)
unfolding modify_object written
write-IsComposed s c i f same p =
    modify-IsComposed s c (written i f) (λ v j. content-written i j f v same) p

pub in_surface-content :
    (f : SurfaceState → SurfaceState)
    → ((v : SurfaceState) → (f v).current ≡ v.current)
    → (o : Object) → has_content (in_surface f o) ≡ has_content o
unfolding has_content in_surface
in_surface-content f same (Object.surface v) = ap is_some (same v)
in_surface-content f same _ = refl

pub in_surface-is_surface :
    (f : SurfaceState → SurfaceState) (o : Object) → is_surface (in_surface f o) ≡ is_surface o
unfolding is_surface in_surface
in_surface-is_surface f (Object.surface v) = refl
in_surface-is_surface f _ = refl

buffer-content :
    (b : BufferState) (o : Object) → has_content (with_buffer_state b o) ≡ has_content o
unfolding has_content with_buffer_state
buffer-content b (Object.buffer v) = refl
buffer-content b _ = refl

buffer-is_surface :
    (b : BufferState) (o : Object) → is_surface (with_buffer_state b o) ≡ is_surface o
unfolding is_surface with_buffer_state
buffer-is_surface b (Object.buffer v) = refl
buffer-is_surface b _ = refl

set_buffer_state-lem :
    (s t : CompositorState) (c : ConnectionId) (b : ObjectId) (x : BufferState)
    → set_buffer_state s c b x ≡ ok t
    → modify_object c b (with_buffer_state x) s ≡ t
unfolding set_buffer_state
set_buffer_state-lem s t c b x h = ground arith

pub set_buffer-IsComposed :
    (s t : CompositorState) (c : ConnectionId) (b : ObjectId) (x : BufferState)
    → set_buffer_state s c b x ≡ ok t
    → IsComposed s
    → IsComposed t
set_buffer-IsComposed s t c b x h p =
    subst (λ u. IsComposed u) (set_buffer_state-lem s t c b x h)
      (write-IsComposed s c b (with_buffer_state x) (buffer-content x) p)

-- `map` on a state where everything but the surface's own entry agrees.
map-IsComposed :
    (t : CompositorState) (k : SurfaceKey)
    → ((d : ConnectionId) (j : ObjectId)
        → content_of (registry_entry j (lookup d t.connections))
          ≡ key_eqb k (d, j) || stacked (d, j) t.scene.stack)
    → ((key : SurfaceKey)
        → stacked key t.scene.stack ≡ true
        → contains_key key t.scene.positions ≡ true)
    → ((key : SurfaceKey)
        → contains_key key t.scene.positions ≡ true
        → contains_key key.0 t.connections ≡ true)
    → contains_key k.0 t.connections ≡ true
    → IsComposed (map k t)
unfolding map
map-IsComposed t k shown placed connected here =
    if_intro (λ u. IsComposed u) (stacked k t.scene.stack)
      (λ stands. record {
        shown = λ d j. ground (arith, shown d j, key_eqb_iff k (d, j), stands);
        placed = placed;
        connected = connected;
      })
      (λ absent. record {
        shown = λ d j. shown d j ∙ ground (arith, stacked-append (d, j) t.scene.stack (k ∷ []));
        placed = λ key h. ground (
          arith,
          placed key,
          stacked-append key t.scene.stack (k ∷ []),
          key_eqb_iff k key,
          lookup-insert k key origin t.scene.positions,
          pair_eqb_iff ℕ_key ℕ_key k key,
        );
        connected = λ key h. ground (
          arith,
          connected key,
          here,
          lookup-insert k key origin t.scene.positions,
          pair_eqb_iff ℕ_key ℕ_key k key,
        );
      })

-- The content of every object after a surface is given content, or loses it.
given-shown :
    (s : CompositorState) (c : ConnectionId) (id : ObjectId) (f : SurfaceState → SurfaceState)
    (b : Bool) (d : ConnectionId) (j : ObjectId)
    → ((v : SurfaceState) → is_some (f v).current ≡ b)
    → content_of (entry_of (modify_surface c id f s) d j) ≡ (
        if key_eqb (c, id) (d, j)
        then (if surface_of (entry_of s d j) then b else false)
        else content_of (entry_of s d j))
unfolding modify_surface
given-shown s c id f b d j given =
    ap content_of (entry_of-modify_object c id (in_surface f) s d j)
    ∙ ground (arith, content-given f b (entry_of s d j) given)

modify_object-connected :
    (s : CompositorState) (c : ConnectionId) (id : ObjectId) (f : Object → Object)
    (d : ConnectionId)
    → contains_key d (modify_object c id f s).connections ≡ contains_key d s.connections
unfolding modify_object modify_connection update written
modify_object-connected s c id f d =
    ap is_some (lookup-update c d (written id f) s.connections) ∙ ground arith

pub modify_surface-connected :
    (s : CompositorState) (c : ConnectionId) (id : ObjectId) (f : SurfaceState → SurfaceState)
    (d : ConnectionId)
    → contains_key d (modify_surface c id f s).connections ≡ contains_key d s.connections
unfolding modify_surface
modify_surface-connected s c id f d = modify_object-connected s c id (in_surface f) d

-- A buffer's state is no matter for which surfaces and connections there are.
pub set_buffer-surface_of :
    (s t : CompositorState) (c : ConnectionId) (b : ObjectId) (x : BufferState) (d : ConnectionId)
    (j : ObjectId)
    → set_buffer_state s c b x ≡ ok t
    → (surface_of (entry_of t d j) ≡ surface_of (entry_of s d j))
      × (contains_key d t.connections ≡ contains_key d s.connections)
set_buffer-surface_of s t c b x d j h =
    subst
      (λ (u : CompositorState).
        (surface_of (entry_of u d j) ≡ surface_of (entry_of s d j))
        × (contains_key d u.connections ≡ contains_key d s.connections))
      (set_buffer_state-lem s t c b x h)
      (
        surface_of-modify_object c b (with_buffer_state x) s d j (buffer-is_surface x),
        modify_object-connected s c b (with_buffer_state x) d,
      )

-- A surface that is given content, and joins the scene.
pub shown-IsComposed :
    (s : CompositorState) (c : ConnectionId) (id : ObjectId) (u : CurrentSurface)
    → surface_of (entry_of s c id) ≡ true
    → is_some (lookup c s.connections) ≡ true
    → IsComposed s
    → IsComposed (map (c, id) (modify_surface c id (λ w. record w { current = some u }) s))
unfolding entry_of modify_surface modify_object modify_connection update
shown-IsComposed s c id u there here p =
    let give : SurfaceState → SurfaceState = λ w. record w { current = some u } in
    map-IsComposed (modify_surface c id give s) (c, id)
      (λ d j.
        given-shown s c id give true d j (λ v. refl)
        ∙ ground (
          arith,
          p.shown d j,
          key_eqb_iff (c, id) (d, j),
          there,
          ap (λ (k : SurfaceKey). surface_of (entry_of s k.0 k.1)),
        ))
      p.placed (λ key h. modify_surface-connected s c id give key.0 ∙ p.connected key h)
      (modify_surface-connected s c id give c ∙ here)

pub bare-IsComposed :
    (s : CompositorState) (c : ConnectionId) (id : ObjectId)
    → IsComposed s
    → let bare : CompositorState = modify_surface c id (λ v. record v { current = none }) s in
      IsComposed
        (record bare { scene = record bare.scene { stack = unstack (c, id) bare.scene.stack } })
unfolding entry_of modify_surface modify_object modify_connection update
bare-IsComposed s c id p =
    let take_away : SurfaceState → SurfaceState = λ v. record v { current = none } in
    record {
      shown = λ d j.
          given-shown s c id take_away false d j (λ v. refl)
          ∙ ground (
            arith,
            p.shown d j,
            key_eqb_iff (c, id) (d, j),
            key_eqb_iff (d, j) (c, id),
            stacked-keep (λ k. not (key_eqb k (c, id))) (d, j) s.scene.stack,
          );
      placed = λ key h.
          ground
            (arith, p.placed key, stacked-keep (λ k. not (key_eqb k (c, id))) key s.scene.stack);
      connected = λ key h. modify_surface-connected s c id take_away key.0 ∙ p.connected key h;
    }
