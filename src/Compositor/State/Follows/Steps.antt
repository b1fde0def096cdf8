-- ===== src/Compositor/State/Follows/Steps.antt =====
-- That the steps the compositor's functions are made of are steps of `Follows`: events, writes,
-- allocations, and the chains of results over them.
use atria.Base.{◌≡◌, refl, not, List, leb, Result, ok, err, ◌>>=◌, guard, ok_or, arith}
use atria.Base.Map.{lookup, ℕ_key, pair_key}
use atria.Compositor.Error.{StateError}
use atria.Compositor.Request.{EventKind}
use atria.Compositor.Model.{ConnectionId, ObjectId, chord_key, ObjectKind, BufferState}
use atria.Compositor.State.{CompositorState, Object, SurfaceState}
use atria.Compositor.State.Access.{
  buffer, modify_object, modify_surface, set_buffer_state, allocate_client,
}
use atria.Compositor.State.Teardown.{
  push_event, push_all, tell_shells, refresh_composition, close_connection,
}
use atria.Compositor.Registry.{set_value, len}
use atria.Compositor.Registry
use atria.Compositor.State.Access.{in_surface}
use atria.Compositor.State.Push.{queue}
use atria.Compositor.State.Teardown.Induction.{
  IsKept, push_event-kept, push_all-kept, tell_shells-kept, refresh_composition-kept, closed-kept,
}
use atria.Compositor.State.Outcome.{Outcome, settle, after, or_same}
use atria.Compositor.State.Access.{connection}
use atria.Compositor.State.Follows.{
  Follows, goes, sends, closes, changes, allocates, elsewhere, writes, IsElsewhere,
}

module _ (start : CompositorState) where
  pub Follows-kept : IsKept (Follows start)
  unfolding queue
  Follows-kept = record {
    sent = λ s c id kind client e room p. goes p (sends c id kind client e room refl);
    overflowed = λ s c kind p. goes p (elsewhere (refl, refl, refl, refl));
    detached = λ s c p. goes p (closes c refl);
    composed = λ s method composing n p. goes p (elsewhere (refl, refl, refl, refl));
  }

  -- A method that may fail: where it does not, its state follows.
  unfoldable pub Holds : Result StateError CompositorState → Type 0
  Holds (ok t) = Follows start t
  Holds (err e) = Unit {0}

  pub bind-Holds {ℓ} :
      {A : Type ℓ} (r : Result StateError A) (f : A → Result StateError CompositorState)
      → ((a : A) → r ≡ ok a → Holds (f a))
      → Holds (r >>= f)
  unfolding Holds
  bind-Holds (ok a) f h = h a refl
  bind-Holds (err e) f h = tt

  pub bind_state-Holds :
      (r : Result StateError CompositorState)
      (f : CompositorState → Result StateError CompositorState)
      → Holds r
      → ((t : CompositorState) → Follows start t → Holds (f t))
      → Holds (r >>= f)
  unfolding Holds
  bind_state-Holds (ok a) f p h = h a p
  bind_state-Holds (err e) f p h = tt

  pub settle-Follows :
      (s : CompositorState) (r : Result StateError CompositorState)
      → Follows start s
      → Holds r
      → Follows start (settle s r).0
  unfolding Holds
  settle-Follows s (ok t) p h = h
  settle-Follows s (err e) p h = p

  pub or_same-Follows :
      (s : CompositorState) (r : Result StateError CompositorState)
      → Follows start s
      → Holds r
      → Follows start (or_same s r)
  unfolding Holds
  or_same-Follows s (ok t) p h = h
  or_same-Follows s (err e) p h = p

  pub after-Follows {ℓ} :
      {A : Type ℓ} {B : Type 0} (s : CompositorState) (r : Result StateError A) (f : A → Outcome B)
      → Follows start s
      → ((a : A) → Follows start (f a).0)
      → Follows start (after s r f).0
  after-Follows s (ok a) f p h = h a
  after-Follows s (err e) f p h = p

  pub after_state-Follows :
      {B : Type 0} (s : CompositorState) (r : Result StateError CompositorState)
      (f : CompositorState → Outcome B)
      → Follows start s
      → Holds r
      → ((t : CompositorState) → Follows start t → Follows start (f t).0)
      → Follows start (after s r f).0
  unfolding Holds
  after_state-Follows s (ok a) f p h k = k a h
  after_state-Follows s (err e) f p h k = p

  pub moved : {s t : CompositorState} → Follows start s → IsElsewhere s t → Follows start t
  moved p e = goes p (elsewhere e)

  pub push_event-Follows :
      (s : CompositorState) (c : ConnectionId) (id : ObjectId) (kind : EventKind)
      → Follows start s
      → Follows start (push_event s c id kind)
  push_event-Follows = push_event-kept (Follows start) Follows-kept

  pub push_all-Follows :
      (s : CompositorState) (to : List (ConnectionId × ObjectId)) (kind : EventKind)
      → Follows start s
      → Follows start (push_all s to kind)
  push_all-Follows = push_all-kept (Follows start) Follows-kept

  pub tell_shells-Follows :
      (s : CompositorState) (kind : EventKind)
      → Follows start s
      → Follows start (tell_shells s kind)
  tell_shells-Follows = tell_shells-kept (Follows start) Follows-kept

  pub refresh_composition-Follows :
      (s : CompositorState) → Follows start s → Follows start (refresh_composition s)
  refresh_composition-Follows = refresh_composition-kept (Follows start) Follows-kept

  pub close_connection-Follows :
      (s : CompositorState) (c : ConnectionId)
      → Follows start s
      → Follows start (close_connection s c).0
  close_connection-Follows = closed-kept (Follows start) Follows-kept

  pub modify_object-Follows :
      (s : CompositorState) (c : ConnectionId) (id : ObjectId) (f : Object → Object)
      → Follows start s
      → Follows start (modify_object c id f s)
  unfolding modify_object
  modify_object-Follows s c id f p =
      goes p (changes c (set_value id f) (λ r. writes id f refl) refl)

  pub modify_surface-Follows :
      (s : CompositorState) (c : ConnectionId) (id : ObjectId) (f : SurfaceState → SurfaceState)
      → Follows start s
      → Follows start (modify_surface c id f s)
  unfolding modify_surface
  modify_surface-Follows s c id f p = modify_object-Follows s c id (in_surface f) p

  pub set_buffer_state-Holds :
      (s : CompositorState) (c : ConnectionId) (id : ObjectId) (b : BufferState)
      → Follows start s
      → Holds (set_buffer_state s c id b)
  unfolding set_buffer_state Holds
  set_buffer_state-Holds s c id b p =
      bind-Holds (buffer s c id) _ (λ x e. modify_object-Follows s c id _ p)

  pub allocate_client-Holds :
      (s : CompositorState) (c : ConnectionId) (id : ObjectId) (k : ObjectKind) (value : Object)
      → Follows start s
      → Holds (allocate_client s c id k value)
  unfolding Holds allocate_client connection
  allocate_client-Holds s c id k value p =
      bind-Holds (ok_or (lookup c s.connections) StateError.connection_closed) _ λ client e.
        bind-Holds
          (guard (not (leb s.limits.max_objects (len client.registry)))
            (StateError.quota_exceeded id))
          _
          λ x room. bind-Holds (Registry.allocate_client id k value client.registry) _ λ r h.
            goes p
              (allocates c client id k value r (ground (arith, e)) (ground (arith, room)) h refl)
