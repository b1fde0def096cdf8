-- ===== src/Compositor/State/Teardown/Agreement.antt =====
-- Two ways to close a connection that agree on the states with few connections give the same
-- `push_event`, `refresh_composition` and `close_connection` there.
use atria.Base.{
  ℕ, ◌+◌, ◌≤◌, ◌<◌, ◌≡◌, refl, ap, ◌∙◌, Option, none, some, List, [], ◌∷◌, leb, if◌then◌else◌,
  arith, ◌==◌, length,
}
use atria.Base.Map.{Map, lookup, remove, ℕ_key, length-update, length-remove}
use atria.Compositor.Model.{ConnectionId, ObjectId, ObjectKind, ToplevelHandle, null_id}
use atria.Compositor.Request.{EventKind}
use atria.Compositor.Registry.{ids_reverse_creation}
use atria.Compositor.State.{CompositorState, Connection, TextField}
use atria.Compositor.State.Access.{modify_connection, bound_of_kind}
use atria.Compositor.State.Push.{
  queue, push_to, push_by, push_all_by, tell_shells_by, push_method_by, u32_next,
}
use atria.Compositor.State.Composition.{
  refresh_by, leave_field, enter_field, wanted_field, same_field, focused_object, minus_one,
}
use atria.Compositor.State.Teardown.{
  drop_composition, drain, drop_method, tell_all_gone, forget_composing, retired_handles,
  detach_connection, close_found,
}
use atria.Compositor.State.Teardown.Induction.{
  send, IsKept, push_by-kept, tell_shells_by-kept, leave_field-kept, refresh_by-kept,
  drop_method-kept,
}

pub length-remove_found :
    (c : ℕ) (m : Map ℕ Connection) (v : Connection)
    → lookup c m ≡ some v
    → length (remove c m) < length m
unfolding remove lookup
length-remove_found c [] v h = ground arith
length-remove_found c ((d, w) ∷ m) v h =
    ground (arith, length-remove_found c m v, length-remove c m)

-- At most so many connections.
unfoldable pub HasAtMost : ℕ → CompositorState → Type 0
HasAtMost n s = length s.connections ≤ n

pub HasAtMost-kept : (n : ℕ) → IsKept (HasAtMost n)
unfolding HasAtMost send queue detach_connection modify_connection
HasAtMost-kept n = record {
  sent = λ s c id kind client e room p. omega (
    arith,
    p,
    length-update c (λ v. record v { pending_events = v.pending_events + 1 }) s.connections,
  );
  overflowed = λ s c kind p. p;
  detached = λ s c p. omega (arith, p, length-remove c s.connections);
  composed = λ s method composing m p. p;
}

-- Two ways to close that agree on every state with so few connections, the first of which stays
-- among those.
module _ (n : ℕ) (close other : CompositorState → ConnectionId → CompositorState)
    (closes : (s : CompositorState) (c : ConnectionId) → HasAtMost n s → HasAtMost n (close s c))
    (agree : (s : CompositorState) (c : ConnectionId) → HasAtMost n s → close s c ≡ other s c) where
  push_to-agree :
      (s : CompositorState) (c : ConnectionId) (id : ObjectId) (kind : EventKind)
      (found : Option Connection)
      → HasAtMost n s
      → push_to close s c id kind found ≡ push_to other s c id kind found
  unfolding push_to HasAtMost queue
  push_to-agree s c id kind none p = refl
  push_to-agree s c id kind (some client) p =
      ap
        (λ t.
          if leb s.limits.max_pending_events client.pending_events
          then t
          else queue c id kind
              (modify_connection c (λ v. record v { pending_events = v.pending_events + 1 }) s))
        (agree _ c p)

  push_by-agree :
      (s : CompositorState) (c : ConnectionId) (id : ObjectId) (kind : EventKind)
      → HasAtMost n s
      → push_by close s c id kind ≡ push_by other s c id kind
  unfolding push_by
  push_by-agree s c id kind p = push_to-agree s c id kind (lookup c s.connections) p

  push_all_by-agree :
      (s : CompositorState) (to : List (ConnectionId × ObjectId)) (kind : EventKind)
      → HasAtMost n s
      → push_all_by close s to kind ≡ push_all_by other s to kind
  unfolding push_all_by
  push_all_by-agree s [] kind p = refl
  push_all_by-agree s ((c, id) ∷ rest) kind p =
      push_all_by-agree (push_by close s c id kind) rest kind
        (push_by-kept (HasAtMost n) (HasAtMost-kept n) close closes s c id kind p)
      ∙ ap (λ t. push_all_by other t rest kind) (push_by-agree s c id kind p)

  tell_shells_by-agree :
      (s : CompositorState) (kind : EventKind)
      → HasAtMost n s
      → tell_shells_by close s kind ≡ tell_shells_by other s kind
  unfolding tell_shells_by
  tell_shells_by-agree s kind p =
      push_all_by-agree s (bound_of_kind ObjectKind.shell_control s.connections) kind p

  push_method_by-agree :
      (s : CompositorState) (method : Option (ConnectionId × ObjectId)) (kind : EventKind)
      → HasAtMost n s
      → push_method_by close s method kind ≡ push_method_by other s method kind
  unfolding push_method_by
  push_method_by-agree s none kind p = refl
  push_method_by-agree s (some (c, id)) kind p = push_by-agree s c id kind p

  -- Two events, one after the other, to one object.
  twice-agree :
      (s : CompositorState) (c d : ConnectionId) (id jd : ObjectId) (kind other_kind : EventKind)
      → HasAtMost n s
      → push_by close (push_by close s c id kind) d jd other_kind
        ≡ push_by other (push_by other s c id kind) d jd other_kind
  twice-agree s c d id jd kind other_kind p =
      push_by-agree _ d jd other_kind
        (push_by-kept (HasAtMost n) (HasAtMost-kept n) close closes s c id kind p)
      ∙ ap (λ t. push_by other t d jd other_kind) (push_by-agree s c id kind p)

  leave_field-agree :
      (s : CompositorState) (was : Option TextField)
      → HasAtMost n s
      → leave_field close s was ≡ leave_field other s was
  unfolding leave_field HasAtMost
  leave_field-agree s none p = refl
  leave_field-agree s (some was) p =
      let c = was.connection in
      let cleared = EventKind.text_preedit s.composition [] minus_one minus_one in
      let left = EventKind.text_leave (focused_object s) in
      let start : CompositorState = record s { composing = none } in
      let a = push_by close start c was.object cleared in
      let b = push_by close a c was.object left in
      let kept = push_by-kept (HasAtMost n) (HasAtMost-kept n) close closes in
      push_method_by-agree b b.method EventKind.method_deactivated
        (kept a c was.object left (kept start c was.object cleared p))
      ∙ ap (λ (t : CompositorState). push_method_by other t t.method EventKind.method_deactivated)
          (twice-agree start c c was.object was.object cleared left p)

  enter_field-agree :
      (s : CompositorState) (wanted : Option TextField) (method : Option (ConnectionId × ObjectId))
      → HasAtMost n s
      → enter_field close s wanted method ≡ enter_field other s wanted method
  unfolding enter_field HasAtMost
  enter_field-agree s none method p = refl
  enter_field-agree s (some now) none p = refl
  enter_field-agree s (some now) (some (c, id)) p =
      let start : CompositorState = record s {
        composition = u32_next s.composition;
        composing = some now;
      } in
      let entered = EventKind.text_enter (focused_object s) in
      let activated : ℕ → EventKind = EventKind.method_activated (focused_object s) now.purpose in
      let a = push_by close start now.connection now.object entered in
      push_by-agree a c id (activated a.composition) (
        push_by-kept (HasAtMost n) (HasAtMost-kept n) close closes start now.connection now.object
          entered p)
      ∙ ap (λ (t : CompositorState). push_by other t c id (activated t.composition))
          (push_by-agree start now.connection now.object entered p)

  refresh_by-agree : (s : CompositorState) → HasAtMost n s → refresh_by close s ≡ refresh_by other s
  unfolding refresh_by
  refresh_by-agree s p =
      ap (λ t. if same_field s.composing (wanted_field s) then s else t)
        (enter_field-agree (leave_field close s s.composing) (wanted_field s)
            (leave_field close s s.composing).method
            (leave_field-kept (HasAtMost n) (HasAtMost-kept n) close closes s s.composing p)
          ∙ ap (λ (t : CompositorState). enter_field other t (wanted_field s) t.method)
              (leave_field-agree s s.composing p))

  tell_all_gone-agree :
      (hs : List ToplevelHandle) (s : CompositorState)
      → HasAtMost n s
      → tell_all_gone close s hs ≡ tell_all_gone other s hs
  unfolding tell_all_gone
  tell_all_gone-agree [] s p = refl
  tell_all_gone-agree (h ∷ hs) s p =
      let gone = EventKind.shell_toplevel_gone h in
      tell_all_gone-agree hs (tell_shells_by close s gone)
        (tell_shells_by-kept (HasAtMost n) (HasAtMost-kept n) close closes s gone p)
      ∙ ap (λ t. tell_all_gone other t hs) (tell_shells_by-agree s gone p)

  -- The composition that goes with its method.
  drop_composition-agree :
      (s : CompositorState) (composing : Option TextField)
      → HasAtMost n s
      → drop_composition close s composing ≡ drop_composition other s composing
  unfolding drop_composition HasAtMost
  drop_composition-agree s none p = refl
  drop_composition-agree s (some f) p =
      let next = u32_next s.composition in
      twice-agree (record s { method = none; composing = none; composition = next }) f.connection
        f.connection f.object f.object (EventKind.text_preedit next [] minus_one minus_one)
        (EventKind.text_leave null_id) p

  drop_method-agree :
      (s : CompositorState) (c : ConnectionId) (method : Option (ConnectionId × ObjectId))
      → HasAtMost n s
      → drop_method close s c method ≡ drop_method other s c method
  unfolding drop_method
  drop_method-agree s c none p = refl
  drop_method-agree s c (some (owner, id)) p =
      ap (λ t. if owner == c then t else s) (drop_composition-agree s s.composing p)

  silent-agree :
      (s : CompositorState) (c : ConnectionId)
      → HasAtMost n s
      → refresh_by close (forget_composing c (drop_method close s c s.method))
        ≡ refresh_by other (forget_composing c (drop_method other s c s.method))
  unfolding forget_composing HasAtMost
  silent-agree s c p =
      refresh_by-agree (forget_composing c (drop_method close s c s.method))
        (drop_method-kept (HasAtMost n) (HasAtMost-kept n) close closes s c s.method p)
      ∙ ap (λ t. refresh_by other (forget_composing c t)) (drop_method-agree s c s.method p)

  pub close_found-agree :
      (s : CompositorState) (c : ConnectionId) (client : Connection)
      → HasAtMost n (detach_connection c s)
      → close_found close s c (some client) ≡ close_found other s c (some client)
  unfolding close_found forget_composing HasAtMost
  close_found-agree s c client p =
      let start : CompositorState = detach_connection c s in
      let hs = retired_handles c s.toplevels in
      let dropped =
        drop_method-kept (HasAtMost n) (HasAtMost-kept n) close closes start c start.method p in
      let silent : CompositorState = forget_composing c (drop_method close start c start.method) in
      ap (λ t. (t, drain (ids_reverse_creation client.registry) client.registry))
        (tell_all_gone-agree hs (refresh_by close silent)
            (refresh_by-kept (HasAtMost n) (HasAtMost-kept n) close closes silent dropped)
          ∙ ap (λ t. tell_all_gone other t hs) (silent-agree start c p))
