-- ===== src/Compositor/State/Teardown/Delivery.antt =====
-- That an event reaches the client that reads: `push_event` and `take_events_for` together.
use atria.Base.{
  ◌+◌, ◌≡◌, ◌≢◌, refl, ap, ◌∙◌, ◌<◌, Bool, false, not, some, List, [], ◌∷◌, ◌++◌, ◌==◌, leb,
  if◌then◌else◌, keep, arith, ==_iff, ==_refl,
}
use atria.Base.Map.{lookup, update, ℕ_key, pair_key}
use atria.Compositor.Error.{StateError}
use atria.Compositor.Request.{EventKind, Event}
use atria.Compositor.Model.{ConnectionId, ObjectId, display_id, chord_key}
use atria.Compositor.State.{CompositorState, Connection}
use atria.Compositor.State.Access.{modify_connection}
use atria.Compositor.State.Teardown.{push_event}
use atria.Base.{append-nil}
use atria.Base.Map.{lookup-update}
use mathlib.Core.Option
use atria.Compositor.State.Push.{queue, push_to, push_by}
use atria.Compositor.State.Teardown.{closed}
use atria.Compositor.State.Teardown.Induction.{send}
use atria.Compositor.State.Stacking.{drained, take_events_for}

abbrev to : ConnectionId → Event → Bool
to c e = e.connection == c

abbrev not_to : ConnectionId → Event → Bool
not_to c e = not (e.connection == c)

keep-append : (p : Event → Bool) (xs ys : List Event) → keep p (xs ++ ys) ≡ keep p xs ++ keep p ys
keep-append p [] ys = refl
keep-append p (x ∷ xs) ys = ground (arith, keep-append p xs ys)

push-sends :
    (s : CompositorState) (c : ConnectionId) (id : ObjectId) (kind : EventKind)
    (client : Connection)
    → lookup c s.connections ≡ some client
    → client.pending_events < s.limits.max_pending_events
    → push_event s c id kind ≡ send c id kind s
unfolding push_event push_by push_to send
push-sends s c id kind client found room =
    let free : leb s.limits.max_pending_events client.pending_events ≡ false =
      ground (arith, room) in
    ap (push_to closed s c id kind) found
    ∙ ap
        (λ b.
          if b
          then closed
              (queue c display_id
                (EventKind.error (StateError.event_queue_overflow client.pending_events)) s)
              c
          else send c id kind s)
        free

keep-none : (c : ConnectionId) (xs : List Event) → keep (to c) (keep (not_to c) xs) ≡ []
keep-none c [] = refl
keep-none c (x ∷ xs) = ground (arith, keep-none c xs)

keep-others :
    (c d : ConnectionId) (xs : List Event)
    → c == d ≡ false
    → keep (to d) (keep (not_to c) xs) ≡ keep (to d) xs
keep-others c d [] apart = refl
keep-others c d (x ∷ xs) apart =
    ground (arith, keep-others c d xs, ==_iff x.connection c, ==_iff x.connection d, ==_iff c d)

-- What a connection reads takes just that out of the queue: it reads nothing more, and what another
-- reads is what it would have read before.
pub take_events_for-others :
    (s : CompositorState) (c d : ConnectionId)
    → let rest = (take_events_for s c).0 in
      ((take_events_for rest c).1 ≡ [])
      × (d ≢ c → (take_events_for rest d).1 ≡ (take_events_for s d).1)
unfolding take_events_for modify_connection
take_events_for-others s c d =
    (keep-none c s.events, λ other. keep-others c d s.events (ground (arith, other, ==_iff c d)))

-- An event for a connection with room for it comes out at the end of what that connection reads
-- next, after all that it was told before and in that order; having read, it reads nothing more, and
-- its count of pending events is 0; and what any other connection reads, before that or after, is
-- what it would have read without the event.
pub push_event-delivers :
    (s : CompositorState) (c d : ConnectionId) (id : ObjectId) (kind : EventKind)
    (client : Connection)
    → lookup c s.connections ≡ some client
    → client.pending_events < s.limits.max_pending_events
    → let told = push_event s c id kind in
      let rest = (take_events_for told c).0 in
      ((take_events_for told c).1
        ≡ (take_events_for s c).1 ++ record { connection = c; object_id = id; kind = kind } ∷ [])
      × ((take_events_for rest c).1 ≡ [])
      × (lookup c rest.connections ≡ some (record client { pending_events = 0 }))
      × (d ≢ c
          → ((take_events_for told d).1 ≡ (take_events_for s d).1)
            × ((take_events_for rest d).1 ≡ (take_events_for s d).1))
unfolding take_events_for drained send queue modify_connection
push_event-delivers s c d id kind client found room =
    let event : Event = record { connection = c; object_id = id; kind = kind } in
    let sent = push-sends s c id kind client found room in
    let more : Connection → Connection = λ v. record v { pending_events = v.pending_events + 1 } in
    let told = push_event s c id kind in
    let after = take_events_for-others told c d in
    let unheard : d ≢ c → (take_events_for told d).1 ≡ (take_events_for s d).1 = λ other.
      let apart : c == d ≡ false = ground (arith, other, ==_iff c d) in
      ap (λ t. (take_events_for t d).1) sent
      ∙ keep-append (λ e. e.connection == d) s.events (event ∷ [])
      ∙ ap (λ b. keep (λ e. e.connection == d) s.events ++ (if b then event ∷ [] else [])) apart
      ∙ append-nil (keep (λ e. e.connection == d) s.events) in
    (
      ap (λ t. (take_events_for t c).1) sent
          ∙ keep-append (λ e. e.connection == c) s.events (event ∷ [])
          ∙ ap (λ b. keep (λ e. e.connection == c) s.events ++ (if b then event ∷ [] else []))
              (==_refl c),
      after.0,
      ap (λ t. lookup c (take_events_for t c).0.connections) sent
          ∙ lookup-update c c drained (update c more s.connections)
          ∙ ap
              (λ b.
                if b
                then Option.map drained (lookup c (update c more s.connections))
                else lookup c (update c more s.connections))
              (==_refl c)
          ∙ ap (Option.map drained) (
              lookup-update c c more s.connections
              ∙ ap
                  (λ b.
                    if b then Option.map more (lookup c s.connections) else lookup c s.connections)
                  (==_refl c)
              ∙ ap (Option.map more) found),
      λ other. (unheard other, after.1 other ∙ unheard other),
    )
