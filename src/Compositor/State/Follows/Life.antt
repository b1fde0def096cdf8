-- ===== src/Compositor/State/Follows/Life.antt =====
-- The whole life of a compositor: from `new`, through connections, grants, seats, requests, input,
-- and the reading of events.
use atria.Base.{
  ℕ, ◌≡◌, refl, ap, sym, subst, ◌∙◌, ◌≤◌, inl, inr, Bool, true, not, Option, some, [], is_some,
  Result, ok, err, guard, arith,
}
use atria.Base.Map.{lookup, ℕ_key, pair_key}
use atria.Protocol.Capability.{Capability, CapabilitySet, with_capability}
use atria.Compositor.Error.{StateError}
use atria.Compositor.Request.{ClientRequest}
use atria.Compositor.Model.{ConnectionId, ObjectId, chord_key, ObjectKind, Point, SeatCapabilities}
use atria.Compositor.State.{CompositorState, Connection, Object}
use atria.Compositor.State.Access.{modify_connection, allocate_client}
use atria.Compositor.State.Teardown.{close_connection}
use atria.Compositor.State.Follows.{Follows, goes, sends, closes, changes, allocates, elsewhere}
use atria.Compositor.State.Follows.Steps.{Holds, close_connection-Follows, allocate_client-Holds}
use atria.Compositor.Registry.{RegistryEntry, set_value, set_values, remove_object, retire, len}
use atria.Base.{bind-ok}
use atria.Compositor.State.Connect.{expect_seat}
use atria.Compositor.State.Follows.Requests.{dispatch-Follows}
use atria.Compositor.State.Follows.Keys.{key-Follows}
use atria.Compositor.State.Follows.Input.{move_pointer-Follows, pointer_button-Follows}
use atria.Base.Map.{found-insert, lookup-map, update-cases}
use atria.Compositor.State.Push.{queue}
use atria.Compositor.State.Connect.Granted.{connected}
use atria.Compositor.State.Access.{connection}
use atria.Compositor.State.Stacking.{drained}
use atria.Compositor.State.Follows.{stays}
use atria.Compositor.State.Teardown.{detach_connection}
use atria.Compositor.State.Teardown.Induction.{send}
use atria.Compositor.State.{ConnectionLimits, new}
use atria.Compositor.Registry
use atria.Compositor.Registry.Lifetime.{here, Reach-new-IsTracked}
use atria.Compositor.State.Connect.{
  available_to, new_connection, connect, grant_capability, create_seat, create_session,
}
use atria.Compositor.State.Dispatch.{dispatch}
use atria.Compositor.State.Keyboard.{key}
use atria.Compositor.State.Pointer.{move_pointer, pointer_button}
use atria.Compositor.State.Stacking.{take_events}
use atria.Compositor.State.Follows.Sound.{IsFair, IsSound, modify-IsSound, Follows-IsSound}

-- The states that the compositor may come to.
pub data Life : CompositorState → Type 0 where
  begins :
      (granted : CapabilitySet) (n : ℕ) (limits : ConnectionLimits)
      → 1 ≤ limits.max_objects
      → Life (new granted n limits)
  connects :
      {s t : CompositorState} (client required : CapabilitySet) (c : ConnectionId)
      → Life s
      → connect s client required ≡ ok (t, c)
      → Life t
  grants :
      {s t : CompositorState} (c : ConnectionId) (capability : Capability)
      → Life s
      → grant_capability s c capability ≡ ok t
      → Life t
  seats :
      {s t : CompositorState} (c : ConnectionId) (id : ObjectId) (b : SeatCapabilities)
      (active : Bool)
      → Life s
      → create_seat s c id b active ≡ ok t
      → Life t
  joins :
      {s t : CompositorState} (c : ConnectionId) (id : ObjectId) (seat_id : Option ObjectId)
      (active : Bool)
      → Life s
      → create_session s c id seat_id active ≡ ok t
      → Life t
  asks :
      {s : CompositorState} (c : ConnectionId) (request : ClientRequest)
      → Life s
      → Life (dispatch s c request).0
  types :
      {s : CompositorState} (k : ℕ) (pressed : Bool) (time : ℕ)
      → Life s
      → Life (key s k pressed time)
  points :
      {s : CompositorState} (position : Point) (time : ℕ)
      → Life s
      → Life (move_pointer s position time)
  clicks :
      {s : CompositorState} (button : ℕ) (pressed : Bool) (time : ℕ)
      → Life s
      → Life (pointer_button s button pressed time)
  ends : {s : CompositorState} (c : ConnectionId) → Life s → Life (close_connection s c).0
  reads : {s : CompositorState} → Life s → Life (take_events s).0

fresh-IsFair :
    (limits : ConnectionLimits) (available : CapabilitySet)
    → 1 ≤ limits.max_objects
    → IsFair limits (new_connection available)
unfolding new_connection len Registry.new
fresh-IsFair limits available few = record {
  read_in_time = omega arith;
  within_quota = few;
  tracked = Reach-new-IsTracked Object.display (Registry.new Object.display) here;
}

-- The limits let a connection have its display.
unfoldable pub IsRunning : CompositorState → Type 0
IsRunning s = IsSound s × (1 ≤ s.limits.max_objects)

connect-limits :
    (s t : CompositorState) (client required : CapabilitySet) (c : ConnectionId)
    → connect s client required ≡ ok (t, c)
    → t.limits ≡ s.limits
unfolding connect
connect-limits s t client required c h = ground (arith, h)

connect-IsRunning :
    (s t : CompositorState) (client required : CapabilitySet) (c : ConnectionId)
    → connect s client required ≡ ok (t, c)
    → IsRunning s
    → IsRunning t
unfolding IsRunning IsSound
connect-IsRunning s t client required c h (p, few) =
    let limits = connect-limits s t client required c h in
    let fresh = new_connection (available_to s client) in
    (
      λ d v found.
          let at = ap (lookup d) (sym (connected s t client required c h).1) ∙ found in
          subst (λ l. IsFair l v) (sym limits)
            (elim (found-insert s.next_connection d fresh s.connections v at) [
              | inl e ↦
                  subst (IsFair s.limits) (sym e)
                    (fresh-IsFair s.limits (available_to s client) few)
              | inr old ↦ p d v old
            ]),
      subst (λ (l : ConnectionLimits). 1 ≤ l.max_objects) (sym limits) few,
    )

grant-lem :
    (s t : CompositorState) (c : ConnectionId) (capability : Capability)
    → grant_capability s c capability ≡ ok t
    → t
      ≡ modify_connection c
          (λ v. record v { capabilities = with_capability v.capabilities capability })
          s
unfolding grant_capability connection
grant-lem s t c capability h = ground (arith, h)

-- A change of the grants or of the session leaves a connection fair.
kept-IsRunning :
    (s : CompositorState) (c : ConnectionId) (f : Connection → Connection)
    → ((v : Connection) → IsFair s.limits v → IsFair s.limits (f v))
    → IsRunning s
    → IsRunning (modify_connection c f s)
unfolding IsRunning modify_connection
kept-IsRunning s c f keeps (p, few) = (modify-IsSound s c f (λ v e. keeps v) p, few)

Follows-limits : {s t : CompositorState} → Follows s t → t.limits ≡ s.limits
unfolding send queue detach_connection modify_connection
Follows-limits stays = refl
Follows-limits (goes before (sends c id kind client e room h)) =
    ap (λ (x : CompositorState). x.limits) h ∙ Follows-limits before
Follows-limits (goes before (closes c h)) =
    ap (λ (x : CompositorState). x.limits) h ∙ Follows-limits before
Follows-limits (goes before (changes c f steps h)) =
    ap (λ (x : CompositorState). x.limits) h ∙ Follows-limits before
Follows-limits (goes before (allocates c client id k value r e room done h)) =
    ap (λ (x : CompositorState). x.limits) h ∙ Follows-limits before
Follows-limits (goes before (elsewhere (same, limits, maximum, next))) =
    limits ∙ Follows-limits before

Follows-IsRunning : {s t : CompositorState} → Follows s t → IsRunning s → IsRunning t
unfolding IsRunning
Follows-IsRunning steps (p, few) = (
  Follows-IsSound steps p,
  subst (λ (l : ConnectionLimits). 1 ≤ l.max_objects) (sym (Follows-limits steps)) few,
)

Holds-Follows :
    {s t : CompositorState} (r : Result StateError CompositorState)
    → Holds s r
    → r ≡ ok t
    → Follows s t
unfolding Holds
Holds-Follows {s} {t} (ok u) p h = subst (Follows s) (ground (arith, h)) p
Holds-Follows (err e) p h = ground (arith, h)

seat-Follows :
    (s t : CompositorState) (c : ConnectionId) (id : ObjectId) (b : SeatCapabilities)
    (active : Bool)
    → create_seat s c id b active ≡ ok t
    → Follows s t
unfolding create_seat
seat-Follows s t c id b active h =
    Holds-Follows _ (allocate_client-Holds s s c id ObjectKind.seat _ stays) h

session-IsRunning :
    (s t : CompositorState) (c : ConnectionId) (id : ObjectId) (seat_id : Option ObjectId)
    (active : Bool)
    → create_session s c id seat_id active ≡ ok t
    → IsRunning s
    → IsRunning t
unfolding create_session
session-IsRunning s t c id seat_id active h p =
    let (x, e, h) = bind-ok (expect_seat s c seat_id) _ t h in
    let (client, e, h) = bind-ok (connection s c) _ t h in
    let (x, e, h) =
      bind-ok (guard (not (is_some client.session)) (StateError.invalid_state id)) _ t h in
    let (u, e, h) =
      bind-ok
        (allocate_client s c id ObjectKind.session
          (Object.session (record { seat = seat_id; active = active })))
        _ t h in
    let made = Holds-Follows _ (allocate_client-Holds s s c id ObjectKind.session _ stays) e in
    subst IsRunning (ground (arith, h)) (
      kept-IsRunning u c (λ v. record v { session = some id })
        (λ v q. record {
          read_in_time = q.read_in_time;
          within_quota = q.within_quota;
          tracked = q.tracked;
        })
        (Follows-IsRunning made p))

taken-IsRunning : (s : CompositorState) → IsRunning s → IsRunning (take_events s).0
unfolding IsRunning IsSound take_events
taken-IsRunning s (p, few) = (
  λ d w found.
      let (v, old, change) =
        update-cases drained w true (lookup d s.connections)
          (sym (lookup-map drained d s.connections) ∙ found) in
      elim change [
        | inl e ↦ subst (IsFair s.limits) (sym e) (p d v old)
        | inr (x, e) ↦ subst (IsFair s.limits) (sym e) (record {
          read_in_time = omega arith;
          within_quota = (p d v old).within_quota;
          tracked = (p d v old).tracked;
        })
      ],
  few,
)

empty-IsFair :
    (limits : ConnectionLimits) (d : ConnectionId) (v : Connection)
    → lookup d [] ≡ some v
    → IsFair limits v
unfolding lookup
empty-IsFair limits d v h = record {
  read_in_time = ground (arith, h);
  within_quota = ground (arith, h);
  tracked = record { taken = λ j e. ground (arith, h); ordered = λ j e. ground (arith, h) };
}

-- From `new`, with limits that let a connection have an object, and through any sequence of
-- accepted connections, grants, new seats and sessions, requests, keys, pointer motions and
-- buttons, ends of connections and readings of the events: every connection has at most
-- `max_pending_events` events to read and at most `max_objects` objects, and every live identifier
-- of it is taken and in the order of creation.
pub Life-IsRunning : {s : CompositorState} → Life s → IsRunning s
unfolding IsRunning IsSound new
Life-IsRunning (begins granted n limits few) = (λ d v found. empty-IsFair limits d v found, few)
Life-IsRunning (connects {s} {t} client required c before h) =
    connect-IsRunning s t client required c h (Life-IsRunning before)
Life-IsRunning (grants {s} {t} c capability before h) =
    subst IsRunning (sym (grant-lem s t c capability h)) (
      kept-IsRunning s c
        (λ v. record v { capabilities = with_capability v.capabilities capability })
        (λ v q. record {
          read_in_time = q.read_in_time;
          within_quota = q.within_quota;
          tracked = q.tracked;
        })
        (Life-IsRunning before))
Life-IsRunning (seats {s} {t} c id b active before h) =
    Follows-IsRunning (seat-Follows s t c id b active h) (Life-IsRunning before)
Life-IsRunning (joins {s} {t} c id seat_id active before h) =
    session-IsRunning s t c id seat_id active h (Life-IsRunning before)
Life-IsRunning (asks {s} c request before) =
    Follows-IsRunning (dispatch-Follows s c request) (Life-IsRunning before)
Life-IsRunning (types {s} k pressed time before) =
    Follows-IsRunning (key-Follows s s k pressed time stays) (Life-IsRunning before)
Life-IsRunning (points {s} position time before) =
    Follows-IsRunning (move_pointer-Follows s s position time stays) (Life-IsRunning before)
Life-IsRunning (clicks {s} button pressed time before) =
    Follows-IsRunning (pointer_button-Follows s s button pressed time stays) (Life-IsRunning before)
Life-IsRunning (ends {s} c before) =
    Follows-IsRunning (close_connection-Follows s s c stays) (Life-IsRunning before)
Life-IsRunning (reads {s} before) = taken-IsRunning s (Life-IsRunning before)
