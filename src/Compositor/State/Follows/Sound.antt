-- ===== src/Compositor/State/Follows/Sound.antt =====
-- What `Follows` keeps of every connection: its queue and its objects are bounded, its identifiers are
-- tracked, and nobody is granted anything.
use atria.Base.{
  ◌+◌, ◌≡◌, refl, ap, sym, subst, ◌∙◌, ◌≤◌, inl, inr, false, Option, some, [], ◌∷◌, leb, map, ok,
  arith, Option-cases, ==_iff,
}
use atria.Base.Map.{Map, lookup, contains_key, ℕ_key, pair_key}
use atria.Compositor.Request.{EventKind}
use atria.Compositor.Model.{ConnectionId, ObjectId, chord_key, ObjectKind}
use atria.Compositor.State.{CompositorState, Connection, Object}
use atria.Compositor.State.Access.{modify_connection}
use atria.Compositor.State.Follows.{
  Follows, goes, Step, sends, closes, changes, allocates, elsewhere, Write, writes, writes_all,
  removes, retires, with_registry,
}
use atria.Compositor.Registry.{RegistryEntry, set_value, set_values, remove_object, retire, len}
use atria.Base.Map.{
  lookup-update, length-map, length-update, length-remove, length-insert, found-update,
  found-remove,
}
use atria.Compositor.State.{ConnectionLimits}
use atria.Compositor.Registry.{ObjectRegistry}
use atria.Compositor.Registry.Lifetime.{IsTracked, Step-IsTracked}
use atria.Compositor.Registry.Lifetime
use atria.Compositor.State.Push.{queue}
use atria.Compositor.State.Follows.{stays}
use atria.Compositor.Registry
use atria.Compositor.State.Teardown.{detach_connection}
use atria.Compositor.State.Teardown.Induction.{send}

-- A connection within its limits, whose identifiers are tracked.
pub record IsFair (limits : ConnectionLimits) (v : Connection) : Type 0 where
  pub read_in_time : v.pending_events ≤ limits.max_pending_events
  pub within_quota : len v.registry ≤ limits.max_objects
  pub tracked : IsTracked v.registry

unfoldable pub IsSound : CompositorState → Type 0
IsSound s =
    (d : ConnectionId) (v : Connection) → lookup d s.connections ≡ some v → IsFair s.limits v

set_value-IsTracked :
    (r : ObjectRegistry Object) (id : ObjectId) (f : Object → Object)
    → IsTracked r
    → IsTracked (set_value id f r)
unfolding set_value
set_value-IsTracked r id f v = record {
  taken = λ j e. ground (
    arith,
    v.taken j,
    lookup-update id j (λ (e : RegistryEntry Object). record e { value = f e.value }) r.live,
    Option-cases (lookup j r.live),
  );
  ordered = λ j e. ground (
    arith,
    v.ordered j,
    lookup-update id j (λ (e : RegistryEntry Object). record e { value = f e.value }) r.live,
    Option-cases (lookup j r.live),
  );
}

contains-values :
    (f : Object → Object) (j : ObjectId) (m : Map ObjectId (RegistryEntry Object))
    → contains_key j (map (λ e. (e.0, record (e.1) { value = f e.1.value })) m) ≡ contains_key j m
unfolding lookup
contains-values f j [] = refl
contains-values f j ((i, e) ∷ m) = ground (arith, contains-values f j m)

Write-IsTracked : (r s : ObjectRegistry Object) → Write r s → IsTracked r → IsTracked s
unfolding set_values
Write-IsTracked r s (writes id f e) v = subst IsTracked (sym e) (set_value-IsTracked r id f v)
Write-IsTracked r s (writes_all f e) v = subst IsTracked (sym e) (record {
  taken = λ j h. v.taken j (sym (contains-values f j r.live) ∙ h);
  ordered = λ j h. v.ordered j (sym (contains-values f j r.live) ∙ h);
})
Write-IsTracked r s (removes id e) v = Step-IsTracked r s (Lifetime.removes id e) v
Write-IsTracked r s (retires id e) v = Step-IsTracked r s (Lifetime.retires id e) v

set_values-len : (f : Object → Object) (r : ObjectRegistry Object) → len (set_values f r) ≤ len r
unfolding set_values len
set_values-len f r =
    let change : ObjectId × RegistryEntry Object → ObjectId × RegistryEntry Object =
      λ e. (e.0, record (e.1) { value = f e.1.value }) in
    omega (arith, length-map change r.live)

Write-len : (r s : ObjectRegistry Object) → Write r s → len s ≤ len r
unfolding len set_value remove_object retire
Write-len r s (writes id f e) = omega (
  arith,
  ap len e,
  length-update id (λ (e : RegistryEntry Object). record e { value = f e.value }) r.live,
)
Write-len r s (writes_all f e) = omega (arith, ap len e, set_values-len f r)
Write-len r s (removes id e) = omega (arith, ap len e, length-remove id r.live)
Write-len r s (retires id e) = ground (arith, ap len e)

module _ (limits : ConnectionLimits) where
  sent-IsFair :
      (v : Connection)
      → leb limits.max_pending_events v.pending_events ≡ false
      → IsFair limits v
      → IsFair limits (record v { pending_events = v.pending_events + 1 })
  sent-IsFair v room q = record {
    read_in_time = ground (arith, room);
    within_quota = q.within_quota;
    tracked = q.tracked;
  }

  changed-IsFair :
      (v : Connection) (f : ObjectRegistry Object → ObjectRegistry Object)
      → Write v.registry (f v.registry)
      → IsFair limits v
      → IsFair limits (with_registry f v)
  changed-IsFair v f w q = record {
    read_in_time = q.read_in_time;
    within_quota = omega (arith, q.within_quota, Write-len v.registry (f v.registry) w);
    tracked = Write-IsTracked v.registry (f v.registry) w q.tracked;
  }

  allocated-len :
      (r s : ObjectRegistry Object) (id : ObjectId) (k : ObjectKind) (value : Object)
      → Registry.allocate_client id k value r ≡ ok s
      → len s ≤ len r + 1
  unfolding len Registry.allocate_client
  allocated-len r s id k value h =
      ground (arith, h, length-insert id (record { kind = k; value = value }) r.live)

  allocated-IsFair :
      (v : Connection) (id : ObjectId) (k : ObjectKind) (value : Object) (r : ObjectRegistry Object)
      → leb limits.max_objects (len v.registry) ≡ false
      → Registry.allocate_client id k value v.registry ≡ ok r
      → IsFair limits v
      → IsFair limits (with_registry (λ old. r) v)
  allocated-IsFair v id k value r room h q = record {
    read_in_time = q.read_in_time;
    within_quota = ground (arith, room, allocated-len v.registry r id k value h);
    tracked = Step-IsTracked v.registry r (Lifetime.allocates id k value h) q.tracked;
  }

-- A write to a connection that was fair leaves all of them fair.
pub modify-IsSound :
    (s : CompositorState) (c : ConnectionId) (f : Connection → Connection)
    → ((v : Connection)
        → lookup c s.connections ≡ some v
        → IsFair s.limits v
        → IsFair s.limits (f v))
    → IsSound s
    → IsSound (modify_connection c f s)
unfolding IsSound modify_connection
modify-IsSound s c f keeps p d w h =
    let (v, found, change) = found-update c d f s.connections w h in
    elim change [
      | inl e ↦ subst (IsFair s.limits) (sym e) (p d v found)
      | inr (own, e) ↦
          let at : lookup c s.connections ≡ some v =
            ap (λ i. lookup i s.connections) ((==_iff c d).0 own) ∙ found in
          subst (IsFair s.limits) (sym e) (keeps v at (p d v found))
    ]

same-IsSound :
    (s t : CompositorState)
    → t.connections ≡ s.connections
    → t.limits ≡ s.limits
    → IsSound s
    → IsSound t
unfolding IsSound
same-IsSound s t same limits p d v h =
    subst (λ l. IsFair l v) (sym limits) (p d v (ap (lookup d) (sym same) ∙ h))

some-equal : {A : Type 0} (o : Option A) (a b : A) → o ≡ some a → o ≡ some b → a ≡ b
some-equal o a b h k = ground (arith, h, k)

sent-IsSound :
    (s : CompositorState) (c : ConnectionId) (id : ObjectId) (kind : EventKind)
    (client : Connection)
    → lookup c s.connections ≡ some client
    → leb s.limits.max_pending_events client.pending_events ≡ false
    → IsSound s
    → IsSound (send c id kind s)
unfolding send queue IsSound
sent-IsSound s c id kind client e room p =
    modify-IsSound s c (λ v. record v { pending_events = v.pending_events + 1 })
      (λ v found q.
        sent-IsFair s.limits v
          (subst (λ (x : Connection). leb s.limits.max_pending_events x.pending_events ≡ false)
            (some-equal (lookup c s.connections) client v e found) room)
          q)
      p

allocated-IsSound :
    (s : CompositorState) (c : ConnectionId) (client : Connection) (id : ObjectId) (k : ObjectKind)
    (value : Object) (r : ObjectRegistry Object)
    → lookup c s.connections ≡ some client
    → leb s.limits.max_objects (len client.registry) ≡ false
    → Registry.allocate_client id k value client.registry ≡ ok r
    → IsSound s
    → IsSound (modify_connection c (with_registry (λ old. r)) s)
allocated-IsSound s c client id k value r e room done p =
    modify-IsSound s c (with_registry (λ old. r))
      (λ v found q.
        let same = some-equal (lookup c s.connections) client v e found in
        allocated-IsFair s.limits v id k value r
          (subst (λ (x : Connection). leb s.limits.max_objects (len x.registry) ≡ false) same room)
          (subst (λ (x : Connection). Registry.allocate_client id k value x.registry ≡ ok r) same
            done)
          q)
      p

Step-IsSound : (s t : CompositorState) → Step s t → IsSound s → IsSound t
unfolding detach_connection IsSound
Step-IsSound s t (sends c id kind client e room h) p =
    subst IsSound (sym h) (sent-IsSound s c id kind client e room p)
Step-IsSound s t (closes c h) p =
    subst IsSound (sym h) λ d v found. p d v (found-remove c d s.connections v found)
Step-IsSound s t (changes c f steps h) p = subst IsSound (sym h) (
    modify-IsSound s c (with_registry f) (λ v e q. changed-IsFair s.limits v f (steps v.registry) q)
      p)
Step-IsSound s t (allocates c client id k value r e room done h) p =
    subst IsSound (sym h) (allocated-IsSound s c client id k value r e room done p)
Step-IsSound s t (elsewhere (same, limits, maximum, next)) p = same-IsSound s t same limits p

pub Follows-IsSound : {s t : CompositorState} → Follows s t → IsSound s → IsSound t
Follows-IsSound stays p = p
Follows-IsSound (goes {t} {u} before step) p = Step-IsSound t u step (Follows-IsSound before p)
