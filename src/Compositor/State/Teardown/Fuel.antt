-- ===== src/Compositor/State/Teardown/Fuel.antt =====
-- `close_connection` ends: as many rounds as there are connections are enough, since each round
-- removes one before it sends anything.
use atria.Base.{
  ℕ, zero, suc, ◌≤◌, ◌≡◌, refl, sym, ap, ◌∙◌, none, some, [], ◌∷◌, arith, Option-cases, inl, inr,
  length,
}
use atria.Base.Map.{Map, lookup, ℕ_key}
use atria.Compositor.Model.{ConnectionId}
use atria.Compositor.State.{CompositorState, Connection}
use atria.Compositor.State.Push.{}
use atria.Compositor.State.Composition.{}
use atria.Compositor.State.Teardown.{
  detach_connection, close_found, close_by, close_fuel, close_connection,
}
use atria.Compositor.State.Teardown.Induction.{close_fuel-kept}
use atria.Compositor.State.Teardown.Agreement.{
  HasAtMost, HasAtMost-kept, length-remove_found, close_found-agree,
}

close_fuel-HasAtMost :
    (n fuel : ℕ) (s : CompositorState) (c : ConnectionId)
    → HasAtMost n s
    → HasAtMost n (close_fuel fuel s c).0
close_fuel-HasAtMost n fuel s c p = close_fuel-kept (HasAtMost n) (HasAtMost-kept n) fuel s c p

lookup-short : (c : ℕ) (m : Map ℕ Connection) → length m ≤ 0 → lookup c m ≡ none
unfolding lookup
lookup-short c [] p = refl
lookup-short c (x ∷ m) p = ground (arith, p)

-- Closing what is not connected does nothing, on any fuel.
pub close_fuel-none :
    (fuel : ℕ) (s : CompositorState) (c : ConnectionId)
    → lookup c s.connections ≡ none
    → close_fuel fuel s c ≡ (s, [])
unfolding close_fuel close_by close_found
close_fuel-none zero s c e = refl
close_fuel-none (suc fuel) s c e = ap (close_found (λ t d. (close_fuel fuel t d).0) s c) e

detach-HasAtMost :
    (n : ℕ) (s : CompositorState) (c : ConnectionId) (client : Connection)
    → lookup c s.connections ≡ some client
    → HasAtMost (suc n) s
    → HasAtMost n (detach_connection c s)
unfolding HasAtMost detach_connection
detach-HasAtMost n s c client e p = omega (arith, length-remove_found c s.connections client e, p)

inner : ℕ → CompositorState → ConnectionId → CompositorState
inner fuel t d = (close_fuel fuel t d).0

-- One round more, on a connection that is there.
close_fuel-found :
    (fuel : ℕ) (s : CompositorState) (c : ConnectionId) (client : Connection)
    → lookup c s.connections ≡ some client
    → close_fuel (suc fuel) s c ≡ close_found (inner fuel) s c (some client)
unfolding close_fuel close_by inner
close_fuel-found fuel s c client e = ap (close_found (inner fuel) s c) e

close_fuel-enough :
    (n f g : ℕ) (s : CompositorState) (c : ConnectionId)
    → HasAtMost n s
    → n ≤ f
    → n ≤ g
    → close_fuel f s c ≡ close_fuel g s c
unfolding inner HasAtMost
close_fuel-enough zero f g s c p hf hg =
    let e = lookup-short c s.connections p in
    close_fuel-none f s c e ∙ sym (close_fuel-none g s c e)
close_fuel-enough (suc n) zero g s c p hf hg = ground (arith, hf)
close_fuel-enough (suc n) (suc f) zero s c p hf hg = ground (arith, hg)
close_fuel-enough (suc n) (suc f) (suc g) s c p hf hg =
    elim (Option-cases (lookup c s.connections)) [
      | inl e ↦ close_fuel-none (suc f) s c e ∙ sym (close_fuel-none (suc g) s c e)
      | inr (client, e) ↦
          close_fuel-found f s c client e
          ∙ close_found-agree n (inner f) (inner g) (λ t d q. close_fuel-HasAtMost n f t d q)
              (λ t d q.
                ap (λ done. done.0)
                  (close_fuel-enough n f g t d q (omega (arith, hf)) (omega (arith, hg))))
              s c client (detach-HasAtMost n s c client e p)
          ∙ sym (close_fuel-found g s c client e)
    ]

-- The fuel of `close_connection` is enough: with more, the state that it leaves and the objects that
-- it destroys are the same, so that the chain of events that overflow a queue and close another
-- connection always ends by itself.
pub close_connection-enough :
    (fuel : ℕ) (s : CompositorState) (c : ConnectionId)
    → length s.connections ≤ fuel
    → close_fuel fuel s c ≡ close_connection s c
unfolding close_connection HasAtMost
close_connection-enough fuel s c h =
    close_fuel-enough (length s.connections) fuel (length s.connections) s c (omega arith) h
      (omega arith)
