-- ===== src/Compositor/State/Outcome.antt =====
-- A method that may fail after it has changed the state: the state beside the result.
use atria.Base.{Result, ok, err}
use atria.Base.Map.{ℕ_key, pair_key}
use atria.Compositor.Error.{StateError}
use atria.Compositor.Model.{chord_key}
use atria.Compositor.State.{CompositorState}

abbrev pub Outcome : Type 0 → Type 0
Outcome A = CompositorState × Result StateError A

-- A method whose error leaves the state as it was.
abbrev pub settle : CompositorState → Result StateError CompositorState → Outcome (Unit {0})
settle s (ok t) = (t, ok tt)
settle s (err e) = (s, err e)

-- The rest of a method, after a test that changes nothing.
abbrev pub after {ℓ} :
    {A : Type ℓ} {B : Type 0} → CompositorState → Result StateError A → (A → Outcome B) → Outcome B
after s (ok a) f = f a
after s (err e) f = (s, err e)

-- `let _ = method()`: a failure is passed over.
abbrev pub or_same : CompositorState → Result StateError CompositorState → CompositorState
or_same s (ok t) = t
or_same s (err e) = s
