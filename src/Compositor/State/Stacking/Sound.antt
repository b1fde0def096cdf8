-- ===== src/Compositor/State/Stacking/Sound.antt =====
-- A surface is in the scene just when it has content: the invariant of the scene.
use atria.Base.{
  ◌+◌, ◌≡◌, ◌↔◌, refl, ap, ◌∙◌, Bool, true, not, ◌&&◌, ◌||◌, Option, none, some, List, [], ◌∷◌,
  ◌++◌, ◌==◌, ==_iff, if◌then◌else◌, arith, keep,
}
use atria.Base.Map.{
  Map, lookup, remove, retain, contains_key, ℕ_key, pair_key, pair_eqb_iff, lookup-update,
  lookup-remove,
}
use mathlib.Core.Option
use atria.Compositor.Model.{ConnectionId, ObjectId, SurfaceKey, Point}
use atria.Compositor.State.{CompositorState, Connection, Scene}
use atria.Compositor.State.Access.{key_eqb, modify_connection}
use atria.Compositor.State.Push.{queue}
use atria.Compositor.State.Teardown.{detach_connection}
use atria.Compositor.State.Teardown.Induction.{send, IsKept}
use atria.Compositor.State.Surface.{stacked}
use atria.Compositor.State.Stacking.Effects.{content_of, registry_entry}

-- The parts of a state that the scene is about.
pub record Agree (connections : Map ConnectionId Connection) (scene : Scene) : Type 0 where
  pub shown :
      (d : ConnectionId) (j : ObjectId)
      → content_of (registry_entry j (lookup d connections)) ≡ stacked (d, j) scene.stack
  pub placed :
      (key : SurfaceKey) → stacked key scene.stack ≡ true → contains_key key scene.positions ≡ true
  pub connected :
      (key : SurfaceKey)
      → contains_key key scene.positions ≡ true
      → contains_key key.0 connections ≡ true

-- Content and the stack agree; what is stacked has a position; what has a position belongs to a
-- connection.
abbrev pub IsComposed : CompositorState → Type 0
IsComposed s = Agree s.connections s.scene

lookup-retain_keys :
    (p : SurfaceKey → Bool) (k : SurfaceKey) (m : Map SurfaceKey Point)
    → lookup k (retain (λ key v. p key) m) ≡ (if p k then lookup k m else none)
unfolding lookup retain
lookup-retain_keys p k [] = ground arith
lookup-retain_keys p k ((j, v) ∷ m) =
    ground (arith, lookup-retain_keys p k m, pair_eqb_iff ℕ_key ℕ_key j k)

pub key_eqb_iff : (j k : SurfaceKey) → (key_eqb j k ≡ true) ↔ (j ≡ k)
unfolding key_eqb
key_eqb_iff (a, b) (c, d) = ground arith

pub stacked-keep :
    (p : SurfaceKey → Bool) (k : SurfaceKey) (xs : List SurfaceKey)
    → stacked k (keep p xs) ≡ p k && stacked k xs
unfolding key_eqb
stacked-keep p k [] = ground arith
stacked-keep p k (j ∷ xs) = ground (arith, stacked-keep p k xs, key_eqb_iff j k)

pub stacked-append :
    (k : SurfaceKey) (xs ys : List SurfaceKey) → stacked k (xs ++ ys) ≡ stacked k xs || stacked k ys
stacked-append k [] ys = refl
stacked-append k (x ∷ xs) ys = ground (arith, stacked-append k xs ys)

-- A change of a connection that keeps the content of its objects.
modified :
    (c : ConnectionId) (f : Connection → Connection) (d : ConnectionId) (j : ObjectId)
    (found : Option Connection)
    → ((v : Connection)
        → content_of (lookup j (f v).registry.live) ≡ content_of (lookup j v.registry.live))
    → content_of (registry_entry j (if c == d then Option.map f found else found))
      ≡ content_of (registry_entry j found)
unfolding registry_entry
modified c f d j none same = ground arith
modified c f d j (some v) same = ground (arith, same v)

pub modify-IsComposed :
    (s : CompositorState) (c : ConnectionId) (f : Connection → Connection)
    → ((v : Connection) (j : ObjectId)
        → content_of (lookup j (f v).registry.live) ≡ content_of (lookup j v.registry.live))
    → IsComposed s
    → IsComposed (modify_connection c f s)
unfolding modify_connection
modify-IsComposed s c f same p = record {
  shown = λ d j.
      ap (λ found. content_of (registry_entry j found)) (lookup-update c d f s.connections)
      ∙ modified c f d j (lookup d s.connections) (λ v. same v j)
      ∙ p.shown d j;
  placed = p.placed;
  connected = λ key h. ground (arith, p.connected key, lookup-update c key.0 f s.connections);
}

detached-shown :
    (c d : ConnectionId) (j : ObjectId) (m : Map ConnectionId Connection) (stack : List SurfaceKey)
    → content_of (registry_entry j (lookup d m)) ≡ stacked (d, j) stack
    → content_of (registry_entry j (lookup d (remove c m)))
      ≡ stacked (d, j) (keep (λ key. not (key.0 == c)) stack)
unfolding content_of registry_entry
detached-shown c d j m stack h =
    ap (λ found. content_of (registry_entry j found)) (lookup-remove c d m)
    ∙ ground (arith, h, stacked-keep (λ key. not (key.0 == c)) (d, j) stack, ==_iff c d, ==_iff d c)

detach-IsComposed :
    (s : CompositorState) (c : ConnectionId) → IsComposed s → IsComposed (detach_connection c s)
unfolding detach_connection
detach-IsComposed s c p = record {
  shown = λ d j. detached-shown c d j s.connections s.scene.stack (p.shown d j);
  placed = λ key h. ground (
    arith,
    p.placed key,
    stacked-keep (λ key. not (key.0 == c)) key s.scene.stack,
    lookup-retain_keys (λ key. not (key.0 == c)) key s.scene.positions,
  );
  connected = λ key h. ground (
    arith,
    p.connected key,
    lookup-remove c key.0 s.connections,
    lookup-retain_keys (λ key. not (key.0 == c)) key s.scene.positions,
  );
}

-- Events, and the end of any connection, keep the scene as it should be.
pub IsComposed-kept : IsKept IsComposed
unfolding send queue
IsComposed-kept = record {
  sent = λ s c id kind client e room p.
      modify-IsComposed s c (λ v. record v { pending_events = v.pending_events + 1 }) (λ v j. refl)
        p;
  overflowed = λ s c kind p. p;
  detached = detach-IsComposed;
  composed = λ s method composing n p. p;
}
