-- ===== src/Input/Key/Replay.antt =====
-- That the events of a report say what the normalizer holds.
use atria.Base.{
  ℕ, ◌≡◌, refl, sym, ap, ◌∙◌, Bool, true, false, not, ◌&&◌, Option, none, some, List, [], ◌∷◌, ◌++◌,
  ◌==◌, if◌then◌else◌, ok, arith, bind-ok, ok-equal, subst, ==_iff,
}
use atria.Input.Key.{
  RawInputEvent, KeyCode, KeyEvent, is_released, index, KeyNormalizer, set, key_action,
  timestamp_ns, turn_as, turn, normalize_key, normalize_one, normalize, suppress_held,
}

-- A key is visibly down: held, and not since before the epoch.
unfoldable pub visible : KeyNormalizer → ℕ → Bool
visible k i = k.down i && not (k.suppressed i)

-- What a client that follows the events takes to be down.
unfoldable pub replay : List KeyEvent → (ℕ → Bool) → ℕ → Bool
unfolding set is_released
replay [] f = f
replay (event ∷ rest) f = replay rest (set (index event.code) (not (is_released event.action)) f)

replay-same :
    (events : List KeyEvent) (f g : ℕ → Bool)
    → ((i : ℕ) → f i ≡ g i)
    → (i : ℕ) → replay events f i ≡ replay events g i
unfolding replay set
replay-same [] f g h i = h i
replay-same (event ∷ rest) f g h i =
    replay-same rest _ _
      (λ j. ap (λ b. if j == index event.code then not (is_released event.action) else b) (h j)) i

replay-append :
    (xs ys : List KeyEvent) (f : ℕ → Bool) → replay (xs ++ ys) f ≡ replay ys (replay xs f)
unfolding replay
replay-append [] ys f = refl
replay-append (x ∷ xs) ys f = replay-append xs ys _

-- The visible keys of the result are what its events say, at one index.
abbrev IsFollowed : KeyNormalizer → ℕ → KeyNormalizer × List KeyEvent → Type 0
IsFollowed k i r = visible (r.0) i ≡ replay (r.1) (visible k) i

turn_as-replays :
    (k : KeyNormalizer) (event : KeyEvent) (b : Bool) (i : ℕ)
    → k.suppressed (index event.code) ≡ b
    → visible (turn_as k event b).0 i ≡ replay (turn_as k event b).1 (visible k) i
unfolding visible replay turn_as set
turn_as-replays k event true i h =
    ground (arith, h, ==_iff i (index event.code), λ (e : i ≡ index event.code). ap k.suppressed e)
turn_as-replays k event false i h =
    ground (arith, h, ==_iff i (index event.code), λ (e : i ≡ index event.code). ap k.suppressed e)

normalize_key-follows :
    (k : KeyNormalizer) (epoch : ℕ) (raw : RawInputEvent) (code : Option KeyCode)
    (r : KeyNormalizer × List KeyEvent)
    → normalize_key k epoch raw code ≡ ok r
    → (i : ℕ) → visible (r.0) i ≡ replay (r.1) (visible k) i
unfolding normalize_key turn replay
normalize_key-follows k epoch raw none r h i = subst (IsFollowed k i) (ok-equal (k, []) r h) refl
normalize_key-follows k epoch raw (some code) r h i =
    let (action, e1, h) = bind-ok (key_action raw.value) _ r h in
    let (time, e2, h) = bind-ok (timestamp_ns raw.seconds raw.microseconds) _ r h in
    let event : KeyEvent = record {
      timestamp_ns = time;
      code = code;
      action = action;
      epoch = epoch;
    } in
    subst (IsFollowed k i) (ok-equal (turn k event) r h)
      (turn_as-replays k event (k.suppressed (index code)) i refl)

normalize-follows :
    (k : KeyNormalizer) (epoch : ℕ) (raws : List RawInputEvent) (r : KeyNormalizer × List KeyEvent)
    → normalize k epoch raws ≡ ok r
    → (i : ℕ) → IsFollowed k i r
unfolding normalize normalize_one replay
normalize-follows k epoch [] r h i = subst (IsFollowed k i) (ok-equal (k, []) r h) refl
normalize-follows k epoch (raw ∷ rest) r h i =
    let (first, e1, h) = bind-ok (normalize_one k epoch raw) _ r h in
    let (others, e2, h) = bind-ok (normalize (first.0) epoch rest) _ r h in
    subst (IsFollowed k i) (ok-equal (others.0, first.1 ++ others.1) r h) (
      normalize-follows (first.0) epoch rest others e2 i
      ∙ replay-same (others.1) (visible (first.0)) (replay (first.1) (visible k))
          (normalize_key-follows k epoch raw _ first e1) i
      ∙ sym (ap (λ f. f i) (replay-append (first.1) (others.1) (visible k))))

-- A client that follows the events of a report from the keys that were visibly down comes to the
-- keys that are visibly down after it, whatever repeats, releases and suppressed keys the report
-- has; and when the epoch is cut no key is visibly down, so that the next client starts from none.
pub normalize-replays :
    (k : KeyNormalizer) (epoch : ℕ) (raws : List RawInputEvent) (r : KeyNormalizer × List KeyEvent)
    → normalize k epoch raws ≡ ok r
    → ((i : ℕ) → visible (r.0) i ≡ replay (r.1) (visible k) i)
      × ((i : ℕ) → visible (suppress_held (r.0)) i ≡ false)
unfolding visible suppress_held
normalize-replays k epoch raws r h = (normalize-follows k epoch raws r h, λ i. ground arith)
