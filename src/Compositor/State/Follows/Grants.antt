-- ===== src/Compositor/State/Follows/Grants.antt =====
-- That no step of `Follows` grants anything: neither a request nor an input event does.
use atria.Base.{◌+◌, ◌≡◌, refl, ap, sym, subst, ◌∙◌, inl, inr, some}
use atria.Base.Map.{lookup, ℕ_key, pair_key}
use atria.Compositor.Request.{ClientRequest}
use atria.Compositor.Model.{ConnectionId, chord_key}
use atria.Compositor.State.{CompositorState, Connection}
use atria.Compositor.State.Access.{modify_connection}
use atria.Compositor.State.Follows.{
  Follows, stays, goes, Step, sends, closes, changes, allocates, elsewhere, with_registry,
}
use atria.Base.Map.{found-update, found-remove}
use atria.Compositor.State.Push.{queue}
use atria.Compositor.State.Teardown.{detach_connection}
use atria.Compositor.State.Teardown.Induction.{send}
use atria.Compositor.State.Dispatch.{dispatch}
use atria.Compositor.State.Follows.Requests.{dispatch-Follows}

-- A connection of `t` was one of `s`, with the same grants and the same session.
unfoldable pub IsUngranted : CompositorState → CompositorState → Type 0
IsUngranted s t =
    (d : ConnectionId) (w : Connection)
    → lookup d t.connections ≡ some w
    → (v : Connection) × (lookup d s.connections ≡ some v)
      × (w.capabilities ≡ v.capabilities)
      × (w.available_capabilities ≡ v.available_capabilities)
      × (w.session ≡ v.session)

modify-IsUngranted :
    (s : CompositorState) (c : ConnectionId) (f : Connection → Connection)
    → ((v : Connection)
        → ((f v).capabilities ≡ v.capabilities)
          × ((f v).available_capabilities ≡ v.available_capabilities)
          × ((f v).session ≡ v.session))
    → IsUngranted s (modify_connection c f s)
unfolding IsUngranted modify_connection
modify-IsUngranted s c f keeps d w h =
    let (v, found, change) = found-update c d f s.connections w h in
    elim change [
      | inl e ↦ (
        v,
        found,
        ap (λ (x : Connection). x.capabilities) e,
        ap (λ (x : Connection). x.available_capabilities) e,
        ap (λ (x : Connection). x.session) e,
      )
      | inr (own, e) ↦
          let (granted, available, joined) = keeps v in
          (
            v,
            found,
            ap (λ (x : Connection). x.capabilities) e ∙ granted,
            ap (λ (x : Connection). x.available_capabilities) e ∙ available,
            ap (λ (x : Connection). x.session) e ∙ joined,
          )
    ]

Step-IsUngranted : (s t : CompositorState) → Step s t → IsUngranted s t
unfolding IsUngranted detach_connection send queue
Step-IsUngranted s t (sends c id kind client e room h) = subst (IsUngranted s) (sym h) (
    modify-IsUngranted s c (λ v. record v { pending_events = v.pending_events + 1 })
      (λ v. (refl, refl, refl)))
Step-IsUngranted s t (closes c h) =
    subst (IsUngranted s) (sym h)
      (λ d w found. (w, found-remove c d s.connections w found, refl, refl, refl))
Step-IsUngranted s t (changes c f steps h) =
    subst (IsUngranted s) (sym h)
      (modify-IsUngranted s c (with_registry f) (λ v. (refl, refl, refl)))
Step-IsUngranted s t (allocates c client id k value r e room done h) =
    subst (IsUngranted s) (sym h)
      (modify-IsUngranted s c (with_registry (λ old. r)) (λ v. (refl, refl, refl)))
Step-IsUngranted s t (elsewhere (same, limits, maximum, next)) =
    λ d w found. (w, ap (lookup d) (sym same) ∙ found, refl, refl, refl)

pub Follows-IsUngranted : {s t : CompositorState} → Follows s t → IsUngranted s t
unfolding IsUngranted
Follows-IsUngranted stays d w h = (w, h, refl, refl, refl)
Follows-IsUngranted (goes {t} {u} before step) d w h =
    let (x, found, granted, available, joined) = Step-IsUngranted t u step d w h in
    let (v, start, granted0, available0, joined0) = Follows-IsUngranted before d x found in
    (v, start, granted ∙ granted0, available ∙ available0, joined ∙ joined0)

-- No request of a client grants anything, to it or to another: a connection that is there after
-- `dispatch` was there before, and has the capabilities, the available capabilities and the
-- session that it had.
pub dispatch-IsUngranted :
    (s : CompositorState) (c : ConnectionId) (request : ClientRequest)
    → IsUngranted s (dispatch s c request).0
dispatch-IsUngranted s c request = Follows-IsUngranted (dispatch-Follows s c request)
