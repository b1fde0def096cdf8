-- ===== src/Compositor/State/Dispatch/Penalty.antt =====
-- What an error of the protocol costs the client.
use atria.Base.{◌≡◌, ap, ◌∙◌, inl, inr, none, some, length, err, ok_or, Option-cases}
use atria.Base.Map.{lookup, ℕ_key, pair_key}
use atria.Compositor.Error.{StateError, error_category, error_object_id}
use atria.Compositor.Request.{ClientRequest, EventKind}
use atria.Compositor.Model.{ConnectionId, chord_key}
use atria.Compositor.State.{CompositorState, Connection}
use atria.Compositor.State.Teardown.{push_event, close_connection, Destroyed}
use atria.Protocol.Error.{ErrorCategory}
use atria.Compositor.State.Access.{connection}
use atria.Compositor.State.Outcome.{Outcome, after}
use atria.Compositor.State.Dispatch.{dispatch_checked, penalize, answer, dispatch}
use atria.Compositor.State.Teardown.Gone.{close_connection-IsForgotten}
use atria.Compositor.State.Teardown.Fuel.{close_fuel-none}

close-absent :
    (s : CompositorState) (c : ConnectionId) → lookup c (close_connection s c).0.connections ≡ none
unfolding close_connection
close-absent s c = elim (Option-cases (lookup c s.connections)) [
  | inl e ↦
      ap (λ (r : CompositorState × Destroyed). lookup c r.0.connections)
        (close_fuel-none (length s.connections) s c e)
      ∙ e
  | inr (client, e) ↦ (close_connection-IsForgotten s c client e).no_connection
]

-- A request that a connected client may not make at all, an error of the category protocol, is
-- answered with that error, and the client is no longer connected, whatever the request has
-- changed before it failed and whatever the error message itself has closed.
pub dispatch-disconnects :
    (s u : CompositorState) (c : ConnectionId) (request : ClientRequest) (client : Connection)
    (e : StateError)
    → lookup c s.connections ≡ some client
    → dispatch_checked s c request ≡ (u, err e)
    → error_category e ≡ ErrorCategory.protocol
    → (lookup c (dispatch s c request).0.connections ≡ none) × ((dispatch s c request).1 ≡ err e)
unfolding dispatch connection answer penalize
dispatch-disconnects s u c request client e found failed category =
    let told = push_event u c (error_object_id e) (EventKind.error e) in
    let answered : dispatch s c request
        ≡ (penalize told c (error_object_id e) (error_category e), err e) =
      ap
        (λ o.
          after s (ok_or o StateError.connection_closed)
            (λ (x : Connection). answer c (dispatch_checked s c request)))
        found
      ∙ ap (answer c) failed in
    let punished = answered ∙ ap (λ k. (penalize told c (error_object_id e) k, err e)) category in
    (
      ap (λ (r : Outcome (Unit {0})). lookup c r.0.connections) punished ∙ close-absent told c,
      ap (λ (r : Outcome (Unit {0})). r.1) answered,
    )
