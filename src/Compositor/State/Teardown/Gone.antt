-- ===== src/Compositor/State/Teardown/Gone.antt =====
-- What `close_connection` leaves of a connection.
use atria.Base.{
  ℕ, suc, ◌+◌, ◌≡◌, refl, sym, subst, false, Option, none, some, [], ◌∷◌, if◌then◌else◌, arith,
  ◌==◌, ==_iff, any, any-keep, any-keep-not, length,
}
use atria.Base.Map.{
  Map, lookup, ℕ_key, pair_key, lookup-update, lookup-remove, any_entry, any_entry-retain,
  any_entry-retain-not,
}
use atria.Compositor.Model.{ConnectionId, SurfaceKey, chord_key}
use atria.Compositor.State.{CompositorState, Connection}
use atria.Compositor.State.Access.{modify_connection}
use atria.Compositor.State.Push.{queue}
use atria.Compositor.State.Teardown.{
  detach_connection, close_found, close_by, close_fuel, close_connection, owned_key,
}
use atria.Compositor.State.Teardown.Induction.{send, IsKept, close_found-kept, close_fuel-kept}

-- The connection is not there, and neither a window's handle, the scene, `keyboard_focus`,
-- `pointer_target`, a shortcut nor a text field names it.
pub record IsForgotten (c : ConnectionId) (s : CompositorState) : Type 0 where
  pub no_connection : lookup c s.connections ≡ none
  pub no_toplevel : any_entry (λ h owner. owner.0 == c) s.toplevels ≡ false
  pub no_position : any_entry (λ key p. key.0 == c) s.scene.positions ≡ false
  pub not_stacked : any (λ key. key.0 == c) s.scene.stack ≡ false
  pub no_focus : owned_key c s.keyboard_focus ≡ false
  pub no_target : owned_key c s.pointer_target ≡ false
  pub no_shortcut : any_entry (λ chord claim. claim.holder == c) s.shortcuts ≡ false
  pub no_field : any_entry (λ key f. key.0 == c) s.fields ≡ false

cleared :
    (d : ConnectionId) (key : Option SurfaceKey)
    → owned_key d (if owned_key d key then none else key) ≡ false
cleared d none = refl
cleared d (some key) = ground arith

still_cleared :
    (c d : ConnectionId) (key : Option SurfaceKey)
    → owned_key c key ≡ false
    → owned_key c (if owned_key d key then none else key) ≡ false
still_cleared c d none h = refl
still_cleared c d (some key) h = ground arith

-- Detaching a connection forgets it, and brings back no other.
detach-IsForgotten :
    (s : CompositorState) (c : ConnectionId) → IsForgotten c (detach_connection c s)
unfolding detach_connection
detach-IsForgotten s c = record {
  no_connection = ground (arith, lookup-remove c c s.connections, ==_iff c c);
  no_toplevel = any_entry-retain-not _ s.toplevels;
  no_position = any_entry-retain-not _ s.scene.positions;
  not_stacked = any-keep-not _ s.scene.stack;
  no_focus = cleared c s.keyboard_focus;
  no_target = cleared c s.pointer_target;
  no_shortcut = any_entry-retain-not _ s.shortcuts;
  no_field = any_entry-retain-not _ s.fields;
}

IsForgotten-kept : (c : ConnectionId) → IsKept (IsForgotten c)
unfolding send queue detach_connection modify_connection
IsForgotten-kept c = record {
  sent = λ s d id kind client e room p. record {
    no_connection = ground (
      arith,
      lookup-update d c (λ v. record v { pending_events = v.pending_events + 1 }) s.connections,
      ==_iff d c,
      p.no_connection,
    );
    no_toplevel = p.no_toplevel;
    no_position = p.no_position;
    not_stacked = p.not_stacked;
    no_focus = p.no_focus;
    no_target = p.no_target;
    no_shortcut = p.no_shortcut;
    no_field = p.no_field;
  };
  overflowed = λ s d kind p. record {
    no_connection = p.no_connection;
    no_toplevel = p.no_toplevel;
    no_position = p.no_position;
    not_stacked = p.not_stacked;
    no_focus = p.no_focus;
    no_target = p.no_target;
    no_shortcut = p.no_shortcut;
    no_field = p.no_field;
  };
  detached = λ s d p. record {
    no_connection = ground (arith, lookup-remove d c s.connections, p.no_connection);
    no_toplevel = any_entry-retain _ _ s.toplevels p.no_toplevel;
    no_position = any_entry-retain _ _ s.scene.positions p.no_position;
    not_stacked = any-keep _ _ s.scene.stack p.not_stacked;
    no_focus = still_cleared c d s.keyboard_focus p.no_focus;
    no_target = still_cleared c d s.pointer_target p.no_target;
    no_shortcut = any_entry-retain _ _ s.shortcuts p.no_shortcut;
    no_field = any_entry-retain _ _ s.fields p.no_field;
  };
  composed = λ s method composing n p. record {
    no_connection = p.no_connection;
    no_toplevel = p.no_toplevel;
    no_position = p.no_position;
    not_stacked = p.not_stacked;
    no_focus = p.no_focus;
    no_target = p.no_target;
    no_shortcut = p.no_shortcut;
    no_field = p.no_field;
  };
}

close_fuel-IsForgotten :
    (fuel : ℕ) (s : CompositorState) (c : ConnectionId) (client : Connection)
    → lookup c s.connections ≡ some client
    → IsForgotten c (close_fuel (suc fuel) s c).0
unfolding close_fuel close_by
close_fuel-IsForgotten fuel s c client e =
    let inner : CompositorState → ConnectionId → CompositorState = λ t d. (close_fuel fuel t d).0 in
    subst (λ found. IsForgotten c (close_found inner s c found).0) (sym e)
      (close_found-kept (IsForgotten c) (IsForgotten-kept c) inner
        (λ t d. close_fuel-kept (IsForgotten c) (IsForgotten-kept c) fuel t d) s c client
        (detach-IsForgotten s c))

-- The first round of fuel is there: a connection that is found makes the list of them longer than 0.
close-IsForgotten_by :
    (m : Map ConnectionId Connection) (s : CompositorState) (c : ConnectionId) (client : Connection)
    → lookup c m ≡ some client
    → lookup c s.connections ≡ some client
    → IsForgotten c (close_fuel (length m) s c).0
unfolding lookup
close-IsForgotten_by [] s c client h e = ground arith
close-IsForgotten_by (x ∷ m) s c client h e = close_fuel-IsForgotten (length m) s c client e

-- Closing a connection that is there, whatever events the others are sent meanwhile and whichever of
-- them those close too: it is not connected, no handle in `toplevels` is its, it is neither stacked nor
-- placed in the scene, neither `keyboard_focus` nor `pointer_target` is one of its surfaces, and it has
-- no entry in `shortcuts` and `fields`. The pointer's own target and grab in `seat` are not among these.
pub close_connection-IsForgotten :
    (s : CompositorState) (c : ConnectionId) (client : Connection)
    → lookup c s.connections ≡ some client
    → IsForgotten c (close_connection s c).0
unfolding close_connection
close_connection-IsForgotten s c client e = close-IsForgotten_by s.connections s c client e e
