-- ===== src/Compositor/State/Shell/Refusals.antt =====
-- What a shell without the grant gets from its requests, and what a refused request costs.
use atria.Base.{ℕ, ◌≡◌, ap, false, Result, err, arith}
use atria.Base.Map.{ℕ_key, pair_key}
use atria.Protocol.Capability.{Capability}
use atria.Compositor.Error.{ShellError}
use atria.Compositor.Model.{ConnectionId, ObjectId, ToplevelHandle, chord_key, Point, Size}
use atria.Compositor.State.{CompositorState}
use atria.Compositor.State.Access.{holds}
use atria.Compositor.State.Shell.{
  ShellOutcome, shell_target, at_target, shell_configure, shell_close, shell_place, shell_raise,
  known_seat, shell_focus, shell_grab,
}

ungranted :
    (s : CompositorState) (shell : ConnectionId) (h : ToplevelHandle)
    → holds s shell Capability.shell_control ≡ false
    → shell_target s shell h ≡ err ShellError.not_granted
unfolding shell_target
ungranted s shell h missing = ground (arith, missing)

at_no_target :
    (s : CompositorState) (r : Result ShellError (ConnectionId × ObjectId)) (e : ShellError)
    (f : ConnectionId → ObjectId → ShellOutcome)
    → r ≡ err e
    → at_target s r f ≡ (s, err e)
unfolding at_target
at_no_target s r e f h = ap (λ x. at_target s x f) h

-- A connection without the shell's grant, whatever window it names and whether or not there is
-- one: each of the six requests changes nothing and says only that the grant is missing, for the
-- seat that there is.
pub shell-not_granted :
    (s : CompositorState) (shell : ConnectionId) (h : ToplevelHandle) (size : Size) (state : ℕ)
    (position : Point) (control : ObjectId)
    → holds s shell Capability.shell_control ≡ false
    → (shell_configure s shell h size state ≡ (s, err ShellError.not_granted))
      × (shell_close s shell h ≡ (s, err ShellError.not_granted))
      × (shell_place s shell h position ≡ (s, err ShellError.not_granted))
      × (shell_raise s shell h ≡ (s, err ShellError.not_granted))
      × (shell_focus s shell 1 h ≡ (s, err ShellError.not_granted))
      × (shell_grab s shell 1 h control ≡ (s, err ShellError.not_granted))
unfolding shell_configure shell_close shell_place shell_raise shell_focus shell_grab known_seat
shell-not_granted s shell h size state position control missing =
    let refused = ungranted s shell h missing in
    (
      at_no_target s _ _ _ refused,
      at_no_target s _ _ _ refused,
      at_no_target s _ _ _ refused,
      at_no_target s _ _ _ refused,
      at_no_target s _ _ _ refused,
      at_no_target s _ _ _ refused,
    )
