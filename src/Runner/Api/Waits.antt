-- ===== src/Runner/Api/Waits.antt =====
-- That the wait for the API socket ends.
use firecracker_lab.Prelude.{
  Text, ℕ, zero, suc, ◌+◌, ◌*◌, ◌/◌, ◌≤◌, ◌≡◌, refl, false, inl, inr, arith, Bool-cases,
}
use firecracker_lab.Vsock.{rounds_for}
use firecracker_lab.World.{stat, sleep, Host, IsHonestClock, World, call-cases, logged}
use firecracker_lab.Runner.Api.{
  wait_loop, wait_for_socket, one_wait, after_stat, is_before, socket_timeout,
}

module _ (host : Host) (clock : IsHonestClock host) where
  not_before :
      (deadline : ℕ) (w : World) → deadline ≤ host.now w.log → is_before host deadline w ≡ false
  unfolding is_before
  not_before deadline w h = ground arith

  -- Behind a failed look at the socket and a sleep.
  slept_world : Text → World → World
  slept_world path w = logged (sleep 100) (logged (stat path) w)

  later : (path : Text) (w : World) → host.now w.log + 100 ≤ host.now (slept_world path w).log
  unfolding slept_world
  later path w =
      omega (arith, clock.monotone w.log (stat path), clock.slept (logged (stat path) w).log 100)

  -- Two loops that both have rounds enough to reach the deadline agree.
  wait_loop-eq :
      (a b : ℕ) (path : Text) (deadline : ℕ) (w : World)
      → deadline ≤ host.now w.log + 100 * a
      → deadline ≤ host.now w.log + 100 * b
      → wait_loop host a path deadline w ≡ wait_loop host b path deadline w
  unfolding wait_loop one_wait socket_timeout after_stat slept_world
  wait_loop-eq zero zero path deadline w ha hb = refl
  wait_loop-eq zero (suc b) path deadline w ha hb = rw (not_before deadline w (omega arith)) refl
  wait_loop-eq (suc a) zero path deadline w ha hb = rw (not_before deadline w (omega arith)) refl
  wait_loop-eq (suc a) (suc b) path deadline w ha hb =
      elim (Bool-cases (is_before host deadline w)) [
        | inl early ↦ rw early (elim (call-cases host (stat path) w) [
          | inl e ↦ rw e (
              let forward = later path w in
              wait_loop-eq a b path deadline (slept_world path w) (omega arith) (omega arith))
          | inr e ↦ rw e refl
        ])
        | inr late ↦ rw late refl
      ]

  -- `waitForSocket` ends on a clock that goes forward: the bound on its rounds is never reached,
  -- since any larger bound gives the same outcome.
  pub wait_loop-enough :
      (path : Text) (timeout more : ℕ) (w : World)
      → wait_loop host (rounds_for timeout + more) path (host.now w.log + timeout) w
        ≡ wait_for_socket host path timeout w
  unfolding wait_for_socket rounds_for
  wait_loop-enough path timeout more w =
      wait_loop-eq (timeout / 100 + 2 + more) (timeout / 100 + 2) path _ w (omega arith)
        (omega arith)
