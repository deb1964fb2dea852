-- ===== src/World/Clock.antt =====
-- No action turns the clock back.
use native.Mathlib.Nat.{le_trans, le_refl}
use firecracker_lab.Prelude.{Text, ℕ, ◌≤◌}
use firecracker_lab.World.Calls.{Call, Host, IsHonestClock}
use firecracker_lab.World.Monad.{
  Result, ok, err, World, Action, call, ask, continue, ◌>>=◌, wrapping, wrap_outcome,
}

-- The action ends no earlier than it begins.
pub record IsForward (host : Host) {A : Type 0} (m : Action A) : Type 0 where
  pub ends_after : (w : World) → host.now w.log ≤ host.now (m w).1.log

module _ (host : Host) where
  pub call-IsForward : IsHonestClock host → (c : Call) → IsForward host (call host c)
  unfolding call
  call-IsForward clock c = record { ends_after = λ w. clock.monotone w.log c }

  pub ask-IsForward : IsHonestClock host → (c : Call) → IsForward host (ask host c)
  unfolding ask
  ask-IsForward clock c = record { ends_after = λ w. clock.monotone w.log c }

  -- What touches no clock.
  pub still-IsForward : {A : Type 0} (f : World → Result A) → IsForward host (λ w. (f w, w))
  still-IsForward f = record { ends_after = λ w. le_refl (host.now w.log) }

  bind_forward :
      {A B : Type 0} (f : A → Action B) (t : ℕ) (o : Result A × World)
      → ((a : A) → IsForward host (f a))
      → t ≤ host.now o.1.log
      → t ≤ host.now (continue f o).1.log
  bind_forward f t (ok a, w) h k = le_trans k ((h a).ends_after w)
  bind_forward f t (err e, w) h k = k

  pub >>=-IsForward :
      {A B : Type 0} (m : Action A) (f : A → Action B)
      → IsForward host m
      → ((a : A) → IsForward host (f a))
      → IsForward host (m >>= f)
  >>=-IsForward m f h k = record {
    ends_after = λ w. bind_forward f (host.now w.log) (m w) k (h.ends_after w);
  }

  wrap_forward :
      {A : Type 0} (t : Text) (k : ℕ) (o : Result A × World)
      → k ≤ host.now o.1.log
      → k ≤ host.now (wrap_outcome t o).1.log
  wrap_forward t k (ok a, w) h = h
  wrap_forward t k (err e, w) h = h

  pub wrapping-IsForward :
      {A : Type 0} (t : Text) (m : Action A) → IsForward host m → IsForward host (wrapping t m)
  wrapping-IsForward t m h = record {
    ends_after = λ w. wrap_forward t (host.now w.log) (m w) (h.ends_after w);
  }
