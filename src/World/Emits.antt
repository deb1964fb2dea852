-- ===== src/World/Emits.antt =====
-- Which calls an action makes.
use mathlib.Core.List.{append_assoc}
use firecracker_lab.Prelude.{
  Text, ℕ, Bool, true, false, ◌≡◌, refl, ◌∙◌, ap, List, [], ◌∷◌, ◌++◌, if◌then◌else◌,
}
use firecracker_lab.Prelude.Lists.{All, All-append}
use firecracker_lab.World.Calls.{Call, sleep, History, Host}
use firecracker_lab.World.Monad.{
  Error, Result, ok, err, World, Action, ⊤, pure, raise, gets, nap, call, ask, continue, ◌>>=◌,
  attempt, wrapping, wrap_outcome, for_each, deferring,
}

-- The history has grown by calls that satisfy P.
pub record Grows (P : Call → Type 0) (h h' : History) : Type 0 where
  pub added : History
  pub log_eq : h' ≡ added ++ h
  pub allowed : All P added

-- The action only makes calls that satisfy P.
pub record Emits (P : Call → Type 0) {A : Type 0} (m : Action A) : Type 0 where
  pub grows : (w : World) → Grows P w.log (m w).1.log

module _ {P : Call → Type 0} where
  pub Grows-refl : (h : History) → Grows P h h
  Grows-refl h = record { added = []; log_eq = refl; allowed = tt }

  pub Grows-one : (c : Call) (h : History) → P c → Grows P h (c ∷ h)
  Grows-one c h p = record { added = c ∷ []; log_eq = refl; allowed = (p, tt) }

  pub Grows-trans : {h h' h'' : History} → Grows P h h' → Grows P h' h'' → Grows P h h''
  Grows-trans {h} g k = record {
    added = k.added ++ g.added;
    log_eq = k.log_eq ∙ ap (λ (l : History). k.added ++ l) g.log_eq ∙ rw append_assoc;
    allowed = All-append P k.added g.added k.allowed g.allowed;
  }

  pub still-Emits : {A : Type 0} (f : World → Result A) → Emits P (λ w. (f w, w))
  still-Emits f = record { grows = λ w. Grows-refl w.log }

  pub pure-Emits : {A : Type 0} (a : A) → Emits P (pure a)
  pure-Emits a = record { grows = λ w. Grows-refl w.log }

  pub raise-Emits : {A : Type 0} (e : Error) → Emits P (raise {A = A} e)
  raise-Emits e = record { grows = λ w. Grows-refl w.log }

  pub gets-Emits : {A : Type 0} (f : World → A) → Emits P (gets f)
  gets-Emits f = record { grows = λ w. Grows-refl w.log }

  pub nap-Emits : (ms : ℕ) → P (sleep ms) → Emits P (nap ms)
  nap-Emits ms p = record { grows = λ w. Grows-one (sleep ms) w.log p }

  pub call-Emits : (host : Host) (c : Call) → P c → Emits P (call host c)
  unfolding call
  call-Emits host c p = record { grows = λ w. Grows-one c w.log p }

  pub ask-Emits : (host : Host) (c : Call) → P c → Emits P (ask host c)
  unfolding ask
  ask-Emits host c p = record { grows = λ w. Grows-one c w.log p }

  continue-Grows :
      {A B : Type 0} (f : A → Action B) (h : History) (o : Result A × World)
      → ((a : A) → Emits P (f a))
      → Grows P h o.1.log
      → Grows P h (continue f o).1.log
  continue-Grows f h (ok a, w) k g = Grows-trans g ((k a).grows w)
  continue-Grows f h (err e, w) k g = g

  pub >>=-Emits :
      {A B : Type 0} (m : Action A) (f : A → Action B)
      → Emits P m
      → ((a : A) → Emits P (f a))
      → Emits P (m >>= f)
  >>=-Emits m f h k = record { grows = λ w. continue-Grows f w.log (m w) k (h.grows w) }

  pub attempt-Emits : {A : Type 0} (m : Action A) → Emits P m → Emits P (attempt m)
  attempt-Emits m h = record { grows = h.grows }

  wrap-Grows :
      {A : Type 0} (t : Text) (h : History) (o : Result A × World)
      → Grows P h o.1.log
      → Grows P h (wrap_outcome t o).1.log
  wrap-Grows t h (ok a, w) g = g
  wrap-Grows t h (err e, w) g = g

  pub wrapping-Emits : {A : Type 0} (t : Text) (m : Action A) → Emits P m → Emits P (wrapping t m)
  wrapping-Emits t m h = record { grows = λ w. wrap-Grows t w.log (m w) (h.grows w) }

  pub deferring-Emits :
      {A : Type 0} (cleanup : Action ⊤) (m : Action A)
      → Emits P cleanup
      → Emits P m
      → Emits P (deferring cleanup m)
  deferring-Emits cleanup m h k = record { grows = λ w. Grows-trans (k.grows w) (h.grows (m w).1) }

  pub for_each-Emits :
      {A : Type 0} (xs : List A) (f : A → Action ⊤)
      → ((x : A) → Emits P (f x))
      → Emits P (for_each xs f)
  unfolding for_each
  for_each-Emits [] f h = pure-Emits tt
  for_each-Emits (x ∷ xs) f h =
      >>=-Emits (f x) (λ _. for_each xs f) (h x) (λ _. for_each-Emits xs f h)

  pub if-Emits :
      {A : Type 0} (b : Bool) (m n : Action A)
      → Emits P m
      → Emits P n
      → Emits P (if b then m else n)
  if-Emits true m n h k = h
  if-Emits false m n h k = k

pub ruleset emitting = (
  >>=-Emits, attempt-Emits, wrapping-Emits, deferring-Emits, for_each-Emits, if-Emits, call-Emits,
  ask-Emits, nap-Emits, pure-Emits, raise-Emits, gets-Emits, still-Emits,
)
