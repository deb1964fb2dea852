-- ===== src/World/Total.antt =====
-- Actions that return no error, from whatever world they start.
use firecracker_lab.Prelude.{Text, ℕ, Bool, true, false, ◌≡◌, List, [], ◌∷◌, if◌then◌else◌}
use firecracker_lab.World.Calls.{Call, History, Host}
use firecracker_lab.World.Monad.{
  Result, ok, err, World, Action, ⊤, pure, gets, nap, call, ask, continue, ◌>>=◌, attempt, wrapping,
  wrap_outcome, for_each,
}

-- The outcome is no error.
abbrev pub IsOk : {A : Type 0} → Result A × World → Type 0
IsOk (ok a, w) = Unit
IsOk (err e, w) = ⊥

pub record IsTotal {A : Type 0} (m : Action A) : Type 0 where
  pub total : (w : World) → IsOk (m w)

pub pure-IsTotal : {A : Type 0} (a : A) → IsTotal (pure a)
pure-IsTotal a = record { total = λ w. tt }

pub gets-IsTotal : {A : Type 0} (f : World → A) → IsTotal (gets f)
gets-IsTotal f = record { total = λ w. tt }

pub nap-IsTotal : (ms : ℕ) → IsTotal (nap ms)
nap-IsTotal ms = record { total = λ w. tt }

pub attempt-IsTotal : {A : Type 0} (m : Action A) → IsTotal (attempt m)
attempt-IsTotal m = record { total = λ w. tt }

pub call-IsTotal :
    (host : Host) (c : Call) → ((h : History) → host.fails h c ≡ false) → IsTotal (call host c)
unfolding call
call-IsTotal host c works = record { total = λ w. rw (works w.log) tt }

pub ask-IsTotal :
    (host : Host) (c : Call) → ((h : History) → host.fails h c ≡ false) → IsTotal (ask host c)
unfolding ask
ask-IsTotal host c works = record { total = λ w. rw (works w.log) tt }

continue-IsOk :
    {A B : Type 0} (f : A → Action B) (o : Result A × World)
    → ((a : A) → IsTotal (f a))
    → IsOk o
    → IsOk (continue f o)
continue-IsOk f (ok a, w) h k = (h a).total w
continue-IsOk f (err e, w) h k = absurd k

pub >>=-IsTotal :
    {A B : Type 0} (m : Action A) (f : A → Action B)
    → IsTotal m
    → ((a : A) → IsTotal (f a))
    → IsTotal (m >>= f)
>>=-IsTotal m f h k = record { total = λ w. continue-IsOk f (m w) k (h.total w) }

wrap-IsOk : {A : Type 0} (t : Text) (o : Result A × World) → IsOk o → IsOk (wrap_outcome t o)
wrap-IsOk t (ok a, w) h = h
wrap-IsOk t (err e, w) h = h

pub wrapping-IsTotal : {A : Type 0} (t : Text) (m : Action A) → IsTotal m → IsTotal (wrapping t m)
wrapping-IsTotal t m h = record { total = λ w. wrap-IsOk t (m w) (h.total w) }

pub for_each-IsTotal :
    {A : Type 0} (xs : List A) (f : A → Action ⊤)
    → ((x : A) → IsTotal (f x))
    → IsTotal (for_each xs f)
unfolding for_each
for_each-IsTotal [] f h = pure-IsTotal tt
for_each-IsTotal (x ∷ xs) f h =
    >>=-IsTotal (f x) (λ _. for_each xs f) (h x) (λ _. for_each-IsTotal xs f h)

pub if-IsTotal :
    {A : Type 0} (b : Bool) (m n : Action A) → IsTotal m → IsTotal n → IsTotal (if b then m else n)
if-IsTotal true m n h k = h
if-IsTotal false m n h k = k

pub ruleset totals = (
  >>=-IsTotal, attempt-IsTotal, wrapping-IsTotal, for_each-IsTotal, if-IsTotal, nap-IsTotal,
  pure-IsTotal, gets-IsTotal,
)

-- A step whose error the next one handles, when it gives none.
pub attempted-IsTotal :
    {A B : Type 0} (m : Action A) (f : Result A → Action B)
    → IsTotal m
    → ((a : A) → IsTotal (f (ok a)))
    → IsTotal (attempt m >>= f)
attempted-IsTotal m f h k = record { total = λ w. handled (m w) (h.total w) }
  where
    handled : (o : Result _ × World) → IsOk o → IsOk (f o.0 o.1)
    handled (ok a, w) p = (k a).total w
    handled (err e, w) p = absurd p

-- No call fails.
abbrev pub IsUp : Host → Type 0
IsUp host = (h : History) (c : Call) → host.fails h c ≡ false
