-- ===== src/World/Keeps.antt =====
-- Actions that leave the state database alone.
use firecracker_lab.Prelude.{
  Text, ℕ, Bool, true, false, ◌≡◌, refl, ◌∙◌, List, [], ◌∷◌, if◌then◌else◌,
}
use firecracker_lab.World.Calls.{Call, Host}
use firecracker_lab.World.Monad.{
  Error, Result, ok, err, World, Action, ⊤, pure, raise, gets, nap, call, ask, continue, ◌>>=◌,
  attempt, wrapping, wrap_outcome, for_each, deferring,
}

pub record Keeps {A : Type 0} (m : Action A) : Type 0 where
  pub same_db : (w : World) → (m w).1.db ≡ w.db

pub still-Keeps : {A : Type 0} (f : World → Result A) → Keeps (λ w. (f w, w))
still-Keeps f = record { same_db = λ w. refl }

pub pure-Keeps : {A : Type 0} (a : A) → Keeps (pure a)
pure-Keeps a = record { same_db = λ w. refl }

pub raise-Keeps : {A : Type 0} (e : Error) → Keeps (raise {A = A} e)
raise-Keeps e = record { same_db = λ w. refl }

pub gets-Keeps : {A : Type 0} (f : World → A) → Keeps (gets f)
gets-Keeps f = record { same_db = λ w. refl }

pub nap-Keeps : (ms : ℕ) → Keeps (nap ms)
nap-Keeps ms = record { same_db = λ w. refl }

pub call-Keeps : (host : Host) (c : Call) → Keeps (call host c)
unfolding call
call-Keeps host c = record { same_db = λ w. refl }

pub ask-Keeps : (host : Host) (c : Call) → Keeps (ask host c)
unfolding ask
ask-Keeps host c = record { same_db = λ w. refl }

continue_same :
    {A B : Type 0} (f : A → Action B) (o : Result A × World)
    → ((a : A) → Keeps (f a))
    → (continue f o).1.db ≡ o.1.db
continue_same f (ok a, w) h = (h a).same_db w
continue_same f (err e, w) h = refl

pub >>=-Keeps :
    {A B : Type 0} (m : Action A) (f : A → Action B)
    → Keeps m
    → ((a : A) → Keeps (f a))
    → Keeps (m >>= f)
>>=-Keeps m f h k = record { same_db = λ w. continue_same f (m w) k ∙ h.same_db w }

pub attempt-Keeps : {A : Type 0} (m : Action A) → Keeps m → Keeps (attempt m)
attempt-Keeps m h = record { same_db = h.same_db }

wrap_same : {A : Type 0} (t : Text) (o : Result A × World) → (wrap_outcome t o).1.db ≡ o.1.db
wrap_same t (ok a, w) = refl
wrap_same t (err e, w) = refl

pub wrapping-Keeps : {A : Type 0} (t : Text) (m : Action A) → Keeps m → Keeps (wrapping t m)
wrapping-Keeps t m h = record { same_db = λ w. wrap_same t (m w) ∙ h.same_db w }

pub for_each-Keeps :
    {A : Type 0} (xs : List A) (f : A → Action ⊤) → ((x : A) → Keeps (f x)) → Keeps (for_each xs f)
unfolding for_each
for_each-Keeps [] f h = pure-Keeps tt
for_each-Keeps (x ∷ xs) f h =
    >>=-Keeps (f x) (λ _. for_each xs f) (h x) (λ _. for_each-Keeps xs f h)

pub deferring-Keeps :
    {A : Type 0} (cleanup : Action ⊤) (m : Action A)
    → Keeps cleanup
    → Keeps m
    → Keeps (deferring cleanup m)
deferring-Keeps cleanup m h k = record { same_db = λ w. h.same_db (m w).1 ∙ k.same_db w }

pub if-Keeps :
    {A : Type 0} (b : Bool) (m n : Action A) → Keeps m → Keeps n → Keeps (if b then m else n)
if-Keeps true m n h k = h
if-Keeps false m n h k = k

pub ruleset keeping = (
  >>=-Keeps, attempt-Keeps, wrapping-Keeps, deferring-Keeps, for_each-Keeps, if-Keeps, call-Keeps,
  ask-Keeps, nap-Keeps, pure-Keeps, raise-Keeps, gets-Keeps, still-Keeps,
)
