-- ===== src/World/Monad.antt =====
-- A Go function that returns `(A, error)`: it may change the database, and it adds its calls to the history.
use firecracker_lab.Prelude.{Text, ℕ, List, [], ◌∷◌, if◌then◌else◌, ◌≡◌, ◌⊎◌, false, arith}
use firecracker_lab.World.Calls.{Call, sql, Statement, sleep, History, Host}
use firecracker_lab.World.Rows.{Db}

-- `fmt.Errorf` with a wrapped error is `wrap`, without one `message`; `failed` is the error that a
-- call returned, with the output that the program adds to it.
pub data Error : Type 0 where
  failed : Call → Error
  message : Text → Error
  wrap : Text → Error → Error

pub data Result {ℓ} (A : Type ℓ) : Type ℓ where
  ok : A → Result A
  err : Error → Result A

pub record World : Type 0 where
  pub db : Db
  pub log : History

abbrev pub Action : Type 0 → Type 0
Action A = World → Result A × World

abbrev pub ⊤ : Type 0
⊤ = Unit

module _ {A : Type 0} where
  abbrev pub pure : A → Action A
  pure a w = (ok a, w)

  abbrev pub raise : Error → Action A
  raise e w = (err e, w)

  abbrev pub as_value : Result A × World → Result (Result A) × World
  as_value (r, w) = (ok r, w)

  -- The error as a value, as in `if err := m(); err != nil`.
  abbrev pub attempt : Action A → Action (Result A)
  attempt m w = as_value (m w)

  abbrev pub wrap_outcome : Text → Result A × World → Result A × World
  wrap_outcome t (ok a, w) = (ok a, w)
  wrap_outcome t (err e, w) = (err (wrap t e), w)

  -- `return fmt.Errorf("t: %w", err)`
  abbrev pub wrapping : Text → Action A → Action A
  wrapping t m w = wrap_outcome t (m w)

  abbrev pub gets : (World → A) → Action A
  gets f w = (ok (f w), w)

  abbrev pub after_all : Action ⊤ → Result A × World → Result A × World
  after_all cleanup (r, w) = (r, (cleanup w).1)

  -- `defer cleanup()`, whose error is dropped or only logged.
  abbrev pub deferring : Action ⊤ → Action A → Action A
  deferring cleanup m w = after_all cleanup (m w)

-- What follows a step, from what the step returned.
abbrev pub continue : {A B : Type 0} → (A → Action B) → Result A × World → Result B × World
continue f (ok a, w) = f a w
continue f (err e, w) = (err e, w)

infixl 5 ◌>>=◌ ◌>>◌
abbrev pub ◌>>=◌ : {A B : Type 0} → Action A → (A → Action B) → Action B
◌>>=◌ m f w = continue f (m w)

abbrev pub ◌>>◌ : {A B : Type 0} → Action A → Action B → Action B
m >> k = m >>= λ _. k

-- `time.Sleep`, which cannot fail.
abbrev pub nap : ℕ → Action ⊤
nap ms w = (ok tt, record w { log = sleep ms ∷ w.log })

abbrev pub set_db : Db → Action ⊤
set_db db w = (ok tt, record w { db = db })

-- `for _, x := range xs { if err := f(x); err != nil { return err } }`
unfoldable pub for_each : {A : Type 0} → List A → (A → Action ⊤) → Action ⊤
for_each [] f = pure tt
for_each (x ∷ xs) f = do f x; for_each xs f

module _ (host : Host) where
  -- A call whose answer is only whether it failed.
  unfoldable pub call : Call → Action ⊤
  call c w = (if host.fails w.log c then err (failed c) else ok tt, record w { log = c ∷ w.log })

  -- A call that gives a text back.
  unfoldable pub ask : Call → Action Text
  ask c w = (
    if host.fails w.log c then err (failed c) else ok (host.output w.log c),
    record w { log = c ∷ w.log },
  )

-- The world behind a call.
abbrev pub logged : Call → World → World
logged c w = record w { log = c ∷ w.log }

-- A call fails or succeeds; either way it is only added to the history.
pub call-cases :
    (host : Host) (c : Call) (w : World)
    → (call host c w ≡ (err (failed c), logged c w)) ⊎ (call host c w ≡ (ok tt, logged c w))
unfolding call
call-cases host c w = ground arith

-- No statement on the database fails.
abbrev pub IsSqlUp : Host → Type 0
IsSqlUp host = (h : History) (s : Statement) → host.fails h (sql s) ≡ false

-- Then the statements succeed.
pub sql-ok :
    (host : Host) (s : Statement) (w : World)
    → IsSqlUp host
    → call host (sql s) w ≡ (ok tt, logged (sql s) w)
unfolding call
sql-ok host s w h = rw (h w.log s)

pub ask-cases :
    (host : Host) (c : Call) (w : World)
    → (ask host c w ≡ (err (failed c), logged c w))
      ⊎ (ask host c w ≡ (ok (host.output w.log c), logged c w))
unfolding ask
ask-cases host c w = ground arith
