-- ===== src/World/Ends.antt =====
-- How an action ends, step by step: what holds of its result and of the world behind it.
use firecracker_lab.Prelude.{Text, Bool, true, false, if◌then◌else◌, ◌≡◌, refl, sym, ◌∙◌, ap}
use firecracker_lab.World.Rows.{Db}
use firecracker_lab.World.Monad.{
  Error, Result, ok, err, World, Action, continue, ◌>>=◌, wrapping, wrap_outcome, ⊤, pure, raise,
}
use firecracker_lab.World.Keeps.{Keeps}

pub record Ends {A : Type 0} (m : Action A) (w : World) (Q : Result A × World → Type 0)
    : Type 0 where
  pub ends : Q (m w)

module _ {A B : Type 0} (m : Action A) (f : A → Action B) (w : World)
    (Q : Result B × World → Type 0) where
  continue_ends :
      (o : Result A × World)
      → m w ≡ o
      → ((a : A) (v : World) → m w ≡ (ok a, v) → Ends (f a) v Q)
      → ((e : Error) (v : World) → m w ≡ (err e, v) → Q (err e, v))
      → Q (continue f o)
  continue_ends (ok a, v) e h k = (h a v e).ends
  continue_ends (err x, v) e h k = k x v e

  -- A step, by its outcome.
  pub step :
      ((a : A) (v : World) → m w ≡ (ok a, v) → Ends (f a) v Q)
      → ((e : Error) (v : World) → m w ≡ (err e, v) → Q (err e, v))
      → Ends (m >>= f) w Q
  step h k = record { ends = continue_ends (m w) refl h k }

  outcome_ends :
      (P : Result A × World → Type 0) (o : Result A × World)
      → P o
      → ((a : A) (v : World) → P (ok a, v) → Ends (f a) v Q)
      → ((e : Error) (v : World) → P (err e, v) → Q (err e, v))
      → Q (continue f o)
  outcome_ends P (ok a, v) p h k = (h a v p).ends
  outcome_ends P (err x, v) p h k = k x v p

  -- A step, by what is known of its outcome.
  pub after :
      (P : Result A × World → Type 0)
      → P (m w)
      → ((a : A) (v : World) → P (ok a, v) → Ends (f a) v Q)
      → ((e : Error) (v : World) → P (err e, v) → Q (err e, v))
      → Ends (m >>= f) w Q
  after P p h k = record { ends = outcome_ends P (m w) p h k }

  -- A step that keeps the database.
  pub kept :
      (db : Db)
      → Keeps m
      → w.db ≡ db
      → ((a : A) (v : World) → v.db ≡ db → Ends (f a) v Q)
      → ((e : Error) (v : World) → v.db ≡ db → Q (err e, v))
      → Ends (m >>= f) w Q
  kept db keeps same h k = after (λ o. o.1.db ≡ db) (keeps.same_db w ∙ same) h k

-- The database behind an outcome that is known.
pub Keeps-at :
    {A : Type 0} {m : Action A} {w : World} {r : Result A} {v : World}
    → Keeps m
    → m w ≡ (r, v)
    → v.db ≡ w.db
Keeps-at {w = w} keeps e = ap (λ o. o.1.db) (sym e) ∙ keeps.same_db w

outcome_last :
    {A : Type 0} (P Q : Result A × World → Type 0) (o : Result A × World)
    → P o
    → ((a : A) (v : World) → P (ok a, v) → Q (ok a, v))
    → ((e : Error) (v : World) → P (err e, v) → Q (err e, v))
    → Q o
outcome_last P Q (ok a, v) p h k = h a v p
outcome_last P Q (err e, v) p h k = k e v p

-- The last step.
pub last :
    {A : Type 0} (m : Action A) (w : World) (Q P : Result A × World → Type 0)
    → P (m w)
    → ((a : A) (v : World) → P (ok a, v) → Q (ok a, v))
    → ((e : Error) (v : World) → P (err e, v) → Q (err e, v))
    → Ends m w Q
last m w Q P p h k = record { ends = outcome_last P Q (m w) p h k }

wrap-ok :
    {A : Type 0} (t : Text) (o : Result A × World) {a : A} {v : World}
    → wrap_outcome t o ≡ (ok a, v)
    → o ≡ (ok a, v)
wrap-ok t (ok a, w) h = h
wrap-ok t (err e, w) h = absurd cc

-- What succeeds when wrapped has succeeded.
pub wrapping-ok :
    {A : Type 0} (t : Text) (m : Action A) (w : World) {a : A} {v : World}
    → wrapping t m w ≡ (ok a, v)
    → m w ≡ (ok a, v)
wrapping-ok t m w h = wrap-ok t (m w) h

wrap-err :
    {A : Type 0} (t : Text) (o : Result A × World) {e : Error} {v : World}
    → wrap_outcome t o ≡ (err e, v)
    → (x : Error) × (o ≡ (err x, v))
wrap-err t (ok a, w) h = absurd cc
wrap-err t (err x, w) h = (x, cc)

-- What fails when wrapped has failed.
pub wrapping-err :
    {A : Type 0} (t : Text) (m : Action A) (w : World) {e : Error} {v : World}
    → wrapping t m w ≡ (err e, v)
    → (x : Error) × (m w ≡ (err x, v))
wrapping-err t m w h = wrap-err t (m w) h

-- A guard that raises when the test holds.
pub unless :
    {B : Type 0} (b : Bool) (e : Error) (f : ⊤ → Action B) (w : World)
    (Q : Result B × World → Type 0)
    → (b ≡ false → Ends (f tt) w Q)
    → Q (err e, w)
    → Ends ((if b then raise e else pure tt) >>= f) w Q
unless true e f w Q h k = record { ends = k }
unless false e f w Q h k = record { ends = (h refl).ends }

-- A guard that raises when the test fails.
pub provided :
    {B : Type 0} (b : Bool) (e : Error) (f : ⊤ → Action B) (w : World)
    (Q : Result B × World → Type 0)
    → (b ≡ true → Ends (f tt) w Q)
    → Q (err e, w)
    → Ends ((if b then pure tt else raise e) >>= f) w Q
provided true e f w Q h k = record { ends = (h refl).ends }
provided false e f w Q h k = record { ends = k }
