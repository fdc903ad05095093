-- ===== src/Storage/Action.antt =====
-- A call that reads and writes the database and may raise. What was committed before a raise stays
-- committed, so the database comes back beside the exception too.
pub mod Keeps
pub mod Unambiguous
use dataveda_nifty_agent.Prelude.{ℕ, Option, none, some, List, [], ◌∷◌}
use dataveda_nifty_agent.Storage.Models.{Db}

pub data Exception : Type 0 where
  -- fastapi.HTTPException with its status code
  http : ℕ → Exception
  -- sqlalchemy: a constraint, a row that is gone, two rows for one, a refused parameter
  integrity_error stale_data multiple_results bad_parameter : Exception
  -- Python: a date past the year 9999
  overflow_error : Exception
  -- the broker call did not return
  broker_failed : Exception

pub data Result {ℓ} (A : Type ℓ) : Type ℓ where
  ok : A → Result A
  raised : Exception → Result A

abbrev pub Action {ℓ} : Type ℓ → Type ℓ
Action A = Db → Result A × Db

module _ {ℓ} {A : Type ℓ} where
  abbrev pub pure : A → Action A
  pure a db = (ok a, db)

  abbrev pub raise : Exception → Action A
  raise e db = (raised e, db)

  abbrev pub gets : (Db → A) → Action A
  gets f db = (ok (f db), db)

  abbrev pub lift : Result A → Action A
  lift r db = (r, db)

  -- scalar_one_or_none()
  abbrev pub one_or_none : List A → Result (Option A)
  one_or_none [] = ok none
  one_or_none (a ∷ []) = ok (some a)
  one_or_none (a ∷ b ∷ rest) = raised multiple_results

module _ {ℓ κ} {A : Type ℓ} {B : Type κ} where
  abbrev pub continue : Result A × Db → (A → Action B) → Result B × Db
  continue (ok a, db) f = f a db
  continue (raised e, db) f = (raised e, db)

  infixl 5 ◌>>=◌ ◌>>◌
  abbrev pub ◌>>=◌ : Action A → (A → Action B) → Action B
  ◌>>=◌ m f db = continue (m db) f

  abbrev pub ◌>>◌ : Action A → Action B → Action B
  m >> k = m >>= λ _. k
