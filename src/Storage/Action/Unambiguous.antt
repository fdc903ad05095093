-- ===== src/Storage/Action/Unambiguous.antt =====
-- Actions that never find two rows for one (sqlalchemy's MultipleResultsFound).
use dataveda_nifty_agent.Prelude.{ℕ, ◌≡◌, refl, Bool, true, false, if◌then◌else◌}
use dataveda_nifty_agent.Storage.Models.{Db}
use dataveda_nifty_agent.Storage.Action.{
  http, integrity_error, stale_data, multiple_results, bad_parameter, overflow_error, broker_failed,
  Result, ok, raised, Action, pure, raise, gets, continue, ◌>>=◌,
}

abbrev pub is_multiple {ℓ} : {A : Type ℓ} → Result A → Bool
is_multiple (ok a) = false
is_multiple (raised multiple_results) = true
is_multiple (raised e) = false

-- Whatever the database is.
pub record Unambiguous {ℓ} {A : Type ℓ} (m : Action A) : Type ℓ where
  pub at : (db : Db) → is_multiple (m db).0 ≡ false

module _ {ℓ} {A : Type ℓ} where
  pub Unambiguous-pure : (a : A) → Unambiguous (pure a)
  Unambiguous-pure a = record { at = λ db. refl }

  pub Unambiguous-gets : (f : Db → A) → Unambiguous (gets f)
  Unambiguous-gets f = record { at = λ db. refl }

  pub Unambiguous-http : (code : ℕ) → Unambiguous (raise {A = A} (http code))
  Unambiguous-http code = record { at = λ db. refl }

  pub Unambiguous-if :
      (b : Bool) (m k : Action A) → Unambiguous m → Unambiguous k → Unambiguous (if b then m else k)
  Unambiguous-if true m k h i = h
  Unambiguous-if false m k h i = i

module _ {ℓ} {A B : Type ℓ} where
  continue-Unambiguous :
      (x : Result A × Db) (f : A → Action B)
      → is_multiple x.0 ≡ false
      → ((a : A) → Unambiguous (f a))
      → is_multiple (continue x f).0 ≡ false
  continue-Unambiguous (ok a, db) f h k = (k a).at db
  continue-Unambiguous (raised multiple_results, db) f h k = h
  continue-Unambiguous (raised (http code), db) f h k = refl
  continue-Unambiguous (raised integrity_error, db) f h k = refl
  continue-Unambiguous (raised stale_data, db) f h k = refl
  continue-Unambiguous (raised bad_parameter, db) f h k = refl
  continue-Unambiguous (raised overflow_error, db) f h k = refl
  continue-Unambiguous (raised broker_failed, db) f h k = refl

  -- Where the first action finds at most one row in this database, and the rest in any.
  pub then-Unambiguous :
      (m : Action A) (f : A → Action B) (db : Db)
      → is_multiple (m db).0 ≡ false
      → ((a : A) → Unambiguous (f a))
      → is_multiple ((m >>= f) db).0 ≡ false
  then-Unambiguous m f db = continue-Unambiguous (m db) f

  pub Unambiguous-bind :
      (m : Action A) (f : A → Action B)
      → Unambiguous m
      → ((a : A) → Unambiguous (f a))
      → Unambiguous (m >>= f)
  Unambiguous-bind m f h k = record { at = λ db. then-Unambiguous m f db (h.at db) k }

pub ruleset unambiguous_rules =
    (Unambiguous-pure, Unambiguous-gets, Unambiguous-http, Unambiguous-if, Unambiguous-bind)
