-- ===== src/Storage/Action/Keeps.antt =====
-- Properties of the database that an action keeps, whether it returns or raises.
use dataveda_nifty_agent.Prelude.{if◌then◌else◌, Bool, ◌≡◌, refl, true, false}
use dataveda_nifty_agent.Storage.Models.{Db}
use dataveda_nifty_agent.Storage.Action.{
  Result, ok, raised, Exception, Action, pure, raise, gets, lift, continue, ◌>>=◌,
}

pub record Keeps {ℓ} {A : Type ℓ} (P : Db → Type ℓ) (m : Action A) : Type ℓ where
  pub at : (db : Db) → P db → P (m db).1

module _ {ℓ} {A : Type ℓ} {P : Db → Type ℓ} where
  pub Keeps-pure : (a : A) → Keeps P (pure a)
  Keeps-pure a = record { at = λ db h. h }

  pub Keeps-raise : (e : Exception) → Keeps P (raise {A = A} e)
  Keeps-raise e = record { at = λ db h. h }

  pub Keeps-lift : (r : Result A) → Keeps P (lift r)
  Keeps-lift r = record { at = λ db h. h }

  pub Keeps-gets : (f : Db → A) → Keeps P (gets f)
  Keeps-gets f = record { at = λ db h. h }

module _ {ℓ} {A B : Type ℓ} {P : Db → Type ℓ} where
  continue-keeps :
      (x : Result A × Db) (f : A → Action B)
      → ((a : A) → Keeps P (f a))
      → P x.1
      → P (continue x f).1
  continue-keeps (ok a, db) f k h = (k a).at db h
  continue-keeps (raised e, db) f k h = h

  pub Keeps-bind :
      (m : Action A) (f : A → Action B) → Keeps P m → ((a : A) → Keeps P (f a)) → Keeps P (m >>= f)
  Keeps-bind m f km kf = record { at = λ db h. continue-keeps (m db) f kf (km.at db h) }

-- What the first action establishes, if the rest keeps it.
pub Keeps-after {ℓ} :
    {A B : Type ℓ} (P : Db → Type ℓ) (m : Action A) (f : A → Action B) (db : Db)
    → P (m db).1
    → ((a : A) → Keeps P (f a))
    → P ((m >>= f) db).1
Keeps-after P m f db h k = continue-keeps (m db) f k h

pub Keeps-if {ℓ} :
    {A : Type ℓ} {P : Db → Type ℓ} (b : Bool) (m k : Action A)
    → Keeps P m
    → Keeps P k
    → Keeps P (if b then m else k)
Keeps-if true m k h i = h
Keeps-if false m k h i = i

pub ruleset keeps_rules = (Keeps-pure, Keeps-raise, Keeps-lift, Keeps-gets, Keeps-bind, Keeps-if)

-- A value made of an action's value changes nothing.
pub continue-pure :
    {A B : Type 0} (f : A → B) (x : Result A × Db) → (continue x (λ a. pure (f a))).1 ≡ x.1
continue-pure f (ok a, db) = refl
continue-pure f (raised e, db) = refl
