-- ===== src/Api/Concurrent/Alone/Writes.antt =====
-- The three steps of a request of app/main.py that writes a row, in a row.
use dataveda_nifty_agent.Api.Concurrent.{Call, Progress, over, writes, carry_plan, proceed}
use dataveda_nifty_agent.Storage.Tenants.{same_key, others, save}
use dataveda_nifty_agent.Prelude.{ℕ, ◌≡◌, refl, some, any, Bool-cases, inl, inr}
use dataveda_nifty_agent.Runtime.{Runtime}
use dataveda_nifty_agent.Storage.Models.{Tenant, Db}
use dataveda_nifty_agent.Storage.Action.{Result, ok, raised, pure, continue}
use dataveda_nifty_agent.Storage.Columns.{update_columns, commit, refresh}
use dataveda_nifty_agent.Storage.Tenants.Save.{row_of, row_of-set_row}
use dataveda_nifty_agent.Api.Auth.{Settings}
use dataveda_nifty_agent.Api.Server.{Response}

-- Two answers made one of the other.
pub twice :
    {A B C : Type 0} (f : A → B) (g : B → C) (x : Result A × Db)
    → continue x (λ a. pure (g (f a))) ≡ continue (continue x (λ a. pure (f a))) (λ b. pure (g b))
twice f g (ok a, db) = refl
twice f g (raised e, db) = refl

-- How a request ends.
abbrev pub ended : Result Response × Db → Progress × Db
ended (r, db) = (over r, db)

module _ (rt : Runtime) (settings : Settings) (call : Call) (now : ℕ) where
  abbrev pub go_on : Progress × Db → Progress × Db
  go_on (progress, db) = proceed rt settings call now progress db

  -- An UPDATE and the refresh, for a row that is as it was read, against `save`.
  pub write_alone :
      {A : Type 0} (t : Tenant) (change : Tenant → Tenant) (value : ℕ → Tenant → A)
      (response : A → Response) (db : Db)
      → row_of t.id db.tenants ≡ some t
      → (change t).id ≡ t.id
      → update_columns t (change t) t ≡ change t
      → go_on (carry_plan t (writes (change t) (λ later s. response (value later s))) db)
        ≡ ended (
            continue
              (continue (save t.id change db) (λ s. pure (value now s)))
              (λ a. pure (response a)))
  unfolding commit save proceed refresh
  write_alone t change value response db found same settles =
      elim (Bool-cases (any (same_key (change t)) (others t.id db.tenants))) [
        | inl clash ↦ rw (found, settles, clash) refl
        | inr free ↦
            rw (found, settles, free, row_of-set_row t.id (change t) db.tenants t found same) refl
      ]
