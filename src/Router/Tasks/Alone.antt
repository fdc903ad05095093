-- ===== src/Router/Tasks/Alone.antt =====
-- The steps of one task in a row, against `process_signal`.
use dataveda_nifty_agent.Prelude.{ℕ, ◌≡◌, arith}
use dataveda_nifty_agent.Runtime.{Runtime}
use dataveda_nifty_agent.Models.Signal.{TradingViewSignal}
use dataveda_nifty_agent.Models.Order.{OrderResult}
use dataveda_nifty_agent.Storage.Models.{Tenant, Db}
use dataveda_nifty_agent.Storage.Action.{Result, ok, raised}
use dataveda_nifty_agent.Router.{Times, process_signal, after_reserve, carry_out}
use dataveda_nifty_agent.Router.Tasks.{Stage, starting, done, failed, advance}

abbrev pub final : Result OrderResult → Stage
final (ok result) = done result
final (raised e) = failed e

module _ (rt : Runtime) (times : Times) (tenant : Tenant) (signal : TradingViewSignal)
    (answer : Result OrderResult) where
  abbrev step : ℕ → ℕ → Stage × Db → Stage × Db
  step now later (stage, db) =
      advance rt tenant signal (record { now = now; later = later; answer = answer }) stage db

  -- The steps of one call, in a row.
  abbrev pub alone : Db → Stage × Db
  alone db = step 0 0 (
      step times.logged 0
        (step 0 0 (step 0 0 (step times.checked times.pnl (step times.reserved 0 (starting, db))))))

  -- Six steps of a task with no other task in between end with the result and the database of
  -- process_signal for a broker that gives the same answer and leaves the database alone.
  pub alone-eq-process_signal :
      (db : Db)
      → alone db ≡ (
        final (process_signal rt times tenant signal (λ _ d. (answer, d)) db).0,
        (process_signal rt times tenant signal (λ _ d. (answer, d)) db).1,
      )
  unfolding advance process_signal after_reserve carry_out
  alone-eq-process_signal db = ground arith
