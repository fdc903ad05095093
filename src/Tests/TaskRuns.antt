-- ===== src/Tests/TaskRuns.antt =====
-- Interleaved calls of the router, and the risk check.
use dataveda_nifty_agent.Prelude.{◌≡◌, refl, ◌↔◌, true, some, [], ◌∷◌, ◌++◌, arith, All}
use dataveda_nifty_agent.Python.Dict.{get}
use dataveda_nifty_agent.Storage.Trades.{try_reserve_signal, insert_row}
use dataveda_nifty_agent.Router.{reserve, decide}
use dataveda_nifty_agent.Risk.{lapsed, symbol_refused, quantity_refused, loss_refused, check_risk}
use dataveda_nifty_agent.Python.Float.{finite, pos}
use dataveda_nifty_agent.Storage.Models.{Db, Tenant}
use dataveda_nifty_agent.Storage.Action.{ok}
use dataveda_nifty_agent.Storage.Trades.Invariant.{TradesValid}
use dataveda_nifty_agent.Risk.Guards.{Passes, check_risk-allowed_iff}
use dataveda_nifty_agent.Risk.Breaker.{breaker_never_trips, without_limit}
use dataveda_nifty_agent.Router.Tasks.{
  Task, starting, System, Inputs, arrive, run, Reach, here, next, idle, advance, sent_by,
}
use dataveda_nifty_agent.Router.Tasks.Audit.{audit, IsLogged}
use dataveda_nifty_agent.Tests.Data.{rt, tenant, signal, result, db, db_with}

abbrev pub inputs : Inputs
inputs = record { now = 11; later = 12; answer = ok result }

-- The first task that is a step further.
abbrev pub ran : Task → Db → Task
ran task d = record task { stage = (advance rt task.tenant task.signal inputs task.stage d).0 }

abbrev pub written : Task → Db → Db
written task d = (advance rt task.tenant task.signal inputs task.stage d).1

abbrev pub fresh : Task
fresh = record { tenant = tenant; signal = signal; stage = starting }

-- Two deliveries of one signal: the second one reserves it first, decides and sends.
abbrev after_both : System
after_both = record {
  db = written (ran (ran fresh db) (written fresh db)) (written (ran fresh db) (written fresh db));
  tasks =
      ran fresh (written fresh db)
      ∷ ran (ran (ran fresh db) (written fresh db)) (written (ran fresh db) (written fresh db))
      ∷ [];
  sent =
      sent_by (ran (ran fresh db) (written fresh db))
      ++ sent_by (ran fresh db)
      ++ sent_by fresh
      ++ sent_by fresh
      ++ [];
}

after_both-Reach : Reach rt (idle db) after_both
unfolding advance reserve try_reserve_signal insert_row decide check_risk lapsed symbol_refused
    quantity_refused loss_refused get
after_both-Reach =
    next
      (next
        (next
          (next (next (next here (arrive (idle db) tenant signal)) (arrive _ tenant signal))
            (run db (fresh ∷ []) fresh [] [] inputs))
          (run (written fresh db) [] fresh (ran fresh db ∷ []) [] inputs))
        (run (written fresh db) (ran fresh (written fresh db) ∷ []) (ran fresh db) [] [] inputs))
      (run (written (ran fresh db) (written fresh db)) (ran fresh (written fresh db) ∷ [])
        (ran (ran fresh db) (written fresh db)) [] [] inputs)

check_risk-allowed_iff_example :
    ((check_risk rt 11 12 tenant signal db).allowed ≡ true) ↔ Passes rt 11 12 tenant signal db
check_risk-allowed_iff_example = check_risk-allowed_iff rt 11 12 tenant signal db

-- The tenant with a loss limit.
abbrev limited : Tenant
limited = record tenant {
  risk_settings = record tenant.risk_settings { max_daily_loss = some (finite (pos 5)) };
}

logged-TradesValid : TradesValid (db_with "sig0")
logged-TradesValid = record {
  keys = (refl, tt);
  ids = (refl, tt);
  below = (omega arith, tt);
  no_pnl = (refl, tt);
}

breaker_never_trips_example :
    check_risk rt 11 12 limited signal (db_with "sig0")
    ≡ check_risk rt 11 12 (without_limit limited) signal (db_with "sig0")
breaker_never_trips_example =
    breaker_never_trips rt 11 12 limited signal (db_with "sig0") logged-TradesValid

audit_example : All (IsLogged rt after_both.db) after_both.tasks
audit_example = audit rt db after_both after_both-Reach
