-- ===== src/Router/Tasks/Keeping.antt =====
-- Properties of the database over the steps of a task of app/services/order_router.py.
use dataveda_nifty_agent.Prelude.{ℕ}
use dataveda_nifty_agent.Runtime.{Runtime}
use dataveda_nifty_agent.Models.Signal.{TradingViewSignal}
use dataveda_nifty_agent.Storage.Models.{Tenant, Db}
use dataveda_nifty_agent.Storage.Action.{Result, ok, raised}
use dataveda_nifty_agent.Storage.Action.Keeps.{Keeps}
use dataveda_nifty_agent.Router.{reserve, log_result, finish, reject}
use dataveda_nifty_agent.Router.Keeping.{IsKept}
use dataveda_nifty_agent.Router.Tasks.{
  Stage, starting, reserved, refusing, placing, waiting, answered, recorded, done, failed, Inputs,
  advance, next_stage,
}

next_stage-keeps :
    {A : Type 0} (P : Db → Type 0) (f : A → Stage) (x : Result A × Db)
    → P x.1
    → P (next_stage f x).1
next_stage-keeps P f (ok a, db) h = h
next_stage-keeps P f (raised e, db) h = h

-- What the writes of process_signal keep, each step of a task does.
pub advance-keeps :
    (rt : Runtime) (tenant : Tenant) (signal : TradingViewSignal) (P : Db → Type 0)
    → IsKept rt P
    → ((now : ℕ) → Keeps P (reserve rt now tenant signal))
    → (i : Inputs) (stage : Stage) (db : Db) → P db
    → P (advance rt tenant signal i stage db).1
unfolding advance log_result finish reject
advance-keeps rt tenant signal P k r i starting db h = next_stage-keeps P _ _ ((r i.now).at db h)
advance-keeps rt tenant signal P k r i (reserved e) db h = h
advance-keeps rt tenant signal P k r i (refusing e logged message) db h =
    next_stage-keeps P _ _ ((k.by_finalize e "rejected" logged).at db h)
advance-keeps rt tenant signal P k r i (placing e order) db h = h
advance-keeps rt tenant signal P k r i (waiting e order) db h = h
advance-keeps rt tenant signal P k r i (answered e order result) db h =
    next_stage-keeps P _ _ ((k.by_log _ _ _ _ _ _ _ _ _ _ _).at db h)
advance-keeps rt tenant signal P k r i (recorded e result) db h =
    next_stage-keeps P _ _ ((k.by_finalize e _ _).at db h)
advance-keeps rt tenant signal P k r i (done result) db h = h
advance-keeps rt tenant signal P k r i (failed e) db h = h
