-- ===== src/Router/Tasks/Growth.antt =====
-- No row of the log is lost while the tasks of app/services/order_router.py step.
use dataveda_nifty_agent.Prelude.{
  ℕ, String, ◌+s◌, ◌≡◌, refl, Bool, true, List, [], ◌∷◌, arith, any, any-append, ◌==◌,
}
use dataveda_nifty_agent.Router.{rejected_with, reserve, log_result, finish, reject}
use dataveda_nifty_agent.Router.Tasks.{
  after_reservation, next_stage, Stage, starting, reserved, refusing, placing, waiting, answered,
  recorded, done, failed, Inputs, advance,
}
use dataveda_nifty_agent.Storage.Trades.{
  insert_row, set_status, try_reserve_signal, finalize_signal_log, log_trade,
}
use dataveda_nifty_agent.Runtime.{Runtime}
use dataveda_nifty_agent.Models.Signal.{TradingViewSignal}
use dataveda_nifty_agent.Models.Order.{OrderRequest, OrderResult, status_value}
use dataveda_nifty_agent.Storage.Models.{Tenant, TradeLog, Db}
use dataveda_nifty_agent.Storage.Action.{Result, ok, raised}
use dataveda_nifty_agent.Storage.Trades.Rows.{
  has_row, has_row-insert_row, has_row-finalize, log_row-keeps, or_none-db,
}

abbrev pub has_id : ℕ → List TradeLog → Bool
has_id id = any (λ r. r.id == id)

-- No row is lost.
pub record Grows (db db' : Db) : Type 0 where
  pub ids : (id : ℕ) → has_id id db.trades ≡ true → has_id id db'.trades ≡ true
  pub rows : (t s : String) → has_row t s db.trades ≡ true → has_row t s db'.trades ≡ true

pub Grows-refl : (db : Db) → Grows db db
Grows-refl db = record { ids = λ id h. h; rows = λ t s h. h }

insert_row-Grows : (e : TradeLog) (db : Db) → Grows db (insert_row e db).1
unfolding insert_row
insert_row-Grows e db = record {
  ids = λ id h.
      ground (arith, any-append (λ r. r.id == id) db.trades (record e { id = db.next_id } ∷ []));
  rows = λ t s h. has_row-insert_row t s e db h;
}

has_id-set_status :
    (id n : ℕ) (status message : String) (rs : List TradeLog)
    → has_id id (set_status n status message rs) ≡ has_id id rs
unfolding set_status
has_id-set_status id n status message [] = refl
has_id-set_status id n status message (r ∷ rs) =
    ground (arith, has_id-set_status id n status message rs)

pub finalize-Grows :
    (e : TradeLog) (status message : String) (db : Db)
    → Grows db (finalize_signal_log e status message db).1
unfolding finalize_signal_log
finalize-Grows e status message db = record {
  ids = λ id h. ground (arith, has_id-set_status id e.id status message db.trades);
  rows = λ t s h. rw has_row-finalize h;
}

module _ (rt : Runtime) (tenant : Tenant) (signal : TradingViewSignal) where
  reserve-Grows : (now : ℕ) (db : Db) → Grows db (reserve rt now tenant signal db).1
  unfolding reserve try_reserve_signal
  reserve-Grows now db = rw or_none-db (insert_row-Grows _ db)

  pub log_result-Grows :
      (now : ℕ) (order : OrderRequest) (result : OrderResult) (db : Db)
      → Grows db (log_result rt now tenant signal order result db).1
  unfolding log_result log_trade
  log_result-Grows now order result db =
      log_row-keeps (Grows db) _ _ _ db (λ x y. insert_row-Grows _ db) (Grows-refl db)

  next_stage-db : {A : Type 0} (f : A → Stage) (x : Result A × Db) → (next_stage f x).1 ≡ x.1
  next_stage-db f (ok a, db) = refl
  next_stage-db f (raised e, db) = refl

  next_stage-Grows :
      {A : Type 0} (f : A → Stage) (x : Result A × Db) (db : Db)
      → Grows db x.1
      → Grows db (next_stage f x).1
  next_stage-Grows f x db g = rw (next_stage-db f x) g

  pub advance-Grows :
      (i : Inputs) (stage : Stage) (db : Db) → Grows db (advance rt tenant signal i stage db).1
  unfolding advance reject finish
  advance-Grows i starting db = next_stage-Grows after_reservation _ db (reserve-Grows i.now db)
  advance-Grows i (refusing r logged message) db =
      next_stage-Grows (λ _. done (rejected_with message)) _ db
        (finalize-Grows r "rejected" logged db)
  advance-Grows i (answered r order result) db =
      next_stage-Grows (λ _. recorded r result) _ db (log_result-Grows i.now order result db)
  advance-Grows i (recorded r result) db =
      next_stage-Grows (λ _. done result) _ db
        (finalize-Grows r "dispatched" ("Routed to MT5: " +s status_value result.status) db)
  advance-Grows i (reserved r) db = Grows-refl db
  advance-Grows i (placing r order) db = Grows-refl db
  advance-Grows i (waiting r order) db = Grows-refl db
  advance-Grows i (done result) db = Grows-refl db
  advance-Grows i (failed e) db = Grows-refl db
