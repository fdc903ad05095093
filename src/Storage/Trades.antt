-- ===== src/Storage/Trades.antt =====
-- app/storage/repository.py: the rows of `trade_log`.
pub mod Rows
pub mod Invariant
pub mod Pnl
pub mod Listing
use Prim.Native.Nat.{◌%◌}
use dataveda_nifty_agent.Prelude.{
  ℕ, suc, ◌-◌, String, Bool, ◌&&◌, not, Option, none, some, List, [], ◌∷◌, ◌++◌, any, keep, take,
  drop, ltb, leb, ◌==◌, str_eq, if◌then◌else◌,
}
use dataveda_nifty_agent.Python.Float.{Float, float_zero}
use dataveda_nifty_agent.Python.Json.{Json}
use dataveda_nifty_agent.Runtime.{Runtime}
use dataveda_nifty_agent.Storage.Models.{TradeLog, Db}
use dataveda_nifty_agent.Storage.Subscription.{day}
use dataveda_nifty_agent.Storage.Action.{
  Result, ok, raised, Action, integrity_error, stale_data, bad_parameter,
}

-- The unique constraint uq_tenant_signal.
unfoldable pub same_signal : TradeLog → TradeLog → Bool
same_signal a b = str_eq a.tenant_id b.tenant_id && str_eq a.signal_id b.signal_id

-- An INSERT: the row with the next id, or IntegrityError.
unfoldable pub insert_row : TradeLog → Action TradeLog
unfolding same_signal
insert_row entry db =
    let row = record entry { id = db.next_id } in
    if any (same_signal row) db.trades
    then (raised integrity_error, db)
    else (ok row, record db { trades = db.trades ++ row ∷ []; next_id = suc db.next_id })

-- `except IntegrityError: rollback(); return None`
abbrev pub or_none : {A : Type 0} → Result A × Db → Result (Option A) × Db
or_none (ok a, db) = (ok (some a), db)
or_none (raised integrity_error, db) = (ok none, db)
or_none (raised e, db) = (raised e, db)

-- The row of a reservation. (The id is the table's to give.)
abbrev pub received_row :
    (now : ℕ) (tenant_id signal_id strategy symbol action : String) (quantity : Float) → TradeLog
received_row now tenant_id signal_id strategy symbol action quantity = record {
  id = 0;
  tenant_id = tenant_id;
  signal_id = signal_id;
  strategy = strategy;
  symbol = symbol;
  action = action;
  side = none;
  quantity = quantity;
  status = "received";
  message = "";
  broker_order_id = none;
  realized_pnl = none;
  created_at = now;
}

unfoldable pub try_reserve_signal :
    (now : ℕ) (tenant_id signal_id strategy symbol action : String) (quantity : Float)
    → Action (Option TradeLog)
try_reserve_signal now tenant_id signal_id strategy symbol action quantity db =
    or_none (insert_row (received_row now tenant_id signal_id strategy symbol action quantity) db)

unfoldable pub set_status : ℕ → String → String → List TradeLog → List TradeLog
set_status id status message [] = []
set_status id status message (r ∷ rs) =
    (if r.id == id then record r { status = status; message = message } else r)
    ∷ set_status id status message rs

-- The UPDATE of a row that is gone raises StaleDataError.
unfoldable pub finalize_signal_log : TradeLog → String → String → Action (Unit {0})
unfolding set_status
finalize_signal_log entry status message db =
    if any (λ r. r.id == entry.id) db.trades
    then (ok tt, record db { trades = set_status entry.id status message db.trades })
    else (raised stale_data, db)

-- The INSERT with two bound values, `none` where the driver refuses one, which comes before the
-- database sees a NULL in `message`.
abbrev pub log_row :
    Option (Option String)
    → Option (Option String)
    → (String → Option String → TradeLog)
    → Action TradeLog
log_row none order_id row db = (raised bad_parameter, db)
log_row (some message) none row db = (raised bad_parameter, db)
log_row (some none) (some order_id) row db = (raised integrity_error, db)
log_row (some (some message)) (some order_id) row db = insert_row (row message order_id) db

-- The row of a broker's result.
abbrev pub result_row :
    (now : ℕ) (tenant_id signal_id strategy symbol action side : String) (quantity : Float)
    (status message : String) (order_id : Option String)
    → TradeLog
result_row now tenant_id signal_id strategy symbol action side quantity status message order_id =
    record {
      id = 0;
      tenant_id = tenant_id;
      signal_id = signal_id;
      strategy = strategy;
      symbol = symbol;
      action = action;
      side = some side;
      quantity = quantity;
      status = status;
      message = message;
      broker_order_id = order_id;
      realized_pnl = none;
      created_at = now;
    }

-- `message` and `broker_order_id` are what the broker gave, bound by the driver.
unfoldable pub log_trade :
    Runtime
    → (now : ℕ) (tenant_id signal_id strategy symbol action side : String) (quantity : Float)
      (status : String) (message broker_order_id : Json)
    → Action TradeLog
log_trade rt now tenant_id signal_id strategy symbol action side quantity status message order_id =
    log_row (rt.bind_text message) (rt.bind_text order_id)
      (result_row now tenant_id signal_id strategy symbol action side quantity status)

unfoldable pub start_of_day : ℕ → ℕ
start_of_day now = now - now % day

unfoldable pub known_pnls : List TradeLog → List Float
known_pnls [] = []
known_pnls (r ∷ rs) = elim r.realized_pnl [ none ↦ known_pnls rs | some x ↦ x ∷ known_pnls rs ]

-- coalesce(sum(...), 0.0): SUM of no value is NULL.
abbrev pub sum_or_zero : Runtime → List Float → Float
sum_or_zero rt [] = float_zero
sum_or_zero rt (x ∷ xs) = rt.sql_sum x xs

unfoldable pub today : ℕ → String → TradeLog → Bool
unfolding start_of_day
today now tenant_id r = str_eq r.tenant_id tenant_id && leb (start_of_day now) r.created_at

unfoldable pub get_today_realized_pnl : Runtime → ℕ → String → Db → Float
unfolding today known_pnls
get_today_realized_pnl rt now tenant_id db =
    sum_or_zero rt (known_pnls (keep (today now tenant_id) db.trades))

-- Newest first; rows of one instant stay in the order of insertion.
unfoldable pub insert_newest : TradeLog → List TradeLog → List TradeLog
insert_newest t [] = t ∷ []
insert_newest t (u ∷ us) =
    if ltb t.created_at u.created_at then u ∷ insert_newest t us else t ∷ u ∷ us

unfoldable pub newest_first : List TradeLog → List TradeLog
unfolding insert_newest
newest_first [] = []
newest_first (t ∷ ts) = insert_newest t (newest_first ts)

unfoldable pub shown : String → TradeLog → Bool
shown tenant_id r = str_eq r.tenant_id tenant_id && not (str_eq r.status "dispatched")

unfoldable pub list_trades : String → ℕ → ℕ → Db → List TradeLog
unfolding shown newest_first
list_trades tenant_id limit offset db =
    take limit (drop offset (newest_first (keep (shown tenant_id) db.trades)))
