-- ===== src/Storage/Trades/Rows.antt =====
-- Which (tenant, signal) keys `trade_log` holds, under each of its writes.
use dataveda_nifty_agent.Storage.Trades.{
  result_row, or_none, received_row, insert_row, try_reserve_signal, set_status,
  finalize_signal_log, log_trade, log_row,
}
use dataveda_nifty_agent.Prelude.{
  ℕ, suc, String, ◌≡◌, refl, ap, Bool, true, false, ◌&&◌, Option, none, some, List, [], ◌∷◌, ◌++◌,
  arith, any, any-append, str_eq, eq_refl,
}
use dataveda_nifty_agent.Python.Float.{Float}
use dataveda_nifty_agent.Python.Json.{Json}
use dataveda_nifty_agent.Runtime.{Runtime}
use dataveda_nifty_agent.Storage.Models.{TradeLog, Db}
use dataveda_nifty_agent.Storage.Action.{Result, ok, raised, integrity_error}

abbrev pub has_key : String → String → TradeLog → Bool
has_key tenant_id signal_id r = str_eq tenant_id r.tenant_id && str_eq signal_id r.signal_id

-- The table has a row of this key.
abbrev pub has_row : String → String → List TradeLog → Bool
has_row tenant_id signal_id = any (has_key tenant_id signal_id)

pub has_row-set_status :
    (t s : String) (id : ℕ) (status message : String) (rs : List TradeLog)
    → has_row t s (set_status id status message rs) ≡ has_row t s rs
unfolding set_status
has_row-set_status t s id status message [] = refl
has_row-set_status t s id status message (r ∷ rs) =
    ground (arith, has_row-set_status t s id status message rs)

-- An INSERT succeeds exactly where the key is free.
pub insert_row_taken :
    (e : TradeLog) (db : Db)
    → has_row e.tenant_id e.signal_id db.trades ≡ true
    → insert_row e db ≡ (raised integrity_error, db)
unfolding insert_row
insert_row_taken e db h = ground arith

pub insert_row_free :
    (e : TradeLog) (db : Db)
    → has_row e.tenant_id e.signal_id db.trades ≡ false
    → let row = record e { id = db.next_id } in
      insert_row e db
      ≡ (ok row, record db { trades = db.trades ++ row ∷ []; next_id = suc db.next_id })
unfolding insert_row
insert_row_free e db h = ground arith

-- No write takes a row away.
pub has_row-insert_row :
    (t s : String) (e : TradeLog) (db : Db)
    → has_row t s db.trades ≡ true
    → has_row t s (insert_row e db).1.trades ≡ true
unfolding insert_row
has_row-insert_row t s e db h =
    ground (arith, any-append (has_key t s) db.trades (record e { id = db.next_id } ∷ []))

pub has_row-finalize :
    (t s : String) (e : TradeLog) (status message : String) (db : Db)
    → has_row t s (finalize_signal_log e status message db).1.trades ≡ has_row t s db.trades
unfolding finalize_signal_log
has_row-finalize t s e status message db =
    ground (arith, has_row-set_status t s e.id status message db.trades)

-- `log_trade` leaves the table alone, or inserts a row.
pub log_row-keeps {ℓ} :
    (P : Db → Type ℓ) (m o : Option (Option String)) (row : String → Option String → TradeLog)
    (db : Db)
    → ((x : String) (y : Option String) → P (insert_row (row x y) db).1)
    → P db
    → P (log_row m o row db).1
log_row-keeps P none o row db k h = h
log_row-keeps P (some m) none row db k h = h
log_row-keeps P (some none) (some o) row db k h = h
log_row-keeps P (some (some x)) (some y) row db k h = k x y

pub or_none-db : {A : Type 0} (x : Result A × Db) → (or_none x).1 ≡ x.1
or_none-db (ok a, db) = refl
or_none-db (raised integrity_error, db) = refl
or_none-db (raised e, db) = refl

module _ (now : ℕ) (tenant_id signal_id strategy symbol action : String) (quantity : Float)
    (db : Db) where
  abbrev row : TradeLog
  row = received_row now tenant_id signal_id strategy symbol action quantity

  abbrev attempt : Result (Option TradeLog) × Db
  attempt = try_reserve_signal now tenant_id signal_id strategy symbol action quantity db

  pub try_reserve_taken : has_row tenant_id signal_id db.trades ≡ true → attempt ≡ (ok none, db)
  unfolding try_reserve_signal
  try_reserve_taken h = ap or_none (insert_row_taken row db h)

  pub try_reserve_free :
      has_row tenant_id signal_id db.trades ≡ false
      → attempt ≡ (
        ok (some (record row { id = db.next_id })),
        record db {
          trades = db.trades ++ record row { id = db.next_id } ∷ [];
          next_id = suc db.next_id;
        },
      )
  unfolding try_reserve_signal
  try_reserve_free h = ap or_none (insert_row_free row db h)

  -- After a reservation, won or lost, the key is taken.
  pub try_reserve_takes : has_row tenant_id signal_id attempt.1.trades ≡ true
  unfolding try_reserve_signal insert_row
  try_reserve_takes = ground (
    arith,
    any-append (has_key tenant_id signal_id) db.trades (record row { id = db.next_id } ∷ []),
    eq_refl tenant_id,
    eq_refl signal_id,
  )

  pub has_row-try_reserve :
      (t s : String) → has_row t s db.trades ≡ true → has_row t s attempt.1.trades ≡ true
  unfolding try_reserve_signal
  has_row-try_reserve t s h = rw or_none-db (has_row-insert_row t s row db h)

  pub has_row-log_trade :
      (rt : Runtime) (t s side status : String) (message order_id : Json)
      → has_row t s db.trades ≡ true
      → has_row t s
          (log_trade rt now tenant_id signal_id strategy symbol action side quantity status message
            order_id db).1.trades
        ≡ true
  unfolding log_trade
  has_row-log_trade rt t s side status message order_id h =
      log_row-keeps (λ d. has_row t s d.trades ≡ true) (rt.bind_text message)
        (rt.bind_text order_id)
        (result_row now tenant_id signal_id strategy symbol action side quantity status) db
        (λ x y. has_row-insert_row t s _ db h) h
