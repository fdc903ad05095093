-- ===== src/Storage/Trades/Invariant.antt =====
-- An invariant of `trade_log` over the repository's writes.
use dataveda_nifty_agent.Storage.Trades.{
  result_row, received_row, same_signal, insert_row, try_reserve_signal, set_status,
  finalize_signal_log, log_trade,
}
use dataveda_nifty_agent.Prelude.{
  ℕ, suc, ◌<◌, String, ◌≡◌, refl, Bool, false, none, List, [], ◌∷◌, ◌++◌, arith, any, All,
  All-append, Unique, Unique-append, IsSymmetric, eq_iff, ◌==◌, Bool-cases, inl, inr,
}
use dataveda_nifty_agent.Python.Float.{Float}
use dataveda_nifty_agent.Runtime.{Runtime}
use dataveda_nifty_agent.Storage.Models.{TradeLog, Db}
use dataveda_nifty_agent.Storage.Trades.Rows.{log_row-keeps, or_none-db}
use dataveda_nifty_agent.Python.Json.{Json}

abbrev same_id : TradeLog → TradeLog → Bool
same_id a b = a.id == b.id

-- Keys and ids are unique, ids lie below the next one, and no row has a realized PnL.
pub record TradesValid (db : Db) : Type 0 where
  pub keys : Unique same_signal db.trades
  pub ids : Unique same_id db.trades
  pub below : All (λ r. r.id < db.next_id) db.trades
  pub no_pnl : All (λ r. r.realized_pnl ≡ none) db.trades

same_signal-IsSymmetric : IsSymmetric same_signal
unfolding same_signal
same_signal-IsSymmetric a b = ground (
  arith,
  eq_iff a.tenant_id b.tenant_id,
  eq_iff b.tenant_id a.tenant_id,
  eq_iff a.signal_id b.signal_id,
  eq_iff b.signal_id a.signal_id,
)

same_id-IsSymmetric : IsSymmetric same_id
same_id-IsSymmetric a b = ground arith

-- An id that is not below a bound is new below it.
same_id-below :
    (e : TradeLog) (n : ℕ) (rs : List TradeLog)
    → All (λ r. r.id < n) rs
    → e.id ≡ n
    → any (same_id e) rs ≡ false
same_id-below e n [] h eq = refl
same_id-below e n (r ∷ rs) h eq = ground (arith, same_id-below e n rs h.1)

below-suc : (n : ℕ) (rs : List TradeLog) → All (λ r. r.id < n) rs → All (λ r. r.id < suc n) rs
below-suc n [] h = tt
below-suc n (r ∷ rs) h = (omega arith, below-suc n rs h.1)

module _ (e : TradeLog) (db : Db) (v : TradesValid db) (unpriced : e.realized_pnl ≡ none) where
  abbrev row : TradeLog
  row = record e { id = db.next_id }

  added-TradesValid :
      any (same_signal row) db.trades ≡ false
      → TradesValid (record db { trades = db.trades ++ row ∷ []; next_id = suc db.next_id })
  added-TradesValid free = record {
    keys = Unique-append same_signal same_signal-IsSymmetric db.trades row v.keys free;
    ids =
        Unique-append same_id same_id-IsSymmetric db.trades row v.ids
          (same_id-below row db.next_id db.trades v.below refl);
    below =
        All-append (λ r. r.id < suc db.next_id) db.trades (row ∷ [])
          (below-suc db.next_id db.trades v.below) (omega arith);
    no_pnl = All-append (λ r. r.realized_pnl ≡ none) db.trades (row ∷ []) v.no_pnl (unpriced, tt);
  }

  pub insert_row-TradesValid : TradesValid (insert_row e db).1
  unfolding insert_row
  insert_row-TradesValid = elim (Bool-cases (any (same_signal row) db.trades)) [
    | inl taken ↦ rw taken v
    | inr free ↦ rw free (added-TradesValid free)
  ]

-- A new status changes neither keys nor ids nor prices.
module _ (id : ℕ) (status message : String) where
  any-same_signal-set_status :
      (r : TradeLog) (rs : List TradeLog)
      → any (same_signal r) (set_status id status message rs) ≡ any (same_signal r) rs
  unfolding set_status same_signal
  any-same_signal-set_status r [] = refl
  any-same_signal-set_status r (x ∷ rs) = ground (arith, any-same_signal-set_status r rs)

  any-same_id-set_status :
      (r : TradeLog) (rs : List TradeLog)
      → any (same_id r) (set_status id status message rs) ≡ any (same_id r) rs
  unfolding set_status
  any-same_id-set_status r [] = refl
  any-same_id-set_status r (x ∷ rs) = ground (arith, any-same_id-set_status r rs)

  keys-set_status :
      (rs : List TradeLog)
      → Unique same_signal rs
      → Unique same_signal (set_status id status message rs)
  unfolding set_status same_signal
  keys-set_status [] h = tt
  keys-set_status (r ∷ rs) (fresh, h) =
      (ground (arith, any-same_signal-set_status r rs), keys-set_status rs h)

  ids-set_status :
      (rs : List TradeLog) → Unique same_id rs → Unique same_id (set_status id status message rs)
  unfolding set_status
  ids-set_status [] h = tt
  ids-set_status (r ∷ rs) (fresh, h) =
      (ground (arith, any-same_id-set_status r rs), ids-set_status rs h)

  below-set_status :
      (n : ℕ) (rs : List TradeLog)
      → All (λ r. r.id < n) rs
      → All (λ r. r.id < n) (set_status id status message rs)
  unfolding set_status
  below-set_status n [] h = tt
  below-set_status n (r ∷ rs) (p, h) = (ground arith, below-set_status n rs h)

  no_pnl-set_status :
      (rs : List TradeLog)
      → All (λ r. r.realized_pnl ≡ none) rs
      → All (λ r. r.realized_pnl ≡ none) (set_status id status message rs)
  unfolding set_status
  no_pnl-set_status [] h = tt
  no_pnl-set_status (r ∷ rs) (p, h) = (ground arith, no_pnl-set_status rs h)

pub finalize-TradesValid :
    (e : TradeLog) (status message : String) (db : Db)
    → TradesValid db
    → TradesValid (finalize_signal_log e status message db).1
unfolding finalize_signal_log
finalize-TradesValid e status message db v = elim (Bool-cases (any (λ r. r.id == e.id) db.trades)) [
  | inl there ↦ rw there (record {
    keys = keys-set_status e.id status message db.trades v.keys;
    ids = ids-set_status e.id status message db.trades v.ids;
    below = below-set_status e.id status message db.next_id db.trades v.below;
    no_pnl = no_pnl-set_status e.id status message db.trades v.no_pnl;
  })
  | inr gone ↦ rw gone v
]

module _ (now : ℕ) (tenant_id signal_id strategy symbol action : String) (quantity : Float)
    (db : Db) (v : TradesValid db) where
  pub try_reserve-TradesValid :
      TradesValid (try_reserve_signal now tenant_id signal_id strategy symbol action quantity db).1
  unfolding try_reserve_signal
  try_reserve-TradesValid = rw or_none-db (
      insert_row-TradesValid (received_row now tenant_id signal_id strategy symbol action quantity)
        db v refl)

  pub log_trade-TradesValid :
      (rt : Runtime) (side status : String) (message order_id : Json)
      → TradesValid
          (log_trade rt now tenant_id signal_id strategy symbol action side quantity status message
            order_id db).1
  unfolding log_trade
  log_trade-TradesValid rt side status message order_id =
      log_row-keeps TradesValid (rt.bind_text message) (rt.bind_text order_id)
        (result_row now tenant_id signal_id strategy symbol action side quantity status) db
        (λ x y. insert_row-TradesValid _ db v refl) v
