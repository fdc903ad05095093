-- ===== src/Router/Dispatch.antt =====
-- What `process_signal` leaves in the log, by how the signal ends.
use mathlib.Core.List.{append_assoc}
use dataveda_nifty_agent.Prelude.{
  ◌∙◌, ℕ, suc, ◌<◌, String, ◌+s◌, ◌≡◌, refl, ap, true, false, Option, some, List, [], ◌∷◌, ◌++◌,
  arith, All, any, any-append, ◌==◌, eq_iff, Bool-cases, inl, inr, str_eq,
}
use dataveda_nifty_agent.Storage.Trades.Rows.{
  insert_row_free, insert_row_taken, has_row, has_key, try_reserve_free,
}
use dataveda_nifty_agent.Router.{
  ◌>>=◌, Times, Decision, refuse, place, decide, rejected_with, reserve, log_result, finish, reject,
  carry_out, after_reserve, process_signal,
}
use Prim.Native.String.{count}
use text.Mathlib.TextLemmas.{length-append}
use dataveda_nifty_agent.Runtime.{Runtime}
use dataveda_nifty_agent.Models.Signal.{TradingViewSignal, action_value}
use dataveda_nifty_agent.Models.Order.{OrderRequest, OrderResult, side_value, status_value}
use dataveda_nifty_agent.Storage.Models.{Tenant, TradeLog, Db}
use dataveda_nifty_agent.Storage.Action.{Result, ok, raised, integrity_error, Action}
use dataveda_nifty_agent.Storage.Trades.{
  received_row, result_row, set_status, finalize_signal_log, log_trade,
}
use dataveda_nifty_agent.Storage.Trades.Invariant.{TradesValid}
use dataveda_nifty_agent.Risk.{check_risk}

-- A new status for the row of an id that no row before it has.
set_status-append :
    (n : ℕ) (status message : String) (rs : List TradeLog) (r : TradeLog) (rest : List TradeLog)
    → All (λ x. x.id < n) rs
    → r.id ≡ n
    → set_status n status message (rs ++ r ∷ rest)
      ≡ rs ++ record r { status = status; message = message } ∷ set_status n status message rest
unfolding set_status
set_status-append n status message [] r rest h e = ground arith
set_status-append n status message (x ∷ rs) r rest h e =
    ground (arith, set_status-append n status message rs r rest h.1 e)

any_id-append :
    (rs : List TradeLog) (r : TradeLog) (rest : List TradeLog)
    → any (λ x. x.id == r.id) (rs ++ r ∷ rest) ≡ true
any_id-append [] r rest = ground arith
any_id-append (x ∷ rs) r rest = ground (arith, any_id-append rs r rest)

-- The key of the second row is never that of the first.
mt5_key-ne : (s : String) → str_eq (s +s ":mt5") s ≡ false
mt5_key-ne s = elim (Bool-cases (str_eq (s +s ":mt5") s)) [
  | inl same ↦ absurd (omega (arith, length-append s ":mt5", ap count ((eq_iff _ _).0 same)))
  | inr other ↦ other
]

module _ (rt : Runtime) (times : Times) (tenant : Tenant) (signal : TradingViewSignal)
    (db : Db) where
  -- The reservation's row, with the status and the message that it has by then.
  abbrev pub reservation : String → String → TradeLog
  reservation status message =
      record (received_row times.reserved tenant.id signal.signal_id signal.strategy signal.symbol
        (action_value signal.action) signal.quantity) {
          id = db.next_id;
          status = status;
          message = message;
        }

  -- The database with the reservation and then other rows.
  abbrev pub with_rows : List TradeLog → ℕ → Db
  with_rows rows next = record db { trades = db.trades ++ rows; next_id = next }

  -- The database as the reservation leaves it, and what is decided over it.
  abbrev pub reserved_db : Db
  reserved_db = with_rows (reservation "received" "" ∷ []) (suc db.next_id)

  abbrev pub decision : Decision
  decision = decide tenant signal (check_risk rt times.checked times.pnl tenant signal reserved_db)

  -- The second row, with what the driver bound for the broker's message and order id.
  abbrev pub result_of : OrderRequest → OrderResult → String → Option String → TradeLog
  result_of order result message order_id =
      record (result_row times.logged tenant.id (signal.signal_id +s ":mt5") signal.strategy
        signal.symbol (action_value signal.action) (side_value order.side) order.quantity
        (status_value result.status) message order_id) { id = suc db.next_id }

module _ (rt : Runtime) (times : Times) (tenant : Tenant) (signal : TradingViewSignal)
    (broker : OrderRequest → Action OrderResult) (db : Db) where
  abbrev received_db : Db
  received_db = reserved_db rt times tenant signal db

  abbrev decided : Decision
  decided = decision rt times tenant signal db

  abbrev row_with : String → String → TradeLog
  row_with = reservation rt times tenant signal db

  abbrev rows_then : List TradeLog → ℕ → Db
  rows_then = with_rows rt times tenant signal db

  abbrev outcome : Result OrderResult × Db
  outcome = process_signal rt times tenant signal broker db

  module _ (free : has_row tenant.id signal.signal_id db.trades ≡ false) where
    outcome-carry_out :
        outcome
        ≡ carry_out rt times tenant signal broker (row_with "received" "") decided received_db
    unfolding process_signal reserve after_reserve
    outcome-carry_out = rw (
        try_reserve_free times.reserved tenant.id signal.signal_id signal.strategy signal.symbol
          (action_value signal.action) signal.quantity db free)

    -- For a valid log without the signal's key and a signal that is refused: whatever the broker
    -- would do, the caller has a rejection with the message, and the log has exactly one row more,
    -- which is rejected with the reason.
    pub refused_signal :
        TradesValid db
        → (logged message : String) → decided ≡ refuse logged message
        → outcome ≡ (
          ok (rejected_with message),
          rows_then (row_with "rejected" logged ∷ []) (suc db.next_id),
        )
    unfolding carry_out reject finalize_signal_log set_status
    refused_signal valid logged message d =
        rw (outcome-carry_out, d)
          (rw (
            any_id-append db.trades (row_with "received" "") [],
            set_status-append db.next_id "rejected" logged db.trades (row_with "received" "") []
                valid.below refl,
          ))

    module _ (order : OrderRequest) (result : OrderResult) (placed : decided ≡ place order)
        (answered : broker order received_db ≡ (ok result, received_db)) where
      abbrev logged : Result TradeLog × Db
      logged = log_result rt times.logged tenant signal order result received_db

      module _ (m : String) (o : Option String) (bm : rt.bind_text result.message ≡ some (some m))
          (bo : rt.bind_text result.broker_order_id ≡ some o) where
        logged_clash :
            has_row tenant.id (signal.signal_id +s ":mt5") db.trades ≡ true
            → logged ≡ (raised integrity_error, received_db)
        unfolding log_result log_trade
        logged_clash taken =
            rw (bm, bo)
              (insert_row_taken
                (record (result_of rt times tenant signal db order result m o) { id = 0 })
                received_db
                (ground (
                  arith,
                  any-append (has_key tenant.id (signal.signal_id +s ":mt5")) db.trades
                      (row_with "received" "" ∷ []),
                )))

        logged_clear :
            has_row tenant.id (signal.signal_id +s ":mt5") db.trades ≡ false
            → logged ≡ (
              ok (result_of rt times tenant signal db order result m o),
              rows_then
                  (row_with "received" ""
                    ∷ result_of rt times tenant signal db order result m o
                    ∷ [])
                  (suc (suc db.next_id)),
            )
        unfolding log_result log_trade
        logged_clear clear =
            rw (bm, bo)
              (insert_row_free
                  (record (result_of rt times tenant signal db order result m o) { id = 0 })
                  received_db
                  (ground (
                    arith,
                    mt5_key-ne signal.signal_id,
                    any-append (has_key tenant.id (signal.signal_id +s ":mt5")) db.trades
                        (row_with "received" "" ∷ []),
                  ))
                ∙ ap
                    (λ rows. (
                      ok (result_of rt times tenant signal db order result m o),
                      record received_db { trades = rows; next_id = suc (suc db.next_id) },
                    ))
                    (append_assoc db.trades (row_with "received" "" ∷ [])
                      (result_of rt times tenant signal db order result m o ∷ [])))

        -- For a log without the signal's key, a signal that is decided as an order, and a broker
        -- call that answers, leaves the database as it found it and whose texts the driver
        -- accepts: where the log has a row with the key of the signal's second row, process_signal
        -- raises an integrity error although the order was placed, and the reservation stays as
        -- received.
        pub result_row_clash :
            has_row tenant.id (signal.signal_id +s ":mt5") db.trades ≡ true
            → outcome ≡ (raised integrity_error, received_db)
        unfolding carry_out
        result_row_clash taken =
            rw (outcome-carry_out, placed) (rw (answered, ◌>>=◌) (rw (logged_clash taken)))

        -- For a valid log that has neither the signal's key nor that of its second row, a signal
        -- that is decided as an order, and a broker call that answers, leaves the database as it
        -- found it and whose texts the driver accepts: the caller has the broker's result, and the
        -- log has exactly two rows more, the dispatched reservation and the row of the result.
        pub placed_signal :
            TradesValid db
            → has_row tenant.id (signal.signal_id +s ":mt5") db.trades ≡ false
            → outcome ≡ (
              ok result,
              rows_then
                  (row_with "dispatched" ("Routed to MT5: " +s status_value result.status)
                    ∷ result_of rt times tenant signal db order result m o
                    ∷ [])
                  (suc (suc db.next_id)),
            )
        unfolding carry_out finish finalize_signal_log set_status
        placed_signal valid clear =
            rw (outcome-carry_out, placed)
              (rw (answered, ◌>>=◌)
                (rw (logged_clear clear) (
                  rw
                    (
                      any_id-append db.trades (row_with "received" "")
                          (result_of rt times tenant signal db order result m o ∷ []),
                      set_status-append db.next_id "dispatched"
                          ("Routed to MT5: " +s status_value result.status) db.trades
                          (row_with "received" "")
                          (result_of rt times tenant signal db order result m o ∷ []) valid.below
                          refl,
                    )
                    (ground arith))))
