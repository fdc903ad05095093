-- ===== src/Tests/RouterRuns.antt =====
-- Signals through the router, one at a time and interleaved.
use dataveda_nifty_agent.Router.{
  side_and_quantity, mapped_symbol, process_signal, rejected_with, duplicate_message, decide, place,
  refuse,
}
use dataveda_nifty_agent.Python.Dict.{get}
use dataveda_nifty_agent.Risk.{
  loss_refused, quantity_refused, normalized, symbol_refused, check_risk, lapsed,
}
use dataveda_nifty_agent.Prelude.{◌≡◌, refl, ◌↔◌, true, some, [], ◌∷◌, arith}
use dataveda_nifty_agent.Models.Signal.{TradingViewSignal}
use dataveda_nifty_agent.Models.Order.{OrderRequest}
use dataveda_nifty_agent.Storage.Models.{Db}
use dataveda_nifty_agent.Storage.Action.{ok, raised, integrity_error}
use dataveda_nifty_agent.Storage.Action.Keeps.{Keeps}
use dataveda_nifty_agent.Storage.Trades.Invariant.{TradesValid}
use dataveda_nifty_agent.Router.Idempotency.{Has, second_delivery_ignored}
use dataveda_nifty_agent.Router.Dispatch.{
  refused_signal, result_row_clash, placed_signal, reservation, with_rows, result_of,
}
use dataveda_nifty_agent.Router.Orders.{decide-place_iff, IsOrderFor}
use dataveda_nifty_agent.Tests.Data.{rt, tenant, signal, order, result, db, broker, times, db_with}

keeps : (o : OrderRequest) → Keeps (Has "ten_1" "sig1") (broker o)
keeps o = record { at = λ d h. h }

broker-Keeps_valid : (o : OrderRequest) → Keeps TradesValid (broker o)
broker-Keeps_valid o = record { at = λ d h. h }

pub db-TradesValid : TradesValid db
db-TradesValid = record { keys = tt; ids = tt; below = tt; no_pnl = tt }

second_delivery_ignored_example :
    process_signal rt times tenant signal broker (process_signal rt times tenant signal broker db).1
    ≡ (ok (rejected_with duplicate_message), (process_signal rt times tenant signal broker db).1)
second_delivery_ignored_example =
    second_delivery_ignored rt times times tenant signal signal broker broker keeps refl db

-- A signal on a symbol without a name at the broker.
abbrev unmapped : TradingViewSignal
unmapped = record signal { symbol = "GBPUSD" }

unmapped_decision :
    (d : Db)
    → decide tenant unmapped (check_risk rt 11 12 tenant unmapped d)
      ≡ refuse "No MT5 symbol mapped for GBPUSD - add it via PUT /me/symbol-map"
          "No MT5 symbol mapped for GBPUSD - add it via PUT /me/symbol-map"
unfolding decide check_risk lapsed symbol_refused normalized quantity_refused loss_refused
    mapped_symbol get side_and_quantity
unmapped_decision d = ground arith

refused_signal_example : process_signal rt times tenant unmapped broker db ≡ (
  ok (rejected_with "No MT5 symbol mapped for GBPUSD - add it via PUT /me/symbol-map"),
  with_rows rt times tenant unmapped db
      (reservation rt times tenant unmapped db "rejected"
          "No MT5 symbol mapped for GBPUSD - add it via PUT /me/symbol-map"
        ∷ [])
      2,
)
refused_signal_example =
    refused_signal rt times tenant unmapped broker db refl db-TradesValid
      "No MT5 symbol mapped for GBPUSD - add it via PUT /me/symbol-map"
      "No MT5 symbol mapped for GBPUSD - add it via PUT /me/symbol-map" (unmapped_decision _)

pub signal_decision :
    (d : Db) → decide tenant signal (check_risk rt 11 12 tenant signal d) ≡ place order
unfolding decide check_risk lapsed symbol_refused normalized quantity_refused loss_refused
    mapped_symbol get side_and_quantity
signal_decision d = ground arith

placed_signal_example : process_signal rt times tenant signal broker db ≡ (
  ok result,
  with_rows rt times tenant signal db
      (reservation rt times tenant signal db "dispatched" "Routed to MT5: accepted"
        ∷ result_of rt times tenant signal db order result "done" (some "7")
        ∷ [])
      3,
)
placed_signal_example =
    placed_signal rt times tenant signal broker db refl order result (signal_decision _) refl "done"
      (some "7") refl refl db-TradesValid refl

result_row_clash_example : process_signal rt times tenant signal broker (db_with "sig1:mt5") ≡ (
  raised integrity_error,
  with_rows rt times tenant signal
      (db_with "sig1:mt5")
      (reservation rt times tenant signal (db_with "sig1:mt5") "received" "" ∷ [])
      3,
)
result_row_clash_example =
    result_row_clash rt times tenant signal broker (db_with "sig1:mt5") refl order result
      (signal_decision _) refl "done" (some "7") refl refl refl

decide-place_iff_example :
    (decide tenant signal (check_risk rt 11 12 tenant signal db) ≡ place order)
    ↔ (((check_risk rt 11 12 tenant signal db).allowed ≡ true) × IsOrderFor tenant signal order)
decide-place_iff_example =
    decide-place_iff tenant signal (check_risk rt 11 12 tenant signal db) order
