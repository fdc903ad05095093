-- ===== src/Api/Server/Lookups.antt =====
-- In a valid database no request of app/main.py finds two accounts for one secret.
use dataveda_nifty_agent.Prelude.{ℕ, zero, suc, String, ◌≡◌, refl, false, Option, none, some, arith}
use dataveda_nifty_agent.Python.Float.{ℤ, pos, negsuc}
use dataveda_nifty_agent.Python.Json.{Json, obj}
use dataveda_nifty_agent.Runtime.{Runtime}
use dataveda_nifty_agent.Models.Signal.{TradingViewSignal}
use dataveda_nifty_agent.Models.Order.{OrderRequest, OrderResult}
use dataveda_nifty_agent.Storage.Models.{Tenant, TradeLog, Db}
use dataveda_nifty_agent.Storage.Action.{
  http, integrity_error, stale_data, multiple_results, bad_parameter, overflow_error, broker_failed,
  Result, ok, raised, Action, lift,
}
use dataveda_nifty_agent.Storage.Action.Unambiguous.{
  is_multiple, Unambiguous, unambiguous_rules, then-Unambiguous, Unambiguous-pure, Unambiguous-http,
}
use dataveda_nifty_agent.Storage.Tenants.{Secrets}
use dataveda_nifty_agent.Storage.Tenants.Unambiguous.{
  by_api_key_unambiguous, by_agent_token_unambiguous, by_webhook_id_unambiguous, save-Unambiguous,
  create_tenant-Unambiguous, by_id-Unambiguous, list_tenants-Unambiguous,
}
use dataveda_nifty_agent.Storage.Subscription.{add_days}
use dataveda_nifty_agent.Storage.Trades.{
  insert_row, try_reserve_signal, finalize_signal_log, log_trade, or_none, log_row,
}
use dataveda_nifty_agent.Router.{
  Times, Decision, refuse, place, reserve, log_result, finish, reject, carry_out, after_reserve,
  process_signal,
}
use dataveda_nifty_agent.Ws.Manager.{Reply}
use dataveda_nifty_agent.Ws.Relay
use dataveda_nifty_agent.Ws.Relay.{read_status, read_reply}
use dataveda_nifty_agent.Ws.Relay.Broker.{relay_broker}
use dataveda_nifty_agent.Api.Auth.{Settings, or_http, get_current_admin}
use dataveda_nifty_agent.Api.Account.{or_conflict}
use dataveda_nifty_agent.Api.Admin.{positive_days}
use dataveda_nifty_agent.Api.Webhook.{json_object, or_unprocessable}

-- The log's writes raise what the constraints and the driver raise, and no more.
pub insert_row-Unambiguous : (e : TradeLog) → Unambiguous (insert_row e)
unfolding insert_row
insert_row-Unambiguous e = record { at = λ db. ground arith }

pub or_none_unambiguous :
    {A : Type 0} (x : Result A × Db) → is_multiple x.0 ≡ false → is_multiple (or_none x).0 ≡ false
or_none_unambiguous (ok a, db) h = refl
or_none_unambiguous (raised multiple_results, db) h = h
or_none_unambiguous (raised (http code), db) h = refl
or_none_unambiguous (raised integrity_error, db) h = refl
or_none_unambiguous (raised stale_data, db) h = refl
or_none_unambiguous (raised bad_parameter, db) h = refl
or_none_unambiguous (raised overflow_error, db) h = refl
or_none_unambiguous (raised broker_failed, db) h = refl

pub finalize-Unambiguous :
    (r : TradeLog) (status message : String) → Unambiguous (finalize_signal_log r status message)
unfolding finalize_signal_log
finalize-Unambiguous r status message = record { at = λ db. ground arith }

pub log_row-Unambiguous :
    (m : Option (Option String)) (o : Option (Option String))
    (row : String → Option String → TradeLog)
    → Unambiguous (log_row m o row)
log_row-Unambiguous none o row = record { at = λ db. refl }
log_row-Unambiguous (some m) none row = record { at = λ db. refl }
log_row-Unambiguous (some none) (some o) row = record { at = λ db. refl }
log_row-Unambiguous (some (some m)) (some o) row = insert_row-Unambiguous _

pub or_http-Unambiguous : (code : ℕ) (found : Option Tenant) → Unambiguous (or_http code found)
or_http-Unambiguous code none = Unambiguous-http code
or_http-Unambiguous code (some tenant) = Unambiguous-pure tenant

pub or_conflict-Unambiguous : (x : Option (Tenant × Secrets)) → Unambiguous (or_conflict x)
or_conflict-Unambiguous none = Unambiguous-http 409
or_conflict-Unambiguous (some created) = Unambiguous-pure created

pub positive_days-Unambiguous : (days : ℤ) → Unambiguous (positive_days days)
positive_days-Unambiguous (pos zero) = Unambiguous-http 422
positive_days-Unambiguous (pos (suc n)) = Unambiguous-pure (suc n)
positive_days-Unambiguous (negsuc n) = Unambiguous-http 422

pub add_days-Unambiguous : (base days : ℕ) → Unambiguous (lift (add_days base days))
unfolding add_days
add_days-Unambiguous base days = record { at = λ db. ground arith }

pub get_current_admin-Unambiguous :
    (settings : Settings) (key : String) → Unambiguous (get_current_admin settings key)
unfolding get_current_admin
get_current_admin-Unambiguous settings key = search unambiguous_rules

pub json_object-Unambiguous : (body : Option Json) → Unambiguous (json_object body)
json_object-Unambiguous none = search unambiguous_rules
json_object-Unambiguous (some (obj fields)) = search unambiguous_rules
json_object-Unambiguous (some other) = search unambiguous_rules

pub or_unprocessable-Unambiguous : (s : Option TradingViewSignal) → Unambiguous (or_unprocessable s)
or_unprocessable-Unambiguous none = search unambiguous_rules
or_unprocessable-Unambiguous (some signal) = search unambiguous_rules

pub ruleset lookup_rules = (
  unambiguous_rules, finalize-Unambiguous, or_http-Unambiguous, or_conflict-Unambiguous,
  positive_days-Unambiguous, add_days-Unambiguous, get_current_admin-Unambiguous,
  json_object-Unambiguous, or_unprocessable-Unambiguous, save-Unambiguous,
  create_tenant-Unambiguous, by_id-Unambiguous, list_tenants-Unambiguous,
)

module _ (rt : Runtime) where
  reserve-Unambiguous :
      (now : ℕ) (tenant : Tenant) (signal : TradingViewSignal)
      → Unambiguous (reserve rt now tenant signal)
  unfolding reserve try_reserve_signal
  reserve-Unambiguous now tenant signal = record {
    at = λ db. or_none_unambiguous _ ((insert_row-Unambiguous _).at db);
  }

  log_result-Unambiguous :
      (now : ℕ) (tenant : Tenant) (signal : TradingViewSignal) (order : OrderRequest)
      (result : OrderResult)
      → Unambiguous (log_result rt now tenant signal order result)
  unfolding log_result log_trade
  log_result-Unambiguous now tenant signal order result = log_row-Unambiguous _ _ _

  module _ (times : Times) (tenant : Tenant) (signal : TradingViewSignal)
      (broker : OrderRequest → Action OrderResult)
      (kb : (order : OrderRequest) → Unambiguous (broker order)) where
    carry_out-Unambiguous :
        (r : TradeLog) (d : Decision) → Unambiguous (carry_out rt times tenant signal broker r d)
    unfolding carry_out reject finish
    carry_out-Unambiguous r (refuse logged message) =
        search (unambiguous_rules, finalize-Unambiguous)
    carry_out-Unambiguous r (place order) =
        search (unambiguous_rules, finalize-Unambiguous, log_result-Unambiguous, kb)

    after_reserve-Unambiguous :
        (r : Option TradeLog) → Unambiguous (after_reserve rt times tenant signal broker r)
    unfolding after_reserve
    after_reserve-Unambiguous none = search unambiguous_rules
    after_reserve-Unambiguous (some r) = search (unambiguous_rules, carry_out-Unambiguous)

    pub process_signal-Unambiguous : Unambiguous (process_signal rt times tenant signal broker)
    unfolding process_signal
    process_signal-Unambiguous =
        search (unambiguous_rules, reserve-Unambiguous, after_reserve-Unambiguous)

pub relay-Unambiguous :
    (tenant_id : String) (ended : Option Reply) (meanwhile : Db → Db) (order : OrderRequest)
    → Unambiguous ((relay_broker tenant_id ended meanwhile).place_order order)
unfolding relay_broker Relay.place_order read_reply read_status
relay-Unambiguous tenant_id ended meanwhile order = record { at = λ db. ground arith }
