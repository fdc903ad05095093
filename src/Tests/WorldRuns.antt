-- ===== src/Tests/WorldRuns.antt =====
-- Requests that interleave on the server.
use dataveda_nifty_agent.Prelude.{
  inl, ◌+◌, ◌≤◌, ◌≡◌, refl, none, some, [], ◌∷◌, ◌++◌, if◌then◌else◌,
}
use dataveda_nifty_agent.Python.Float.{pos, finite, lt, truthy}
use dataveda_nifty_agent.Python.Json.{obj, get_field}
use dataveda_nifty_agent.Python.Text.{after_prefix, strip, upper}
use dataveda_nifty_agent.Python.Dict.{get}
use dataveda_nifty_agent.Models.Signal.{validate, action_of}
use dataveda_nifty_agent.Storage.Models.{Tenant, Db, RiskSettings}
use dataveda_nifty_agent.Storage.Action.{ok, Action, pure}
use dataveda_nifty_agent.Storage.Tenants.{
  hash_secret, get_tenant_by_webhook_id, get_tenant_by_api_key, same_key,
}
use dataveda_nifty_agent.Storage.Trades.{try_reserve_signal, insert_row}
use dataveda_nifty_agent.Storage.Trades.Rows.{has_row}
use dataveda_nifty_agent.Risk.{lapsed, symbol_refused, quantity_refused, loss_refused, check_risk}
use dataveda_nifty_agent.Router.{reserve, decide, rejected_with}
use dataveda_nifty_agent.Router.Tasks.{idle, advance, sent_by}
use dataveda_nifty_agent.Router.Tasks.Once.{sends}
use dataveda_nifty_agent.Security.{passphrase_matches}
use dataveda_nifty_agent.Api.Server.{grant, administrator, respond}
use dataveda_nifty_agent.Api.Server.Valid.{DbValid}
use dataveda_nifty_agent.Api.Concurrent.{
  alert, arrived, handed_over, admit, entering, open_call, proceed,
}
use dataveda_nifty_agent.Api.Concurrent.World.{
  anything, Pending, World, come, handle, route, Reach, here, next, empty_world,
}
use dataveda_nifty_agent.Api.Concurrent.Refines.{sends_once}
use dataveda_nifty_agent.Models.Order.{OrderRequest, OrderResult}
use dataveda_nifty_agent.Api.Webhook.{tradingview_webhook}
use dataveda_nifty_agent.Api.Webhook.Halt.{Gives, AnswersRejected}
use dataveda_nifty_agent.Api.Bodies.Binding.{new_limit_binds}
use dataveda_nifty_agent.Tests.Data.{rt, tenant, db, signal, times, broker}
use dataveda_nifty_agent.Storage.Tenants.Save.{row_of}
use dataveda_nifty_agent.Api.Auth.{get_current_tenant}
use dataveda_nifty_agent.Api.Bodies.Receive.{for_risk_settings, receive}
use dataveda_nifty_agent.Api.Bodies.Limits.{settings_json, PutLimits, risk_settings-PutLimits}
use dataveda_nifty_agent.Api.Account.{merge_settings}
use dataveda_nifty_agent.Api.Server.Grants.{Granting, grant_outcome}
use dataveda_nifty_agent.Api.Concurrent.Lost.{both_commits, overlapping_settings_lost}
use dataveda_nifty_agent.Tests.ServerRuns.{raw}
use dataveda_nifty_agent.Tests.TaskRuns.{inputs, ran, written, fresh}
use dataveda_nifty_agent.Tests.HistoryRuns.{keyed, db-DbValid}

abbrev pub alerting : Pending
alerting = record { call = alert "hook" (some (obj raw)); progress = arrived }

abbrev alerted : Pending
alerted = record alerting { progress = handed_over }

-- An alert comes in, is let in and goes on to its order.
abbrev ordered : World
ordered = record {
  system = record {
    db =
        written (ran (ran fresh db) (written fresh db)) (written (ran fresh db) (written fresh db));
    tasks =
        ran (ran (ran fresh db) (written fresh db)) (written (ran fresh db) (written fresh db))
        ∷ [];
    sent =
        sent_by (ran (ran fresh db) (written fresh db))
        ++ sent_by (ran fresh db)
        ++ sent_by fresh
        ++ [];
  };
  pending = alerted ∷ [];
}

ordered-Reach : Reach rt keyed anything (empty_world db) ordered
unfolding proceed open_call entering admit get_tenant_by_webhook_id hash_secret get_field validate
    action_of upper strip passphrase_matches advance reserve try_reserve_signal insert_row decide
    check_risk lapsed symbol_refused quantity_refused loss_refused get lt
ordered-Reach =
    next
      (next
        (next
          (next (next here (come (empty_world db) (alert "hook" (some (obj raw))) tt))
            (handle [] alerting [] 5 (idle db) tt))
          (route (alerted ∷ []) db [] fresh [] [] inputs tt))
        (route (alerted ∷ []) (written fresh db) [] (ran fresh db) [] [] inputs tt))
      (route (alerted ∷ []) (written (ran fresh db) (written fresh db)) []
        (ran (ran fresh db) (written fresh db)) [] [] inputs tt)

sends_once_example :
    sends "ten_1" "sig1" ordered.system.sent + (if has_row "ten_1" "sig1" db.trades then 1 else 0)
    ≤ 1
sends_once_example = sends_once rt keyed anything db ordered "ten_1" "sig1" ordered-Reach

-- One request sets the quantity, and another one the loss limit.
abbrev quantity_limit : RiskSettings
quantity_limit = record {
  max_qty_per_order = some (finite (pos 1));
  max_daily_loss = none;
  allowed_symbols = none;
}

abbrev loss_limit : RiskSettings
loss_limit = record {
  max_qty_per_order = none;
  max_daily_loss = some (finite (pos 1));
  allowed_symbols = none;
}

overlapping_settings_lost_example :
    row_of "ten_1"
      (both_commits rt keyed tenant 5 6 "Bearer sk_live_1" "Bearer sk_live_1" quantity_limit
        loss_limit db).tenants
    ≡ some (record tenant { risk_settings = loss_limit })
unfolding merge_settings
overlapping_settings_lost_example =
    overlapping_settings_lost rt keyed tenant 5 6 "Bearer sk_live_1" "Bearer sk_live_1"
      quantity_limit loss_limit db (refl, tt) refl refl

grant_outcome_example :
    Granting keyed "key" 7 "ten_1"
      (pos 30)
      db
      (respond rt keyed (administrator "key" 7 (grant "ten_1" (pos 30))) db)
grant_outcome_example = grant_outcome rt keyed "key" 7 "ten_1" db db-DbValid (pos 30)

-- An account with limits.
abbrev careful : Tenant
careful = record tenant {
  risk_settings = record {
    max_qty_per_order = some (finite (pos 1));
    max_daily_loss = none;
    allowed_symbols = some ("EURUSD" ∷ []);
  };
}

abbrev careful_db : Db
careful_db = record db { tenants = careful ∷ [] }

careful-DbValid : DbValid careful_db
unfolding same_key
careful-DbValid = record {
  accounts = (refl, tt);
  log = record { keys = tt; ids = tt; below = tt; no_pnl = tt };
}

careful_login : get_current_tenant rt "Bearer sk_live_1" careful_db ≡ (ok careful, careful_db)
unfolding get_current_tenant after_prefix strip get_tenant_by_api_key hash_secret
careful_login = refl

-- A request that names the quantity limit only.
abbrev larger : RiskSettings
larger = record {
  max_qty_per_order = some (finite (pos 2));
  max_daily_loss = none;
  allowed_symbols = none;
}

risk_settings-PutLimits_example : PutLimits careful larger careful_db (
    receive rt keyed
      (for_risk_settings "Bearer sk_live_1")
      (some (obj (settings_json larger)))
      careful_db)
risk_settings-PutLimits_example =
    risk_settings-PutLimits rt keyed (λ s. refl) (λ x. refl) "Bearer sk_live_1" careful larger
      careful_db careful-DbValid careful_login

abbrev after_larger : Db
after_larger =
    (receive rt keyed (for_risk_settings "Bearer sk_live_1") (some (obj (settings_json larger)))
      careful_db).1

abbrev answering : Tenant → OrderRequest → Action OrderResult
answering t = broker

abbrev refusing : Tenant → OrderRequest → Action OrderResult
refusing t order = pure (rejected_with "closed")

new_limit_binds_example :
    (tradingview_webhook rt times answering "hook" (some (obj raw)) after_larger
      ≡ tradingview_webhook rt times refusing "hook" (some (obj raw)) after_larger)
    × Gives AnswersRejected
        (tradingview_webhook rt times answering "hook" (some (obj raw)) after_larger).0
unfolding validate action_of upper strip get_field lt truthy
new_limit_binds_example =
    new_limit_binds rt keyed (λ s. refl) (λ x. refl) "Bearer sk_live_1" careful larger careful_db
      careful-DbValid careful_login raw signal refl (inl (finite (pos 2), refl, refl, refl)) times
      answering refusing
