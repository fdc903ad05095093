-- ===== src/Api/Webhook.antt =====
-- app/main.py: POST /webhook/tradingview/{webhook_id}.
pub mod Guards
pub mod Delivery
pub mod Halt
use dataveda_nifty_agent.Prelude.{ℕ, String, Bool, true, false, Option, none, some, if◌then◌else◌}
use dataveda_nifty_agent.Python.Json.{
  Json, null, boolean, int, float, str, arr, obj, Fields, get_field,
}
use dataveda_nifty_agent.Runtime.{Runtime}
use dataveda_nifty_agent.Security.{passphrase_matches}
use dataveda_nifty_agent.Models.Signal.{TradingViewSignal, validate}
use dataveda_nifty_agent.Models.Order.{OrderRequest, OrderResult}
use dataveda_nifty_agent.Storage.Models.{Tenant}
use dataveda_nifty_agent.Storage.Action.{
  http, Result, ok, raised, Action, pure, raise, continue, ◌>>=◌, ◌>>◌,
}
use dataveda_nifty_agent.Storage.Tenants.{hash_secret, get_tenant_by_webhook_id}
use dataveda_nifty_agent.Api.Auth.{or_http}
use dataveda_nifty_agent.Router.{Times, process_signal}

-- request.json(), where `none` is a body that does not parse, and the test for a dict
abbrev pub json_object : Option Json → Action Fields
json_object none = raise (http 400)
json_object (some (obj fields)) = pure fields
json_object (some other) = raise (http 400)

-- str(raw.get("passphrase", ""))
abbrev pub given_passphrase : Runtime → Option Json → String
given_passphrase rt none = ""
given_passphrase rt (some (str s)) = s
given_passphrase rt (some v) = rt.show_json v

abbrev pub check_passphrase : Runtime → Tenant → Fields → Action (Unit {0})
check_passphrase rt tenant raw =
    if passphrase_matches (hash_secret rt (given_passphrase rt (get_field "passphrase" raw)))
      tenant.webhook_passphrase_hash
    then pure tt
    else raise (http 401)

-- `raise HTTPException(422)`, as the endpoint raises it: how its detail is rendered is outside.
abbrev pub or_unprocessable : Option TradingViewSignal → Action TradingViewSignal
or_unprocessable none = raise (http 422)
or_unprocessable (some signal) = pure signal

-- The answer: the signal's id and the broker's result.
module _ (rt : Runtime) (times : Times) (broker : Tenant → OrderRequest → Action OrderResult) where
  unfoldable pub tradingview_webhook : String → Option Json → Action (String × OrderResult)
  tradingview_webhook webhook_id body = do
    found ← get_tenant_by_webhook_id webhook_id
    tenant ← or_http 404 found
    raw ← json_object body
    check_passphrase rt tenant raw
    signal ← or_unprocessable (validate rt raw)
    result ← process_signal rt times tenant signal (broker tenant)
    pure (signal.signal_id, result)
