-- ===== src/Tests/ServerRuns.antt =====
-- Sessions, requests and the guards of the endpoints.
use dataveda_nifty_agent.Tests.Data.{
  signal, tenant, online, begun, online-ManagerValid, rt, db, broker, times,
}
use dataveda_nifty_agent.Prelude.{◌≡◌, ◌⊎◌, refl, true, false, some, [], ◌∷◌, any, Option, ◌++◌}
use dataveda_nifty_agent.Python.Float.{finite, pos, lt}
use dataveda_nifty_agent.Python.Json.{float, Json, obj, str, Fields, end, field, get_field}
use dataveda_nifty_agent.Python.Dict.{get, put, pop}
use dataveda_nifty_agent.Models.Signal.{TradingViewSignal, validate, action_of}
use dataveda_nifty_agent.Storage.Models.{Tenant}
use dataveda_nifty_agent.Storage.Action.{Exception, raised}
use dataveda_nifty_agent.Router.{process_signal}
use dataveda_nifty_agent.Ws.Manager.{
  connect, disconnect, open_request, is_connected, timed_out, replied,
}
use dataveda_nifty_agent.Ws.Manager.Requests.{opens, resolves}
use dataveda_nifty_agent.Ws.Manager.SendRequest.{send_request, send_request-replies}
use dataveda_nifty_agent.Storage.Tenants.{get_tenant_by_webhook_id, hash_secret}
use dataveda_nifty_agent.Python.Text.{upper, strip}
use dataveda_nifty_agent.Api.Auth.{Settings, default_settings}
use dataveda_nifty_agent.Api.Sessions.{join, leave, is_session}
use dataveda_nifty_agent.Api.Sessions.Registry.{
  joins, leaves, history, happen, new_hub, registered_is_open, stale_leave_unregisters,
}
use dataveda_nifty_agent.Api.Webhook.{tradingview_webhook}
use dataveda_nifty_agent.Api.Webhook.Guards.{IsTrusted, webhook_guarded}

abbrev reply : Fields
reply = field "status" (str "accepted") end

send_request-replies_example :
    ((send_request "ten_1" "q1" true (opens "ten_1" "q2" ∷ []) online).0 ≡ some timed_out)
    × ((send_request "ten_1" "q1" true
          ((opens "ten_1" "q2" ∷ []) ++ resolves "q1" reply ∷ [])
          online).0
        ≡ some (replied reply))
unfolding open_request get put
send_request-replies_example =
    send_request-replies "ten_1" "q1" online begun 4 0 refl online-ManagerValid
      (opens "ten_1" "q2" ∷ []) [] reply (refl, tt)

registered_is_open_example :
    any
      (is_session 2 "ten_1")
      (history new_hub (joins 2 "ten_1" ∷ joins 3 "ten_2" ∷ leaves 3 "ten_2" ∷ [])).sockets
    ≡ true
unfolding history happen join leave connect disconnect get put pop
registered_is_open_example =
    registered_is_open (joins 2 "ten_1" ∷ joins 3 "ten_2" ∷ leaves 3 "ten_2" ∷ []) "ten_1" 2 refl

stale_leave_unregisters_example :
    (is_connected "ten_1" (leave 1 "ten_1" (join 2 "ten_1" (join 1 "ten_1" new_hub))).manager
      ≡ false)
    × (any
          (is_session 2 "ten_1")
          (leave 1 "ten_1" (join 2 "ten_1" (join 1 "ten_1" new_hub))).sockets
        ≡ true)
stale_leave_unregisters_example = stale_leave_unregisters 1 2 "ten_1" new_hub refl

abbrev with_key : Settings
with_key = record default_settings { admin_api_key = "key" }

abbrev body : Option Json
body = some (obj (field "passphrase" (str "secret") end))

abbrev pub raw : Fields
raw = field "passphrase" (str "secret") (
    field "signal_id" (str "sig1") (
      field "strategy" (str "trend") (
        field "symbol" (str " eurusd")
          (field "action" (str "buy") (field "quantity" (float (finite (pos 3))) end)))))

pub raw-IsTrusted : IsTrusted rt "hook" (some (obj raw)) db tenant signal
unfolding get_tenant_by_webhook_id hash_secret get_field validate action_of lt upper strip
raw-IsTrusted = record { raw = raw; parsed = refl; found = refl; passphrase = refl; valid = refl }

webhook_guarded_example :
    ((t : Tenant) × (s : TradingViewSignal) × IsTrusted rt "hook" body db t s
      × ((tradingview_webhook rt times (λ _. broker) "hook" body db).1
          ≡ (process_signal rt times t s broker db).1))
    ⊎ ((e : Exception) × (tradingview_webhook rt times (λ _. broker) "hook" body db
          ≡ (raised e, db)))
webhook_guarded_example = webhook_guarded rt times (λ _. broker) "hook" body db
