-- ===== src/Tests/AlertRuns.antt =====
-- Alerts on their whole way.
use dataveda_nifty_agent.Prelude.{◌≡◌, refl, true, some, none, [], ◌∷◌, ◌++◌, ◌↔◌}
use dataveda_nifty_agent.Python.Dict.{get, put}
use dataveda_nifty_agent.Python.Json.{obj, str, get_field}
use dataveda_nifty_agent.Models.Signal.{validate}
use dataveda_nifty_agent.Models.Signal.Reading.{IsReading, validate_iff}
use dataveda_nifty_agent.Models.Order.{status_value}
use dataveda_nifty_agent.Storage.Action.{ok}
use dataveda_nifty_agent.Router.{rejected_with}
use dataveda_nifty_agent.Ws.Manager.{new_manager, open_request, offline_message, timeout_message}
use dataveda_nifty_agent.Ws.Manager.Requests.{opens, resolves}
use dataveda_nifty_agent.Ws.Manager.SendRequest.{send_request}
use dataveda_nifty_agent.Ws.Relay.{order_message}
use dataveda_nifty_agent.Ws.Relay.Broker.{relay_broker}
use dataveda_nifty_agent.Agent.Client.{Answer, accepted, place_order, ensure_init, prepare}
use dataveda_nifty_agent.Agent.Frames.{reply_frame, on_frame}
use dataveda_nifty_agent.Agent.Requests.{Outcome}
use dataveda_nifty_agent.Agent.Exchange.{args_of, status_for, message_for}
use dataveda_nifty_agent.Agent.Delivery.{result_for}
use dataveda_nifty_agent.Api.Webhook.{tradingview_webhook}
use dataveda_nifty_agent.Api.Webhook.Delivery.{
  unanswered, unanswered_alert, BindsTexts, IsReady, logged_db, bound_id, offline_alert,
  delivered_alert,
}
use dataveda_nifty_agent.Tests.Data.{
  rt, tenant, signal, order, db, times, online, begun, online-ManagerValid,
}
use dataveda_nifty_agent.Tests.AgentRuns.{terminal, client, started, request}
use dataveda_nifty_agent.Tests.ServerRuns.{raw, raw-IsTrusted}
use dataveda_nifty_agent.Tests.RouterRuns.{signal_decision, db-TradesValid}

binds : BindsTexts rt
binds = record { text = λ s. refl; none_as_null = refl }

ready : IsReady rt times "hook" (some (obj raw)) db tenant signal order
ready = record {
  trusted = raw-IsTrusted;
  valid = db-TradesValid;
  fresh = refl;
  fresh_result = refl;
  placed = signal_decision _;
}

offline_alert_example :
    tradingview_webhook rt times
      (λ t.
        (relay_broker t.id (send_request "ten_1" "q1" true [] new_manager).0 (λ d. d)).place_order)
      "hook"
      (some (obj raw))
      db
    ≡ (
      ok ("sig1", rejected_with (offline_message "ten_1")),
      logged_db rt times "hook"
          (some (obj raw))
          db
          tenant
          signal
          order
          ready
          binds
          "rejected"
          (offline_message "ten_1")
          none
          (rejected_with (offline_message "ten_1")),
    )
unfolding get
offline_alert_example =
    offline_alert rt times "hook" (some (obj raw)) db tenant signal order ready binds "q1" true []
      new_manager (λ d. d) refl

delivered_alert_example :
    (answer : Answer) × Outcome terminal (args_of order) answer (request ∷ [])
    × (tradingview_webhook rt times
          (λ t.
            (relay_broker t.id
              (send_request "ten_1" "q1" true
                ((opens "ten_1" "q2" ∷ [])
                  ++ resolves "q1" (reply_frame (str "q1") (accepted "7" "done")) ∷ [])
                online).0
              (λ d. d)).place_order)
          "hook"
          (some (obj raw))
          db
        ≡ (
          ok ("sig1", result_for answer),
          logged_db rt times "hook"
              (some (obj raw))
              db
              tenant
              signal
              order
              ready
              binds
              (status_value (status_for answer))
              (message_for answer)
              (bound_id answer)
              (result_for answer),
        ))
unfolding open_request get put on_frame order_message get_field place_order ensure_init prepare
delivered_alert_example =
    delivered_alert rt times "hook" (some (obj raw)) db tenant signal order ready binds terminal
      "q1" online begun 4 0 online-ManagerValid refl (opens "ten_1" "q2" ∷ []) [] (refl, tt) client
      started (request ∷ []) (reply_frame (str "q1") (accepted "7" "done")) refl

validate_iff_example : (validate rt raw ≡ some signal) ↔ IsReading rt raw signal
validate_iff_example = validate_iff rt raw signal

unanswered_alert_example :
    tradingview_webhook rt times
      (λ t.
        (relay_broker t.id
          (send_request "ten_1" "q1" true (opens "ten_1" "q2" ∷ []) online).0
          (λ d. d)).place_order)
      "hook"
      (some (obj raw))
      db
    ≡ (
      ok ("sig1", unanswered "ten_1"),
      logged_db rt times "hook"
          (some (obj raw))
          db
          tenant
          signal
          order
          ready
          binds
          "error"
          (timeout_message "ten_1")
          none
          (unanswered "ten_1"),
    )
unfolding open_request get put
unanswered_alert_example =
    unanswered_alert rt times "hook" (some (obj raw)) db tenant signal order ready binds "q1" online
      begun 4 0 online-ManagerValid refl (opens "ten_1" "q2" ∷ []) (refl, tt)
