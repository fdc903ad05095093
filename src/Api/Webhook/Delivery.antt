-- ===== src/Api/Webhook/Delivery.antt =====
-- An alert on its whole way: the webhook in app/main.py, app/services/order_router.py,
-- app/ws/relay_broker.py, and bridge_agent/agent.py at the other end of the socket.
use dataveda_nifty_agent.Models.Order.{OrderStatus, OrderRequest, OrderResult, status_value}
use dataveda_nifty_agent.Python.Json.{end, Json, null, str, Fields}
use dataveda_nifty_agent.Ws.Manager.SendRequest.{send_request-replies, send_request}
use dataveda_nifty_agent.Ws.Manager.{
  timed_out, timeout_message, open_on, Manager, Reply, open_request, offline_message,
}
use dataveda_nifty_agent.Agent.Client.{Terminal, Mt5Client, Mt5Request, Answer}
use mathlib.Core.Path.{ap, ◌∙◌}
use dataveda_nifty_agent.Prelude.{
  ℕ, suc, String, ◌+s◌, ◌≡◌, refl, Bool, true, false, Option, none, some, List, [], ◌∷◌, ◌++◌, All,
}
use dataveda_nifty_agent.Python.Dict.{get}
use dataveda_nifty_agent.Python.Text.{nonempty}
use dataveda_nifty_agent.Runtime.{Runtime}
use dataveda_nifty_agent.Models.Signal.{TradingViewSignal}
use dataveda_nifty_agent.Storage.Models.{Tenant, Db}
use dataveda_nifty_agent.Storage.Action.{Result, ok, Action}
use dataveda_nifty_agent.Storage.Trades.Rows.{has_row}
use dataveda_nifty_agent.Storage.Trades.Invariant.{TradesValid}
use dataveda_nifty_agent.Risk.{check_risk}
use dataveda_nifty_agent.Router.{Times, place, rejected_with}
use dataveda_nifty_agent.Router.Orders.{decide-place_iff}
use dataveda_nifty_agent.Router.Dispatch.{
  reservation, with_rows, reserved_db, decision, result_of, placed_signal,
}
use dataveda_nifty_agent.Ws.Manager.Requests.{ManagerValid, Call, resolves}
use dataveda_nifty_agent.Ws.Manager.Correlation.{IsOther}
use dataveda_nifty_agent.Ws.Relay
use dataveda_nifty_agent.Ws.Relay.{order_message}
use dataveda_nifty_agent.Ws.Relay.Broker.{relay_broker, relay_broker-alone}
use dataveda_nifty_agent.Agent.Frames.{replied, on_frame}
use dataveda_nifty_agent.Agent.Requests.{Outcome}
use dataveda_nifty_agent.Agent.Exchange.{args_of, status_for, id_for, message_for}
use dataveda_nifty_agent.Agent.Delivery.{result_for, order_comes_back}
use dataveda_nifty_agent.Api.Webhook.{tradingview_webhook}
use dataveda_nifty_agent.Api.Webhook.Guards.{IsTrusted, trusted_signal}

-- The driver writes texts as they are, and None as NULL.
pub record BindsTexts (rt : Runtime) : Type 0 where
  pub text : (s : String) → rt.bind_text (str s) ≡ some (some s)
  pub none_as_null : rt.bind_text null ≡ some none

abbrev pub bound_id : Answer → Option String
bound_id (Answer.rejected m) = none
bound_id (Answer.error m) = none
bound_id (Answer.accepted id m) = some id

bound_id-binds :
    (rt : Runtime) → BindsTexts rt → (a : Answer) → rt.bind_text (id_for a) ≡ some (bound_id a)
bound_id-binds rt b (Answer.rejected m) = b.none_as_null
bound_id-binds rt b (Answer.error m) = b.none_as_null
bound_id-binds rt b (Answer.accepted id m) = b.text id

-- What an order's way up to the broker needs: a trusted request, a valid log that has neither of the
-- signal's two keys, and the decision for the order.
pub record IsReady (rt : Runtime) (times : Times) (webhook_id : String) (body : Option Json)
    (db : Db) (tenant : Tenant) (signal : TradingViewSignal) (order : OrderRequest) : Type 0 where
  pub trusted : IsTrusted rt webhook_id body db tenant signal
  pub valid : TradesValid db
  pub fresh : has_row tenant.id signal.signal_id db.trades ≡ false
  pub fresh_result : has_row tenant.id (signal.signal_id +s ":mt5") db.trades ≡ false
  pub placed : decision rt times tenant signal db ≡ place order

-- The result of an order whose reply did not come in time.
abbrev pub unanswered : String → OrderResult
unanswered tenant_id = record {
  broker = "mt5";
  status = OrderStatus.error;
  broker_order_id = null;
  message = str (timeout_message tenant_id);
  raw_response = null;
}

module _ (rt : Runtime) (times : Times) (webhook_id : String) (body : Option Json) (db : Db)
    (tenant : Tenant) (signal : TradingViewSignal) (order : OrderRequest)
    (ready : IsReady rt times webhook_id body db tenant signal order) (binds : BindsTexts rt) where
  -- The log with the dispatched reservation and the row of a result.
  abbrev pub logged_db : (status message : String) → Option String → OrderResult → Db
  logged_db status message order_id result =
      with_rows rt times tenant signal db
        (reservation rt times tenant signal db "dispatched" ("Routed to MT5: " +s status)
          ∷ result_of rt times tenant signal db order result message order_id
          ∷ [])
        (suc (suc db.next_id))

  answered :
      (broker : Tenant → OrderRequest → Action OrderResult) (result : OrderResult) (m : String)
      (o : Option String)
      → rt.bind_text result.message ≡ some (some m)
      → rt.bind_text result.broker_order_id ≡ some o
      → broker tenant order (reserved_db rt times tenant signal db)
        ≡ (ok result, reserved_db rt times tenant signal db)
      → tradingview_webhook rt times broker webhook_id body db
        ≡ (ok (signal.signal_id, result), logged_db (status_value result.status) m o result)
  answered broker result m o bm bo a =
      rw (trusted_signal rt times broker webhook_id body db tenant signal ready.trusted) (
        rw
          (placed_signal rt times tenant signal (broker tenant) db ready.fresh order result
            ready.placed a m o bm bo ready.valid ready.fresh_result)
          refl)

  abbrev IsNamed : Type 0
  IsNamed = nonempty order.mt5_symbol ≡ true

  named : IsNamed
  named =
      ((decide-place_iff tenant signal
          (check_risk rt times.checked times.pnl tenant signal
            (reserved_db rt times tenant signal db))
          order).0
        ready.placed).1.named

  abbrev brokers : Option Reply → (Db → Db) → Tenant → OrderRequest → Action OrderResult
  brokers ended meanwhile t = (relay_broker t.id ended meanwhile).place_order

  -- For a trusted request (a known hook, the tenant's passphrase and a valid signal), a valid log
  -- without rows of the signal's two keys, a decision for an order, and a driver that binds texts
  -- as they are and None as NULL: if the tenant has no connection, the webhook answers with the
  -- signal's id and an order rejected as offline, and the log has two rows more: the reservation
  -- as dispatched, and the rejection, with no broker order id.
  pub offline_alert :
      (request_id : String) (sent : Bool) (during : List Call) (m : Manager) (meanwhile : Db → Db)
      → get tenant.id m.connections ≡ none
      → tradingview_webhook rt times
          (brokers (send_request tenant.id request_id sent during m).0 meanwhile)
          webhook_id
          body
          db
        ≡ (
          ok (signal.signal_id, rejected_with (offline_message tenant.id)),
          logged_db "rejected"
              (offline_message tenant.id)
              none
              (rejected_with (offline_message tenant.id)),
        )
  unfolding send_request open_request relay_broker Relay.place_order
  offline_alert request_id sent during m meanwhile offline =
      answered (brokers (send_request tenant.id request_id sent during m).0 meanwhile)
        (rejected_with (offline_message tenant.id)) (offline_message tenant.id) none (binds.text _)
        binds.none_as_null (rw (offline, open_on) (rw named refl))

  -- For a trusted request (a known hook, the tenant's passphrase and a valid signal), a valid log
  -- without rows of the signal's two keys, a decision for an order, and a driver that binds texts
  -- as they are and None as NULL: if the tenant's agent is connected, gets the order's frame and
  -- answers it with a reply, which comes in on the socket after calls of other requests, and
  -- nothing else is written meanwhile, then the webhook answers with the signal's id and the
  -- terminal's outcome, which is one request of that order at most and an acceptance only for an
  -- order that the terminal reports done, and the log has two rows more: the reservation as
  -- dispatched, and the result with the agent's status, message and order number.
  pub delivered_alert :
      (mt5 : Terminal) (request_id : String) (m begun : Manager) (ws f : ℕ)
      → ManagerValid m
      → open_request tenant.id request_id m ≡ some (ws, f, begun)
      → (before after : List Call) → All (IsOther request_id f) before
      → (c c' : Mt5Client) (requests : List Mt5Request) (frame : Fields)
      → on_frame mt5 c (order_message request_id order) ≡ some (replied c' requests frame)
      → (answer : Answer) × Outcome mt5 (args_of order) answer requests
        × (tradingview_webhook rt times
              (brokers
                (send_request tenant.id request_id true
                  (before ++ resolves request_id frame ∷ after)
                  m).0
                (λ d. d))
              webhook_id
              body
              db
            ≡ (
              ok (signal.signal_id, result_for answer),
              logged_db
                  (status_value (status_for answer))
                  (message_for answer)
                  (bound_id answer)
                  (result_for answer),
            ))
  delivered_alert mt5 request_id m begun ws f v opened before after others c c' requests frame e =
      let (answer, outcome, resolved, result) =
        order_comes_back mt5 order request_id tenant.id m begun ws f v opened named before after
          others c c' requests frame e in
      (
        answer,
        outcome,
        answered _ (result_for answer) (message_for answer) (bound_id answer) (binds.text _)
            (bound_id-binds rt binds answer)
            (relay_broker-alone tenant.id _ order _
              ∙ ap (λ (x : Result OrderResult). (x, reserved_db rt times tenant signal db)) result),
      )

  timed_out_result :
      (reply : Option Reply)
      → reply ≡ some timed_out
      → Relay.place_order tenant.id order reply ≡ ok (unanswered tenant.id)
  unfolding Relay.place_order
  timed_out_result reply e = rw e (rw named refl)

  -- For a trusted request (a known hook, the tenant's passphrase and a valid signal), a valid log
  -- without rows of the signal's two keys, a decision for an order, and a driver that binds texts
  -- as they are and None as NULL: if the tenant's agent is connected and the frame is sent, but
  -- only calls about other requests come in up to the deadline, and nothing else is written
  -- meanwhile, then the webhook answers with the signal's id and an order that ended in an error,
  -- as not answered in time, and the log has two rows more: the reservation as dispatched, and the
  -- error, with no broker order id.
  pub unanswered_alert :
      (request_id : String) (m begun : Manager) (ws f : ℕ)
      → ManagerValid m
      → open_request tenant.id request_id m ≡ some (ws, f, begun)
      → (during : List Call) → All (IsOther request_id f) during
      → tradingview_webhook rt times
          (brokers (send_request tenant.id request_id true during m).0 (λ d. d))
          webhook_id
          body
          db
        ≡ (
          ok (signal.signal_id, (unanswered tenant.id)),
          logged_db "error" (timeout_message tenant.id) none (unanswered tenant.id),
        )
  unanswered_alert request_id m begun ws f v opened during others =
      let ended : (send_request tenant.id request_id true during m).0 ≡ some timed_out =
        (send_request-replies tenant.id request_id m begun ws f opened v during [] end others).0 in
      answered _ (unanswered tenant.id) (timeout_message tenant.id) none (binds.text _)
        binds.none_as_null
        (relay_broker-alone tenant.id _ order _
          ∙ ap (λ (x : Result OrderResult). (x, reserved_db rt times tenant signal db))
              (timed_out_result _ ended))
