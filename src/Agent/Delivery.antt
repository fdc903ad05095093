-- ===== src/Agent/Delivery.antt =====
-- An order from the relay to the terminal, and the answer back: app/ws/relay_broker.py, the frames
-- over the socket, and bridge_agent/agent.py.
use mathlib.Core.Path.{subst, sym, ◌∙◌}
use dataveda_nifty_agent.Prelude.{
  ℕ, String, ◌≡◌, refl, true, Option, none, some, List, ◌∷◌, ◌++◌, All,
}
use dataveda_nifty_agent.Python.Json.{null, str, obj, Fields, get_field}
use dataveda_nifty_agent.Python.Text.{nonempty}
use dataveda_nifty_agent.Models.Order.{OrderRequest, OrderResult}
use dataveda_nifty_agent.Storage.Action.{ok}
use dataveda_nifty_agent.Ws.Manager.{Manager, open_request, resolve}
use dataveda_nifty_agent.Ws.Manager.Requests.{ManagerValid, Call, resolves}
use dataveda_nifty_agent.Ws.Manager.Correlation.{IsOther}
use dataveda_nifty_agent.Ws.Manager.SendRequest.{send_request, send_request-replies}
use dataveda_nifty_agent.Ws.Relay
use dataveda_nifty_agent.Ws.Relay.{order_message, read_reply}
use dataveda_nifty_agent.Api.Sessions.{on_message}
use dataveda_nifty_agent.Agent.Client.{Terminal, Mt5Client, Mt5Request, Answer, place_order}
use dataveda_nifty_agent.Agent.Frames.{reply_frame, Handled, ignored, replied, crashed, on_frame}
use dataveda_nifty_agent.Agent.Requests.{Outcome, place_order-Outcome}
use dataveda_nifty_agent.Agent.Exchange.{
  args_of, status_for, id_for, message_for, read_reply-reply_frame, on_frame-order_message,
}

-- The result of an order that the agent answered so.
abbrev pub result_for : Answer → OrderResult
result_for answer = record {
  broker = "mt5";
  status = status_for answer;
  broker_order_id = id_for answer;
  message = str (message_for answer);
  raw_response = null;
}

on_message-reply_frame :
    (r : String) (answer : Answer) (m : Manager)
    → on_message (obj (reply_frame (str r) answer)) m
      ≡ some (resolve r (reply_frame (str r) answer) m)
unfolding on_message reply_frame get_field
on_message-reply_frame r answer m = refl

module _ (mt5 : Terminal) (order : OrderRequest) (request_id : String) where
  -- What the agent's reply says: what became of the order, in a frame that the server resolves the
  -- request with and that the relay reads as that answer's result.
  abbrev pub Reports : List Mt5Request → Fields → Type 0
  Reports requests frame =
      (answer : Answer) × Outcome mt5 (args_of order) answer requests
      × (read_reply frame ≡ ok (result_for answer))
      × ((m : Manager) → on_message (obj frame) m ≡ some (resolve request_id frame m))

  abbrev HandledWell : Option Handled → Type 0
  HandledWell none = Unit
  HandledWell (some ignored) = Unit
  HandledWell (some (crashed requests)) = Unit
  HandledWell (some (replied c requests frame)) = Reports requests frame

  abbrev to_handled : Option (Mt5Client × Answer × List Mt5Request) → Option Handled
  to_handled none = none
  to_handled (some (c, answer, requests)) =
      some (replied c requests (reply_frame (str request_id) answer))

  placed-HandledWell :
      (c : Mt5Client) (o : Option (Mt5Client × Answer × List Mt5Request))
      → place_order mt5 (args_of order) c ≡ o
      → HandledWell (to_handled o)
  placed-HandledWell c none e = tt
  placed-HandledWell c (some (c', answer, requests)) e = (
    answer,
    place_order-Outcome mt5 (args_of order) c c' answer requests e,
    read_reply-reply_frame (str request_id) answer,
    on_message-reply_frame request_id answer,
  )

  on_frame-Reports :
      (c c' : Mt5Client) (requests : List Mt5Request) (frame : Fields)
      → on_frame mt5 c (order_message request_id order) ≡ some (replied c' requests frame)
      → Reports requests frame
  on_frame-Reports c c' requests frame e =
      subst HandledWell (sym (on_frame-order_message mt5 c request_id order) ∙ e)
        (placed-HandledWell c (place_order mt5 (args_of order) c) refl)

  -- For a valid manager, a connected tenant, an order with a symbol and an agent that replies to
  -- the order's frame: the reply tells an answer, the agent sent the terminal no request and did
  -- not accept, or sent the one request of this order and accepted only with the number of a
  -- request reported done; the server resolves the request with the reply, and if the reply comes
  -- after calls about other requests only, the relay's result is that answer's, whatever calls
  -- follow.
  pub order_comes_back :
      (tenant_id : String) (m begun : Manager) (ws f : ℕ)
      → ManagerValid m
      → open_request tenant_id request_id m ≡ some (ws, f, begun)
      → nonempty order.mt5_symbol ≡ true
      → (before after : List Call) → All (IsOther request_id f) before
      → (c c' : Mt5Client) (requests : List Mt5Request) (frame : Fields)
      → on_frame mt5 c (order_message request_id order) ≡ some (replied c' requests frame)
      → (answer : Answer) × Outcome mt5 (args_of order) answer requests
        × ((m' : Manager) → on_message (obj frame) m' ≡ some (resolve request_id frame m'))
        × (Relay.place_order tenant_id order
              (send_request tenant_id request_id true
                (before ++ resolves request_id frame ∷ after)
                m).0
            ≡ ok (result_for answer))
  unfolding Relay.place_order
  order_comes_back tenant_id m begun ws f v opened named before after others c c' requests frame e =
      let (answer, outcome, read, resolved) = on_frame-Reports c c' requests frame e in
      let replies =
        send_request-replies tenant_id request_id m begun ws f opened v before after frame others in
      (answer, outcome, resolved, rw (replies.1) (rw named (rw read refl)))
