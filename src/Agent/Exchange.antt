-- ===== src/Agent/Exchange.antt =====
-- The frames between app/ws/relay_broker.py and bridge_agent/agent.py.
use dataveda_nifty_agent.Prelude.{
  inl, inr, Option-cases, String, ◌≡◌, refl, Bool, true, false, none, some, arith, str_eq,
}
use dataveda_nifty_agent.Python.Json.{Json, null, str, get_field}
use dataveda_nifty_agent.Models.Signal.{order_type_value}
use dataveda_nifty_agent.Models.Order.{OrderSide, OrderStatus, OrderRequest, side_value}
use dataveda_nifty_agent.Storage.Action.{ok}
use dataveda_nifty_agent.Ws.Relay.{order_message, read_reply, read_status, status_of}
use dataveda_nifty_agent.Agent.Client.{
  Terminal, Mt5Client, OrderArgs, Answer, rejected, error, accepted, place_order,
}
use dataveda_nifty_agent.Agent.Frames.{read_order, reply_frame, replied, on_frame}

abbrev is_buy : OrderSide → Bool
is_buy OrderSide.buy = true
is_buy OrderSide.sell = false

side_is_buy : (s : OrderSide) → str_eq (side_value s) "buy" ≡ is_buy s
side_is_buy OrderSide.buy = refl
side_is_buy OrderSide.sell = refl

-- The arguments that an order has at the agent.
abbrev pub args_of : OrderRequest → OrderArgs
args_of order = record {
  symbol = order.mt5_symbol;
  is_buy = is_buy order.side;
  quantity = order.quantity;
  order_type = order_type_value order.order_type;
  price = order.price;
  sl = order.stop_loss;
  tp = order.take_profit;
}

-- What the server makes of the agent's answer.
abbrev pub status_for : Answer → OrderStatus
status_for (rejected m) = OrderStatus.rejected
status_for (error m) = OrderStatus.error
status_for (accepted id m) = OrderStatus.accepted

abbrev pub id_for : Answer → Json
id_for (rejected m) = null
id_for (error m) = null
id_for (accepted id m) = str id

abbrev pub message_for : Answer → String
message_for (rejected m) = m
message_for (error m) = m
message_for (accepted id m) = m

-- The agent reads from the frame that the relay writes the order's symbol, side, quantity, type,
-- price and stops.
pub read_order-order_message :
    (request_id : String) (order : OrderRequest)
    → read_order (order_message request_id order) ≡ some (args_of order)
unfolding read_order order_message get_field
read_order-order_message request_id order = ground (arith, side_is_buy order.side)

-- The relay reads from the agent's reply the status, the order number and the message of the
-- agent's answer, with null for a number that the answer does not have.
pub read_reply-reply_frame :
    (request_id : Json) (answer : Answer)
    → read_reply (reply_frame request_id answer)
      ≡ ok (record {
        broker = "mt5";
        status = status_for answer;
        broker_order_id = id_for answer;
        message = str (message_for answer);
        raw_response = null;
      })
unfolding read_reply reply_frame get_field read_status status_of
read_reply-reply_frame request_id (rejected m) = ground arith
read_reply-reply_frame request_id (error m) = ground arith
read_reply-reply_frame request_id (accepted id m) = ground arith

-- The relay's frame makes the agent place that order once and reply with its answer under the
-- request's id; the agent raises exactly where placing the order does.
pub on_frame-order_message :
    (mt5 : Terminal) (c : Mt5Client) (request_id : String) (order : OrderRequest)
    → on_frame mt5 c (order_message request_id order) ≡ (elim (place_order mt5 (args_of order) c) [
      | none ↦ none
      | some (c', answer, requests) ↦
          some (replied c' requests (reply_frame (str request_id) answer))
    ])
unfolding on_frame order_message get_field
on_frame-order_message mt5 c request_id order =
    elim (Option-cases (place_order mt5 (args_of order) c)) [
      | inl e ↦ rw (read_order-order_message request_id order) (rw e refl)
      | inr (x, e) ↦ rw (read_order-order_message request_id order) (rw e refl)
    ]
