-- ===== src/Ws/Relay.antt =====
-- app/ws/relay_broker.py: `WSRelayBroker`, which sends an order to the agent as one JSON frame and
-- reads the agent's reply.
pub mod Broker
use dataveda_nifty_agent.Prelude.{String, ◌+s◌, Option, none, some, str_eq, if◌then◌else◌}
use dataveda_nifty_agent.Python.Float.{Float}
use dataveda_nifty_agent.Python.Json.{
  Json, null, float, str, arr, obj, Fields, end, field, get_field,
}
use dataveda_nifty_agent.Python.Text.{nonempty}
use dataveda_nifty_agent.Models.Signal.{order_type_value}
use dataveda_nifty_agent.Models.Order.{
  OrderStatus, accepted, rejected, error, OrderRequest, OrderResult, side_value,
}
use dataveda_nifty_agent.Storage.Action.{Result, ok, raised, broker_failed}
use dataveda_nifty_agent.Ws.Manager.{
  Reply, replied, timed_out, send_failed, offline_message, timeout_message,
}

abbrev optional : Option Float → Json
optional none = null
optional (some x) = float x

-- The frame; `request_id` is the text of a fresh uuid4.
unfoldable pub order_message : String → OrderRequest → Fields
order_message request_id order = field "type" (str "place_order") (
    field "request_id" (str request_id) (
      field "symbol" (str order.mt5_symbol) (
        field "side" (str (side_value order.side)) (
          field "quantity" (float order.quantity) (
            field "order_type" (str (order_type_value order.order_type)) (
              field "price" (optional order.price) (
                field "stop_loss" (optional order.stop_loss)
                  (field "take_profit" (optional order.take_profit) end))))))))

-- _STATUS_MAP
unfoldable pub status_of : String → OrderStatus
status_of s =
    if str_eq s "accepted" then accepted else if str_eq s "rejected" then rejected else error

-- _STATUS_MAP.get(status, ERROR): a list or an object is no key, which raises TypeError.
unfoldable pub read_status : Option Json → Result OrderStatus
unfolding status_of
read_status (some (str s)) = ok (status_of s)
read_status (some (arr xs)) = raised broker_failed
read_status (some (obj fs)) = raised broker_failed
read_status _ = ok error

abbrev or_null : Option Json → Json
or_null none = null
or_null (some v) = v

abbrev or_empty : Option Json → Json
or_empty none = str ""
or_empty (some v) = v

abbrev answer : OrderStatus → Json → Json → Json → OrderResult
answer status order_id message raw = record {
  broker = "mt5";
  status = status;
  broker_order_id = order_id;
  message = message;
  raw_response = raw;
}

unfoldable pub read_reply : Fields → Result OrderResult
unfolding read_status
read_reply result = elim (read_status (get_field "status" result)) [
  | raised e ↦ raised e
  | ok status ↦ ok (
      answer status (or_null (get_field "order_id" result)) (or_empty (get_field "message" result))
        (or_null (get_field "raw" result)))
]

-- `place_order`, given how `send_request` ended: `none` is BridgeOfflineError.
unfoldable pub place_order : String → OrderRequest → Option Reply → Result OrderResult
unfolding read_reply
place_order tenant_id order reply =
    if nonempty order.mt5_symbol
    then elim reply [
      | none ↦ ok (answer rejected null (str (offline_message tenant_id)) null)
      | some r ↦ elim r [
        | timed_out ↦ ok (answer error null (str (timeout_message tenant_id)) null)
        | send_failed ↦ raised broker_failed
        | replied result ↦ read_reply result
      ]
    ]
    else ok (answer rejected null (str ("No MT5 symbol mapped for " +s order.symbol)) null)
