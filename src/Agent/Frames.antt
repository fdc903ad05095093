-- ===== src/Agent/Frames.antt =====
-- bridge_agent/agent.py: the JSON frames of `run`, from an order message to `order_result`. Python
-- passes a field of any type on to the MetaTrader5 package; here a frame whose fields are not of the
-- types that the server writes is `none`, as a missing key is.
use dataveda_nifty_agent.Prelude.{
  String, Bool, false, Option, none, some, List, str_eq, if◌then◌else◌,
}
use dataveda_nifty_agent.Python.Float.{Float}
use dataveda_nifty_agent.Python.Json.{Json, null, float, str, Fields, end, field, get_field}
use dataveda_nifty_agent.Agent.Client.{
  OrderArgs, Answer, rejected, error, accepted, Terminal, Mt5Client, Mt5Request, place_order,
}

abbrev as_str : Option Json → Option String
as_str (some (str s)) = some s
as_str _ = none

-- side == "buy": a value of another type is not equal to a text.
abbrev is_buy_side : Json → Bool
is_buy_side (str s) = str_eq s "buy"
is_buy_side _ = false

abbrev as_number : Option Json → Option Float
as_number (some (float x)) = some x
as_number _ = none

-- message.get(key): a number, or None
abbrev as_optional : Option Json → Option (Option Float)
as_optional none = some none
as_optional (some null) = some none
as_optional (some (float x)) = some (some x)
as_optional _ = none

-- message.get("order_type", "market")
abbrev or_market : Option Json → Option String
or_market none = some "market"
or_market (some (str s)) = some s
or_market _ = none

infixl 5 ◌>>=◌
abbrev ◌>>=◌ : {A B : Type 0} → Option A → (A → Option B) → Option B
none >>= f = none
some a >>= f = f a

unfoldable pub read_order : Fields → Option OrderArgs
read_order message = do
  symbol ← as_str (get_field "symbol" message)
  side ← get_field "side" message
  quantity ← as_number (get_field "quantity" message)
  order_type ← or_market (get_field "order_type" message)
  price ← as_optional (get_field "price" message)
  sl ← as_optional (get_field "stop_loss" message)
  tp ← as_optional (get_field "take_profit" message)
  some (record {
    symbol = symbol;
    is_buy = is_buy_side side;
    quantity = quantity;
    order_type = order_type;
    price = price;
    sl = sl;
    tp = tp;
  })

abbrev answer_fields : Answer → Fields
answer_fields (rejected message) =
    field "status" (str "rejected") (field "message" (str message) end)
answer_fields (error message) = field "status" (str "error") (field "message" (str message) end)
answer_fields (accepted order_id message) =
    field "status" (str "accepted")
      (field "order_id" (str order_id) (field "message" (str message) end))

-- {"type": "order_result", "request_id": request_id, **result}
unfoldable pub reply_frame : Json → Answer → Fields
reply_frame request_id answer =
    field "type" (str "order_result") (field "request_id" request_id (answer_fields answer))

-- What a frame makes the agent do: nothing, or a reply after some requests to the terminal.
pub data Handled : Type 0 where
  ignored : Handled
  replied : Mt5Client → List Mt5Request → Fields → Handled
  -- a KeyError of the request id, after the requests to the terminal
  crashed : List Mt5Request → Handled

abbrev pub reply_to : Option Json → Option (Mt5Client × Answer × List Mt5Request) → Option Handled
reply_to none none = none
reply_to none (some (c, answer, requests)) = some (crashed requests)
reply_to (some request_id) none = none
reply_to (some request_id) (some (c, answer, requests)) =
    some (replied c requests (reply_frame request_id answer))

abbrev pub is_place_order : Option Json → Bool
is_place_order (some (str s)) = str_eq s "place_order"
is_place_order _ = false

-- One round of `async for raw in ws`; `none` is an exception that the loop does not catch, before any
-- request to the terminal.
unfoldable pub on_frame : Terminal → Mt5Client → Fields → Option Handled
unfolding read_order reply_frame
on_frame mt5 c message =
    if is_place_order (get_field "type" message)
    then (do
      args ← read_order message
      reply_to (get_field "request_id" message) (place_order mt5 args c))
    else some ignored
