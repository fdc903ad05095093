-- ===== src/Agent/Client.antt =====
-- bridge_agent/agent.py: `MT5Client`. The MetaTrader5 package is a parameter: what its calls answer.
use dataveda_nifty_agent.Prelude.{
  ℕ, String, ◌+s◌, Bool, true, Option, none, some, List, [], ◌∷◌, ◌==◌, str_eq, if◌then◌else◌,
}
use dataveda_nifty_agent.Python.Float.{ℤ, Float, truthy}
use dataveda_nifty_agent.Python.Text.{nonempty}

-- TRADE_ACTION_* and ORDER_TYPE_*
pub data TradeAction : Type 0 where
  deal pending : TradeAction

pub data Mt5OrderType : Type 0 where
  buy sell buy_limit sell_limit : Mt5OrderType

-- The dict `request`. `type_time` is ORDER_TIME_GTC and `type_filling` ORDER_FILLING_IOC in each.
pub record Mt5Request : Type 0 where
  pub symbol : String
  pub volume : Float
  pub deviation : ℕ
  pub magic : ℕ
  pub comment : String
  pub action : TradeAction
  pub type : Mt5OrderType
  pub price : Float
  pub sl : Option Float
  pub tp : Option Float

pub record Tick : Type 0 where
  pub ask : Float
  pub bid : Float

pub record SendResult : Type 0 where
  pub retcode : ℕ
  pub order : String
  pub comment : String

-- The keyword arguments of initialize().
pub record InitArgs : Type 0 where
  pub path : Option String
  pub account : Option (ℤ × String × String)

-- The package and the terminal behind it while one message is handled, in which each of its calls is
-- made once at most. `done` is TRADE_RETCODE_DONE, `last_error` the text of
-- last_error(), `to_int` is int(text), `none` where it raises.
pub record Terminal : Type 0 where
  pub initialize : InitArgs → Bool
  pub symbol_select : String → Bool
  pub symbol_info_tick : String → Option Tick
  pub order_send : Mt5Request → Option SendResult
  pub done : ℕ
  pub last_error : String
  pub show_code : ℕ → String
  pub to_int : String → Option ℤ

pub record Mt5Client : Type 0 where
  pub login : String
  pub password : String
  pub server : String
  pub terminal_path : String
  pub initialized : Bool

pub record OrderArgs : Type 0 where
  pub symbol : String
  pub is_buy : Bool
  pub quantity : Float
  pub order_type : String
  pub price : Option Float
  pub sl : Option Float
  pub tp : Option Float

-- The dict that `place_order` returns.
pub data Answer : Type 0 where
  rejected : (message : String) → Answer
  error : (message : String) → Answer
  accepted : (order_id message : String) → Answer

abbrev when_given : String → Option String
when_given s = if nonempty s then some s else none

abbrev account_args : Mt5Client → Option ℤ → Option InitArgs
account_args c none = none
account_args c (some login) =
    some
      (record { path = when_given c.terminal_path; account = some (login, c.password, c.server) })

-- `none` is the ValueError of int(self.login).
unfoldable pub init_args : Terminal → Mt5Client → Option InitArgs
init_args mt5 c =
    if nonempty c.login
    then account_args c (mt5.to_int c.login)
    else some (record { path = when_given c.terminal_path; account = none })

abbrev initialized_by : Terminal → Mt5Client → Option InitArgs → Option Mt5Client
initialized_by mt5 c none = none
initialized_by mt5 c (some args) =
    if mt5.initialize args then some (record c { initialized = true }) else none

-- _ensure_init; `none` is an exception.
unfoldable pub ensure_init : Terminal → Mt5Client → Option Mt5Client
unfolding init_args
ensure_init mt5 c = if c.initialized then some c else initialized_by mt5 c (init_args mt5 c)

-- `if sl: request["sl"] = sl`
abbrev pub when_truthy : Option Float → Option Float
when_truthy none = none
when_truthy (some x) = if truthy x then some x else none

abbrev side_type : Bool → Mt5OrderType → Mt5OrderType → Mt5OrderType
side_type is_buy b s = if is_buy then b else s

abbrev request_of : OrderArgs → TradeAction → Mt5OrderType → Float → Mt5Request
request_of a action type price = record {
  symbol = a.symbol;
  volume = a.quantity;
  deviation = 20;
  magic = 100001;
  comment = "dataveda-bridge-agent";
  action = action;
  type = type;
  price = price;
  sl = when_truthy a.sl;
  tp = when_truthy a.tp;
}

-- The request, or the rejection of an order that has none.
pub data Prepared : Type 0 where
  refused : Answer → Prepared
  ready : Mt5Request → Prepared

abbrev market_request : OrderArgs → Option Tick → Prepared
market_request a none = refused (rejected ("no tick data for " +s a.symbol))
market_request a (some tick) =
    ready
      (request_of a deal (side_type a.is_buy buy sell) (if a.is_buy then tick.ask else tick.bid))

abbrev limit_request : OrderArgs → Option Float → Prepared
limit_request a none = refused (rejected "price required for limit orders")
limit_request a (some price) =
    ready (request_of a pending (side_type a.is_buy buy_limit sell_limit) price)

module _ (mt5 : Terminal) where
  unfoldable pub prepare : OrderArgs → Prepared
  prepare a =
      if mt5.symbol_select a.symbol
      then if str_eq a.order_type "market"
        then market_request a (mt5.symbol_info_tick a.symbol)
        else limit_request a a.price
      else refused (rejected ("symbol_select failed for " +s a.symbol +s ": " +s mt5.last_error))

  abbrev pub read_result : Option SendResult → Answer
  read_result none = error ("order_send returned None: " +s mt5.last_error)
  read_result (some r) =
      if r.retcode == mt5.done
      then accepted r.order r.comment
      else rejected ("retcode=" +s mt5.show_code r.retcode +s " comment=" +s r.comment)

  -- The answer, and the requests that went to order_send.
  abbrev pub send : Prepared → Answer × List Mt5Request
  send (refused answer) = (answer, [])
  send (ready request) = (read_result (mt5.order_send request), request ∷ [])

  abbrev pub placed : OrderArgs → Option Mt5Client → Option (Mt5Client × Answer × List Mt5Request)
  placed a none = none
  placed a (some c) = let (answer, requests) = send (prepare a) in some (c, answer, requests)

  -- `none` is an exception of _ensure_init.
  unfoldable pub place_order : OrderArgs → Mt5Client → Option (Mt5Client × Answer × List Mt5Request)
  place_order a c = placed a (ensure_init mt5 c)
