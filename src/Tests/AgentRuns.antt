-- ===== src/Tests/AgentRuns.antt =====
-- Orders at the agent.
use dataveda_nifty_agent.Agent.Client.{
  Answer, prepare, ensure_init, Terminal, Mt5Client, Mt5Request, TradeAction, Mt5OrderType,
  accepted, place_order,
}
use dataveda_nifty_agent.Prelude.{◌≡◌, refl, true, false, some, none, [], ◌∷◌, ◌++◌}
use dataveda_nifty_agent.Python.Float.{finite, pos}
use dataveda_nifty_agent.Python.Json.{str, obj, get_field}
use dataveda_nifty_agent.Storage.Action.{ok}
use dataveda_nifty_agent.Ws.Relay.{order_message, read_reply}
use dataveda_nifty_agent.Agent.Frames.{reply_frame, on_frame}
use dataveda_nifty_agent.Agent.Requests.{Outcome}
use dataveda_nifty_agent.Agent.Exchange.{args_of}
use dataveda_nifty_agent.Python.Dict.{get, put}
use dataveda_nifty_agent.Ws.Relay
use dataveda_nifty_agent.Ws.Manager.{Manager, open_request, resolve}
use dataveda_nifty_agent.Ws.Manager.Requests.{opens, resolves}
use dataveda_nifty_agent.Ws.Manager.SendRequest.{send_request}
use dataveda_nifty_agent.Api.Sessions.{on_message}
use dataveda_nifty_agent.Agent.Delivery.{result_for, order_comes_back}
use dataveda_nifty_agent.Tests.Data.{order, online, begun, online-ManagerValid}

-- A terminal that takes every order as number 7.
abbrev pub terminal : Terminal
terminal = record {
  initialize = λ args. true;
  symbol_select = λ s. true;
  symbol_info_tick = λ s. some (record { ask = finite (pos 9); bid = finite (pos 8) });
  order_send = λ r. some (record { retcode = 10009; order = "7"; comment = "done" });
  done = 10009;
  last_error = "";
  show_code = λ n. "code";
  to_int = λ s. none;
}

abbrev pub client : Mt5Client
client = record { login = ""; password = ""; server = ""; terminal_path = ""; initialized = false }

abbrev pub started : Mt5Client
started = record client { initialized = true }

abbrev pub request : Mt5Request
request = record {
  symbol = "EURUSD.m";
  volume = finite (pos 3);
  deviation = 20;
  magic = 100001;
  comment = "dataveda-bridge-agent";
  action = TradeAction.deal;
  type = Mt5OrderType.buy;
  price = finite (pos 9);
  sl = none;
  tp = none;
}

order_comes_back_example :
    (answer : Answer) × Outcome terminal (args_of order) answer (request ∷ [])
    × ((m : Manager)
        → on_message (obj (reply_frame (str "q1") (accepted "7" "done"))) m
          ≡ some (resolve "q1" (reply_frame (str "q1") (accepted "7" "done")) m))
    × (Relay.place_order "ten_1" order
          (send_request "ten_1" "q1" true
            ((opens "ten_1" "q2" ∷ [])
              ++ resolves "q1" (reply_frame (str "q1") (accepted "7" "done")) ∷ [])
            online).0
        ≡ ok (result_for answer))
unfolding open_request get put on_frame order_message get_field place_order ensure_init prepare
order_comes_back_example =
    order_comes_back terminal order "q1" "ten_1" online begun 4 0 online-ManagerValid refl refl
      (opens "ten_1" "q2" ∷ []) [] (refl, tt) client started (request ∷ [])
      (reply_frame (str "q1") (accepted "7" "done")) refl
