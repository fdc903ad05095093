-- ===== src/Tests/LoopRuns.antt =====
-- The agent's loop, over a lost connection and an order.
use dataveda_nifty_agent.Prelude.{◌≡◌, refl, true, false, some, List, [], ◌∷◌, ◌++◌, map}
use dataveda_nifty_agent.Python.Json.{str, obj, get_field}
use dataveda_nifty_agent.Ws.Relay.{order_message}
use dataveda_nifty_agent.Agent.Client.{accepted, place_order, ensure_init, prepare}
use dataveda_nifty_agent.Agent.Frames.{reply_frame, on_frame}
use dataveda_nifty_agent.Agent.Loop.{Event, connected, lost, closed, first_backoff, delays}
use dataveda_nifty_agent.Agent.Run.{
  Happening, event, frame, reply, sleep, running, asks, run, start,
}
use dataveda_nifty_agent.Agent.Reconnect.{outage, comes_back}
use dataveda_nifty_agent.Agent.Orders.{Matches, requests_of, received, run-Matches}
use dataveda_nifty_agent.Tests.Data.{order}
use dataveda_nifty_agent.Tests.AgentRuns.{terminal, client, started, request}

abbrev down : List Event
down = connected ∷ lost ∷ lost ∷ closed ∷ lost ∷ []

comes_back_example : run (start client) (outage terminal client down (order_message "q1" order)) ≡ (
  running started first_backoff,
  map sleep (delays first_backoff down)
      ++ asks (request ∷ [])
      ++ reply (reply_frame (str "q1") (accepted "7" "done")) ∷ [],
)
unfolding on_frame order_message get_field place_order ensure_init prepare
comes_back_example =
    comes_back terminal client first_backoff down (order_message "q1" order)
      (reply_frame (str "q1") (accepted "7" "done")) started (request ∷ []) refl

-- The connection is lost before the reply gets out, and the server sends the order again.
abbrev twice : List Happening
twice =
    event connected
    ∷ frame terminal (some (obj (order_message "q1" order))) false
    ∷ event connected
    ∷ frame terminal (some (obj (order_message "q2" order))) true
    ∷ []

run-Matches_example : Matches (requests_of (run (start client) twice).1) (received twice)
run-Matches_example = run-Matches (start client) twice
