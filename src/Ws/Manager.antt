-- ===== src/Ws/Manager.antt =====
-- app/ws/manager.py: `ConnectionManager`. A socket and a future are objects, named by numbers: the
-- futures stand in a list in the order of their creation, as several names may reach one of them.
pub mod Requests
pub mod Correlation
pub mod SendRequest
use dataveda_nifty_agent.Prelude.{
  ℕ, String, ◌+s◌, Bool, true, false, Option, none, some, List, [], ◌∷◌, ◌++◌, length, get_elem?,
  set,
}
use dataveda_nifty_agent.Python.Json.{Fields}
use dataveda_nifty_agent.Python.Dict.{Dict, get, put, pop}

pub data Future : Type 0 where
  waiting cancelled : Future
  finished : Fields → Future

pub record Manager : Type 0 where
  pub connections : Dict ℕ
  pub pending : Dict ℕ
  pub futures : List Future

abbrev pub new_manager : Manager
new_manager = record { connections = []; pending = []; futures = [] }

-- The new socket takes the place of the tenant's old one.
unfoldable pub connect : String → ℕ → Manager → Manager
connect tenant_id websocket m = record m { connections = put tenant_id websocket m.connections }

unfoldable pub disconnect : String → Manager → Manager
disconnect tenant_id m = record m { connections = pop tenant_id m.connections }

unfoldable pub is_connected : String → Manager → Bool
is_connected tenant_id m = elim (get tenant_id m.connections) [ none ↦ false | some _ ↦ true ]

-- The pending entry and the future of a new request, where the tenant has a socket.
abbrev pub open_on : String → Manager → Option ℕ → Option (ℕ × ℕ × Manager)
open_on request_id m none = none
open_on request_id m (some websocket) = some (
  websocket,
  length m.futures,
  record m {
    pending = put request_id (length m.futures) m.pending;
    futures = m.futures ++ waiting ∷ [];
  },
)

-- The part of `send_request` before its first `await`: the socket to send on, and the request's
-- future. `none` is BridgeOfflineError.
unfoldable pub open_request : String → String → Manager → Option (ℕ × ℕ × Manager)
open_request tenant_id request_id m = open_on request_id m (get tenant_id m.connections)

-- set_result, unless the future is done.
unfoldable pub set_result : Fields → Option Future → Future
set_result result none = waiting
set_result result (some waiting) = finished result
set_result result (some cancelled) = cancelled
set_result result (some (finished r)) = finished r

abbrev pub resolve_at : Fields → Manager → Option ℕ → Manager
resolve_at result m none = m
resolve_at result m (some f) = record m {
  futures = set m.futures f (set_result result (get_elem? m.futures f));
}

unfoldable pub resolve : String → Fields → Manager → Manager
resolve request_id result m = resolve_at result m (get request_id m.pending)

-- What ends the wait of a request: the future's result, the deadline, or an error of `send_json`.
pub data Reply : Type 0 where
  replied : Fields → Reply
  timed_out : Reply
  send_failed : Reply

-- A future's result is what the wait gives, whatever else has happened; one that is not done goes on
-- waiting (`none`) until the deadline.
abbrev pub result_of : Option Future → Option Fields
result_of none = none
result_of (some waiting) = none
result_of (some cancelled) = none
result_of (some (finished r)) = some r

unfoldable pub poll : ℕ → Manager → Option Fields
poll f m = result_of (get_elem? m.futures f)

-- The deadline cancels a future that is not done.
unfoldable pub cancel : Option Future → Future
cancel none = waiting
cancel (some waiting) = cancelled
cancel (some cancelled) = cancelled
cancel (some (finished r)) = finished r

unfoldable pub expire : ℕ → Manager → Manager
expire f m = record m { futures = set m.futures f (cancel (get_elem? m.futures f)) }

-- The `finally` of `send_request`.
unfoldable pub close_request : String → Manager → Manager
close_request request_id m = record m { pending = pop request_id m.pending }

abbrev pub offline_message : String → String
offline_message tenant_id = "No bridge agent connected for tenant " +s tenant_id

abbrev pub timeout_message : String → String
timeout_message tenant_id = "Bridge agent for tenant " +s tenant_id +s " did not respond in time"
