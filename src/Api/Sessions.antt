-- ===== src/Api/Sessions.antt =====
-- app/main.py: WS /agent/ws, the sessions of the bridge agents on the shared `ConnectionManager`.
pub mod Registry
use dataveda_nifty_agent.Prelude.{
  ℕ, String, Bool, true, false, ◌&&◌, not, Option, none, some, List, [], ◌∷◌, keep, ◌==◌, str_eq,
  if◌then◌else◌,
}
use dataveda_nifty_agent.Python.Json.{
  Json, null, boolean, int, float, str, arr, obj, Fields, get_field,
}
use dataveda_nifty_agent.Runtime.{Runtime}
use dataveda_nifty_agent.Storage.Models.{Tenant}
use dataveda_nifty_agent.Storage.Action.{Action, pure, ◌>>=◌}
use dataveda_nifty_agent.Storage.Tenants.{get_tenant_by_agent_token}
use dataveda_nifty_agent.Ws.Manager.{Manager, connect, disconnect, resolve}

-- The sockets whose handler runs, each with its tenant.
pub record Hub : Type 0 where
  pub manager : Manager
  pub sockets : List (ℕ × String)

-- A tenant's agent got in: the socket is registered.
unfoldable pub join : ℕ → String → Hub → Hub
join websocket tenant_id hub = record {
  manager = connect tenant_id websocket hub.manager;
  sockets = (websocket, tenant_id) ∷ hub.sockets;
}

-- The first part of a handler: whom the token finds, and the code that the socket is closed with.
abbrev let_in : ℕ → Hub → Option Tenant → Hub × Option ℕ
let_in websocket hub none = (hub, some 1008)
let_in websocket hub (some tenant) = (join websocket tenant.id hub, none)

unfoldable pub agent_ws : Runtime → ℕ → (token : String) → Hub → Action (Hub × Option ℕ)
agent_ws rt websocket token hub = do
  found ← get_tenant_by_agent_token rt token
  pure (let_in websocket hub found)

abbrev pub is_session : ℕ → String → ℕ × String → Bool
is_session websocket tenant_id (w, t) = w == websocket && str_eq t tenant_id

-- The handler's `finally`, as the socket disconnects or a message raises.
unfoldable pub leave : ℕ → String → Hub → Hub
leave websocket tenant_id hub = record {
  manager = disconnect tenant_id hub.manager;
  sockets = keep (λ session. not (is_session websocket tenant_id session)) hub.sockets;
}

abbrev is_order_result : Option Json → Bool
is_order_result (some (str s)) = str_eq s "order_result"
is_order_result _ = false

-- manager.resolve(message["request_id"], message); `none` is a KeyError, or a TypeError at a key that
-- has no hash.
abbrev pub resolve_message : Fields → Option Json → Manager → Option Manager
resolve_message fields none m = none
resolve_message fields (some (str request_id)) m = some (resolve request_id fields m)
resolve_message fields (some (arr xs)) m = none
resolve_message fields (some (obj fs)) m = none
resolve_message fields (some other) m = some m

-- One message of the loop; `none` is an exception, which ends the session.
unfoldable pub on_message : Json → Manager → Option Manager
on_message (obj fields) m =
    if is_order_result (get_field "type" fields)
    then resolve_message fields (get_field "request_id" fields) m
    else some m
on_message other m = none

-- A message on a session's socket.
unfoldable pub receive : ℕ → String → Json → Hub → Hub
receive websocket tenant_id message hub = elim (on_message message hub.manager) [
  | none ↦ leave websocket tenant_id hub
  | some m ↦ record hub { manager = m }
]
