-- ===== src/Api/Bodies/Receive.antt =====
-- app/main.py: the routes that take a body.
use dataveda_nifty_agent.Prelude.{ℕ, String, Option, none, some}
use dataveda_nifty_agent.Python.Json.{Json, obj, Fields}
use dataveda_nifty_agent.Runtime.{Runtime}
use dataveda_nifty_agent.Storage.Tenants.{Draws}
use dataveda_nifty_agent.Storage.Action.{http, Action, pure, raise, ◌>>=◌, ◌>>◌}
use dataveda_nifty_agent.Api.Auth.{Settings, get_current_tenant, get_current_admin}
use dataveda_nifty_agent.Api.Server.{
  Response, symbol_map, risk_settings, grant, signup, respond, respond_me, respond_admin,
}
use dataveda_nifty_agent.Api.Bodies.{read_signup, read_symbol_map, read_risk_settings, read_grant}

-- A body that is not an object is refused as one with wrong fields is.
abbrev pub in_object {ℓ} : {A : Type ℓ} → (Fields → Option A) → Json → Option A
in_object read (obj raw) = read raw
in_object read _ = none

abbrev or_refused : {A : Type 0} → Option A → Action A
or_refused none = raise (http 422)
or_refused (some payload) = pure payload

-- The routes that take a body.
pub data Post : Type 0 where
  for_signup : Draws → (now : ℕ) → Post
  for_symbol_map : (authorization : String) → Post
  for_risk_settings : (authorization : String) → Post
  for_grant : (x_admin_key : String) → (now : ℕ) → (tenant_id : String) → Post

module _ (rt : Runtime) (settings : Settings) where
  -- FastAPI parses the body (`none` does not parse), solves the dependencies and then reads the model.
  unfoldable pub receive : Post → Option Json → Action Response
  unfolding read_signup read_symbol_map read_risk_settings read_grant
  receive post none = raise (http 422)
  receive (for_signup drawn now) (some body) = do
    email ← or_refused (in_object (read_signup rt) body)
    respond rt settings (signup email drawn now)
  receive (for_symbol_map authorization) (some body) = do
    tenant ← get_current_tenant rt authorization
    payload ← or_refused (in_object (read_symbol_map rt) body)
    respond_me rt settings (symbol_map payload) tenant
  receive (for_risk_settings authorization) (some body) = do
    tenant ← get_current_tenant rt authorization
    payload ← or_refused (in_object (read_risk_settings rt) body)
    respond_me rt settings (risk_settings payload) tenant
  receive (for_grant key now id) (some body) = do
    get_current_admin settings key
    days ← or_refused (in_object (read_grant rt) body)
    respond_admin rt settings key now (grant id days)
