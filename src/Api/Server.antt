-- ===== src/Api/Server.antt =====
-- app/main.py as a whole: each route behind its dependencies, and the requests one after another.
pub mod Reads
pub mod Valid
pub mod Requests
pub mod Lookups
pub mod Accounts
pub mod Rows
pub mod Halts
pub mod Lockout
pub mod Lasting
pub mod KillSwitch
pub mod SignedUp
pub mod Grants
pub mod Strangers
use dataveda_nifty_agent.Prelude.{ℕ, String, Bool, Option, List}
use dataveda_nifty_agent.Python.Float.{ℤ}
use dataveda_nifty_agent.Python.Json.{Json}
use dataveda_nifty_agent.Python.Dict.{Dict}
use dataveda_nifty_agent.Runtime.{Runtime}
use dataveda_nifty_agent.Models.Order.{OrderResult, status_value}
use dataveda_nifty_agent.Storage.Models.{RiskSettings, Tenant, Db}
use dataveda_nifty_agent.Storage.Action.{Result, Action, pure, gets, ◌>>=◌}
use dataveda_nifty_agent.Storage.Tenants.{Draws, Secrets}
use dataveda_nifty_agent.Storage.Credentials.{ResetDraws}
use dataveda_nifty_agent.Router.{Times}
use dataveda_nifty_agent.Ws.Manager.{Manager, Reply}
use dataveda_nifty_agent.Ws.Relay.Broker.{relay_broker}
use dataveda_nifty_agent.Api.Auth.{Settings, get_current_tenant}
use dataveda_nifty_agent.Api.Account
use dataveda_nifty_agent.Api.Account.{
  Me, Trade, webhook_url, get_me, put_symbol_map, put_risk_settings, post_kill_switch, get_trades,
  post_regenerate_webhook_passphrase, post_regenerate_agent_token,
}
use dataveda_nifty_agent.Api.Admin.{
  TenantView, admin_list_tenants, admin_grant_subscription, admin_revoke_subscription,
  admin_reset_credentials,
}
use dataveda_nifty_agent.Api.Webhook.{tradingview_webhook}

-- The body of POST /signup's answer.
pub record SignupReply : Type 0 where
  pub tenant_id : String
  pub webhook_url : String
  pub api_key : String
  pub webhook_passphrase : String
  pub agent_token : String

unfoldable pub to_signup_reply : Tenant × Secrets → SignupReply
to_signup_reply (tenant, secrets) = record {
  tenant_id = tenant.id;
  webhook_url = webhook_url secrets.webhook_id;
  api_key = secrets.api_key;
  webhook_passphrase = secrets.webhook_passphrase;
  agent_token = secrets.agent_token;
}

-- The body of the webhook's answer.
pub record WebhookReply : Type 0 where
  pub signal_id : String
  pub status : String
  pub broker_order_id : Json
  pub message : Json

unfoldable pub to_webhook_reply : String × OrderResult → WebhookReply
to_webhook_reply (signal_id, result) = record {
  signal_id = signal_id;
  status = status_value result.status;
  broker_order_id = result.broker_order_id;
  message = result.message;
}

-- The /me endpoints with their parameters, the clocks that they read and the texts that they draw.
pub data MeCall : Type 0 where
  account : (now later : ℕ) → Manager → MeCall
  symbol_map : Dict String → MeCall
  risk_settings : RiskSettings → MeCall
  kill_switch : Bool → String → MeCall
  trades : (limit offset : ℤ) → MeCall
  webhook_passphrase : String → MeCall
  agent_token : String → MeCall

-- The /admin endpoints.
pub data AdminCall : Type 0 where
  tenants : (limit offset : ℤ) → AdminCall
  grant : String → (days : ℤ) → AdminCall
  revoke : String → AdminCall
  reset : ResetDraws → String → AdminCall

pub data Response : Type 0 where
  healthy : Response
  signed_up : SignupReply → Response
  me : Me → Response
  mapped : Dict String → Response
  limited : RiskSettings → Response
  switched : Bool × String → Response
  traded : List Trade → Response
  secret : String → Response
  listed : List TenantView → Response
  viewed : TenantView → Response
  renewed : Tenant × ResetDraws → Response
  answered : WebhookReply → Response

abbrev pub reply : {A : Type 0} → (A → Response) → Action A → Action Response
reply f m = do a ← m; pure (f a)

-- A request, and the requests that the server handles while a webhook call waits for the broker.
mutual
  pub data Request : Type 0 where
    health : Request
    signup : (email : String) → Draws → (now : ℕ) → Request
    customer : (authorization : String) → MeCall → Request
    administrator : (x_admin_key : String) → (now : ℕ) → AdminCall → Request
    webhook :
        (webhook_id : String)
        → (body : Option Json) → Times
        → (ended : Option Reply) → (meanwhile : History) → Request

  pub data History : Type 0 where
    quiet : History
    then_request : Request → History → History

module _ (rt : Runtime) (settings : Settings) where
  unfoldable pub respond_me : MeCall → Tenant → Action Response
  respond_me (account now later manager) tenant =
      gets (λ db. me (get_me rt now later manager tenant db))
  respond_me (symbol_map payload) tenant = reply mapped (put_symbol_map rt payload tenant)
  respond_me (risk_settings payload) tenant = reply limited (put_risk_settings payload tenant)
  respond_me (kill_switch engaged reason) tenant =
      reply switched (post_kill_switch engaged reason tenant)
  respond_me (trades limit offset) tenant = gets (λ db. traded (get_trades limit offset tenant db))
  respond_me (webhook_passphrase drawn) tenant =
      reply secret (post_regenerate_webhook_passphrase rt drawn tenant)
  respond_me (agent_token drawn) tenant = reply secret (post_regenerate_agent_token rt drawn tenant)

  unfoldable pub respond_admin : String → ℕ → AdminCall → Action Response
  respond_admin key now (tenants limit offset) =
      reply listed (admin_list_tenants settings key now limit offset)
  respond_admin key now (grant id days) =
      reply viewed (admin_grant_subscription settings key now id days)
  respond_admin key now (revoke id) = reply viewed (admin_revoke_subscription settings key now id)
  respond_admin key now (reset drawn id) =
      reply renewed (admin_reset_credentials settings key now rt drawn id)

  -- What a route answers or raises, and the database afterwards.
  unfoldable mutual
    pub respond : Request → Action Response
    respond health = pure healthy
    respond (signup email drawn now) =
        reply (λ created. signed_up (to_signup_reply created)) (Account.signup rt email drawn now)
    respond (customer authorization call) = do
      tenant ← get_current_tenant rt authorization
      respond_me call tenant
    respond (administrator key now call) = respond_admin key now call
    respond (webhook webhook_id body times ended meanwhile) =
        reply (λ done. answered (to_webhook_reply done))
          (tradingview_webhook rt times
            (λ tenant. (relay_broker tenant.id ended (serve meanwhile)).place_order) webhook_id
            body)

    -- The database after requests, in their order.
    pub serve : History → Db → Db
    serve quiet db = db
    serve (then_request request rest) db = serve rest (respond request db).1
