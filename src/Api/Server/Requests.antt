-- ===== src/Api/Server/Requests.antt =====
-- Properties of the database over every request of app/main.py, and any history of requests.
use dataveda_nifty_agent.Storage.Action.Keeps.{Keeps-pure, Keeps, keeps_rules, Keeps-bind}
use dataveda_nifty_agent.Api.Account
use dataveda_nifty_agent.Api.Account.{
  put_symbol_map, put_risk_settings, post_kill_switch, post_regenerate_webhook_passphrase,
  post_regenerate_agent_token,
}
use dataveda_nifty_agent.Api.Server.{
  post_regenerate_agent_token, post_regenerate_webhook_passphrase, post_kill_switch,
  put_risk_settings, put_symbol_map, MeCall, account, symbol_map, risk_settings, kill_switch,
  trades, webhook_passphrase, agent_token, AdminCall, tenants, grant, revoke, reset, Request,
  History, quiet, then_request, health, signup, customer, administrator, webhook, respond_me,
  respond_admin, respond, serve,
}
use dataveda_nifty_agent.Prelude.{ℕ, String, ◌≡◌, Bool, Option}
use dataveda_nifty_agent.Runtime.{Runtime}
use dataveda_nifty_agent.Storage.Models.{Tenant, Db}
use dataveda_nifty_agent.Storage.Action.{Action}
use dataveda_nifty_agent.Storage.Tenants.{Draws, create_tenant, save}
use dataveda_nifty_agent.Storage.Settings.{set_kill_switch, update_symbol_map, update_risk_settings}
use dataveda_nifty_agent.Storage.Credentials.{
  regenerate_webhook_passphrase, regenerate_agent_token, reset_tenant_credentials,
}
use dataveda_nifty_agent.Storage.Subscription.{grant_subscription, revoke_subscription}
use dataveda_nifty_agent.Models.Signal.{TradingViewSignal}
use dataveda_nifty_agent.Models.Order.{OrderRequest, OrderResult}
use dataveda_nifty_agent.Python.Json.{Json}
use dataveda_nifty_agent.Router.{Times, reserve, process_signal}
use dataveda_nifty_agent.Router.Keeping.{IsKept, process_signal-Keeps}
use dataveda_nifty_agent.Ws.Relay.Broker.{relay_broker-Keeps}
use dataveda_nifty_agent.Api.Auth.{Settings}
use dataveda_nifty_agent.Api.Admin.{
  admin_list_tenants, admin_grant_subscription, admin_revoke_subscription, admin_reset_credentials,
}
use dataveda_nifty_agent.Api.Webhook.{tradingview_webhook}
use dataveda_nifty_agent.Api.Server.Reads.{reads, get_current_tenant-Keeps}

-- A property that the writes to the two tables keep, a switch of a kill switch where it is allowed.
pub record Served (rt : Runtime) (P : Db → Type 0) (Allowed : Bool → Type 0) : Type 0 where
  pub by_save :
      (id : String) (change : Tenant → Tenant)
      → ((t : Tenant) → (change t).id ≡ t.id)
      → ((t : Tenant) → (change t).webhook_id ≡ t.webhook_id)
      → ((t : Tenant) → (change t).kill_switch_engaged ≡ t.kill_switch_engaged)
      → Keeps P (save id change)
  pub by_switch :
      (id : String) (engaged : Bool) (reason : String)
      → Allowed engaged
      → Keeps P
          (save id (λ t. record t { kill_switch_engaged = engaged; kill_switch_reason = reason }))
  pub by_create :
      (email : String) (drawn : Draws) (now : ℕ) → Keeps P (create_tenant rt email drawn now)
  pub by_reserve :
      (now : ℕ) (tenant : Tenant) (signal : TradingViewSignal)
      → Keeps P (reserve rt now tenant signal)
  pub kept : IsKept rt P

-- The requests whose switches of a kill switch are all allowed.
module _ (Allowed : Bool → Type 0) where
  abbrev pub IsSparedCall : MeCall → Type 0
  IsSparedCall (kill_switch engaged reason) = Allowed engaged
  IsSparedCall _ = Unit

  unfoldable mutual
    pub IsSpared : Request → Type 0
    IsSpared (customer authorization call) = IsSparedCall call
    IsSpared (webhook webhook_id body times ended meanwhile) = AreSpared meanwhile
    IsSpared _ = Unit

    pub AreSpared : History → Type 0
    AreSpared quiet = Unit
    AreSpared (then_request request rest) = IsSpared request × AreSpared rest

module _ (rt : Runtime) (settings : Settings) (P : Db → Type 0) (Allowed : Bool → Type 0)
    (s : Served rt P Allowed) where
  respond_me-Keeps :
      (call : MeCall)
      → IsSparedCall Allowed call
      → (tenant : Tenant) → Keeps P (respond_me rt settings call tenant)
  unfolding respond_me put_symbol_map put_risk_settings post_kill_switch
      post_regenerate_webhook_passphrase post_regenerate_agent_token set_kill_switch
      update_symbol_map update_risk_settings regenerate_webhook_passphrase regenerate_agent_token
  respond_me-Keeps (account now later manager) h tenant = search reads
  respond_me-Keeps (symbol_map payload) h tenant = search (reads, s.by_save)
  respond_me-Keeps (risk_settings payload) h tenant = search (reads, s.by_save)
  respond_me-Keeps (kill_switch engaged reason) h tenant = search (reads, s.by_switch)
  respond_me-Keeps (trades limit offset) h tenant = search reads
  respond_me-Keeps (webhook_passphrase drawn) h tenant = search (reads, s.by_save)
  respond_me-Keeps (agent_token drawn) h tenant = search (reads, s.by_save)

  respond_admin-Keeps :
      (key : String) (now : ℕ) (call : AdminCall) → Keeps P (respond_admin rt settings key now call)
  unfolding respond_admin admin_list_tenants admin_grant_subscription admin_revoke_subscription
      admin_reset_credentials grant_subscription revoke_subscription reset_tenant_credentials
  respond_admin-Keeps key now (tenants limit offset) = search reads
  respond_admin-Keeps key now (grant id days) = search (reads, s.by_save) depth 20
  respond_admin-Keeps key now (revoke id) = search (reads, s.by_save)
  respond_admin-Keeps key now (reset drawn id) = search (reads, s.by_save)

  module _ (times : Times) where
    process-Keeps :
        (tenant : Tenant) (signal : TradingViewSignal) (broker : OrderRequest → Action OrderResult)
        → ((order : OrderRequest) → Keeps P (broker order))
        → Keeps P (process_signal rt times tenant signal broker)
    process-Keeps tenant signal broker kb = record {
      at = λ db v.
          process_signal-Keeps rt times tenant signal broker P (s.kept) kb db
            ((s.by_reserve times.reserved tenant signal).at db v);
    }

    webhook-Keeps :
        (broker : Tenant → OrderRequest → Action OrderResult) (webhook_id : String)
        (body : Option Json)
        → ((tenant : Tenant) (order : OrderRequest) → Keeps P (broker tenant order))
        → Keeps P (tradingview_webhook rt times broker webhook_id body)
    unfolding tradingview_webhook
    webhook-Keeps broker webhook_id body kb = search (reads, process-Keeps, kb) depth 20

  mutual
    unfolding respond serve Account.signup IsSpared

    respond-Keeps :
        (request : Request) → IsSpared Allowed request → Keeps P (respond rt settings request)
    respond-Keeps health h = search keeps_rules
    respond-Keeps (signup email drawn now) h = search (reads, s.by_create) depth 10
    respond-Keeps (customer authorization call) h =
        Keeps-bind _ _ (get_current_tenant-Keeps P rt authorization) (respond_me-Keeps call h)
    respond-Keeps (administrator key now call) h = respond_admin-Keeps key now call
    respond-Keeps (webhook webhook_id body times ended meanwhile) h =
        let k : (db : Db) → P db → P (serve rt settings meanwhile db) = serve_keeps meanwhile h in
        Keeps-bind _ _
          (webhook-Keeps times _ webhook_id body
            (λ tenant. relay_broker-Keeps P (serve rt settings meanwhile) k tenant.id ended))
          (λ a. Keeps-pure _)

    serve_keeps :
        (history : History)
        → AreSpared Allowed history
        → (db : Db) → P db
        → P (serve rt settings history db)
    serve_keeps quiet h db v = v
    serve_keeps (then_request request rest) h db v =
        serve_keeps rest h.1 _ ((respond-Keeps request h.0).at db v)

  pub request-Keeps :
      (request : Request) → IsSpared Allowed request → Keeps P (respond rt settings request)
  request-Keeps = respond-Keeps

  pub history_keeps :
      (history : History)
      → AreSpared Allowed history
      → (db : Db) → P db
      → P (serve rt settings history db)
  history_keeps = serve_keeps
