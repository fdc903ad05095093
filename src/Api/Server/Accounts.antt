-- ===== src/Api/Server/Accounts.antt =====
-- In a valid database no request of app/main.py finds two accounts for one secret.
use dataveda_nifty_agent.Prelude.{ℕ, String, ◌≡◌, refl, false, Option, none, some}
use dataveda_nifty_agent.Python.Json.{Json}
use dataveda_nifty_agent.Python.Text.{after_prefix, strip}
use dataveda_nifty_agent.Runtime.{Runtime}
use dataveda_nifty_agent.Models.Order.{OrderRequest, OrderResult}
use dataveda_nifty_agent.Storage.Models.{Tenant, Db}
use dataveda_nifty_agent.Storage.Action.{Action}
use dataveda_nifty_agent.Storage.Action.Unambiguous.{
  is_multiple, Unambiguous, then-Unambiguous, Unambiguous-pure,
}
use dataveda_nifty_agent.Storage.Tenants.{get_tenant_by_api_key, get_tenant_by_webhook_id}
use dataveda_nifty_agent.Storage.Tenants.Unambiguous.{
  by_api_key_unambiguous, by_webhook_id_unambiguous,
}
use dataveda_nifty_agent.Storage.Settings.{set_kill_switch, update_symbol_map, update_risk_settings}
use dataveda_nifty_agent.Storage.Subscription.{grant_subscription, revoke_subscription}
use dataveda_nifty_agent.Storage.Credentials.{
  regenerate_webhook_passphrase, regenerate_agent_token, reset_tenant_credentials,
}
use dataveda_nifty_agent.Router.{Times}
use dataveda_nifty_agent.Api.Auth.{Settings, by_key, get_current_tenant}
use dataveda_nifty_agent.Api.Account
use dataveda_nifty_agent.Api.Account.{
  or_conflict, put_symbol_map, put_risk_settings, post_kill_switch,
  post_regenerate_webhook_passphrase, post_regenerate_agent_token,
}
use dataveda_nifty_agent.Api.Admin.{
  admin_list_tenants, admin_grant_subscription, admin_revoke_subscription, admin_reset_credentials,
}
use dataveda_nifty_agent.Api.Webhook.{tradingview_webhook}
use dataveda_nifty_agent.Api.Server.{
  MeCall, account, symbol_map, risk_settings, kill_switch, trades, webhook_passphrase, agent_token,
  AdminCall, tenants, grant, revoke, reset, Request, History, health, signup, customer,
  administrator, webhook, respond_me, respond_admin, respond, serve,
}
use dataveda_nifty_agent.Api.Server.Valid.{every_history_valid, DbValid}
use dataveda_nifty_agent.Api.Server.Lookups.{
  lookup_rules, or_http-Unambiguous, process_signal-Unambiguous, relay-Unambiguous,
}

module _ (rt : Runtime) (settings : Settings) where
  respond_me-Unambiguous :
      (call : MeCall) (tenant : Tenant) → Unambiguous (respond_me rt settings call tenant)
  unfolding respond_me put_symbol_map put_risk_settings post_kill_switch
      post_regenerate_webhook_passphrase post_regenerate_agent_token set_kill_switch
      update_symbol_map update_risk_settings regenerate_webhook_passphrase regenerate_agent_token
  respond_me-Unambiguous (account now later manager) tenant = search lookup_rules
  respond_me-Unambiguous (symbol_map payload) tenant = search lookup_rules
  respond_me-Unambiguous (risk_settings payload) tenant = search lookup_rules
  respond_me-Unambiguous (kill_switch engaged reason) tenant = search lookup_rules
  respond_me-Unambiguous (trades limit offset) tenant = search lookup_rules
  respond_me-Unambiguous (webhook_passphrase drawn) tenant = search lookup_rules
  respond_me-Unambiguous (agent_token drawn) tenant = search lookup_rules

  respond_admin-Unambiguous :
      (key : String) (now : ℕ) (call : AdminCall)
      → Unambiguous (respond_admin rt settings key now call)
  unfolding respond_admin admin_list_tenants admin_grant_subscription admin_revoke_subscription
      admin_reset_credentials grant_subscription revoke_subscription reset_tenant_credentials
  respond_admin-Unambiguous key now (tenants limit offset) = search lookup_rules
  respond_admin-Unambiguous key now (grant id days) = search lookup_rules depth 20
  respond_admin-Unambiguous key now (revoke id) = search lookup_rules
  respond_admin-Unambiguous key now (reset drawn id) = search lookup_rules

  by_key_unambiguous :
      (rest : Option String) (db : Db) → DbValid db → is_multiple (by_key rt rest db).0 ≡ false
  by_key_unambiguous none db v = refl
  by_key_unambiguous (some rest) db v =
      then-Unambiguous (get_tenant_by_api_key rt (strip rest)) _ db
        (by_api_key_unambiguous rt _ db v.accounts) (or_http-Unambiguous 401)

  current_tenant_unambiguous :
      (authorization : String) (db : Db)
      → DbValid db
      → is_multiple (get_current_tenant rt authorization db).0 ≡ false
  unfolding get_current_tenant
  current_tenant_unambiguous authorization =
      by_key_unambiguous (after_prefix "Bearer " authorization)

  webhook-Unambiguous :
      (times : Times) (broker : Tenant → OrderRequest → Action OrderResult) (webhook_id : String)
      (body : Option Json) (db : Db)
      → ((tenant : Tenant) (order : OrderRequest) → Unambiguous (broker tenant order))
      → DbValid db
      → is_multiple (tradingview_webhook rt times broker webhook_id body db).0 ≡ false
  unfolding tradingview_webhook
  webhook-Unambiguous times broker webhook_id body db kb v =
      then-Unambiguous (get_tenant_by_webhook_id webhook_id) _ db
        (by_webhook_id_unambiguous webhook_id db v.accounts)
        (λ found. search (lookup_rules, process_signal-Unambiguous, kb) depth 20)

  pub one_account :
      (request : Request) (db : Db)
      → DbValid db
      → is_multiple (respond rt settings request db).0 ≡ false
  unfolding respond Account.signup
  one_account health db v = refl
  one_account (signup email drawn now) db v =
      let k : Unambiguous (respond rt settings (signup email drawn now)) =
        search lookup_rules depth 10 in
      k.at db
  one_account (customer authorization call) db v =
      then-Unambiguous (get_current_tenant rt authorization) _ db
        (current_tenant_unambiguous authorization db v) (respond_me-Unambiguous call)
  one_account (administrator key now call) db v = (respond_admin-Unambiguous key now call).at db
  one_account (webhook webhook_id body times ended meanwhile) db v =
      then-Unambiguous (tradingview_webhook rt times _ webhook_id body) _ db
        (webhook-Unambiguous times _ webhook_id body db
          (λ tenant. relay-Unambiguous tenant.id ended (serve rt settings meanwhile)) v)
        (λ a. Unambiguous-pure _)

  -- After any history of requests from a valid database, no request raises MultipleResultsFound: a
  -- secret finds one account at most.
  pub history_one_account :
      (history : History) (request : Request) (db : Db)
      → DbValid db
      → is_multiple (respond rt settings request (serve rt settings history db)).0 ≡ false
  history_one_account history request db v =
      one_account request _ (every_history_valid rt settings history db v)
