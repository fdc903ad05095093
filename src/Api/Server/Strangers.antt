-- ===== src/Api/Server/Strangers.antt =====
-- Requests to app/main.py without a valid secret.
use dataveda_nifty_agent.Prelude.{
  String, ◌≡◌, ◌≢◌, ◌⊎◌, refl, none, some, arith, eq_iff, Option-cases, inl, inr,
}
use dataveda_nifty_agent.Python.Text.{after_prefix, strip}
use dataveda_nifty_agent.Runtime.{Runtime}
use dataveda_nifty_agent.Security.{passphrase_matches}
use dataveda_nifty_agent.Storage.Models.{Db}
use dataveda_nifty_agent.Storage.Action.{http, ok, raised}
use dataveda_nifty_agent.Storage.Tenants.{get_tenant_by_api_key}
use dataveda_nifty_agent.Api.Auth.{Settings, get_current_tenant, get_current_admin}
use dataveda_nifty_agent.Api.Admin.{
  admin_list_tenants, admin_grant_subscription, admin_revoke_subscription, admin_reset_credentials,
}
use dataveda_nifty_agent.Api.Server.{
  tenants, grant, revoke, reset, Request, health, signup, customer, administrator, webhook,
  respond_admin, respond,
}

module _ (rt : Runtime) (settings : Settings) (db : Db) where
  -- A customer's request whose header has no key of an account, and an administrator's without the
  -- key, or while no key is set.
  abbrev pub IsStranger : Request → Type 0
  IsStranger (customer authorization call) =
      (rest : String)
      → after_prefix "Bearer " authorization ≡ some rest
      → get_tenant_by_api_key rt (strip rest) db ≡ (ok none, db)
  IsStranger (administrator key now call) =
      (settings.admin_api_key ≡ "") ⊎ (key ≢ settings.admin_api_key)
  IsStranger _ = ⊥

  no_tenant :
      (authorization : String)
      → ((rest : String)
          → after_prefix "Bearer " authorization ≡ some rest
          → get_tenant_by_api_key rt (strip rest) db ≡ (ok none, db))
      → get_current_tenant rt authorization db ≡ (raised (http 401), db)
  unfolding get_current_tenant
  no_tenant authorization h = elim (Option-cases (after_prefix "Bearer " authorization)) [
    | inl e ↦ rw e refl
    | inr (rest, e) ↦ rw (e, h rest e) refl
  ]

  no_admin :
      (key : String)
      → (settings.admin_api_key ≡ "") ⊎ (key ≢ settings.admin_api_key)
      → get_current_admin settings key db ≡ (raised (http 401), db)
  unfolding get_current_admin passphrase_matches
  no_admin key (inl unset) = rw unset refl
  no_admin key (inr other) = ground (arith, eq_iff key settings.admin_api_key)

  -- Every /me request whose Authorization header is not a bearer header with the API key of an
  -- account, and every /admin request whose key is not the administrator's or that comes while no
  -- administrator's key is set, raises 401 and writes nothing.
  pub stranger_refused :
      (request : Request)
      → IsStranger request
      → respond rt settings request db ≡ (raised (http 401), db)
  unfolding respond respond_admin admin_list_tenants admin_grant_subscription
      admin_revoke_subscription admin_reset_credentials
  stranger_refused (customer authorization call) h = rw (no_tenant authorization h) refl
  stranger_refused (administrator key now (tenants limit offset)) h = rw (no_admin key h) refl
  stranger_refused (administrator key now (grant id days)) h = rw (no_admin key h) refl
  stranger_refused (administrator key now (revoke id)) h = rw (no_admin key h) refl
  stranger_refused (administrator key now (reset drawn id)) h = rw (no_admin key h) refl
  stranger_refused health h = absurd h
  stranger_refused (signup email drawn now) h = absurd h
  stranger_refused (webhook webhook_id body times ended meanwhile) h = absurd h
