-- ===== src/Api/Server/Halts.antt =====
-- What stops a customer's alerts, from the endpoint in app/main.py that sets it to the webhook.
use dataveda_nifty_agent.Api.Server.{
  viewed, revoke, administrator, respond_admin, switched, kill_switch, customer, respond_me,
  respond,
}
use mathlib.Core.Path.{subst}
use mathlib.Core.Option.{some-injective}
use dataveda_nifty_agent.Prelude.{
  ℕ, ◌≤◌, String, ◌≡◌, ◌≢◌, refl, sym, ap, true, false, Option, none, some, arith, Unique, str_eq,
}
use dataveda_nifty_agent.Runtime.{Runtime}
use dataveda_nifty_agent.Models.Signal.{TradingViewSignal}
use dataveda_nifty_agent.Python.Text.{after_prefix, strip}
use dataveda_nifty_agent.Storage.Models.{Tenant, Db}
use dataveda_nifty_agent.Storage.Action.{Result, ok, raised, continue}
use dataveda_nifty_agent.Storage.Tenants.{
  same_key, set_row, save, get_tenant_by_api_key, get_tenant_by_webhook_id, get_tenant_by_id,
  hash_secret,
}
use dataveda_nifty_agent.Storage.Tenants.Save.{
  SameKeys, row_of, row_of-set_row, id-row_of, save_keeps_keys, save-Unique,
}
use dataveda_nifty_agent.Storage.Tenants.Found.{found_row, get_tenant_by_webhook_id-row}
use dataveda_nifty_agent.Storage.Settings.{set_kill_switch}
use dataveda_nifty_agent.Risk.{check_risk, lapsed}
use dataveda_nifty_agent.Router.{Times}
use dataveda_nifty_agent.Api.Auth.{Settings, or_http, by_key, get_current_tenant}
use dataveda_nifty_agent.Api.Account.{post_kill_switch}
use dataveda_nifty_agent.Api.Webhook.Halt.{IsHalted, blocked-IsHalted}
use dataveda_nifty_agent.Api.Admin.{to_view, admin_revoke_subscription}
use dataveda_nifty_agent.Api.Auth.Access.{get_current_admin-ok_iff}
use dataveda_nifty_agent.Storage.Subscription.{revoke_subscription}
use dataveda_nifty_agent.Api.Server.Valid.{DbValid}
use dataveda_nifty_agent.Api.Server.Lasting.{IsStopped}

-- The row of an account after a write that leaves the unique columns alone.
module _ (change : Tenant → Tenant) (tenant : Tenant) (db : Db) (v : Unique same_key db.tenants)
    (row : row_of tenant.id db.tenants ≡ some tenant) (same : SameKeys (change tenant) tenant) where
  abbrev written : Db
  written = record db { tenants = set_row (change tenant) db.tenants }

  saved : save tenant.id change db ≡ (ok (change tenant), written)
  saved = save_keeps_keys tenant.id change db tenant v row same

  saved-row : row_of tenant.id written.tenants ≡ some (change tenant)
  saved-row = row_of-set_row tenant.id (change tenant) db.tenants tenant row same.id

  module _ (keeps : (t : Tenant) → (change t).id ≡ t.id) where
    saved-Unique : Unique same_key written.tenants
    saved-Unique =
        subst (λ (x : Result Tenant × Db). Unique same_key x.1.tenants) saved
          (save-Unique tenant.id change db keeps v)

    pub saved-webhook :
        get_tenant_by_webhook_id tenant.webhook_id written ≡ (ok (some (change tenant)), written)
    saved-webhook =
        subst
          (λ (w : String).
            get_tenant_by_webhook_id w written ≡ (ok (some (change tenant)), written))
          same.webhook_id
          (get_tenant_by_webhook_id-row tenant.id (change tenant) written saved-Unique saved-row)

abbrev the_tenant : Result Tenant × Db → Option Tenant
the_tenant (ok tenant, db) = some tenant
the_tenant (raised e, db) = none

or_http_found :
    (code : ℕ) (x : Result (Option Tenant)) (db : Db) (tenant : Tenant)
    → continue (x, db) (or_http code) ≡ (ok tenant, db)
    → x ≡ ok (some tenant)
or_http_found code (raised e) db tenant h = ground (arith, ap the_tenant h)
or_http_found code (ok none) db tenant h = ground (arith, ap the_tenant h)
or_http_found code (ok (some t)) db tenant h = cc (some-injective _ _ (ap the_tenant h))

module _ (rt : Runtime) where
  -- Whom the API key finds.
  key_row :
      (rest : Option String) (db : Db) (tenant : Tenant)
      → Unique same_key db.tenants
      → by_key rt rest db ≡ (ok tenant, db)
      → row_of tenant.id db.tenants ≡ some tenant
  unfolding get_tenant_by_api_key
  key_row none db tenant v e = ground (arith, ap the_tenant e)
  key_row (some rest) db tenant v e =
      found_row (λ t. str_eq t.api_key_hash (hash_secret rt (strip rest))) tenant db.tenants v
        (or_http_found 401 _ db tenant e)

  pub current_row :
      (authorization : String) (db : Db) (tenant : Tenant)
      → Unique same_key db.tenants
      → get_current_tenant rt authorization db ≡ (ok tenant, db)
      → row_of tenant.id db.tenants ≡ some tenant
  unfolding get_current_tenant
  current_row authorization = key_row (after_prefix "Bearer " authorization)

  abbrev pub stopped : String → Tenant → Tenant
  stopped reason t = record t { kill_switch_engaged = true; kill_switch_reason = reason }

  stopped-SameKeys : (reason : String) (t : Tenant) → SameKeys (stopped reason t) t
  stopped-SameKeys reason t = record {
    id = refl;
    email = refl;
    api_key_hash = refl;
    webhook_id = refl;
    agent_token_hash = refl;
  }

  -- A request that engages the kill switch says so and stops the account.
  pub kill_switch_stops :
      (settings : Settings) (authorization reason : String) (tenant : Tenant) (db : Db)
      → DbValid db
      → get_current_tenant rt authorization db ≡ (ok tenant, db)
      → let request = customer authorization (kill_switch true reason) in
        ((respond rt settings request db).0 ≡ ok (switched (true, reason)))
        × IsStopped tenant.id tenant.webhook_id (respond rt settings request db).1
  unfolding respond respond_me post_kill_switch set_kill_switch
  kill_switch_stops settings authorization reason tenant db v found =
      let row : row_of tenant.id db.tenants ≡ some tenant =
        current_row authorization db tenant v.accounts found in
      let same : SameKeys (stopped reason tenant) tenant = stopped-SameKeys reason tenant in
      rw found (
        rw (saved (stopped reason) tenant db v.accounts row same) (
          refl,
          record {
            row = stopped reason tenant;
            stored = saved-row (stopped reason) tenant db v.accounts row same;
            blocked = refl;
            hook = refl;
          },
        ))

  abbrev expired : ℕ → Tenant → Tenant
  expired now t = record t { subscription_expires_at = some now }

  expired-SameKeys : (now : ℕ) (t : Tenant) → SameKeys (expired now t) t
  expired-SameKeys now t = record {
    id = refl;
    email = refl;
    api_key_hash = refl;
    webhook_id = refl;
    agent_token_hash = refl;
  }

  expired_blocked :
      (times : Times) (tenant : Tenant) (now : ℕ)
      → now ≤ times.checked
      → (signal : TradingViewSignal) (db : Db)
      → (check_risk rt times.checked times.pnl (expired now tenant) signal db).allowed ≡ false
  unfolding check_risk lapsed
  expired_blocked times tenant now over signal db = ground arith

  -- In a valid database, where an administrator's key is set, its revocation of an account's
  -- subscription answers with the account's view at that moment, and right after it the account's
  -- webhook, at any later check and for every body, has an outcome that does not depend on the
  -- broker, and rejects the order where it answers.
  pub revoke_halts :
      (settings : Settings) (now : ℕ) (tenant_id : String) (tenant : Tenant) (db : Db)
      → DbValid db
      → settings.admin_api_key ≢ ""
      → row_of tenant_id db.tenants ≡ some tenant
      → (times : Times) → now ≤ times.checked
      → let request = administrator settings.admin_api_key now (revoke tenant_id) in
        ((respond rt settings request db).0
          ≡ ok (viewed (to_view now (record tenant { subscription_expires_at = some now }))))
        × IsHalted rt times tenant.webhook_id (respond rt settings request db).1
  unfolding respond respond_admin admin_revoke_subscription revoke_subscription get_tenant_by_id
  revoke_halts settings now tenant_id tenant db v key found times over =
      let row : row_of tenant.id db.tenants ≡ some tenant =
        subst (λ id. row_of id db.tenants ≡ some tenant)
          (sym (id-row_of tenant_id db.tenants tenant found)) found in
      rw
        (
          (get_current_admin-ok_iff settings settings.admin_api_key db).1 (key, refl),
          found,
          saved (expired now) tenant db v.accounts row (expired-SameKeys now tenant),
        )
        (
          refl,
          blocked-IsHalted rt times (expired now tenant) tenant.webhook_id _
              (expired_blocked times tenant now over)
              (saved-webhook (expired now) tenant db v.accounts row (expired-SameKeys now tenant)
                (λ t. refl)),
        )
