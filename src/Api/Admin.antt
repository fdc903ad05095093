-- ===== src/Api/Admin.antt =====
-- app/main.py: the /admin endpoints, behind `get_current_admin`.
use dataveda_nifty_agent.Prelude.{ℕ, zero, suc, String, Bool, List, map}
use dataveda_nifty_agent.Python.Float.{ℤ, pos, negsuc}
use dataveda_nifty_agent.Runtime.{Runtime}
use dataveda_nifty_agent.Storage.Models.{Tenant}
use dataveda_nifty_agent.Storage.Action.{http, Action, pure, raise, ◌>>=◌, ◌>>◌}
use dataveda_nifty_agent.Storage.Tenants.{get_tenant_by_id, list_tenants}
use dataveda_nifty_agent.Storage.Subscription.{
  Status, subscription_status, grant_subscription, revoke_subscription,
}
use dataveda_nifty_agent.Storage.Credentials.{ResetDraws, reset_tenant_credentials}
use dataveda_nifty_agent.Api.Auth.{Settings, or_http, get_current_admin}
use dataveda_nifty_agent.Api.Account.{clamp_limit, clamp_offset}

-- _serialize_tenant_for_admin
pub record TenantView : Type 0 where
  pub tenant_id : String
  pub email : String
  pub plan : String
  pub status : Status
  pub kill_switch_engaged : Bool
  pub created_at : ℕ

unfoldable pub to_view : ℕ → Tenant → TenantView
to_view now tenant = record {
  tenant_id = tenant.id;
  email = tenant.email;
  plan = tenant.plan;
  status = subscription_status now tenant;
  kill_switch_engaged = tenant.kill_switch_engaged;
  created_at = tenant.created_at;
}

-- `payload.days <= 0` raises 422.
abbrev pub positive_days : ℤ → Action ℕ
positive_days (pos zero) = raise (http 422)
positive_days (pos (suc n)) = pure (suc n)
positive_days (negsuc n) = raise (http 422)

abbrev pub known_tenant : String → Action Tenant
known_tenant tenant_id = do tenant ← get_tenant_by_id tenant_id; or_http 404 tenant

module _ (settings : Settings) (x_admin_key : String) (now : ℕ) where
  unfoldable pub admin_list_tenants : ℤ → ℤ → Action (List TenantView)
  admin_list_tenants limit offset = do
    get_current_admin settings x_admin_key
    tenants ← list_tenants (clamp_limit limit 500) (clamp_offset offset)
    pure (map (to_view now) tenants)

  unfoldable pub admin_grant_subscription : String → ℤ → Action TenantView
  admin_grant_subscription tenant_id days = do
    get_current_admin settings x_admin_key
    n ← positive_days days
    tenant ← known_tenant tenant_id
    saved ← grant_subscription now tenant n
    pure (to_view now saved)

  unfoldable pub admin_revoke_subscription : String → Action TenantView
  admin_revoke_subscription tenant_id = do
    get_current_admin settings x_admin_key
    tenant ← known_tenant tenant_id
    saved ← revoke_subscription now tenant
    pure (to_view now saved)

  unfoldable pub admin_reset_credentials :
      Runtime → ResetDraws → String → Action (Tenant × ResetDraws)
  admin_reset_credentials rt drawn tenant_id = do
    get_current_admin settings x_admin_key
    tenant ← known_tenant tenant_id
    reset_tenant_credentials rt tenant drawn
