-- ===== src/Api/Auth.antt =====
-- app/main.py: `get_current_tenant` and `get_current_admin`; app/config.py: the settings.
pub mod Access
use dataveda_nifty_agent.Prelude.{
  ℕ, String, Bool, true, false, ◌&&◌, not, Option, none, some, List, [], ◌∷◌, if◌then◌else◌,
}
use dataveda_nifty_agent.Python.Float.{Float, of_ℕ}
use dataveda_nifty_agent.Python.Text.{strip, after_prefix, nonempty}
use dataveda_nifty_agent.Runtime.{Runtime}
use dataveda_nifty_agent.Security.{passphrase_matches}
use dataveda_nifty_agent.Storage.Models.{Tenant}
use dataveda_nifty_agent.Storage.Action.{
  Exception, http, Result, ok, raised, Action, pure, raise, continue, ◌>>=◌,
}
use dataveda_nifty_agent.Storage.Tenants.{get_tenant_by_api_key}

pub record Settings : Type 0 where
  pub database_url : String
  pub log_level : String
  pub bridge_order_timeout_seconds : Float
  pub admin_api_key : String

-- The settings of an empty environment.
abbrev pub default_settings : Settings
default_settings = record {
  database_url = "sqlite+aiosqlite:///./data/tenants.db";
  log_level = "INFO";
  bridge_order_timeout_seconds = of_ℕ 8;
  admin_api_key = "";
}

-- `if tenant is None: raise HTTPException(code)`
abbrev pub or_http : ℕ → Option Tenant → Action Tenant
or_http code none = raise (http code)
or_http code (some tenant) = pure tenant

abbrev pub by_key : Runtime → Option String → Action Tenant
by_key rt none = raise (http 401)
by_key rt (some rest) = do tenant ← get_tenant_by_api_key rt (strip rest); or_http 401 tenant

unfoldable pub get_current_tenant : Runtime → String → Action Tenant
get_current_tenant rt authorization = by_key rt (after_prefix "Bearer " authorization)

-- not settings.admin_api_key or not passphrase_matches(x_admin_key, settings.admin_api_key)
unfoldable pub get_current_admin : Settings → String → Action (Unit {0})
unfolding passphrase_matches
get_current_admin settings x_admin_key =
    if nonempty settings.admin_api_key && passphrase_matches x_admin_key settings.admin_api_key
    then pure tt
    else raise (http 401)
