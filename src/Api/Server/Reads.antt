-- ===== src/Api/Server/Reads.antt =====
-- The reads and the tests of the routes of app/main.py keep any property of the database.
use dataveda_nifty_agent.Prelude.{ℕ, zero, suc, String, Option, none, some}
use dataveda_nifty_agent.Python.Float.{ℤ, pos, negsuc}
use dataveda_nifty_agent.Runtime.{Runtime}
use dataveda_nifty_agent.Storage.Models.{Tenant, Db}
use dataveda_nifty_agent.Storage.Action.Keeps.{Keeps, Keeps-raise, Keeps-pure, keeps_rules}
use dataveda_nifty_agent.Storage.Tenants.{
  Secrets, get_tenant_by_api_key, get_tenant_by_id, get_tenant_by_webhook_id, list_tenants,
}
use dataveda_nifty_agent.Api.Auth.{Settings, or_http, by_key, get_current_tenant, get_current_admin}
use dataveda_nifty_agent.Api.Webhook.{json_object, or_unprocessable}
use dataveda_nifty_agent.Models.Signal.{TradingViewSignal}
use dataveda_nifty_agent.Python.Text.{after_prefix}
use dataveda_nifty_agent.Python.Json.{Json, obj}
use dataveda_nifty_agent.Api.Account.{or_conflict}
use dataveda_nifty_agent.Api.Admin.{positive_days}

-- A lookup writes nothing.
module _ (P : Db → Type 0) where
  pub by_api_key-Keeps : (rt : Runtime) (key : String) → Keeps P (get_tenant_by_api_key rt key)
  unfolding get_tenant_by_api_key
  by_api_key-Keeps rt key = record { at = λ db v. v }

  pub by_id-Keeps : (id : String) → Keeps P (get_tenant_by_id id)
  unfolding get_tenant_by_id
  by_id-Keeps id = record { at = λ db v. v }

  pub by_webhook_id-Keeps : (id : String) → Keeps P (get_tenant_by_webhook_id id)
  unfolding get_tenant_by_webhook_id
  by_webhook_id-Keeps id = record { at = λ db v. v }

  pub list_tenants-Keeps : (limit offset : ℕ) → Keeps P (list_tenants limit offset)
  unfolding list_tenants
  list_tenants-Keeps limit offset = record { at = λ db v. v }

  pub or_http-Keeps : (code : ℕ) (found : Option Tenant) → Keeps P (or_http code found)
  or_http-Keeps code none = Keeps-raise _
  or_http-Keeps code (some tenant) = Keeps-pure tenant

  pub or_conflict-Keeps : (x : Option (Tenant × Secrets)) → Keeps P (or_conflict x)
  or_conflict-Keeps none = Keeps-raise _
  or_conflict-Keeps (some created) = Keeps-pure created

  pub positive_days-Keeps : (days : ℤ) → Keeps P (positive_days days)
  positive_days-Keeps (pos zero) = Keeps-raise _
  positive_days-Keeps (pos (suc n)) = Keeps-pure _
  positive_days-Keeps (negsuc n) = Keeps-raise _

  pub get_current_admin-Keeps :
      (settings : Settings) (key : String) → Keeps P (get_current_admin settings key)
  unfolding get_current_admin
  get_current_admin-Keeps settings key = search keeps_rules

  by_key-Keeps : (rt : Runtime) (rest : Option String) → Keeps P (by_key rt rest)
  by_key-Keeps rt none = search keeps_rules
  by_key-Keeps rt (some rest) = search (keeps_rules, by_api_key-Keeps, or_http-Keeps)

  pub get_current_tenant-Keeps :
      (rt : Runtime) (authorization : String) → Keeps P (get_current_tenant rt authorization)
  unfolding get_current_tenant
  get_current_tenant-Keeps rt authorization = by_key-Keeps rt (after_prefix "Bearer " authorization)

  pub json_object-Keeps : (body : Option Json) → Keeps P (json_object body)
  json_object-Keeps none = search keeps_rules
  json_object-Keeps (some (obj fields)) = search keeps_rules
  json_object-Keeps (some other) = search keeps_rules

  pub or_unprocessable-Keeps : (s : Option TradingViewSignal) → Keeps P (or_unprocessable s)
  or_unprocessable-Keeps none = search keeps_rules
  or_unprocessable-Keeps (some signal) = search keeps_rules

pub ruleset reads = (
  keeps_rules, by_api_key-Keeps, by_id-Keeps, by_webhook_id-Keeps, list_tenants-Keeps,
  or_http-Keeps, or_conflict-Keeps, positive_days-Keeps, get_current_admin-Keeps,
  get_current_tenant-Keeps, json_object-Keeps, or_unprocessable-Keeps,
)
