-- ===== src/Storage/Settings.antt =====
-- app/storage/repository.py: what a customer sets on the account.
use dataveda_nifty_agent.Prelude.{String, Bool}
use dataveda_nifty_agent.Python.Dict.{Dict}
use dataveda_nifty_agent.Storage.Models.{RiskSettings, Tenant}
use dataveda_nifty_agent.Storage.Action.{Action}
use dataveda_nifty_agent.Storage.Tenants.{save}

unfoldable pub set_kill_switch : Tenant → Bool → String → Action Tenant
unfolding save
set_kill_switch tenant engaged reason =
    save tenant.id (λ t. record t { kill_switch_engaged = engaged; kill_switch_reason = reason })

unfoldable pub update_symbol_map : Tenant → Dict String → Action Tenant
unfolding save
update_symbol_map tenant symbol_map = save tenant.id (λ t. record t { symbol_map = symbol_map })

unfoldable pub update_risk_settings : Tenant → RiskSettings → Action Tenant
unfolding save
update_risk_settings tenant settings = save tenant.id (λ t. record t { risk_settings = settings })
