-- ===== src/Scripts/Reset.antt =====
-- The operator's script against the administrator's endpoint's reset.
use dataveda_nifty_agent.Prelude.{String, ◌≡◌, some}
use mathlib.Core.Path.{sym, ◌∙◌}
use dataveda_nifty_agent.Runtime.{Runtime}
use dataveda_nifty_agent.Storage.Models.{Tenant, Db}
use dataveda_nifty_agent.Storage.Action.{ok}
use dataveda_nifty_agent.Storage.Action.Keeps.{continue-pure}
use dataveda_nifty_agent.Storage.Credentials.{ResetDraws, reset_tenant_credentials}
use dataveda_nifty_agent.Scripts.{
  get_tenant_by_email, reset_credentials, new_secrets, shown_secrets,
}

module _ (rt : Runtime) (drawn : ResetDraws) (email : String) (tenant : Tenant) (db : Db)
    (found : get_tenant_by_email email db ≡ (ok (some tenant), db)) where
  script-new_secrets : (reset_credentials rt drawn email db).1 ≡ (new_secrets rt drawn tenant db).1
  unfolding reset_credentials
  script-new_secrets =
      rw found
        (continue-pure (λ _. some (shown_secrets rt drawn tenant)) (new_secrets rt drawn tenant db))

  endpoint-new_secrets :
      (reset_tenant_credentials rt tenant drawn db).1 ≡ (new_secrets rt drawn tenant db).1
  unfolding reset_tenant_credentials
  endpoint-new_secrets = continue-pure _ (new_secrets rt drawn tenant db)

  -- For an e-mail that finds one account, the operator's script leaves the database as
  -- reset_tenant_credentials does for that account and the same drawn secrets, also where the
  -- write fails.
  pub reset_credentials-eq-reset_tenant_credentials :
      (reset_credentials rt drawn email db).1 ≡ (reset_tenant_credentials rt tenant drawn db).1
  reset_credentials-eq-reset_tenant_credentials = script-new_secrets ∙ sym endpoint-new_secrets
