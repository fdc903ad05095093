-- ===== src/Scripts/Keeping.antt =====
-- The operator's script on a valid database.
use dataveda_nifty_agent.Prelude.{String, refl, Option, none, some, List, [], ◌∷◌}
use dataveda_nifty_agent.Runtime.{Runtime}
use dataveda_nifty_agent.Storage.Models.{Tenant}
use dataveda_nifty_agent.Storage.Action.Keeps.{Keeps, keeps_rules}
use dataveda_nifty_agent.Storage.Credentials.{ResetDraws}
use dataveda_nifty_agent.Api.Server.Valid.{DbValid, save-Keeps}
use dataveda_nifty_agent.Scripts.{
  get_tenant_by_email, new_secrets, reset_found, reset_credentials, main,
}

module _ (rt : Runtime) (drawn : ResetDraws) where
  by_email-Keeps : (email : String) → Keeps DbValid (get_tenant_by_email email)
  unfolding get_tenant_by_email
  by_email-Keeps email = record { at = λ db v. v }

  new_secrets-Keeps : (tenant : Tenant) → Keeps DbValid (new_secrets rt drawn tenant)
  new_secrets-Keeps tenant = save-Keeps tenant.id _ (λ t. refl)

  reset_found-Keeps : (found : Option Tenant) → Keeps DbValid (reset_found rt drawn found)
  reset_found-Keeps none = search keeps_rules
  reset_found-Keeps (some tenant) = search (keeps_rules, new_secrets-Keeps)

  reset_credentials-Keeps : (email : String) → Keeps DbValid (reset_credentials rt drawn email)
  unfolding reset_credentials
  reset_credentials-Keeps email = search (keeps_rules, by_email-Keeps, reset_found-Keeps)

  -- Any command line keeps the constraints.
  pub main-Keeps : (argv : List String) → Keeps DbValid (main rt drawn argv)
  unfolding main
  main-Keeps [] = search keeps_rules
  main-Keeps (script ∷ []) = search keeps_rules
  main-Keeps (script ∷ email ∷ []) = search (keeps_rules, reset_credentials-Keeps)
  main-Keeps (script ∷ email ∷ other ∷ rest) = search keeps_rules
