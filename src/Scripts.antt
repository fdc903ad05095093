-- ===== src/Scripts.antt =====
-- scripts/reset_tenant_credentials.py: the operator's reset of an account by its e-mail.
pub mod Reset
pub mod Keeping
use dataveda_nifty_agent.Prelude.{String, Option, none, some, List, [], ◌∷◌, keep, str_eq}
use dataveda_nifty_agent.Runtime.{Runtime}
use dataveda_nifty_agent.Storage.Models.{Tenant}
use dataveda_nifty_agent.Storage.Action.{Action, one_or_none, pure, ◌>>=◌}
use dataveda_nifty_agent.Storage.Tenants.{hash_secret, generate_id, save}
use dataveda_nifty_agent.Storage.Credentials.{ResetDraws}

unfoldable pub get_tenant_by_email : String → Action (Option Tenant)
get_tenant_by_email email db = (one_or_none (keep (λ t. str_eq t.email email) db.tenants), db)

-- The printed secrets; `webhook_id` is the one that the account has.
pub record Printed : Type 0 where
  pub tenant_id : String
  pub api_key : String
  pub webhook_id : String
  pub webhook_passphrase : String
  pub agent_token : String

pub data Ended : Type 0 where
  usage : Ended
  ran : Option Printed → Ended

module _ (rt : Runtime) (drawn : ResetDraws) where
  abbrev pub new_secrets : Tenant → Action Tenant
  new_secrets tenant = save tenant.id (λ t. record t {
    api_key_hash = hash_secret rt (generate_id "sk_live" drawn.api_key);
    webhook_passphrase_hash = hash_secret rt drawn.webhook_passphrase;
    agent_token_hash = hash_secret rt (generate_id "agent" drawn.agent_token);
  })

  abbrev pub shown_secrets : Tenant → Printed
  shown_secrets tenant = record {
    tenant_id = tenant.id;
    api_key = generate_id "sk_live" drawn.api_key;
    webhook_id = tenant.webhook_id;
    webhook_passphrase = drawn.webhook_passphrase;
    agent_token = generate_id "agent" drawn.agent_token;
  }

  abbrev reset_found : Option Tenant → Action (Option Printed)
  reset_found none = pure none
  reset_found (some tenant) = do saved ← new_secrets tenant; pure (some (shown_secrets tenant))

  -- `none` is an e-mail that no account has.
  unfoldable pub reset_credentials : String → Action (Option Printed)
  reset_credentials email = do found ← get_tenant_by_email email; reset_found found

  -- `sys.argv`, the script's name first; any other number of arguments prints the usage and exits.
  unfoldable pub main : List String → Action Ended
  unfolding reset_credentials
  main (script ∷ email ∷ []) = do printed ← reset_credentials email; pure (ran printed)
  main _ = pure usage
