-- ===== src/Storage/Credentials.antt =====
-- app/storage/repository.py: the rotation of secrets; `drawn` is what `secrets.token_urlsafe` gave.
-- The operator's script scripts/reset_tenant_credentials.py makes the same three changes.
pub mod Rotation
use dataveda_nifty_agent.Prelude.{String}
use dataveda_nifty_agent.Runtime.{Runtime}
use dataveda_nifty_agent.Storage.Models.{Tenant}
use dataveda_nifty_agent.Storage.Action.{Action, pure, ◌>>=◌}
use dataveda_nifty_agent.Storage.Tenants.{hash_secret, generate_id, save}

pub record ResetDraws : Type 0 where
  pub api_key : String
  pub webhook_passphrase : String
  pub agent_token : String

module _ (rt : Runtime) where
  unfoldable pub regenerate_webhook_passphrase : Tenant → String → Action (Tenant × String)
  unfolding hash_secret save
  regenerate_webhook_passphrase tenant drawn = do
    saved ← save tenant.id (λ t. record t { webhook_passphrase_hash = hash_secret rt drawn })
    pure (saved, drawn)

  unfoldable pub regenerate_agent_token : Tenant → String → Action (Tenant × String)
  unfolding hash_secret generate_id save
  regenerate_agent_token tenant drawn = do
    let new_token = generate_id "agent" drawn
    saved ← save tenant.id (λ t. record t { agent_token_hash = hash_secret rt new_token })
    pure (saved, new_token)

  -- The three new secrets, in plaintext.
  unfoldable pub reset_tenant_credentials : Tenant → ResetDraws → Action (Tenant × ResetDraws)
  unfolding hash_secret generate_id save
  reset_tenant_credentials tenant drawn = do
    let new_api_key = generate_id "sk_live" drawn.api_key
    let new_token = generate_id "agent" drawn.agent_token
    saved ← save tenant.id (λ t. record t {
      api_key_hash = hash_secret rt new_api_key;
      webhook_passphrase_hash = hash_secret rt drawn.webhook_passphrase;
      agent_token_hash = hash_secret rt new_token;
    })
    pure (
      saved,
      record {
        api_key = new_api_key;
        webhook_passphrase = drawn.webhook_passphrase;
        agent_token = new_token;
      },
    )
