-- ===== src/Api/Server/SignedUp.antt =====
-- A new account of app/main.py: what the answer of /signup opens.
use dataveda_nifty_agent.Prelude.{
  ℕ, String, ◌+s◌, ◌≡◌, refl, false, some, ◌++◌, ◌∷◌, [], any, arith,
}
use Prim.Native.String.append
use dataveda_nifty_agent.Python.Text.{after_prefix, strip}
use dataveda_nifty_agent.Runtime.{Runtime}
use dataveda_nifty_agent.Models.Signal.{TradingViewSignal}
use dataveda_nifty_agent.Storage.Models.{Tenant, Db}
use dataveda_nifty_agent.Storage.Action.{ok}
use dataveda_nifty_agent.Storage.Tenants.{
  Draws, Secrets, same_key, hash_secret, generate_id, new_tenant, create_tenant,
  get_tenant_by_agent_token,
}
use dataveda_nifty_agent.Storage.Tenants.Lookup.{Finds, create_tenant-Finds}
use dataveda_nifty_agent.Risk.{check_risk, lapsed}
use dataveda_nifty_agent.Router.{Times}
use dataveda_nifty_agent.Api.Auth.{Settings, get_current_tenant}
use dataveda_nifty_agent.Api.Account
use dataveda_nifty_agent.Api.Webhook.Halt.{IsHalted, blocked-IsHalted}
use dataveda_nifty_agent.Api.Server.{signup, signed_up, to_signup_reply, SignupReply, respond}

after_own_prefix : (prefix key : String) → after_prefix prefix (prefix +s key) ≡ some key
unfolding after_prefix
after_own_prefix String.[] key = rw (append.nil key) refl
after_own_prefix (String.◌∷◌ c s) key =
    rw (append.cons c s key) (ground (arith, after_own_prefix s key))

module _ (rt : Runtime) (settings : Settings) (email : String) (drawn : Draws) (now : ℕ)
    (db : Db) where
  abbrev pub created : Tenant
  created = new_tenant rt email drawn now

  abbrev pub secrets : Secrets
  secrets = record {
    api_key = generate_id "sk_live" drawn.api_key;
    webhook_id = drawn.webhook_id;
    webhook_passphrase = drawn.webhook_passphrase;
    agent_token = generate_id "agent" drawn.agent_token;
  }

  abbrev pub with_account : Db
  with_account = record db { tenants = db.tenants ++ created ∷ [] }

  create_tenant_free :
      any (same_key created) db.tenants ≡ false
      → create_tenant rt email drawn now db ≡ (ok (some (created, secrets)), with_account)
  unfolding create_tenant
  create_tenant_free free = rw free refl

  -- The account that an answer of /signup opens.
  pub record Opens (reply : SignupReply) (db' : Db) : Type 0 where
    pub login : get_current_tenant rt ("Bearer " +s reply.api_key) db' ≡ (ok created, db')
    pub agent : get_tenant_by_agent_token rt reply.agent_token db' ≡ (ok (some created), db')
    pub passphrase : hash_secret rt reply.webhook_passphrase ≡ created.webhook_passphrase_hash
    -- without a subscription no alert gets through
    pub halted : (times : Times) → IsHalted rt times drawn.webhook_id db'

  unsubscribed :
      (times : Times) (signal : TradingViewSignal) (d : Db)
      → (check_risk rt times.checked times.pnl created signal d).allowed ≡ false
  unfolding check_risk lapsed new_tenant
  unsubscribed times signal d = ground arith

  -- Where the new row is in conflict with none and the new API key has no white space at its ends,
  -- a sign-up adds the row and answers with its secrets, and then a bearer header with the API key
  -- of the answer and the answer's agent token find that account, the passphrase has the stored
  -- hash, and the account's webhook, at any time and for every body, has an outcome that does not
  -- depend on the broker and rejects the order where it answers.
  pub signup-Opens :
      any (same_key created) db.tenants ≡ false
      → strip (generate_id "sk_live" drawn.api_key) ≡ generate_id "sk_live" drawn.api_key
      → let reply = to_signup_reply (created, secrets) in
        (respond rt settings (signup email drawn now) db ≡ (ok (signed_up reply), with_account))
        × Opens reply with_account
  unfolding respond Account.signup to_signup_reply get_current_tenant
  signup-Opens free whole =
      let finds : Finds rt created secrets with_account =
        create_tenant-Finds rt email drawn now db created secrets with_account
          (create_tenant_free free) in
      (
        rw (create_tenant_free free) refl,
        record {
          login =
              rw
                (
                  after_own_prefix "Bearer " (generate_id "sk_live" drawn.api_key),
                  whole,
                  finds.api_key,
                )
                refl;
          agent = finds.agent_token;
          passphrase = finds.passphrase;
          halted = λ times.
              blocked-IsHalted rt times created drawn.webhook_id with_account (unsubscribed times)
                finds.webhook_id;
        },
      )
