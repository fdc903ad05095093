-- ===== src/Storage/Tenants.antt =====
-- app/storage/repository.py: secrets, and the rows of `tenants`.
pub mod Save
pub mod Lookup
pub mod Unambiguous
pub mod Found
use dataveda_nifty_agent.Storage.Action.{
  Result, ok, raised, Action, integrity_error, stale_data, one_or_none,
}
use dataveda_nifty_agent.Storage.Models.{Db, RiskSettings, Tenant}
use dataveda_nifty_agent.Prelude.{
  ℕ, String, ◌+s◌, Bool, false, ◌||◌, not, Option, none, some, List, [], ◌∷◌, ◌++◌, any, keep, find,
  take, drop, ltb, str_eq, if◌then◌else◌,
}
use dataveda_nifty_agent.Python.Float.{of_ℕ}
use dataveda_nifty_agent.Runtime.{Runtime}

-- hash_secret
unfoldable pub hash_secret : Runtime → String → String
hash_secret rt secret = rt.sha256_hex secret

-- _generate_id: the text that `secrets.token_urlsafe` drew is an argument.
unfoldable pub generate_id : String → String → String
generate_id prefix drawn = prefix +s "_" +s drawn

unfoldable pub default_risk_settings : RiskSettings
default_risk_settings = record {
  max_qty_per_order = some (of_ℕ 1);
  max_daily_loss = some (of_ℕ 1000);
  allowed_symbols = some [];
}

-- Two rows that the unique constraints do not allow together.
unfoldable pub same_key : Tenant → Tenant → Bool
same_key a b =
    str_eq a.id b.id
    || str_eq a.email b.email
    || str_eq a.api_key_hash b.api_key_hash
    || str_eq a.webhook_id b.webhook_id
    || str_eq a.agent_token_hash b.agent_token_hash

-- What the calls of `secrets.token_urlsafe` in `create_tenant` drew, in their order.
pub record Draws : Type 0 where
  pub api_key : String
  pub webhook_id : String
  pub webhook_passphrase : String
  pub agent_token : String
  pub tenant_id : String

-- The plaintext secrets, shown once.
pub record Secrets : Type 0 where
  pub api_key : String
  pub webhook_id : String
  pub webhook_passphrase : String
  pub agent_token : String

module _ (rt : Runtime) where
  unfoldable pub new_tenant : String → Draws → ℕ → Tenant
  unfolding hash_secret generate_id default_risk_settings
  new_tenant email drawn now = record {
    id = generate_id "ten" drawn.tenant_id;
    email = email;
    api_key_hash = hash_secret rt (generate_id "sk_live" drawn.api_key);
    webhook_id = drawn.webhook_id;
    webhook_passphrase_hash = hash_secret rt drawn.webhook_passphrase;
    agent_token_hash = hash_secret rt (generate_id "agent" drawn.agent_token);
    symbol_map = [];
    risk_settings = default_risk_settings;
    plan = "free";
    kill_switch_engaged = false;
    kill_switch_reason = "";
    subscription_expires_at = none;
    created_at = now;
  }

  -- The insert, with IntegrityError turned into None.
  unfoldable pub create_tenant : String → Draws → ℕ → Action (Option (Tenant × Secrets))
  unfolding new_tenant same_key
  create_tenant email drawn now db =
      let tenant = new_tenant email drawn now in
      if any (same_key tenant) db.tenants then (ok none, db) else (
        ok (
            some (
              tenant,
              record {
                api_key = generate_id "sk_live" drawn.api_key;
                webhook_id = drawn.webhook_id;
                webhook_passphrase = drawn.webhook_passphrase;
                agent_token = generate_id "agent" drawn.agent_token;
              },
            )),
        record db { tenants = db.tenants ++ tenant ∷ [] },
      )

  unfoldable pub get_tenant_by_api_key : String → Action (Option Tenant)
  unfolding hash_secret
  get_tenant_by_api_key api_key db =
      (one_or_none (keep (λ t. str_eq t.api_key_hash (hash_secret rt api_key)) db.tenants), db)

  unfoldable pub get_tenant_by_agent_token : String → Action (Option Tenant)
  unfolding hash_secret
  get_tenant_by_agent_token agent_token db = (
    one_or_none (keep (λ t. str_eq t.agent_token_hash (hash_secret rt agent_token)) db.tenants),
    db,
  )

unfoldable pub get_tenant_by_webhook_id : String → Action (Option Tenant)
get_tenant_by_webhook_id webhook_id db =
    (one_or_none (keep (λ t. str_eq t.webhook_id webhook_id) db.tenants), db)

-- session.get(Tenant, id): a lookup by the primary key.
unfoldable pub get_tenant_by_id : String → Action (Option Tenant)
get_tenant_by_id tenant_id db = (ok (find (λ t. str_eq t.id tenant_id) db.tenants), db)

-- Newest first; rows of one instant stay in the order of insertion.
unfoldable pub insert_newest : Tenant → List Tenant → List Tenant
insert_newest t [] = t ∷ []
insert_newest t (u ∷ us) =
    if ltb t.created_at u.created_at then u ∷ insert_newest t us else t ∷ u ∷ us

unfoldable pub newest_first : List Tenant → List Tenant
unfolding insert_newest
newest_first [] = []
newest_first (t ∷ ts) = insert_newest t (newest_first ts)

unfoldable pub list_tenants : ℕ → ℕ → Action (List Tenant)
unfolding newest_first
list_tenants limit offset db = (ok (take limit (drop offset (newest_first db.tenants))), db)

-- The row of an id is given anew.
unfoldable pub set_row : Tenant → List Tenant → List Tenant
set_row t [] = []
set_row t (u ∷ us) = (if str_eq u.id t.id then t else u) ∷ set_row t us

-- The other rows: those with another id.
unfoldable pub others : String → List Tenant → List Tenant
others id = keep (λ t. not (str_eq t.id id))

-- The UPDATE of the row that was found, under the unique constraints.
abbrev pub write_row : String → (Tenant → Tenant) → Db → Option Tenant → Result Tenant × Db
write_row id change db none = (raised stale_data, db)
write_row id change db (some row) =
    if any (same_key (change row)) (others id db.tenants)
    then (raised integrity_error, db)
    else (ok (change row), record db { tenants = set_row (change row) db.tenants })

-- `tenant.column = value; commit(); refresh(tenant)`: an UPDATE writes the columns that were set, to
-- the row as it is by then, and the refresh reads that row back. Here nothing comes between the read
-- and the write, so it does not matter that SQLAlchemy leaves out a column that is set to the value
-- that was read; Storage/Columns has the UPDATE where other sessions write in between.
unfoldable pub save : String → (Tenant → Tenant) → Action Tenant
unfolding set_row others same_key
save id change db = write_row id change db (find (λ t. str_eq t.id id) db.tenants)
