-- ===== src/Api/Concurrent/Lost.antt =====
-- Two updates of the risk settings (PUT /me/risk-settings of app/main.py) that overlap.
use mathlib.Core.Path.{subst}
use dataveda_nifty_agent.Prelude.{
  String, ℕ, ◌≡◌, refl, sym, Bool, false, some, ◌==◌, str_eq, Bool-cases, inl, inr, Unique,
}
use dataveda_nifty_agent.Runtime.{Runtime}
use dataveda_nifty_agent.Storage.Models.{RiskSettings, Tenant, Db}
use dataveda_nifty_agent.Storage.Action.{Result}
use dataveda_nifty_agent.Storage.Columns.{
  settings_eq, bool_eq, dict_eq, option_eq, update_columns, commit, column,
}
use dataveda_nifty_agent.Storage.Columns.Settled.{update_settles}
use dataveda_nifty_agent.Storage.Tenants.{same_key, set_row}
use dataveda_nifty_agent.Storage.Tenants.Save.{
  row_of, save_keeps_keys, SameKeys, row_of-set_row, save-Unique,
}
use dataveda_nifty_agent.Api.Auth.{Settings}
use dataveda_nifty_agent.Api.Account.{merge_settings}
use dataveda_nifty_agent.Api.Server.{Response, risk_settings}
use dataveda_nifty_agent.Api.Concurrent.{
  of_customer, loaded, writes, carry_plan, plan_me, plan, proceed,
}

-- A column that is set to what it was.
unset {ℓ} : {A : Type ℓ} (eq : A → A → Bool) (a : A) → column eq a a a ≡ a
unset eq a = elim (Bool-cases (eq a a)) [ inl same ↦ rw same refl | inr other ↦ rw other refl ]

abbrev with_settings : RiskSettings → Tenant → Tenant
with_settings r t = record t { risk_settings = r }

-- An UPDATE of the settings alone, over another one.
update-with_settings :
    (r r' : RiskSettings) (t : Tenant)
    → settings_eq r' t.risk_settings ≡ false
    → update_columns t (with_settings r' t) (with_settings r t) ≡ with_settings r' t
unfolding update_columns
update-with_settings r r' t h = λ i. record t {
  api_key_hash = unset str_eq t.api_key_hash i;
  webhook_passphrase_hash = unset str_eq t.webhook_passphrase_hash i;
  agent_token_hash = unset str_eq t.agent_token_hash i;
  symbol_map = unset dict_eq t.symbol_map i;
  risk_settings = changed h i;
  kill_switch_engaged = unset bool_eq t.kill_switch_engaged i;
  kill_switch_reason = unset str_eq t.kill_switch_reason i;
  subscription_expires_at = unset (option_eq ◌==◌) t.subscription_expires_at i;
}
  where
    changed : settings_eq r' t.risk_settings ≡ false → column settings_eq t.risk_settings r' r ≡ r'
    changed e = rw e refl

-- The table after an UPDATE that goes through.
module _ (t set row new : Tenant) (answer : ℕ → Tenant → Response) (db : Db)
    (unique : Unique same_key db.tenants) (stored : row_of t.id db.tenants ≡ some row)
    (updates : update_columns t set row ≡ new) (keys : SameKeys new row) where
  carry_plan-db :
      (carry_plan t (writes set answer) db).1 ≡ record db { tenants = set_row new db.tenants }
  unfolding commit
  carry_plan-db =
      rw
        (
          save_keeps_keys t.id (update_columns t set) db row unique stored (rw updates keys),
          updates,
        )
        refl

module _ (rt : Runtime) (settings : Settings) (t : Tenant) (now later : ℕ) (first second : String)
    (p q : RiskSettings) (db : Db) where
  -- Both requests have read the row; the first commits, and then the second.
  abbrev pub first_commit : Db
  first_commit = (proceed rt settings (of_customer first (risk_settings p)) now (loaded t) db).1

  abbrev pub both_commits : Db
  both_commits =
      (proceed rt settings (of_customer second (risk_settings q)) later (loaded t) first_commit).1

  settings-SameKeys : (r r' : RiskSettings) → SameKeys (with_settings r t) (with_settings r' t)
  settings-SameKeys r r' = record {
    id = refl;
    email = refl;
    api_key_hash = refl;
    webhook_id = refl;
    agent_token_hash = refl;
  }

  -- For two updates of one account's risk settings that have both read the stored row, where what
  -- the second one sets differs from that row: after both, the row has the second one's merge with
  -- the settings as they were read, and nothing of what the first one set.
  pub overlapping_settings_lost :
      Unique same_key db.tenants
      → row_of t.id db.tenants ≡ some t
      → settings_eq (merge_settings t.risk_settings q) t.risk_settings ≡ false
      → row_of t.id both_commits.tenants
        ≡ some (record t { risk_settings = merge_settings t.risk_settings q })
  unfolding proceed plan plan_me
  overlapping_settings_lost unique stored changes =
      let r = merge_settings t.risk_settings p in
      let r' = merge_settings t.risk_settings q in
      let first_db : first_commit ≡ record db { tenants = set_row (with_settings r t) db.tenants } =
        carry_plan-db t (with_settings r t) t (with_settings r t) _ db unique stored
          (update_settles t (with_settings r t) (λ e. refl))
          (settings-SameKeys r t.risk_settings) in
      let found : row_of t.id (set_row (with_settings r t) db.tenants) ≡ some (with_settings r t) =
        row_of-set_row t.id (with_settings r t) db.tenants t stored refl in
      let after = record db { tenants = set_row (with_settings r t) db.tenants } in
      let unique' : Unique same_key after.tenants =
        subst (λ (x : Result Tenant × Db). Unique same_key x.1.tenants)
          (save_keeps_keys t.id (with_settings r) db t unique stored
            (settings-SameKeys r t.risk_settings))
          (save-Unique t.id (with_settings r) db (λ u. refl) unique) in
      let stored_last : row_of t.id (set_row (with_settings r' t) after.tenants)
          ≡ some (with_settings r' t) =
        row_of-set_row t.id (with_settings r' t) after.tenants (with_settings r t) found refl in
      subst
        (λ (d : Db).
          row_of t.id
            (proceed rt settings (of_customer second (risk_settings q)) later (loaded t)
              d).1.tenants
          ≡ some (with_settings r' t))
        (sym first_db)
        (subst (λ (d : Db). row_of t.id d.tenants ≡ some (with_settings r' t))
          (sym (
            carry_plan-db t (with_settings r' t) (with_settings r t) (with_settings r' t) _ after
              unique' found (update-with_settings r r' t changes) (settings-SameKeys r' r)))
          stored_last)
