-- ===== src/Storage/Credentials/Rotation.antt =====
-- What becomes of the old secrets.
use mathlib.Core.Path.{subst}
use dataveda_nifty_agent.Prelude.{
  String, ◌≡◌, refl, ◌≢◌, false, none, some, [], any, keep, str_eq, eq_iff, Bool-cases, inl, inr,
  Unique,
}
use dataveda_nifty_agent.Runtime.{Runtime}
use dataveda_nifty_agent.Storage.Models.{Tenant, Db}
use dataveda_nifty_agent.Storage.Action.{Result, ok, raised, continue, pure}
use dataveda_nifty_agent.Storage.Tenants.{
  same_key, others, hash_secret, generate_id, save, get_tenant_by_api_key,
  get_tenant_by_agent_token,
}
use dataveda_nifty_agent.Storage.Tenants.Save.{row_of}
use dataveda_nifty_agent.Storage.Tenants.Lookup.{
  IsApart, api_key-IsApart, agent_token-IsApart, keep-changed,
}
use dataveda_nifty_agent.Storage.Credentials.{ResetDraws, reset_tenant_credentials}

-- Where an action succeeds, the database after it has no row with the value.
abbrev Gone {ℓ} : {A : Type ℓ} → (Tenant → String) → String → Result A × Db → Type 0
Gone column value (ok a, db) = keep (λ u. str_eq (column u) value) db.tenants ≡ []
Gone column value (raised e, db) = Unit

continue-Gone :
    {A B : Type 0} (column : Tenant → String) (value : String) (f : A → B) (x : Result A × Db)
    → Gone column value x
    → Gone column value (continue x (λ a. pure (f a)))
continue-Gone column value f (ok a, db) h = h
continue-Gone column value f (raised e, db) h = tt

ne-str_eq : (a b : String) → a ≢ b → str_eq a b ≡ false
ne-str_eq a b h = elim (Bool-cases (str_eq a b)) [
  | inl same ↦ absurd (h ((eq_iff a b).0 same))
  | inr other ↦ other
]

module _ (tenant : Tenant) (db : Db) (unique : Unique same_key db.tenants)
    (stored : row_of tenant.id db.tenants ≡ some tenant) where
  save-Gone :
      (column : Tenant → String)
      → IsApart column
      → (change : Tenant → Tenant) → (change tenant).id ≡ tenant.id
      → column (change tenant) ≢ column tenant
      → Gone column (column tenant) (save tenant.id change db)
  unfolding save
  save-Gone column key change same new =
      rw stored (elim (Bool-cases (any (same_key (change tenant)) (others tenant.id db.tenants))) [
        | inl clash ↦ rw clash tt
        | inr free ↦ rw free (
            keep-changed column key tenant (change tenant) db.tenants unique stored same
              (ne-str_eq _ _ new))
      ])

  module _ (rt : Runtime) (drawn : ResetDraws)
      (new_key : hash_secret rt (generate_id "sk_live" drawn.api_key) ≢ tenant.api_key_hash)
      (new_token : hash_secret rt (generate_id "agent" drawn.agent_token)
        ≢ tenant.agent_token_hash) where
    abbrev changed : Tenant → Tenant
    changed t = record t {
      api_key_hash = hash_secret rt (generate_id "sk_live" drawn.api_key);
      webhook_passphrase_hash = hash_secret rt drawn.webhook_passphrase;
      agent_token_hash = hash_secret rt (generate_id "agent" drawn.agent_token);
    }

    reset-Gone :
        (column : Tenant → String)
        → IsApart column
        → column (changed tenant) ≢ column tenant
        → (done : Tenant × ResetDraws) (db' : Db)
        → reset_tenant_credentials rt tenant drawn db ≡ (ok done, db')
        → Gone column (column tenant) (ok done, db')
    unfolding reset_tenant_credentials
    reset-Gone column key new done db' e = subst (Gone column (column tenant)) e (
        continue-Gone column (column tenant) _ (save tenant.id changed db)
          (save-Gone column key changed refl new))

    -- For a stored tenant in a table that meets its constraints, and a drawn key and token whose
    -- hashes are not the stored ones: after a reset of the credentials that succeeds, the old api
    -- key and the old agent token find nobody.
    pub reset_ends_old_secrets :
        (key token : String)
        → hash_secret rt key ≡ tenant.api_key_hash
        → hash_secret rt token ≡ tenant.agent_token_hash
        → (done : Tenant × ResetDraws) (db' : Db)
        → reset_tenant_credentials rt tenant drawn db ≡ (ok done, db')
        → (get_tenant_by_api_key rt key db' ≡ (ok none, db'))
          × (get_tenant_by_agent_token rt token db' ≡ (ok none, db'))
    unfolding reset_tenant_credentials get_tenant_by_api_key get_tenant_by_agent_token
    reset_ends_old_secrets key token k t done db' e =
        let no_key : keep (λ u. str_eq u.api_key_hash tenant.api_key_hash) db'.tenants ≡ [] =
          reset-Gone (λ u. u.api_key_hash) api_key-IsApart new_key done db' e in
        let no_token : keep (λ u. str_eq u.agent_token_hash tenant.agent_token_hash) db'.tenants
            ≡ [] =
          reset-Gone (λ u. u.agent_token_hash) agent_token-IsApart new_token done db' e in
        (rw k (rw no_key refl), rw t (rw no_token refl))
