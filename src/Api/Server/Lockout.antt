-- ===== src/Api/Server/Lockout.antt =====
-- A reset of an account's credentials through app/main.py, and what the old ones open after it.
use mathlib.Core.Path.{subst}
use dataveda_nifty_agent.Prelude.{
  ℕ, String, ◌≡◌, ◌∙◌, ◌≢◌, refl, sym, ap, Option, none, some, arith,
}
use dataveda_nifty_agent.Runtime.{Runtime}
use dataveda_nifty_agent.Python.Text.{after_prefix, strip}
use dataveda_nifty_agent.Storage.Models.{Tenant, Db}
use dataveda_nifty_agent.Storage.Action.{http, Result, ok, raised, pure, continue}
use dataveda_nifty_agent.Storage.Tenants.{hash_secret, generate_id, get_tenant_by_id}
use dataveda_nifty_agent.Storage.Tenants.Save.{row_of, id-row_of}
use dataveda_nifty_agent.Storage.Credentials.{ResetDraws, reset_tenant_credentials}
use dataveda_nifty_agent.Storage.Credentials.Rotation.{reset_ends_old_secrets}
use dataveda_nifty_agent.Api.Auth.{Settings, get_current_tenant}
use dataveda_nifty_agent.Api.Auth.Access.{get_current_admin-ok_iff}
use dataveda_nifty_agent.Api.Admin.{admin_reset_credentials}
use dataveda_nifty_agent.Api.Sessions.{Hub, agent_ws}
use dataveda_nifty_agent.Api.Server.{
  Response, renewed, administrator, reset, respond_admin, respond,
}
use dataveda_nifty_agent.Api.Server.Valid.{DbValid}

abbrev the_response : Result Response → Option Response
the_response (ok r) = some r
the_response (raised e) = none

-- An answer made of a value comes from that value.
continue_ok :
    {A : Type 0} (f : A → Response) (x : Result A × Db) (r : Response) (db' : Db)
    → continue x (λ a. pure (f a)) ≡ (ok r, db')
    → (a : A) × (x ≡ (ok a, db'))
continue_ok f (ok a, db) r db' h = (a, ap (λ (y : Result Response × Db). (ok a, y.1)) h)
continue_ok f (raised e, db) r db' h =
    ground (arith, ap (λ (y : Result Response × Db). the_response y.0) h)

-- The account before the reset, and the drawn secrets.
module _ (rt : Runtime) (settings : Settings) (now : ℕ) (tenant_id : String) (tenant : Tenant)
    (drawn : ResetDraws) (db : Db) where
  pub record IsReset (db' : Db) : Type 0 where
    pub stored : row_of tenant_id db.tenants ≡ some tenant
    pub new_key : hash_secret rt (generate_id "sk_live" drawn.api_key) ≢ tenant.api_key_hash
    pub new_token : hash_secret rt (generate_id "agent" drawn.agent_token) ≢ tenant.agent_token_hash
    pub response : Response
    pub answers :
        respond rt settings (administrator settings.admin_api_key now (reset drawn tenant_id)) db
        ≡ (ok response, db')

  respond-reset :
      settings.admin_api_key ≢ ""
      → row_of tenant_id db.tenants ≡ some tenant
      → respond rt settings (administrator settings.admin_api_key now (reset drawn tenant_id)) db
        ≡ continue (reset_tenant_credentials rt tenant drawn db) (λ a. pure (renewed a))
  unfolding respond respond_admin admin_reset_credentials get_tenant_by_id
  respond-reset key stored =
      rw ((get_current_admin-ok_iff settings settings.admin_api_key db).1 (key, refl), stored) refl

  reset_succeeds :
      (db' : Db)
      → settings.admin_api_key ≢ ""
      → IsReset db'
      → (done : Tenant × ResetDraws) × (reset_tenant_credentials rt tenant drawn db
          ≡ (ok done, db'))
  reset_succeeds db' key r =
      continue_ok renewed (reset_tenant_credentials rt tenant drawn db) r.response db'
        (sym (respond-reset key r.stored) ∙ r.answers)

  -- In a valid database, where an administrator's key is set, after a reset of a stored account's
  -- credentials that is answered and whose drawn API key and agent token have other hashes than
  -- the stored ones, a bearer header with the old API key raises 401, and a socket that is opened
  -- with the old agent token is closed with 1008 and registers nothing; the sessions that are open
  -- stay as they are.
  pub reset_locks_out :
      (db' : Db)
      → DbValid db
      → settings.admin_api_key ≢ ""
      → IsReset db'
      → (authorization rest token : String) → after_prefix "Bearer " authorization ≡ some rest
      → hash_secret rt (strip rest) ≡ tenant.api_key_hash
      → hash_secret rt token ≡ tenant.agent_token_hash
      → (get_current_tenant rt authorization db' ≡ (raised (http 401), db'))
        × ((websocket : ℕ) (hub : Hub)
            → agent_ws rt websocket token hub db' ≡ (ok (hub, some 1008), db'))
  unfolding get_current_tenant agent_ws
  reset_locks_out db' v key r authorization rest token bearer k t =
      let (done, e) = reset_succeeds db' key r in
      let row : row_of tenant.id db.tenants ≡ some tenant =
        subst (λ id. row_of id db.tenants ≡ some tenant)
          (sym (id-row_of tenant_id db.tenants tenant r.stored)) r.stored in
      let gone =
        reset_ends_old_secrets tenant db v.accounts row rt drawn r.new_key r.new_token (strip rest)
          token k t done db' e in
      (rw (bearer, gone.0) refl, λ websocket hub. rw (gone.1) refl)
