-- ===== src/Api/Concurrent/Alone/Admins.antt =====
-- The /admin requests of app/main.py with no other in between.
use dataveda_nifty_agent.Api.Concurrent.{
  Call, of_admin, Progress, arrived, granted, try_plan, plan_admin, plan, open_call, open_admin,
  proceed,
}
use dataveda_nifty_agent.Storage.Tenants.{
  list_tenants, save, get_tenant_by_id, hash_secret, generate_id,
}
use dataveda_nifty_agent.Prelude.{
  Option-cases, ℕ, zero, suc, String, ◌≡◌, refl, sym, some, inl, inr,
}
use mathlib.Core.Path.{subst}
use dataveda_nifty_agent.Python.Float.{pos, negsuc}
use dataveda_nifty_agent.Runtime.{Runtime}
use dataveda_nifty_agent.Storage.Models.{Tenant, Db}
use dataveda_nifty_agent.Storage.Action.{Result, ok, raised, pure, continue}
use dataveda_nifty_agent.Storage.Columns.Settled.{update_settles}
use dataveda_nifty_agent.Storage.Tenants.Save.{row_of, id-row_of}
use dataveda_nifty_agent.Storage.Credentials.{reset_tenant_credentials}
use dataveda_nifty_agent.Storage.Subscription.{grant_subscription, revoke_subscription}
use dataveda_nifty_agent.Api.Auth.Access.{get_current_admin_cases}
use dataveda_nifty_agent.Api.Auth.{Settings}
use dataveda_nifty_agent.Api.Admin.{
  to_view, admin_list_tenants, admin_grant_subscription, admin_revoke_subscription,
  admin_reset_credentials,
}
use dataveda_nifty_agent.Api.Server.{
  AdminCall, tenants, grant, revoke, reset, viewed, renewed, respond_admin,
}
use dataveda_nifty_agent.Api.Concurrent.Alone.Writes.{ended, go_on, write_alone}

module _ (rt : Runtime) (settings : Settings) (call : Call) (now : ℕ) where
  granted_alone :
      (t : Tenant) (expiry : Result ℕ) (db : Db)
      → row_of t.id db.tenants ≡ some t
      → go_on rt settings call now (try_plan t (granted t expiry) db)
        ≡ ended (
            continue
              (continue
                (continue
                  (expiry, db)
                  (λ x. save t.id (λ u. record u { subscription_expires_at = some x })))
                (λ s. pure (to_view now s)))
              (λ a. pure (viewed a)))
  unfolding proceed
  granted_alone t (ok x) db found =
      write_alone rt settings call now t (λ u. record u { subscription_expires_at = some x })
        to_view viewed db found refl (update_settles t _ (λ e. refl))
  granted_alone t (raised e) db found = refl

module _ (rt : Runtime) (settings : Settings) (key : String) (now : ℕ) (db : Db) where
  abbrev pub alone_admin : AdminCall → Progress × Db
  alone_admin c =
      let step = go_on rt settings (of_admin key c) now in step (step (step (arrived, db)))

  row_alone :
      (id : String) (t : Tenant) → row_of id db.tenants ≡ some t → row_of t.id db.tenants ≡ some t
  row_alone id t f = subst (λ k. row_of k db.tenants ≡ some t) (sym (id-row_of id db.tenants t f)) f

  pub admin_alone : (c : AdminCall) → alone_admin c ≡ ended (respond_admin rt settings key now c db)
  unfolding respond_admin proceed open_call open_admin plan plan_admin admin_list_tenants
      admin_grant_subscription admin_revoke_subscription admin_reset_credentials grant_subscription
      revoke_subscription reset_tenant_credentials get_tenant_by_id list_tenants
  admin_alone (tenants limit offset) = elim (get_current_admin_cases settings key db) [
    | inl let_in ↦ rw let_in refl
    | inr shut ↦ rw shut refl
  ]
  admin_alone (grant id (pos zero)) = elim (get_current_admin_cases settings key db) [
    | inl let_in ↦ rw let_in refl
    | inr shut ↦ rw shut refl
  ]
  admin_alone (grant id (negsuc n)) = elim (get_current_admin_cases settings key db) [
    | inl let_in ↦ rw let_in refl
    | inr shut ↦ rw shut refl
  ]
  admin_alone (grant id (pos (suc n))) = elim (get_current_admin_cases settings key db) [
    | inl let_in ↦ elim (Option-cases (row_of id db.tenants)) [
      | inl gone ↦ rw (let_in, gone) refl
      | inr (t, f) ↦
          rw (let_in, f)
            (granted_alone rt settings (of_admin key (grant id (pos (suc n)))) now t _ db
              (row_alone id t f))
    ]
    | inr shut ↦ rw shut refl
  ]
  admin_alone (revoke id) = elim (get_current_admin_cases settings key db) [
    | inl let_in ↦ elim (Option-cases (row_of id db.tenants)) [
      | inl gone ↦ rw (let_in, gone) refl
      | inr (t, f) ↦
          rw (let_in, f)
            (write_alone rt settings (of_admin key (revoke id)) now t
              (λ u. record u { subscription_expires_at = some now }) to_view viewed db
              (row_alone id t f) refl (update_settles t _ (λ e. refl)))
    ]
    | inr shut ↦ rw shut refl
  ]
  admin_alone (reset drawn id) = elim (get_current_admin_cases settings key db) [
    | inl let_in ↦ elim (Option-cases (row_of id db.tenants)) [
      | inl gone ↦ rw (let_in, gone) refl
      | inr (t, f) ↦
          let new_api_key = generate_id "sk_live" drawn.api_key in
          let new_token = generate_id "agent" drawn.agent_token in
          rw (let_in, f)
            (write_alone rt settings (of_admin key (reset drawn id)) now t
              (λ u. record u {
                api_key_hash = hash_secret rt new_api_key;
                webhook_passphrase_hash = hash_secret rt drawn.webhook_passphrase;
                agent_token_hash = hash_secret rt new_token;
              })
              (λ later s. (
                s,
                record {
                  api_key = new_api_key;
                  webhook_passphrase = drawn.webhook_passphrase;
                  agent_token = new_token;
                },
              ))
              renewed db (row_alone id t f) refl (update_settles t _ (λ e. refl)))
    ]
    | inr shut ↦ rw shut refl
  ]
