-- ===== src/Api/Concurrent/Alone.antt =====
-- A request of app/main.py with no other in between, against Api/Server.
pub mod Writes
pub mod Customers
pub mod Admins
use dataveda_nifty_agent.Api.Concurrent.{
  to_signup_reply, after_call, signed_up, Draws, [], Call, newcomer, of_customer, of_admin,
  Progress, arrived, over, granted, try_plan, plan_admin, plan, open_call, open_admin, Plan,
  reads_on, writes, carry_plan, plan_me, proceed,
}
use dataveda_nifty_agent.Storage.Tenants.{
  list_tenants, same_key, others, save, get_tenant_by_id, hash_secret, generate_id,
}
use dataveda_nifty_agent.Prelude.{
  arith, ◌⊎◌, Option-cases, ℕ, zero, suc, String, ◌≡◌, ◌∙◌, refl, sym, ap, true, false, some, none,
  Option, [], any, Bool-cases, inl, inr,
}
use mathlib.Core.Path.{subst}
use dataveda_nifty_agent.Api.Account
use dataveda_nifty_agent.Api.Server.Reads.{get_current_tenant-Keeps}
use dataveda_nifty_agent.Api.Server.Valid.{DbValid}
use dataveda_nifty_agent.Api.Server.Halts.{current_row}
use dataveda_nifty_agent.Python.Float.{ℤ, pos, negsuc}
use dataveda_nifty_agent.Python.Dict.{Dict}
use dataveda_nifty_agent.Runtime.{Runtime}
use dataveda_nifty_agent.Storage.Models.{Tenant, Db}
use dataveda_nifty_agent.Storage.Action.{
  Result, ok, raised, http, Exception, Action, pure, continue,
}
use dataveda_nifty_agent.Storage.Columns.{dict_eq, update_columns, commit, refresh}
use dataveda_nifty_agent.Storage.Columns.Settled.{update_settles}
use dataveda_nifty_agent.Storage.Tenants.Save.{row_of, row_of-set_row, id-row_of}
use dataveda_nifty_agent.Storage.Settings.{set_kill_switch, update_symbol_map, update_risk_settings}
use dataveda_nifty_agent.Storage.Credentials.{
  regenerate_webhook_passphrase, regenerate_agent_token, reset_tenant_credentials,
}
use dataveda_nifty_agent.Storage.Subscription.{grant_subscription, revoke_subscription}
use dataveda_nifty_agent.Api.Auth.{Settings, get_current_admin, get_current_tenant}
use dataveda_nifty_agent.Api.Account.{
  put_symbol_map, put_risk_settings, post_kill_switch, post_regenerate_webhook_passphrase,
  post_regenerate_agent_token, normalize_map, merge_settings,
}
use dataveda_nifty_agent.Api.Admin.{
  to_view, admin_list_tenants, admin_grant_subscription, admin_revoke_subscription,
  admin_reset_credentials,
}
use dataveda_nifty_agent.Api.Server.{
  MeCall, account, symbol_map, risk_settings, kill_switch, trades, webhook_passphrase, agent_token,
  AdminCall, tenants, grant, revoke, reset, Response, mapped, limited, switched, secret, viewed,
  renewed, respond_me, respond_admin, Request, signup, customer, administrator, respond,
}
use dataveda_nifty_agent.Api.Concurrent.Alone.Writes.{twice, ended, go_on, write_alone}
use dataveda_nifty_agent.Api.Concurrent.Alone.Customers.{KeepsOrder, me_alone}
use dataveda_nifty_agent.Api.Concurrent.Alone.Admins.{admin_alone}

-- A call, and the request of Api/Server that it is at one instant.
pub data IsRequest (now : ℕ) : Call → Request → Type 0 where
  signs_up :
      (email : String) (drawn : Draws)
      → IsRequest now (newcomer email drawn) (signup email drawn now)
  customers :
      (authorization : String) (c : MeCall)
      → IsRequest now (of_customer authorization c) (customer authorization c)
  admins : (key : String) (c : AdminCall) → IsRequest now (of_admin key c) (administrator key now c)

module _ (rt : Runtime) (settings : Settings) where
  abbrev pub alone : ℕ → Call → Db → Progress × Db
  alone now call db = let step = go_on rt settings call now in step (step (step (arrived, db)))

  -- The request keeps the order of a symbol map that is equal as a dict.
  abbrev pub Orderly : Call → Db → Type 0
  Orderly (of_customer authorization c) db =
      (t : Tenant) → get_current_tenant rt authorization db ≡ (ok t, db) → KeepsOrder rt c t
  Orderly _ db = Unit

  customer_alone :
      (now : ℕ) (authorization : String) (c : MeCall) (db : Db) (x : Result Tenant)
      → DbValid db
      → Orderly (of_customer authorization c) db
      → get_current_tenant rt authorization db ≡ (x, db)
      → alone now (of_customer authorization c) db
        ≡ ended (respond rt settings (customer authorization c) db)
  unfolding proceed open_call plan respond
  customer_alone now authorization c db (raised e) v orderly h = rw h refl
  customer_alone now authorization c db (ok t) v orderly h = rw h (
      me_alone rt settings (of_customer authorization c) now c t db
        (current_row rt authorization db t v.accounts h) (orderly t h))

  current_reads :
      (authorization : String) (db : Db)
      → get_current_tenant rt authorization db ≡ ((get_current_tenant rt authorization db).0, db)
  current_reads authorization db =
      let p : (get_current_tenant rt authorization db).1 ≡ db =
        (get_current_tenant-Keeps (λ d. d ≡ db) rt authorization).at db refl in
      λ i. ((get_current_tenant rt authorization db).0, p i)

  created_alone :
      {A : Type 0} (call : Call) (now : ℕ) (response : A → Response) (x : Result A × Db)
      → go_on rt settings call now (
          go_on rt settings call now (after_call (continue x (λ a. pure (over (ok (response a)))))))
        ≡ ended (continue x (λ a. pure (response a)))
  unfolding proceed
  created_alone call now response (ok a, db) = refl
  created_alone call now response (raised e, db) = refl

  -- In a valid database, the steps of a sign-up, a customer's or an administrator's request, with
  -- no other request in between, end with the answer or the exception and the database of the
  -- request as one step, where a symbol map that is equal to the stored one as a dict has its
  -- order.
  pub alone-eq-respond :
      (now : ℕ) (call : Call) (request : Request) (db : Db)
      → IsRequest now call request
      → DbValid db
      → Orderly call db
      → alone now call db ≡ ended (respond rt settings request db)
  unfolding proceed open_call respond get_current_tenant
  alone-eq-respond now call request db (signs_up email drawn) v orderly =
      created_alone call now (λ created. signed_up (to_signup_reply created))
        (Account.signup rt email drawn now db)
  alone-eq-respond now call request db (customers authorization c) v orderly =
      customer_alone now authorization c db _ v orderly (current_reads authorization db)
  alone-eq-respond now call request db (admins key c) v orderly =
      admin_alone rt settings key now db c
