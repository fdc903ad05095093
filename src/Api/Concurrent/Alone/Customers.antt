-- ===== src/Api/Concurrent/Alone/Customers.antt =====
-- The /me requests of app/main.py with no other in between.
use dataveda_nifty_agent.Api.Concurrent.{[], Call, carry_plan, plan_me, proceed}
use dataveda_nifty_agent.Storage.Tenants.{save, hash_secret, generate_id}
use dataveda_nifty_agent.Prelude.{ℕ, String, ◌≡◌, ◌∙◌, refl, ap, true, some, []}
use dataveda_nifty_agent.Runtime.{Runtime}
use dataveda_nifty_agent.Storage.Models.{Tenant, Db}
use dataveda_nifty_agent.Storage.Action.{Result, pure, continue}
use dataveda_nifty_agent.Storage.Columns.{dict_eq}
use dataveda_nifty_agent.Storage.Columns.Settled.{update_settles}
use dataveda_nifty_agent.Storage.Tenants.Save.{row_of}
use dataveda_nifty_agent.Storage.Settings.{set_kill_switch, update_symbol_map, update_risk_settings}
use dataveda_nifty_agent.Storage.Credentials.{regenerate_webhook_passphrase, regenerate_agent_token}
use dataveda_nifty_agent.Api.Auth.{Settings}
use dataveda_nifty_agent.Api.Account.{
  put_symbol_map, put_risk_settings, post_kill_switch, post_regenerate_webhook_passphrase,
  post_regenerate_agent_token, normalize_map, merge_settings,
}
use dataveda_nifty_agent.Api.Server.{
  MeCall, account, symbol_map, risk_settings, kill_switch, trades, webhook_passphrase, agent_token,
  mapped, limited, switched, secret, respond_me,
}
use dataveda_nifty_agent.Api.Concurrent.Alone.Writes.{twice, ended, go_on, write_alone}

-- A symbol map that is equal to the stored one as a dict has the same order.
abbrev pub KeepsOrder : Runtime → MeCall → Tenant → Type 0
KeepsOrder rt (symbol_map payload) t =
    dict_eq (normalize_map rt [] payload) t.symbol_map ≡ true
    → normalize_map rt [] payload ≡ t.symbol_map
KeepsOrder rt _ t = Unit

module _ (rt : Runtime) (settings : Settings) (call : Call) (now : ℕ) where
  pub me_alone :
      (c : MeCall) (t : Tenant) (db : Db)
      → row_of t.id db.tenants ≡ some t
      → KeepsOrder rt c t
      → go_on rt settings call now (carry_plan t (plan_me rt c t) db)
        ≡ ended (respond_me rt settings c t db)
  unfolding plan_me respond_me put_symbol_map put_risk_settings post_kill_switch
      post_regenerate_webhook_passphrase post_regenerate_agent_token set_kill_switch
      update_symbol_map update_risk_settings regenerate_webhook_passphrase regenerate_agent_token
      proceed
  me_alone (account n later manager) t db found h = refl
  me_alone (symbol_map payload) t db found h =
      write_alone rt settings call now t
        (λ u. record u { symbol_map = normalize_map rt [] payload }) (λ later s. s.symbol_map)
        mapped db found refl (update_settles t _ h)
  me_alone (risk_settings payload) t db found h =
      write_alone rt settings call now t
        (λ u. record u { risk_settings = merge_settings t.risk_settings payload })
        (λ later s. s.risk_settings) limited db found refl (update_settles t _ (λ e. refl))
  me_alone (kill_switch engaged reason) t db found h =
      write_alone rt settings call now t
        (λ u. record u { kill_switch_engaged = engaged; kill_switch_reason = reason })
        (λ later s. (s.kill_switch_engaged, s.kill_switch_reason)) switched db found refl
        (update_settles t _ (λ e. refl))
  me_alone (trades limit offset) t db found h = refl
  me_alone (webhook_passphrase drawn) t db found h =
      let change : Tenant → Tenant =
        λ u. record u { webhook_passphrase_hash = hash_secret rt drawn } in
      write_alone rt settings call now t change (λ later s. drawn) secret db found refl
        (update_settles t _ (λ e. refl))
      ∙ ap (λ (x : Result String × Db). ended (continue x (λ a. pure (secret a))))
          (twice (λ (u : Tenant). (u, drawn)) (λ (y : Tenant × String). y.1) (save t.id change db))
  me_alone (agent_token drawn) t db found h =
      let change : Tenant → Tenant =
        λ u. record u { agent_token_hash = hash_secret rt (generate_id "agent" drawn) } in
      write_alone rt settings call now t change (λ later s. generate_id "agent" drawn) secret db
        found refl (update_settles t _ (λ e. refl))
      ∙ ap (λ (x : Result String × Db). ended (continue x (λ a. pure (secret a))))
          (twice (λ (u : Tenant). (u, generate_id "agent" drawn)) (λ (y : Tenant × String). y.1)
            (save t.id change db))
