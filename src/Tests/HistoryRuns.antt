-- ===== src/Tests/HistoryRuns.antt =====
-- Requests to the server, one after another.
use dataveda_nifty_agent.Prelude.{inl, ◌≡◌, refl, true, false, some, arith, any, eq_iff, ℕ}
use dataveda_nifty_agent.Api.Server.{
  Request, History, quiet, then_request, signup, customer, administrator, webhook, kill_switch,
  grant, revoke, respond, serve, switched, viewed, signed_up, to_signup_reply, reset, respond_admin,
  renewed,
}
use dataveda_nifty_agent.Python.Float.{pos}
use dataveda_nifty_agent.Python.Json.{obj, str}
use dataveda_nifty_agent.Python.Text.{after_prefix, strip}
use dataveda_nifty_agent.Storage.Action.{ok, raised, http}
use dataveda_nifty_agent.Storage.Tenants.{
  Draws, same_key, new_tenant, get_tenant_by_api_key, hash_secret, generate_id, get_tenant_by_id,
  save, set_row, others,
}
use dataveda_nifty_agent.Ws.Manager.{replied}
use dataveda_nifty_agent.Agent.Frames.{reply_frame}
use dataveda_nifty_agent.Agent.Client.{accepted}
use dataveda_nifty_agent.Api.Auth.{
  Settings, default_settings, get_current_tenant, get_current_admin,
}
use dataveda_nifty_agent.Api.Admin.{to_view, admin_reset_credentials}
use dataveda_nifty_agent.Api.Webhook.Halt.{IsHalted}
use dataveda_nifty_agent.Api.Server.Valid.{DbValid}
use dataveda_nifty_agent.Api.Server.Halts.{revoke_halts}
use dataveda_nifty_agent.Api.Server.Requests.{AreSpared}
use dataveda_nifty_agent.Api.Server.KillSwitch.{kill_switch_lasts}
use dataveda_nifty_agent.Api.Server.SignedUp.{created, secrets, with_account, Opens, signup-Opens}
use dataveda_nifty_agent.Api.Server.Strangers.{stranger_refused}
use dataveda_nifty_agent.Security.{passphrase_matches}
use dataveda_nifty_agent.Storage.Credentials.{ResetDraws, reset_tenant_credentials}
use dataveda_nifty_agent.Api.Sessions.{Hub, agent_ws}
use dataveda_nifty_agent.Api.Server.Lockout.{IsReset, reset_locks_out}
use dataveda_nifty_agent.Tests.Data.{rt, tenant, db, times}
use dataveda_nifty_agent.Tests.ServerRuns.{raw}
use dataveda_nifty_agent.Tests.RouterRuns.{db-TradesValid}

abbrev pub keyed : Settings
keyed = record default_settings { admin_api_key = "key" }

abbrev pub drawn : Draws
drawn = record {
  api_key = "2";
  webhook_id = "hook2";
  webhook_passphrase = "pass2";
  agent_token = "2";
  tenant_id = "2";
}

pub db-DbValid : DbValid db
unfolding same_key
db-DbValid = record { accounts = (refl, tt); log = db-TradesValid }

-- A sign-up, an alert during whose order the customer engages the kill switch, and a grant.
abbrev pub history : History
history = then_request (signup "b@example.org" drawn 20) (
    then_request
      (webhook "hook" (some (obj raw)) times
        (some (replied (reply_frame (str "q1") (accepted "7" "done"))))
        (then_request (customer "Bearer sk_live_1" (kill_switch true "holiday")) quiet))
      (then_request (administrator "key" 30 (grant "ten_2" (pos 30))) quiet))

pub login : get_current_tenant rt "Bearer sk_live_1" db ≡ (ok tenant, db)
unfolding get_current_tenant after_prefix strip get_tenant_by_api_key hash_secret
login = refl

spared : AreSpared (λ engaged. engaged ≡ true) history
unfolding AreSpared
spared = (tt, ((refl, tt), (tt, tt)))

kill_switch_lasts_example :
    ((respond rt keyed (customer "Bearer sk_live_1" (kill_switch true "holiday")) db).0
      ≡ ok (switched (true, "holiday")))
    × IsHalted rt times "hook" (
        serve rt keyed
          (then_request (customer "Bearer sk_live_1" (kill_switch true "holiday")) history)
          db)
kill_switch_lasts_example =
    kill_switch_lasts rt keyed "Bearer sk_live_1" "holiday" tenant db db-DbValid login history
      spared times

revoke_halts_example :
    ((respond rt keyed (administrator "key" 7 (revoke "ten_1")) db).0
      ≡ ok (viewed (to_view 7 (record tenant { subscription_expires_at = some 7 }))))
    × IsHalted rt times "hook" (respond rt keyed (administrator "key" 7 (revoke "ten_1")) db).1
revoke_halts_example =
    revoke_halts rt keyed 7 "ten_1" tenant db db-DbValid (λ e. ground (arith, eq_iff "key" "")) refl
      times (omega arith)

free : any (same_key (new_tenant rt "b@example.org" drawn 20)) db.tenants ≡ false
unfolding same_key new_tenant hash_secret generate_id
free = refl

whole : strip (generate_id "sk_live" "2") ≡ generate_id "sk_live" "2"
unfolding strip generate_id
whole = refl

signup-Opens_example :
    (respond rt keyed (signup "b@example.org" drawn 20) db ≡ (
      ok (
          signed_up (
            to_signup_reply (
              created rt keyed "b@example.org" drawn 20 db,
              secrets rt keyed "b@example.org" drawn 20 db,
            ))),
      with_account rt keyed "b@example.org" drawn 20 db,
    ))
    × Opens rt keyed "b@example.org" drawn 20 db
        (to_signup_reply (
          created rt keyed "b@example.org" drawn 20 db,
          secrets rt keyed "b@example.org" drawn 20 db,
        ))
        (with_account rt keyed "b@example.org" drawn 20 db)
signup-Opens_example = signup-Opens rt keyed "b@example.org" drawn 20 db free whole

stranger_refused_example :
    respond rt default_settings (administrator "" 7 (revoke "ten_1")) db ≡ (raised (http 401), db)
stranger_refused_example =
    stranger_refused rt default_settings db (administrator "" 7 (revoke "ten_1")) (inl refl)

abbrev new_secrets : ResetDraws
new_secrets = record { api_key = "9"; webhook_passphrase = "9"; agent_token = "9" }

abbrev reset_request : Request
reset_request = administrator "key" 7 (reset new_secrets "ten_1")

done-IsReset :
    IsReset rt keyed 7 "ten_1" tenant new_secrets db (respond rt keyed reset_request db).1
unfolding respond respond_admin admin_reset_credentials get_current_admin passphrase_matches
    get_tenant_by_id reset_tenant_credentials save set_row others same_key hash_secret generate_id
done-IsReset = record {
  stored = refl;
  new_key = λ e. ground (arith, eq_iff "hash of sk_live_9" "hash of sk_live_1");
  new_token = λ e. ground (arith, eq_iff "hash of agent_9" "hash of agent_1");
  response = renewed (
    record tenant {
      api_key_hash = "hash of sk_live_9";
      webhook_passphrase_hash = "hash of 9";
      agent_token_hash = "hash of agent_9";
    },
    record { api_key = "sk_live_9"; webhook_passphrase = "9"; agent_token = "agent_9" },
  );
  answers = refl;
}

reset_locks_out_example :
    (get_current_tenant rt "Bearer sk_live_1" (respond rt keyed reset_request db).1
      ≡ (raised (http 401), (respond rt keyed reset_request db).1))
    × ((websocket : ℕ) (hub : Hub)
        → agent_ws rt websocket "agent_1" hub (respond rt keyed reset_request db).1
          ≡ (ok (hub, some 1008), (respond rt keyed reset_request db).1))
unfolding after_prefix strip hash_secret
reset_locks_out_example =
    reset_locks_out rt keyed 7 "ten_1" tenant new_secrets db (respond rt keyed reset_request db).1
      db-DbValid (λ e. ground (arith, eq_iff "key" "")) done-IsReset "Bearer sk_live_1" "sk_live_1"
      "agent_1" refl refl refl
