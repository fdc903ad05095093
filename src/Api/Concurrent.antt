-- ===== src/Api/Concurrent.antt =====
-- app/main.py as the event loop runs it: at each await on the database other requests may come in
-- between, so a request is a task that goes from one database call to the next.
pub mod World
pub mod Keeping
pub mod Refines
pub mod Everywhere
pub mod Valid
pub mod Admitted
pub mod Blocked
pub mod KillSwitch
pub mod Revoked
pub mod Alone
pub mod Lost
pub mod Stale
use dataveda_nifty_agent.Prelude.{ℕ, String, Bool, Option, none, some, List, [], ◌∷◌, ◌++◌}
use dataveda_nifty_agent.Python.Float.{pos_part}
use dataveda_nifty_agent.Python.Json.{Json}
use dataveda_nifty_agent.Runtime.{Runtime}
use dataveda_nifty_agent.Models.Signal.{TradingViewSignal, validate}
use dataveda_nifty_agent.Storage.Models.{Tenant, Db}
use dataveda_nifty_agent.Storage.Action.{Result, ok, raised, stale_data, Action, pure, ◌>>=◌, ◌>>◌}
use dataveda_nifty_agent.Storage.Columns.{commit, refresh}
use dataveda_nifty_agent.Storage.Tenants.{Draws, hash_secret, generate_id, get_tenant_by_webhook_id}
use dataveda_nifty_agent.Storage.Subscription.{renewal_base, add_days}
use dataveda_nifty_agent.Router.Tasks.{Task, starting, Inputs, advance, System, sent_by}
use dataveda_nifty_agent.Api.Auth.{Settings, or_http, get_current_tenant, get_current_admin}
use dataveda_nifty_agent.Api.Account
use dataveda_nifty_agent.Api.Account.{get_me, get_trades, normalize_map, merge_settings}
use dataveda_nifty_agent.Api.Admin.{to_view, positive_days, known_tenant, admin_list_tenants}
use dataveda_nifty_agent.Api.Webhook.{json_object, check_passphrase, or_unprocessable}
use dataveda_nifty_agent.Api.Server.{
  MeCall, account, symbol_map, risk_settings, kill_switch, trades, webhook_passphrase, agent_token,
  AdminCall, tenants, grant, revoke, reset, Response, signed_up, me, mapped, limited, switched,
  traded, secret, listed, viewed, renewed, to_signup_reply,
}

-- A request that uses the database.
pub data Call : Type 0 where
  newcomer : (email : String) → Draws → Call
  of_customer : (authorization : String) → MeCall → Call
  of_admin : (x_admin_key : String) → AdminCall → Call
  alert : (webhook_id : String) → (body : Option Json) → Call

-- Where a request stands, before its next await.
pub data Progress : Type 0 where
  arrived : Progress
  -- the handler has the tenant's row as it was read
  loaded : Tenant → Progress
  -- committed; the answer is made of the refreshed row
  committed : (id : String) → (answer : ℕ → Tenant → Response) → Progress
  over : Result Response → Progress
  -- process_signal goes on with it
  handed_over : Progress

-- What a handler does with the row that it has: it reads on, or sets attributes and commits.
pub data Plan : Type 0 where
  reads_on : (Db → Response) → Plan
  writes : (set : Tenant) → (answer : ℕ → Tenant → Response) → Plan

abbrev after_call : Result Progress × Db → Progress × Db
after_call (ok progress, db) = (progress, db)
after_call (raised e, db) = (over (raised e), db)

abbrev pub granted : Tenant → Result ℕ → Result Plan
granted t (ok expiry) = ok (
    writes (record t { subscription_expires_at = some expiry })
      (λ now saved. viewed (to_view now saved)))
granted t (raised e) = raised e

module _ (rt : Runtime) where
  unfoldable pub plan_me : MeCall → Tenant → Plan
  unfolding hash_secret generate_id
  plan_me (account now later manager) t = reads_on (λ db. me (get_me rt now later manager t db))
  plan_me (symbol_map payload) t =
      writes (record t { symbol_map = normalize_map rt [] payload })
        (λ now saved. mapped saved.symbol_map)
  plan_me (risk_settings payload) t =
      writes (record t { risk_settings = merge_settings t.risk_settings payload })
        (λ now saved. limited saved.risk_settings)
  plan_me (kill_switch engaged reason) t =
      writes (record t { kill_switch_engaged = engaged; kill_switch_reason = reason })
        (λ now saved. switched (saved.kill_switch_engaged, saved.kill_switch_reason))
  plan_me (trades limit offset) t = reads_on (λ db. traded (get_trades limit offset t db))
  plan_me (webhook_passphrase drawn) t =
      writes (record t { webhook_passphrase_hash = hash_secret rt drawn })
        (λ now saved. secret drawn)
  plan_me (agent_token drawn) t =
      let new_token = generate_id "agent" drawn in
      writes (record t { agent_token_hash = hash_secret rt new_token })
        (λ now saved. secret new_token)

  -- No row is loaded for the list of tenants.
  unfoldable pub plan_admin : ℕ → AdminCall → Tenant → Result Plan
  unfolding hash_secret generate_id
  plan_admin now (tenants limit offset) t = raised stale_data
  plan_admin now (grant id days) t =
      granted t (add_days (renewal_base now t.subscription_expires_at) (pos_part days))
  plan_admin now (revoke id) t = ok (
      writes (record t { subscription_expires_at = some now })
        (λ later saved. viewed (to_view later saved)))
  plan_admin now (reset drawn id) t =
      let new_api_key = generate_id "sk_live" drawn.api_key in
      let new_token = generate_id "agent" drawn.agent_token in
      ok (
        writes
          (record t {
            api_key_hash = hash_secret rt new_api_key;
            webhook_passphrase_hash = hash_secret rt drawn.webhook_passphrase;
            agent_token_hash = hash_secret rt new_token;
          })
          (λ later saved. renewed (
            saved,
            record {
              api_key = new_api_key;
              webhook_passphrase = drawn.webhook_passphrase;
              agent_token = new_token;
            },
          )))

-- A handler's reads, or its UPDATE.
abbrev pub carry_plan : Tenant → Plan → Db → Progress × Db
carry_plan t (reads_on answer) db = (over (ok (answer db)), db)
carry_plan t (writes set answer) db =
    after_call ((do saved ← commit t set; pure (committed t.id answer)) db)

abbrev pub try_plan : Tenant → Result Plan → Db → Progress × Db
try_plan t (ok plan) db = carry_plan t plan db
try_plan t (raised e) db = (over (raised e), db)

abbrev pub tasks_of : Result (Tenant × TradingViewSignal) → List Task
tasks_of (ok (tenant, signal)) = record { tenant = tenant; signal = signal; stage = starting } ∷ []
tasks_of (raised e) = []

module _ (rt : Runtime) (settings : Settings) where
  -- The webhook's part before process_signal.
  unfoldable pub admit : String → Option Json → Action (Tenant × TradingViewSignal)
  admit webhook_id body = do
    found ← get_tenant_by_webhook_id webhook_id
    tenant ← or_http 404 found
    raw ← json_object body
    check_passphrase rt tenant raw
    signal ← or_unprocessable (validate rt raw)
    pure (tenant, signal)

  -- An /admin handler up to its row.
  unfoldable pub open_admin : String → ℕ → AdminCall → Action Progress
  open_admin key now (tenants limit offset) = do
    views ← admin_list_tenants settings key now limit offset
    pure (over (ok (listed views)))
  open_admin key now (grant id days) = do
    get_current_admin settings key
    positive_days days
    t ← known_tenant id
    pure (loaded t)
  open_admin key now (revoke id) = do
    get_current_admin settings key
    t ← known_tenant id
    pure (loaded t)
  open_admin key now (reset drawn id) = do
    get_current_admin settings key
    t ← known_tenant id
    pure (loaded t)

  -- The first database call of a request.
  unfoldable pub open_call : Call → ℕ → Action Progress
  unfolding admit open_admin
  open_call (newcomer email drawn) now = do
    created ← Account.signup rt email drawn now
    pure (over (ok (signed_up (to_signup_reply created))))
  open_call (of_customer authorization call) now = do
    t ← get_current_tenant rt authorization
    pure (loaded t)
  open_call (of_admin key call) now = open_admin key now call
  open_call (alert webhook_id body) now = do admitted ← admit webhook_id body; pure handed_over

  -- What the handler of a request makes of the row that was loaded; a sign-up and an alert load none.
  unfoldable pub plan : Call → ℕ → Tenant → Result Plan
  unfolding plan_me plan_admin
  plan (of_customer authorization call) now t = ok (plan_me rt call t)
  plan (of_admin key call) now t = plan_admin rt now call t
  plan _ now t = raised stale_data

  -- One step of a request, at the instant `now`.
  unfoldable pub proceed : Call → ℕ → Progress → Db → Progress × Db
  unfolding open_call plan
  proceed call now arrived db = after_call (open_call call now db)
  proceed call now (loaded t) db = try_plan t (plan call now t) db
  proceed call now (committed id answer) db =
      after_call ((do saved ← refresh id; pure (over (ok (answer now saved)))) db)
  proceed call now (over r) db = (over r, db)
  proceed call now handed_over db = (handed_over, db)

  -- The task of process_signal that an alert becomes.
  unfoldable pub entering : Call → Progress → Db → List Task
  unfolding admit
  entering (alert webhook_id body) arrived db = tasks_of (admit webhook_id body db).0
  entering _ _ db = []
