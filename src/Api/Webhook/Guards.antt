-- ===== src/Api/Webhook/Guards.antt =====
-- What the webhook does before it trusts a request.
use dataveda_nifty_agent.Prelude.{
  Bool-cases, inl, Option-cases, inr, ◌⊎◌, String, ◌≡◌, refl, Option, none, some, arith, eq_iff,
}
use dataveda_nifty_agent.Python.Json.{
  Json, null, boolean, int, float, str, arr, obj, Fields, get_field,
}
use dataveda_nifty_agent.Runtime.{Runtime}
use dataveda_nifty_agent.Models.Signal.{TradingViewSignal, validate}
use dataveda_nifty_agent.Models.Order.{OrderRequest, OrderResult}
use dataveda_nifty_agent.Storage.Models.{Tenant, Db}
use dataveda_nifty_agent.Storage.Action.{
  continue, pure, Exception, Result, ok, raised, http, Action,
}
use dataveda_nifty_agent.Storage.Action.Keeps.{continue-pure}
use dataveda_nifty_agent.Storage.Tenants.{hash_secret, get_tenant_by_webhook_id}
use dataveda_nifty_agent.Router.{Times, process_signal}
use dataveda_nifty_agent.Security.{passphrase_matches}
use dataveda_nifty_agent.Api.Webhook.{tradingview_webhook, given_passphrase}

-- A request that the webhook lets through to `process_signal`: a tenant's hook, a JSON object with the
-- tenant's passphrase, and a valid signal.
pub record IsTrusted (rt : Runtime) (webhook_id : String) (body : Option Json) (db : Db)
    (tenant : Tenant) (signal : TradingViewSignal) : Type 0 where
  pub raw : Fields
  pub parsed : body ≡ some (obj raw)
  pub found : get_tenant_by_webhook_id webhook_id db ≡ (ok (some tenant), db)
  pub passphrase :
      hash_secret rt (given_passphrase rt (get_field "passphrase" raw))
      ≡ tenant.webhook_passphrase_hash
  pub valid : validate rt raw ≡ some signal

module _ (rt : Runtime) (times : Times) (broker : Tenant → OrderRequest → Action OrderResult)
    (webhook_id : String) (body : Option Json) (db : Db) where
  abbrev answer : Result (String × OrderResult) × Db
  answer = tradingview_webhook rt times broker webhook_id body db

  -- For a known hook and a JSON object with the tenant's passphrase and a valid signal, the
  -- webhook answers with the signal's id and the result of process_signal for that tenant and
  -- signal, or raises what it raises, and leaves the database as it does.
  pub trusted_signal :
      (tenant : Tenant) (signal : TradingViewSignal)
      → IsTrusted rt webhook_id body db tenant signal
      → answer
        ≡ continue
            (process_signal rt times tenant signal (broker tenant) db)
            (λ result. pure (signal.signal_id, result))
  unfolding tradingview_webhook passphrase_matches
  trusted_signal tenant signal t = rw (t.found) (
      rw (t.parsed) (
        rw (t.valid) (
          ground (
            arith,
            eq_iff (hash_secret rt (given_passphrase rt (get_field "passphrase" t.raw)))
                tenant.webhook_passphrase_hash,
            t.passphrase,
          ))))

  trusted-db :
      (tenant : Tenant) (signal : TradingViewSignal)
      → IsTrusted rt webhook_id body db tenant signal
      → answer.1 ≡ (process_signal rt times tenant signal (broker tenant) db).1
  trusted-db tenant signal t = rw (trusted_signal tenant signal t) (
      continue-pure (λ result. (signal.signal_id, result))
        (process_signal rt times tenant signal (broker tenant) db))

  abbrev Guarded : Type 0
  Guarded =
      ((tenant : Tenant) × (signal : TradingViewSignal) × IsTrusted rt webhook_id body db tenant
          signal
        × (answer.1 ≡ (process_signal rt times tenant signal (broker tenant) db).1))
      ⊎ ((e : Exception) × (answer ≡ (raised e, db)))

  module _ (tenant : Tenant)
      (found : get_tenant_by_webhook_id webhook_id db ≡ (ok (some tenant), db)) where
    of_object : (raw : Fields) → body ≡ some (obj raw) → Guarded
    unfolding tradingview_webhook passphrase_matches
    of_object raw b =
        elim (Bool-cases (
          passphrase_matches (hash_secret rt (given_passphrase rt (get_field "passphrase" raw)))
            tenant.webhook_passphrase_hash)) [
              | inr wrong ↦ inr (http 401, rw found (rw b (rw wrong)))
              | inl right ↦ elim (Option-cases (validate rt raw)) [
                | inl invalid ↦ inr (http 422, rw found (rw b (rw right (rw invalid))))
                | inr (signal, valid) ↦
                    let t : IsTrusted rt webhook_id body db tenant signal = record {
                      raw = raw;
                      parsed = b;
                      found = found;
                      passphrase = (eq_iff _ _).0 right;
                      valid = valid;
                    } in
                    inl (tenant, signal, t, trusted-db tenant signal t)
              ]
            ]

    of_json : (j : Json) → body ≡ some j → Guarded
    unfolding tradingview_webhook
    of_json (obj raw) b = of_object raw b
    of_json null b = inr (http 400, rw found (rw b))
    of_json (boolean x) b = inr (http 400, rw found (rw b))
    of_json (int x) b = inr (http 400, rw found (rw b))
    of_json (float x) b = inr (http 400, rw found (rw b))
    of_json (str x) b = inr (http 400, rw found (rw b))
    of_json (arr x) b = inr (http 400, rw found (rw b))

    of_tenant : Guarded
    unfolding tradingview_webhook
    of_tenant = elim (Option-cases body) [
      | inl b ↦ inr (http 400, rw found (rw b))
      | inr (j, b) ↦ of_json j b
    ]

  of_found :
      (x : Result (Option Tenant)) → get_tenant_by_webhook_id webhook_id db ≡ (x, db) → Guarded
  unfolding tradingview_webhook
  of_found (raised e) h = inr (e, rw h refl)
  of_found (ok none) h = inr (http 404, rw h refl)
  of_found (ok (some tenant)) h = of_tenant tenant h

  -- A webhook request has a known hook, a JSON object with the tenant's passphrase and a valid
  -- signal, and then the database is as process_signal leaves it for that tenant and signal; or it
  -- raises and writes nothing.
  pub webhook_guarded :
      ((tenant : Tenant) × (signal : TradingViewSignal) × IsTrusted rt webhook_id body db tenant
          signal
        × (answer.1 ≡ (process_signal rt times tenant signal (broker tenant) db).1))
      ⊎ ((e : Exception) × (answer ≡ (raised e, db)))
  unfolding get_tenant_by_webhook_id
  webhook_guarded = of_found (get_tenant_by_webhook_id webhook_id db).0 refl
