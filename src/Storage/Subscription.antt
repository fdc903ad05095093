-- ===== src/Storage/Subscription.antt =====
-- app/storage/repository.py: subscription_status, grant_subscription, revoke_subscription.
pub mod Renewal
pub mod View
use dataveda_nifty_agent.Prelude.{
  ℕ, ◌+◌, ◌-◌, ◌*◌, ◌/◌, Bool, true, false, ◌&&◌, Option, none, some, ltb, leb, if◌then◌else◌,
}
use dataveda_nifty_agent.Storage.Models.{Tenant}
use dataveda_nifty_agent.Storage.Action.{Result, ok, raised, Action, overflow_error, lift, ◌>>=◌}
use dataveda_nifty_agent.Storage.Tenants.{save}

-- Microseconds of a day, and the first instant after 9999-12-31, the last day of a `datetime`.
abbrev pub day : ℕ
day = 86400000000

abbrev pub end_of_time : ℕ
end_of_time = 3652059 * 86400000000

-- timedelta(days=days): at most 999999999 days.
abbrev pub max_days : ℕ
max_days = 999999999

abbrev pub expiring_soon_days : ℕ
expiring_soon_days = 7

pub record Status : Type 0 where
  pub expires_at : Option ℕ
  pub active : Bool
  pub expiring_soon : Bool
  pub days_remaining : Option ℕ

abbrev is_after : ℕ → Option ℕ → Bool
is_after now none = false
is_after now (some t) = ltb now t

-- The whole days of `expires_at - now`, where the subscription is active.
abbrev days_left : Bool → ℕ → Option ℕ → Option ℕ
days_left true now (some t) = some ((t - now) / day)
days_left _ now _ = none

abbrev is_soon : Option ℕ → Bool
is_soon none = false
is_soon (some d) = leb d expiring_soon_days

unfoldable pub subscription_status : ℕ → Tenant → Status
subscription_status now tenant =
    let active = is_after now tenant.subscription_expires_at in
    let days_remaining = days_left active now tenant.subscription_expires_at in
    record {
      expires_at = tenant.subscription_expires_at;
      active = active;
      expiring_soon = active && is_soon days_remaining;
      days_remaining = days_remaining;
    }

-- The later of now and the current expiry.
unfoldable pub renewal_base : ℕ → Option ℕ → ℕ
renewal_base now none = now
renewal_base now (some t) = if ltb now t then t else now

-- base + timedelta(days=days), for a positive number of days.
unfoldable pub add_days : ℕ → ℕ → Result ℕ
add_days base days =
    if leb days max_days && ltb (base + days * day) end_of_time
    then ok (base + days * day)
    else raised overflow_error

-- `tenant` is the row as the caller read it; the new expiry is written over the column.
unfoldable pub grant_subscription : ℕ → Tenant → ℕ → Action Tenant
grant_subscription now tenant days = do
  expiry ← lift (add_days (renewal_base now tenant.subscription_expires_at) days)
  save tenant.id (λ t. record t { subscription_expires_at = some expiry })

unfoldable pub revoke_subscription : ℕ → Tenant → Action Tenant
revoke_subscription now tenant =
    save tenant.id (λ t. record t { subscription_expires_at = some now })
