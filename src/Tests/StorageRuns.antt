-- ===== src/Tests/StorageRuns.antt =====
-- Subscriptions and writes of the tenants' rows.
use dataveda_nifty_agent.Prelude.{◌+◌, ◌*◌, ◌<◌, ◌≡◌, ◌↔◌, refl, true, some, arith}
use dataveda_nifty_agent.Storage.Models.{Tenant}
use dataveda_nifty_agent.Storage.Tenants.Save.{row_of}
use dataveda_nifty_agent.Storage.Subscription.{day, subscription_status, grant_subscription}
use dataveda_nifty_agent.Storage.Subscription.Renewal.{IsStored, renewed, stale_grant_overwrites}
use dataveda_nifty_agent.Storage.Subscription.View.{status_soon_iff}
use dataveda_nifty_agent.Tests.Data.{tenant, db}

db-IsStored : IsStored tenant db
db-IsStored = record { unique = (refl, tt); stored = refl }

stale_grant_overwrites_example :
    row_of "ten_1" (grant_subscription 11 tenant 7 (grant_subscription 10 tenant 30 db).1).1.tenants
    ≡ some (renewed 11 tenant 7)
stale_grant_overwrites_example =
    stale_grant_overwrites 10 11 tenant 30 7 db db-IsStored (omega arith) (omega arith)
      (omega arith) (omega arith)

-- Three days and a bit to go.
abbrev ending : Tenant
ending = record tenant { subscription_expires_at = some (3 * 86400000000 + 500) }

status_soon_iff_example :
    ((subscription_status 10 ending).expiring_soon ≡ true)
    ↔ ((10 < 3 * 86400000000 + 500) × (3 * 86400000000 + 500 < 10 + 8 * day))
status_soon_iff_example = status_soon_iff 10 ending (3 * 86400000000 + 500) refl

abbrev upgraded : Tenant → Tenant
upgraded t = record t { plan = "pro" }
