-- ===== src/Storage/Subscription/View.antt =====
-- The status that the two dashboards show, against the expiry.
use dataveda_nifty_agent.Prelude.{
  inl, inr, Option-cases, ℕ, suc, ◌+◌, ◌*◌, ◌≤◌, ◌<◌, ◌≡◌, ◌↔◌, true, some, arith,
}
use dataveda_nifty_agent.Storage.Models.{Tenant}
use dataveda_nifty_agent.Storage.Subscription.{day, subscription_status}
use dataveda_nifty_agent.Storage.Subscription.Renewal.{renewed}

module _ (now : ℕ) (tenant : Tenant) where
  -- The status is active exactly if there is an expiry and it is after now.
  pub status_active_iff :
      ((subscription_status now tenant).active ≡ true)
      ↔ ((t : ℕ) × (tenant.subscription_expires_at ≡ some t) × (now < t))
  unfolding subscription_status
  status_active_iff = (λ h. ground arith, λ (t, e, h). ground arith)

  -- If the status shows d days remaining, the expiry lies at least d days and less than d + 1 days
  -- ahead.
  pub status_days :
      (d : ℕ)
      → (subscription_status now tenant).days_remaining ≡ some d
      → (t : ℕ) × (tenant.subscription_expires_at ≡ some t)
        × (now + d * day ≤ t)
        × (t < now + suc d * day)
  unfolding subscription_status
  status_days d h = elim (Option-cases tenant.subscription_expires_at) [
    | inl e ↦ ground arith
    | inr (t, e) ↦ (t, e, ground arith, ground arith)
  ]

  -- For a tenant with an expiry, the status says that it expires soon exactly if the expiry is
  -- after now and less than eight days ahead.
  pub status_soon_iff :
      (t : ℕ)
      → tenant.subscription_expires_at ≡ some t
      → ((subscription_status now tenant).expiring_soon ≡ true) ↔ ((now < t) × (t < now + 8 * day))
  unfolding subscription_status
  status_soon_iff t e = (λ h. ground arith, λ h. ground arith)

-- A tenant with d whole days remaining has d + n of them at the same instant once n days are added
-- to the later of now and the expiry.
pub renewal_keeps_days :
    (now : ℕ) (tenant : Tenant) (days d : ℕ)
    → (subscription_status now tenant).days_remaining ≡ some d
    → (subscription_status now (renewed now tenant days)).days_remaining ≡ some (d + days)
unfolding subscription_status
renewal_keeps_days now tenant days d h = elim (Option-cases tenant.subscription_expires_at) [
  | inl e ↦ ground arith
  | inr (t, e) ↦ ground arith
]
