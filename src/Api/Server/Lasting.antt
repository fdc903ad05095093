-- ===== src/Api/Server/Lasting.antt =====
-- A kill switch that a customer engages through app/main.py, over the requests that come after.
use dataveda_nifty_agent.Prelude.{String, ◌≡◌, ◌∙◌, refl, true}
use dataveda_nifty_agent.Runtime.{Runtime}
use dataveda_nifty_agent.Storage.Models.{Tenant, Db}
use dataveda_nifty_agent.Api.Server.Requests.{Served}
use dataveda_nifty_agent.Api.Server.Rows.{
  HasRow, save-HasRow, create_tenant-HasRow, HasRow-reserve, HasRow-IsKept,
}

abbrev pub IsEngaged : Tenant → Type 0
IsEngaged t = t.kill_switch_engaged ≡ true

-- The account has its kill switch engaged.
abbrev pub IsStopped : String → String → Db → Type 0
IsStopped = HasRow IsEngaged

pub IsStopped-Served : (rt : Runtime) (id w : String) → Served rt (IsStopped id w) (λ on. on ≡ true)
IsStopped-Served rt id w = record {
  by_save = λ changed change same hook engaged.
      save-HasRow IsEngaged id w changed change same hook (λ t e. engaged t ∙ e);
  by_switch = λ changed on reason h.
      save-HasRow IsEngaged id w changed _ (λ t. refl) (λ t. refl) (λ t e. h);
  by_create =
      λ email drawn now. record { at = create_tenant-HasRow IsEngaged rt id w email drawn now };
  by_reserve = HasRow-reserve IsEngaged rt id w;
  kept = HasRow-IsKept IsEngaged rt id w;
}
