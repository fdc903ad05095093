-- ===== src/Brokers.antt =====
-- app/brokers/base.py: the interface of a broker integration.
use dataveda_nifty_agent.Prelude.{String, List}
use dataveda_nifty_agent.Python.Json.{Fields}
use dataveda_nifty_agent.Models.Order.{OrderRequest, OrderResult}
use dataveda_nifty_agent.Storage.Action.{Action}

-- Each method is a coroutine: while it waits, other tasks may change the database.
pub record BrokerAdapter : Type 0 where
  pub name : String
  pub place_order : OrderRequest → Action OrderResult
  pub get_open_positions : Action (List Fields)
  pub get_account_summary : Action Fields
