-- ===== src/Lib.antt =====
-- A relay from TradingView alerts to MetaTrader 5: a hosted server (app/) takes an alert on a
-- customer's webhook, checks it, and sends an order over a WebSocket to the agent that the customer
-- runs beside the terminal (bridge_agent/agent.py).
--
-- The parts, and the files that model them:
--   Models       app/models: signals with their validation, orders and results
--   Storage      app/storage/repository.py over the tables of app/storage/models.py: Tenants
--                (accounts, secrets, lookups), Subscription, Settings, Credentials, Trades (the log)
--   Risk         app/risk/manager.py: check_risk
--   Router       app/services/order_router.py: process_signal; Router/Tasks has the same call as a
--                task, one step per await, so that calls interleave
--   Ws           app/ws: Manager is ConnectionManager (its send_request in Manager/SendRequest),
--                Relay is WSRelayBroker, a broker in the sense of app/brokers/base.py (Brokers)
--   Security     app/security/auth.py
--   Api          app/main.py: Auth, Account, Admin, Webhook, Sessions (the agents' sockets), Bodies (the
--                models of the requests' bodies), Server for all routes and any history of requests,
--                and Concurrent for requests that interleave
--   Agent        bridge_agent/agent.py: Client is MT5Client, Frames the messages, Loop the backoff and
--                Run the whole of run
--   Startup      app/storage/db.py and the lifespan of app/main.py
--   Scripts      scripts/reset_tenant_credentials.py
--   Python       the parts of Python that the code stands on: floats, texts, JSON, dict
--   Runtime      what comes from outside the repository, as the fields of one record
--   Prelude      lists, Boolean tests and uniqueness for all of these
--   Tests        the theorems at concrete inputs
-- A definition has the name of the Python function that it models, without a leading underscore.
--
-- How the parts meet: a webhook call finds the tenant (Storage.Tenants), validates the signal
-- (Models.Signal) and calls process_signal (Router), which reserves the signal's key in the log
-- (Storage.Trades), checks the risk (Risk), and asks the broker. The broker is Ws.Relay, which writes
-- a frame and waits in Ws.Manager; the agent's frame comes in by Api.Sessions.
--
-- State: the database is a record of two lists of rows, an action goes from it to a result or an
-- exception and a database, and what was committed before an exception stays. The manager is a
-- record of two dicts and the list of futures, as a future is reached by more than one name.
-- The clock, the drawn tokens and the ids of uuid4 are arguments.
--
-- Bounds: times are microseconds since 0001-01-01 in UTC, and a date past 9999 raises. A finite float
-- is a whole multiple of 2 ^ -1074, which every double is; comparisons and signs are exact, and sums,
-- which round, are parameters. Texts are Unicode scalar values. Every loop is over a list, so no
-- fuel is needed.
--
-- Orders of steps: in Api/Server a request is one step, but others run while a webhook call waits for
-- the agent. In Router/Tasks the calls of process_signal interleave at every await, and in
-- Api/Concurrent all requests do, with those calls: a row is read in one step, and written in a later
-- one, to the columns that changed (Storage/Columns), whatever was stored in between.
--
-- Not modelled: SQLAlchemy's sessions but for the columns that an UPDATE writes, logging, static
-- files, the agent's command line, web/ (the dashboards), and the texts of answers that only explain.
-- SHA-256, pydantic's coercions, the driver's binding, SQL's SUM, printing and `ipaddress` are
-- parameters, as is the MetaTrader5 package. Rows of one instant are listed in the order of their
-- insertion, which SQL leaves open. A frame to the agent whose fields have types that the server does
-- not write counts as one on which the agent raises.
pub mod Prelude
pub mod Python
pub mod Runtime
pub mod Models
pub mod Storage
pub mod Risk
pub mod Brokers
pub mod Ws
pub mod Router
pub mod Security
pub mod Api
pub mod Agent
pub mod Scripts
pub mod Startup
pub mod Tests
