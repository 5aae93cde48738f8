-- ===== src/Lib.antt =====
-- Lumina Analytics: a service that ingests data of the Stellar network into PostgreSQL, raises
-- alerts, and serves an API. This library models its Rust code.
--
-- The parts, and the file that models each:
--   Logic         src/logic.rs: the decisions that need no database.
--   AlertRules    src/alert_rules.rs: the thresholds and risk bands that operators override.
--   Alerts        src/alerts.rs: severities, and the delivery of one alert.
--   Pricing       src/pricing.rs: the price of an asset from one pool.
--   Pricing.Hops  `ingest_prices` of src/bin/ingest.rs: prices found hop by hop from XLM.
--   Horizon       src/horizon.rs: requests with retries, and lists in pages.
--   Db            src/db/{pools,tokens,whales,pricing,mod}.rs: tables and statements of ingestion;
--                 Db.Transaction: what one transaction does with them. The queries of the API:
--                 Db.Pools, Db.Tvl, Db.Tokens, Db.Whales, Db.Search, and Db.Lending for
--                 src/db/lending.rs.
--   Ingest        src/bin/ingest.rs: the handlers of pools, assets and payments; Ingest.Cycle:
--                 `ingest_payments` and `run_once`. Ingest.Steps and Ingest.Loops carry a relation
--                 of sessions through all their statements; Ingest.Frame, Ingest.Accepted and
--                 Ingest.AllOrNone use it for one whole cycle.
--   Soroban       src/soroban.rs: events of lending pools; Soroban.Position:
--                 `process_event`; Soroban.Cycle: `ingest_lending_cycle`.
--   RateLimit     src/ratelimit.rs: the token bucket for each client.
--   RuleRoutes    src/api/routes/alert_config.rs and src/db/alert_config.rs: the handlers that change
--                 alert rules.
--   Auth          src/auth.rs: the admin key.
--   Api           src/api/routes/mod.rs: responses and pages. Handlers that change something, with
--                 their statements: Api.Alerts, Api.Channels, Api.Watchlist; Api.Router: the
--                 routes to them, on one state, without those that only read and without the
--                 layers. Handlers that read: Api.Lists, Api.Trending, Api.Search,
--                 Api.Liquidations.
--   Cache         src/cache.rs: values kept in Redis.
--   Config        src/config.rs: the configuration from the environment.
--   Metrics       src/metrics.rs: the counters of requests, and their text.
--   Models        src/models: the rows of tables and queries.
--   Prelude, Text, Decimal: integers, maps, outcomes, the methods of `str`, and `Decimal`.
--   Tests         concrete inputs for the theorems.
--
-- `run_once` fetches pools and assets through Horizon, stores snapshots and prices in one
-- transaction, and then records the alerts; `ingest_payments` stores whale payments and the cursor
-- in another. The handlers judge a change with Logic, against the thresholds of AlertRules, and
-- grade it with Alerts. `ingest_lending_cycle` does the same for positions.
--
-- The handlers of the API read those tables, and keep lists of pools and tokens in the cache; the ones
-- that change rules, channels, the watchlist and the marks of alerts first ask `auth::guard`, and
-- what they let into the tables is what alerts are judged and delivered by.
--
-- How the code is read:
--   - `Decimal` is a parameter, with its operations in Decimal.DecimalOps and its laws in
--     Decimal.DecimalLaws; an operation that may overflow gives an Option, and `none` is a panic.
--     Decimal.Micro shows that the laws can be met.
--   - A result is an Outcome: a value, an error for the caller, or a panic.
--   - What a server, a database, a clock or a crate answers is an argument. A `HashMap` is an
--     association list; the order in which one is read is an argument too.
--   - A transaction works on a copy of the tables; a refused statement makes it fail, and then
--     nothing of it is kept.
--   - `get_page` runs on fuel, five attempts, which is the limit on attempts that the code has. Loops
--     over pages and hops count down from the code's own limits (10 or 25 pages, 4 hops).
--   - `f64` is a parameter of the rate limiter, with the operations that it uses; nothing is assumed of
--     how they round.
--   - For an alert of ingestion the values in its message are kept, its text is not.
--   - An order of the database is a stable sort: rows that it does not tell apart come in the order of
--     the table. `NUMERIC` is `Decimal`, and a value that this cannot hold makes a query fail.
--   - A handler returns its response and the tables after; the text of an error of the database is
--     left out. A body that cannot be read is refused before the handler, and is left out.
--
-- Not modelled: the forwarding of live events, the entry points, and the setup of connections.
pub mod Prelude
pub mod Text
pub mod Decimal
pub mod Models
pub mod AlertRules
pub mod Logic
pub mod Alerts
pub mod Pricing
pub mod Horizon
pub mod Auth
pub mod Db
pub mod Ingest
pub mod Soroban
pub mod RateLimit
pub mod Cache
pub mod RuleRoutes
pub mod Api
pub mod Metrics
pub mod Config
pub mod Tests
