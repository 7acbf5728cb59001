-- ===== src/Lib.antt =====
-- Bond portfolio accounting: a service that records bond transactions, derives positions from them,
-- computes yields and publishes events on an internal bus.
--
-- Portfolio.Netting models src/bond_accounting/portfolio/netting.py: the walk over one bond's
-- history. Portfolio.Store, Dto, Queries, Bodies and Service model portfolio/service.py, with the
-- rows of db/models.py and the payloads of portfolio/dto.py. Bodies holds the blocks under
-- `session.begin()`, Service the commands around them.
--
-- Yield models src/bond_accounting/yield_calc: Schedule the file coupon_schedule.py, Accrued the
-- files accrued_coupon.py and current_yield.py, Ytm the file ytm.py. Dates has what they use of
-- `datetime.date`: a date is its ordinal, and going back past the first day raises. The valuation
-- date is always given.
--
-- Bus models src/bond_accounting/event_bus: Message the files topics.py and message.py, Subscription
-- and State the file async_queue_bus.py, Step its tasks. A command of Bus.Step is what runs in one go
-- between two awaits: a call, the next `queue.put` of a message, a dispatcher's `get`, its handler's
-- return, the end of a cancelled dispatcher, the rest of a `stop` after its wait for those, or a
-- request's timeout or answer. A handler that is cancelled is taken to let the cancellation pass. A
-- run is any sequence of commands, so it covers every order in which the event loop may take them.
-- Handlers are not modelled: what one returns or raises is an argument of the command. The
-- portfolio's commands use the bus only through `publish`, which Portfolio.Action models as the list
-- of accepted events.
--
-- Registry models the services of src/bond_accounting/brokers, bonds and account_operations on the
-- tables that they share: Rows the rows of db/models.py, Payloads the three dto.py, Action what a
-- method does (flush, publish, commit or roll back), Brokers and Accounts the file
-- brokers/service.py, Bonds the file bonds/service.py, Operations the file
-- account_operations/service.py. Linked says when the tables refer to each other as they should,
-- Calls makes runs of the methods. Each method is one step on the tables: the database serialises
-- what two sessions write, and its unique and foreign keys are tests here. Within it the bus may stop
-- or start between two events and the commit may fail: a World carries what each publish and each
-- commit of a run meets.
--
-- Analytics models src/bond_accounting/analytics: Dto the file dto.py, and of service.py Grid the
-- coupon dates, Flows what a bond pays, Positions the analytics of a position, Sections the parts
-- that a query cuts, Summary the computation of a summary, Service the queries with the cache, and
-- Service.Freshness the cache under tasks that interleave: there each of the three queries of a
-- computation, what it makes of them and its store are steps of their own, while Service has a
-- computation read one state of the tables. Sort is `list.sort`, which is stable, and `ORDER BY`.
-- Analytics reads the tables of Registry, the netting of Portfolio and the yields of Yield.
--
-- Auth models src/bond_accounting/auth: Password the file password.py, Users the file service.py up
-- to the token that `login` returns. bcrypt is a parameter, Auth.Password.Bcrypt, whose law is that a
-- password matches its own hash.
--
-- Bounds: a `while` loop over dates runs on rounds. A schedule has as many as the ordinal of the
-- maturity date, and the coupon dates of a yield one more: each round goes back by a day or more and
-- the calendar starts at 1; the coupon loops of Analytics have the ordinal of the maturity date and
-- one. Newton's method and bisection have the 100 and 200 rounds of the source.
--
-- Floats are a parameter, Floats.FloatOps, with no law assumed of their arithmetic, so that no
-- theorem says how good an approximation is. A float operation that raises in Python has some value
-- here.
--
-- Not modelled: log lines; UUIDs, which are a counter; the routes, pages and settings; market data;
-- the JSON web tokens; what the analytics publish and subscribe to; the database and its locks,
-- beyond the tables, their unique and foreign keys and what a transaction makes of an error.
pub mod Prelude
pub mod Floats
pub mod Yield
pub mod Bus
pub mod Portfolio
pub mod Sort
pub mod Registry
pub mod Analytics
pub mod Auth
mod Examples
