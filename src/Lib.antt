-- ===== src/Lib.antt =====
-- UniFi MCP server: a verification library for the Python package unifi_mcp (src/unifi_mcp/).
--
-- The program is an MCP server that gives tools over UniFi controllers. Its tools call an HTTP
-- client with a shared read cache (clients/base.py); an optional runtime keeps events, webhook
-- deliveries, schedules and observations in SQLite (runtime/), which a scheduler drives.
--
-- Files and what they model (paths below src/unifi_mcp/):
--   Base        shared names, lists, results, JSON values (Base/Json), and SQL tables as lists of
--               rows with the statements that the repositories issue (Base/Table)
--   Exceptions  exceptions.py
--   Http        clients/base.py: Response (one exchange and its errors), Cache (what a call does to
--               the read cache), Coherence (calls in flight together), Retry (the decorator)
--   Jobs        runtime/jobs.py
--   Scheduler   runtime/scheduler.py: Claim (taking due schedules: Exclusion of two claims, Table for
--               what a claim does to each row), Execute (the retry loop and the transactions round it)
--   Events      runtime/events.py, events/models.py: Ingest (one page of a source: Stored for the rows
--               that it adds, Repeat for a second time, Cursors)
--   Destinations  security/destinations.py, and `_post_validated` of runtime/webhooks.py: Ssrf (which
--               addresses a request can reach)
--   Webhooks    runtime/webhooks.py: Claim (taking due deliveries), Deliver (an attempt, its outcome
--               and a round of them, which an unexpected exception can cut short)
--   Polling     events/sources.py, events/poller.py: Windows (pages and cursors), Isolation (the poll of
--               one source next to the others)
--   Store       runtime/store.py: Migration (schema versions), Lifecycle (connections and transactions)
--   Observations  runtime/observations.py: Buckets (what a trend covers), Ranges (when)
--   Qos         runtime/qos.py: Targets (the rows of a plan's clients), Plans (creation and lookup)
--   Verification  tools/network/_verification.py: Bounded (the loop of verify_eventually), Compare (the
--               comparison of a record with what was requested)
--   Networks    tools/network/sites.py: Find (names and ids), Range (DHCP pools), Create, Update and
--               Delete (the tools, with the shared Settle), Outcomes (what a reply says of the
--               request), Confirm (what a success was confirmed by), Pools (the pool after a change)
--   NetworkClient  clients/network.py: Monad (the requests of a method, one after another), Answers,
--               Site, Devices, Clients, Configuration and Ports (the methods), Merge and Merged (port
--               overrides), Guard (what each API refuses), Changes (what a change sends), Trace and
--               Single (the changes that also read), Modes (what the settings make available), Lookup
--               (sites and devices)
--   Authorization  auth/authorization.py: Policy (the scopes of a tool call)
--   Oidc        auth/oidc.py: Verify (from a token to its acceptance), Metadata (where documents come
--               from), Keys (the key of an id), Header (what a header names), Accept (what an
--               accepted token has shown), Refresh (how often a token forces a refresh of the keys)
--   Organization  runtime/client_organization.py: Isolation (what a change leaves of the other clients)
--   Settings    config.py: Safe (what settings that pass validation promise)
--   LocalAuth   auth/local.py: Sessions (the session's state and headers)
--   Plugins     plugins.py: Registry (the extensions), Load (the entry points)
--
-- Each operation of the code is one function, named as in the code, from the tables or the context
-- that it reads to the new ones and its result. An `async` operation is cut where it awaits:
-- SQLite transactions are atomic, and a call of the HTTP client has a part before it waits for the
-- controller (Http.Cache.begin) and one after it (Http.Cache.finish), which Http.Coherence
-- interleaves freely. Exceptions are the `err` of a result. Times are natural numbers of
-- microseconds; the tables hold them as ISO texts in UTC, which sort as the times do. Fresh ids
-- (uuid4) are arguments.
--
-- Fuel: the retry loop of a job has as much fuel as it may make attempts, which is shown to be
-- enough; `verify_eventually` recurs on the attempts that are left, the buckets of a trend on
-- their number, and everything else on lists.
--
-- Parameters: what a pydantic model accepts, what a handler or a controller does, and tenacity's
-- decorator, of which only its documented stop is assumed; whether `json.dumps` takes the result of a
-- job, and whether a transaction of SQLite begins and commits. Not modelled: the wording of messages,
-- logging, JSON texts (values are modelled, a float by its text, which no integer equals), changes of
-- the controller by other clients or by a mutation whose call has already ended (Http.Coherence), and
-- the parts that PROJECT.json lists as such.
pub mod Authorization
pub mod Base
pub mod Destinations
pub mod Events
pub mod Exceptions
pub mod Http
pub mod Jobs
pub mod LocalAuth
pub mod NetworkClient
pub mod Networks
pub mod Observations
pub mod Oidc
pub mod Organization
pub mod Plugins
pub mod Polling
pub mod Qos
pub mod Scheduler
pub mod Settings
pub mod Store
pub mod Verification
pub mod Webhooks
