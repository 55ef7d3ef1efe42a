-- ===== src/Lib.antt =====
-- nodepulse: a fleet monitor. An agent on each node (cmd/agent) runs collectors (pkg/collector),
-- sends heartbeats to a server (cmd/server) and restarts what fails, under a circuit breaker
-- (pkg/autoheal) and a policy for each class of workload (pkg/policy). The server keeps its state in
-- SQLite behind one store (pkg/store), which opens incidents, notifies the owner of the node, and
-- closes incidents again. This library models the parts that decide: when a restart or a call is let
-- through, how a command reads, what notifies whom, and which incidents stay open.
--
-- The files, and the code that they model:
-- - Base, Base/*: tests into Bool, integers over the native numbers, lists, Go maps as functions from
--   a key to what a read gives. Window: the entries of a list of instants that lie in a window, the
--   loop of purgeLocked (pkg/autoheal/cooldown.go) and of Allow (pkg/store/ratelimit.go).
-- - Breaker: pkg/autoheal/cooldown.go. Breaker for the struct, new_breaker for NewBreaker,
--   new_breaker_with_strategy, allow, record_outcome (Record), record_crash (RecordCrash), strategy,
--   purge_locked, command_key (Key). Breaker/Gate holds the calls as data; Breaker/Ledger a
--   reference for one target that forgets nothing; Breaker/Refine and Breaker/History relate the two;
--   Breaker/Frame, Bounds and Spacing are about the calls.
-- - Text: strings.TrimSpace, SplitN on a colon, Replace, Contains, ToLower. Text/Split: Split and Join. Command and
--   Command/Grammar: ParseCommand and PlanCommand of pkg/collector/autoheal_plan.go.
-- - Policy, Policy/*: pkg/policy/policy.go.
-- - Limiter, Limiter/*: pkg/store/ratelimit.go. Limiter/Reference keeps every admitted instant;
--   Limiter/Refine and Limiter/History relate the limiter to it, Limiter/Bound counts.
-- - Store: the rows and tables of pkg/store/sqlite.go that the incident code uses, and the outcome of
--   each SQL statement. GetNodeOwner and getSettingsLocked of pkg/store/settings.go, BindNode.
-- - Maintenance, Maintenance/Silence: pkg/store/maintenance.go, but for the listing and
--   AutoCloseIncidentsInMaintenance.
-- - Incident: CreateIncident, notifyAfterCreate of pkg/store/sqlite.go. Incident/Actions: what
--   operators do (ResolveIncident, pkg/store/callback_actions.go, pkg/store/snooze.go).
--   Incident/Sweeps: pkg/store/resolve.go. Incident/Watchdog: pkg/store/silent_watchdog.go and
--   AutoCloseIncidentsInMaintenance. Incident/Open, Unique, History, Runs and Trace are about
--   all these operations together, Incident/Newest, Repeats and Quiet about repeated reports,
--   Incident/Rights about who may resolve.
-- - Invite, Invite/Once: CreateInvite and RedeemInvite of pkg/store/sqlite.go.
-- - AlertRules, AlertRules/Valid, AlertRules/History: pkg/store/alert_rules.go, but for the
--   listings.
-- - Memory, Memory/Recent: pkg/store/memory.go.
-- - Heal, Heal/Watch: ExecuteCommand, restartDockerContainer and restartSystemdService of
--   pkg/collector/autoheal.go. A round of the poll loop is a number; what the daemon answers in it and
--   how long it takes are inputs (Outside). The watch has fuel for six rounds: a round pauses for a
--   second and the grace is five.
-- - Agent, Agent/*: the loop over the commands of an answer, flushLogs, classifyCommandFunc and the
--   cache of breakers of cmd/agent/main.go, on top of Breaker, Policy, Command and Heal. Agent/Pinned
--   follows the breaker of a key, Agent/Spacing and Agent/Logs are about the rounds.
-- - Tags, Tags/*: pkg/store/tags.go, but for its listings, and nodeMatchesTagSelectorLocked of
--   pkg/store/alert_rules.go. A set of tags is a list.
-- - Evaluator: MetricsAlertRulesForNode and pkg/store/alert_evaluator.go, over the tables (World).
--   The maps breached and firing are AlertEvaluator; a fatal error of the runtime is the outcome
--   `crashed`. Evaluator/Turns holds evaluations as data, with anything else that happens to the
--   tables in between; Evaluator/Dwell is about the time that a breach has lasted, Evaluator/Fire
--   and Evaluator/Calm about reports. Incident/Calm is about CreateIncident where no statement fails.
-- - Uptime: pkg/store/uptime.go, but for AllNodesUptime. A day is its number since the epoch.
--   Uptime/Even and Uptime/Online are about what is credited, Uptime/Keys and
--   Uptime/Days about the buckets of NodeUptimeDaily.
-- - Network: pkg/store/netmetrics.go, but for LatestNetworkRates, NetworkSummary and NetworkSeries.
--   The rows keep the counters as they came, without the conversion to int64. Network/Tracker and
--   Network/Totals are about the differences of counters, Network/Digits about i64ToA, whose loop
--   has fuel for the 20 bytes of its buffer; a write in front of the buffer is `none`.
-- - Accounts: Register, RegisterByTelegram, Authenticate, GetUserByToken and ValidateToken of
--   pkg/store/sqlite.go. Accounts/Tokens and Accounts/Prefix are about the tokens of Register,
--   Accounts/History about histories of calls. Slices of texts count characters, as they do for ASCII.
-- - Billing, Billing/Once: the invoices, the plans and the limit of nodes of pkg/store/billing.go.
-- - Targets, Targets/Windows: the parsers of pkg/probe/targets.go, and parseTLSVersion of
--   pkg/probe/tls.go.
-- - Metrics: RecordSample of pkg/store/metrics.go.
-- - Ingest: Ingest of pkg/store/sqlite.go over the parts above (Server), with none where the process
--   ends. The record Floats holds the operations of floats. Ingest/Unique and Ingest/Whole follow the
--   open incidents through a heartbeat.
-- - Examples, Examples/*: the theorems at concrete inputs, and runs.
--
-- How the code is read:
-- - A reading of the clock is an argument. Instants and durations of pkg/autoheal, the limiter and
--   the sweeps are nanoseconds, row columns are unix seconds. A function that reads the clock several
--   times has one argument for each reading where the readings matter; the sweeps and the watchdog
--   take one reading for the whole pass.
-- - A lock that a method holds from its start to its end is left out: the model runs one such method
--   after the other.
-- - A table is the list of its rows, SQL text is what it does to the rows, and every statement may
--   meet an error of the driver: Store.faults says which of the statements to come fail. A theorem
--   about any store is one about any such errors. Rows that Scan rejects are left out.
-- - What leaves the process is the list Store.outbox, in the order of the calls; delivery and its
--   retries are behind it. Log lines are left out.
-- - Integers are unbounded natural or whole numbers; where a product may overflow int64
--   (Policy/Delays) the wrap-around is written out.
-- - Every loop but those two with fuel (Heal, Network) is structural recursion on what it walks.
-- - Parameters: `lower` is unicode.ToLower on a character; `parse_chat` is strconv.ParseInt on a chat
--   id, with none for an error and for 0; `silence_detail` is the text of a duration; `at_most`
--   compares a float with a number, as `is_above` and `is_loaded` do, and `is_gt`
--   and `is_lt` two floats; `atoi`, `equal_fold` and
--   `upper` are strconv.Atoi, strings.EqualFold and unicode.ToUpper; `sha` is the text
--   of a SHA-256, `show` a number in digits; `message` is the text of an error, `detail` of an alert, `show_id` of an
--   id; `pct` and `per` are the
--   quotients of floats, `at_least`, `whole` and `tenths` their comparison and conversion to int64;
--   `is_one` is what SQLite answers to `? = 1` for a text. No hypothesis is made of any of them.
--
-- Not modelled: HTTP handlers and the bot (cmd/server), the transport of notices (pkg/alerter),
-- the collectors that read the system, the probes, the client of payments (pkg/billing), most read-only queries
-- and reports of pkg/store, and the web pages: they are input and output around the parts above.
pub mod Base
pub mod Window
pub mod Breaker
pub mod Text
pub mod Command
pub mod Policy
pub mod Limiter
pub mod Store
pub mod Maintenance
pub mod Incident
pub mod Invite
pub mod Agent
pub mod Heal
pub mod Memory
pub mod Tags
pub mod Evaluator
pub mod Uptime
pub mod Network
pub mod Accounts
pub mod Billing
pub mod Targets
pub mod Metrics
pub mod Ingest
pub mod AlertRules
mod Examples
