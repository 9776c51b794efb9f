-- ===== src/Lib.antt =====
-- domainturva, an uptime monitor: a model of its core and the theorems that make it correct.
--
-- The program checks sites on a schedule and sends alerts. A scheduler (internal/scheduler) starts a
-- worker for each site and kind of check; the checkers (internal/checker) return a `CheckResult`; one
-- consumer hands each result to the alerting engine (internal/alerting), which reads the site's state
-- and the alert log from the store (internal/storage), and returns the new state and the alerts. The
-- consumer writes the state and starts a goroutine for each recipient that the routing names
-- (internal/config); the goroutine calls the notifier and writes one record to the alert log
-- (internal/notifier). The health endpoint (internal/health) reads the states.
--
-- Files, and the code that they model:
--   Prelude     Boolean tests, lists, the signed integers with `int64` arithmetic, maps as association
--               lists, text, results; what the libraries give.
--   Time        `time.Time` as nanoseconds from the zero time, `time.Duration` as an `int64`.
--               Time/Calendar has the dates, Time/Rfc3339 the texts of times that the database keeps,
--               and Time/Ascii digits and the order of texts.
--   Storage     internal/storage/storage.go: the records and the interface. Storage/Memory is
--               memory.go; Storage/Lawful is the contract that the clients rely on, and
--               Storage/Memory/Laws fills it. Storage/States is a weaker one, of site states alone, for
--               stores that may report errors. Storage/Sqlite is sqlite.go; Sqlite/States has it as a
--               `Storage`, Sqlite/Migrations is `migrate` and `OpenSQLite`, Sqlite/View reads the tables
--               as an in-memory store, Sqlite/Runs has sequences of writes, Sqlite/Search and
--               Sqlite/Misses are about searches. Migrations/Order is about the order of the files.
--   Notifier    internal/notifier: the alert (notifier.go), the notifiers' constructors (Backend:
--               slack.go, smtp.go, console.go) and the dispatcher (dispatcher.go). Notifier/Smtp and
--               Notifier/Slack are `Notify` of smtp.go and of slack.go, the latter with
--               internal/buildinfo/buildinfo.go.
--   Checker     internal/checker/types.go; Checker/Http is http.go, Checker/Ssl is ssl.go and
--               Checker/Domain is domain.go, with Domain/Answers about its lookups. Checker/Days is the
--               number of days that both compute in `float64`.
--   Config      internal/config/config.go: the structs, `applyDefaults` and routing. Config/Validate
--               is `Validate`, Config/Valid and Config/Validity say what it accepts.
--               Config/Environment is `expandEnv`; Config/Load is `Load` and `IntList`.
--   Alerting    internal/alerting/alerting.go: `Process`. Alerting/Http is `decideHTTP`, with the
--               abstract machine in Http/Machine; Alerting/Expiry is `decideSSL` and `decideDomain`;
--               Alerting/Band is `currentThresholdBand` and Alerting/Duration is `formatDuration`.
--   Scheduler   internal/scheduler/scheduler.go: the jobs, `runOne` and `process`. Scheduler/Traces
--               has runs: results in any order, with the writes of the goroutines and of the domain
--               checker between them. Scheduler/Once, Scheduler/Silent and Scheduler/Stored go from
--               one check to the next. Scheduler/Shutdown has the moves of the goroutines once the
--               context is cancelled, and Scheduler/Logging is `logResult`.
--   Health      internal/health/health.go: `handleHealthz`. Health/Server is `New`, `Enabled` and
--               `Run`.
--   Main        cmd/domainturva/main.go: `buildNotifiers`. Main/Flags is `parseCommon` and `mkLogger`,
--               Main/Commands the choice of a subcommand, `checkCmd`, `validateCmd` and
--               `versionString`, and Main/Startup is `runCmd`.
--   Examples    tests, and the theorems at work on concrete values.
--
-- Conventions. Code that changes state takes the state and returns the new one. The store is a
-- record of operations over a state, the clock and what the network does are arguments: an
-- `Exchange` is one HTTP attempt, a `Handshake` one TLS connection, a `Lookups` the answers of the
-- registries, an `Attempts` is what becomes of each call of one notification, and a `Server` is what
-- a mail server answers to each command at each point of a session. An operation of the SQLite
-- store takes the error of the driver, if any, and its SQL statements are read as functions on
-- lists of rows. A Go error is `err` of a `Result`, or a value of `ConfigError`. Machine integers wrap at 64 bits by `wrap64`, and a
-- difference of times is held to the range of a `Duration` as `Sub` does. The parameters of the
-- model are the layouts of `time.Format` and `time.Parse` where alerts and registries use them,
-- `url.Parse`, `net.SplitHostPort`, `encoding/json`, `strings.ToUpper`, the YAML decoder, the
-- WHOIS parser, the scripts of the migrations, and how `fmt` prints lists and quoted text. The one
-- layout of the database, RFC 3339 with nanoseconds in UTC, is written out, for the years 0 to
-- 9999. The retry loop of the HTTP checker recurs on the number of rounds left, which is the
-- number that the code computes; the digits of a number are printed on a fuel of 20, and an
-- `int64` has at most 19. The scale of a `float64` is searched for on a fuel of 113, which is
-- enough for numbers from 2 ^ -60 on; the least one that occurs is a nanosecond in hours.
--
-- Not modelled: the usage text, the console notifier, which writes a log line, `PayloadJSON`, the
-- handlers of the logger, the HTTP server's handling of requests, and `Close`, which only closes
-- the database. Of the scheduler's timers, the first delay is modelled; a timer fires at any time,
-- so a worker may deliver a result at any time.
pub mod Prelude
pub mod Time
pub mod Storage
pub mod Notifier
pub mod Checker
pub mod Alerting
pub mod Config
pub mod Scheduler
pub mod Health
pub mod Examples
pub mod Main
