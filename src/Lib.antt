-- ===== src/Lib.antt =====
-- The open-balena API: the server that devices of a balena fleet, their users and the Docker registry
-- talk to. This library models those of its parts, under src/, that decide something by themselves,
-- and shows what makes them correct. Every definition stands for the code that the comment at the top
-- of its file, or the one above it, names.
--
-- The parts, their files and their code:
-- - Heartbeat (Heartbeat, Heartbeat/Interval, Heartbeat/Schedule, Heartbeat/Manager):
--   src/features/device-heartbeat/index.ts. Every poll of a device puts it online and queues a message
--   that is due when the next poll is late; the consumer of the queue puts the device into the state
--   timeout, and then offline. Redis, the queue (RSMQ) and the database are the record `Services`,
--   with their documented behaviour as hypotheses in Heartbeat/Schedule. A handler is a function from
--   the `World` to a result and the `World` after it (Base/Effects).
-- - Logs (Logs, Logs/Supervisor, Logs/Reader, Logs/Writer, Logs/Redis): src/features/device-logs/lib,
--   files struct.ts, supervisor.ts, read.ts, store.ts and backends/redis.ts. Batches of logs of a
--   supervisor are converted; a streaming client is served the history and the logs that arrive meanwhile,
--   and those that follow; a streaming device's logs are buffered and published in batches. The streams
--   are state machines:
--   an event is what Node calls a callback with, and a list of events is one interleaving.
--   In Redis the logs of a device are payloads, which are written, cut to the retention limit and read
--   back; the packages that make them are parameters. The clients of an instance subscribe and go.
-- - Registry (Registry, Registry/Grants): src/features/registry/registry.ts, from the scopes of a
--   request to the access that is granted. The patterns are run by the matcher of Base/Regex; the
--   queries of the database are the record `Directory`.
-- - Releases (Releases/Grouping, Releases/Tracking, Releases/Versioning and its children): `groupByMap`
--   of src/lib/utils.ts, and in src/features/ci-cd/hooks the files track-latest-release.ts, by which
--   applications follow their releases, and release-versioning.ts. The hooks of POST and PATCH
--   number the final releases of an application, version and variant. The rows of the table are a
--   list, and a request is a function from the rows to the rows after it, or an error. The package
--   semver, the printing of a number and the term `semver` that the table computes are parameters.
-- - State (State/Config, State/Reports, State/Truncate, State/Devices, State/Delay, State/Target,
--   State/Patch, State/Tags): src/features/device-state, files state-get-utils.ts,
--   state-patch-utils.ts, middleware.ts and, in routes, state-get-v3.ts, state-patch-v2.ts,
--   state-patch-v3.ts and tags-patch-v3.ts. The configuration and the services that a device is told,
--   which reports of devices are written to the database and with which sizes of texts, and which requests reach their
--   handler at all. JSON is a parameter. State/Patch has the bodies of a report, State/Patch/Installs the
--   tables that it is written to, State/Patch/V3 the checks of fetchData and State/Patch/V3/Handler the
--   handler: all its checks come first, then one transaction (State/Patch/Transaction), which is rolled back
--   where the database refuses an image install. State/Patch/V2 is the
--   older handler on the same tables. State/Tags is the handler for the tags of devices.
-- - Names: src/features/vars-schema/env-vars.ts and src/features/tags/validation.ts. Which names of
--   variables and keys of tags are accepted; Base/Regex/Laws reads the patterns by their characters.
-- - Installs (Installs/Hooks, Installs/Task): src/features/ci-cd/hooks/service-installs.ts and
--   tasks/service-installs.ts. Which services the devices are recorded to install, when applications,
--   devices and releases change, at once or by tasks that run out of time. The rows are lists.
-- - Hostapp (Hostapp/Upgrades, Hostapp/Progress): src/features/hostapp/hooks/target-hostapp.ts. The host
--   release that a device should run: the check of an upgrade, and the target after a report. The
--   package balena-semver is a parameter, with its order as a hypothesis. The patches of the target after a
--   report do not run the check of upgrades here, as the hook of the source does for them too.
-- - Supervisor (Supervisor/Order, Supervisor/Best, Supervisor/Rows, Supervisor/Laws, Supervisor/Upgrades):
--   src/features/supervisor-app/hooks/supervisor-app.ts. Which supervisor release manages a device, and
--   which change of it is accepted. balena-semver and the number read from the id are parameters.
-- - Scheduler (Scheduler/Steps, Scheduler/Laws, Scheduler/Slots): src/infra/scheduler/index.ts. A job that
--   several instances are told to run and one of them runs. Any request of Redis and the database may
--   fail: the world says which ones do.
-- - Cache (Cache, Cache/Laws): src/infra/cache, files multi-level-store.ts and multi-level-memoizee.ts. A
--   function with a cache; the package cache-manager is a parameter, with its laws as a hypothesis.
-- Base has the shared helpers: tests on numbers and texts, lists measured by native numbers, results
-- with their effects, `parseInt` and regular expressions.
--
-- Numbers are natural numbers; where the source's may be negative, not a number or infinite, the type
-- says so. Times are numbers of milliseconds, in the poll interval of half milliseconds, since it is
-- multiplied by one and a half. The matcher of Base/Regex has as fuel one round of a star more than
-- there are characters left, which is enough since each round but the last reads one. No other
-- definition has fuel.
--
-- Not modelled: HTTP and its streams, Redis, RSMQ, the database and the ORM, the metrics, and the
-- features that are only hooks around requests of the database.
pub mod Base
pub mod Cache
pub mod Heartbeat
pub mod Hostapp
pub mod Installs
pub mod Logs
pub mod Names
pub mod Registry
pub mod Releases
pub mod Scheduler
pub mod State
pub mod Supervisor
