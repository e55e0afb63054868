-- ===== src/Lib.antt =====
-- The core of the manager of a fleet of Minecraft console bots: it watches hosts and bots, keeps the
-- history of their states, sends notifications about them, and runs commands and tasks on time.
--
-- The parts and the code they model:
-- - Status: packages/core/src/status and packages/contracts/src/status.ts. Status/Events has the
--   kinds of events; Status/Reachability is nextReachability, one probe of a host; Status/Connection
--   is changesFromSignals and escalateIfStillDown, what a bot's journal says of its connection;
--   Status/Incident is nextIncident, which outage a change belongs to, over the changes of
--   Status/Connection; Status/Drain is drainConnectionChanges of instance-observer.ts, which reads
--   a journal in rounds; Status/Host is recordHostReachability of status.controller.ts, over
--   Status/Reachability and Notification/Announce; Status/Bot is recordInstanceConnection, and
--   Status/Bot/Escalate escalateInstance, of the same file, over Status/Connection, Status/Incident
--   and Notification/Announce; Status/Rollup is rollUpWindow and the windows of a range.
-- - Notification: packages/core/src/notification. Notification/Outcome is the classification of the
--   services' answers (outcome.ts); Notification/Announce is planNotification and announce
--   (producer.ts, announce.ts), which events become notifications; Notification/Delivery is one
--   attempt at a delivery (createDeliveryHandler of delivery.job.ts), over the queries of
--   notification.repository.ts in Notification/Delivery/Store, and takes the outcome of the sender;
--   Notification/Egress is the check of a destination's address (egress.ts): Ranges for its tables,
--   Parse for its texts, Url for URLs and host names.
-- - Transport: Transport/Limiter is createChannelLimiter of packages/transport/src/ssh/limiter.ts.
--   Transport/ReadConnections is createReadConnections of packages/transport/src/read-connections.ts:
--   one connection with its limiter, leases and operations; its Pool has the entries by key, its
--   Leasing what lease, release and evict do, with the opens under way.
-- - Instance: packages/core/src/instance. Instance/Schedule and Instance/Due are schedule.ts and
--   due.ts; Instance/Scheduler is runSchedulerTick of scheduler.ts over claimRun and recordRun of
--   command.repository.ts, and uses isDue; Instance/Task is task.ts, the claims by which a task
--   runs; Instance/TaskRun is sendStepsInOrder of task-run.ts; Instance/TaskScheduler is
--   task-scheduler.ts over the queries of task.repository.ts: Consider is considerTask and carryOut,
--   Sweep the sweep of a tick, as apps/server/src/bootstrap.ts makes it, and Tick is
--   runTaskSchedulerTick. Instance/McConfig is packages/contracts/src/boundary/mcc-config.ts;
--   Instance/ConfigDrift is config-drift.ts, and its Shown toPublicDrift and configDriftFor of
--   reconcile.ts.
-- - Prelude has the shared names, the Boolean tests, lists over the native numbers, and texts as
--   lists of code points.
--
-- The model: a Date is its time in milliseconds since the epoch, an instant before the epoch is
-- none. An identifier is a String, a text that the code looks into is a list of code points. A table
-- is a function from an id to a row, and a query changes it. An await is a step: the handlers run
-- one at a time, as their transactions and claims make them. What throws is `none`, or a result
-- that says so.
--
-- Parameters, by their documented behaviour: the sender of a delivery, the queue, the transport of a
-- connection and the timers (they are events that come in any order), redact, isIP and URL of node,
-- the parser of TOML, the names of the operator's settings, the letters of Unicode,
-- Date.parse, Intl.DateTimeFormat, Math.random, and whether the database throws.
--
-- Fuel: `drive` of Notification/Delivery/Retry follows a delivery over its attempts on fuel; one more
-- than the attempts that the limit leaves is enough, as a theorem there says. Every other loop is
-- structural.
--
-- Not modelled: the sessions with the hosts (ssh), the reconciliation of bots but for the drift of
-- their configuration, journal parsing, the sockets of the senders, the database schema, and the
-- server, worker and web applications, which wire these parts together and present them.
pub mod Instance
pub mod Notification
pub mod Prelude
pub mod Status
pub mod Transport
