-- ===== src/Lib.antt =====
-- Verification of the keeper: the service that holds the datasets of a web application firewall,
-- takes changes to them as events, and sends each change to its mirrors as a package.
--
-- The parts and how they interact. An event goes through Submit (internal/keeper/keeper.go), which
-- checks it and queues a job. The planner gathers jobs, decides which fit, and calls Set.Plan
-- (internal/set/set.go), which makes a plan of the changes on top of all plans that still wait. Its
-- package (internal/wire/pack.go) carries the number and the hash that the set will have. The
-- committer writes the plan to Redis (internal/state/state.go) and then calls Set.Commit, or
-- Set.Abort where the store refused. The planner runs ahead of the committer, so several plans
-- wait.
--
-- Which file models which part:
--   Base       shared: native numbers, integers, byte strings, maps, bits, text forms
--   Sets       internal/set: Types, State, Load, Planning (Plan), Committing (Commit), Expiry
--              (Expired), Heap (expHeap and container/heap), of set.go; Canon of canon.go; SipHash of siphash.go; Material of
--              material.go; Netip, what is used of net/netip. Ideal and Pipeline are the independent
--              description of a set and the invariant of its waiting plans
--   Wire       internal/wire: Frames of wire.go, Pack of pack.go
--   Store      internal/state/state.go: Meta, Commands (what Commit, Reset and Drop send, and the
--              records of Load), and Redis, the methods over a server whose commands meet the laws in
--              Redis.IsLawful. Redis.Memory is a server that meets them; Redis.Durable and
--              Redis.Recovery say what the server holds of a set and what mount makes of it
--   Keeper     internal/keeper/keeper.go: Types, Submit, Planner, Committer, Mount (mount, Define,
--              Reload, Start, drop), Serve (Snapshot, Lookup); Flow relates the planner and the
--              committer, follows an event to Lookup, and says what Define and Reload leave; Queue is
--              about the counter of the queue, Durability is the committer with the server, Statistics has Stats and the round of the tick loop
--   Bus        internal/bus/bus.go: the handlers, and in Slots the goroutines of events as steps
--   Program    the connections of store.Open, state.Open, Connect and Serve, and Start, main of
--              cmd/keeper/main.go, with the panic of its ticker for an interval that is not positive
--   Report     Pulse of internal/pulse/pulse.go, Page of internal/httpapi/httpapi.go
--   Config     Settings of internal/config/config.go, Seconds of internal/nginxtime/nginxtime.go,
--              Catalog of the row scan and the two queries of internal/store/pg.go, Startup of the
--              loops of cmd/keeper/main.go that wait for a server
--   Tests      the theorems at concrete inputs, and runs
--
-- How state and operations correspond. A struct is a record with the fields of the source, less its
-- mutex: a method of Set takes the mutex for its whole run, so it is one function from state to
-- state. A channel is the list of what it holds, first in first out; what was sent on reply
-- channels and on the bus is recorded in the holder. A Go map is an association list; the order in
-- which the source ranges over a map is the list's, and the theorems do not depend on it. A string
-- is its bytes. A uint64 is a native number with its remainder written out; an int64 is an integer,
-- wrapped where the source's arithmetic can leave the range. Times and durations are nanoseconds.
-- Random values, the clock, the outcome of a store's call and the case that a select takes are
-- arguments. What the admission of a batch reads is an argument of its own: Size and each Fresh
-- take the lock of the set, so the committer may move on between them and before Plan runs; `always
-- s` are the reads of a set that does not change. Submit checks the counter of the queue and adds
-- to it in two operations: enqueue_job takes what Load gave as an argument, Queue.Race has the
-- operations of many calls in any order, and submit is a call that no other one comes between. The
-- life of a snapshot counts in Redis from when it took the object, which Freshness has as an
-- argument.
--
-- Bounds and fuel. format_nat has fuel for 20 digits, which a uint64 does not exceed. The sweep has
-- as much fuel as there are values, and each round takes at least one where the batch size is
-- positive, as New makes it. Expired has as much fuel as the heap has items, and each round takes
-- one off; up and down of the heap have the length of the array, and each round goes a level up or
-- down, so its place in the array falls or rises. The loops that wait for a server have thirty
-- rounds. The loop over the text to trim is on its length. Hypotheses of the form `pend_seq + 1 < 2
-- ^ 64` and `gen + 1 < 2 ^ 64` say that a counter does not wrap.
--
-- What is assumed of others. A transaction of Redis that reports no error ran as a whole, and one
-- that reports an error did not run; a score is a float64, so an expiry is read back as it is where
-- 53 bits hold it; an origin has no separator 0x1f. Of a CIDR set, the theorems on a restart take
-- that the text of a prefix has the hash of the prefix.
--
-- What is not modelled: the NATS client, the routing and the listener of net/http, the frame that
-- the shared library puts into a pulse, the SQL and the driver of internal/store, the journal and
-- the log level of cmd/keeper, JSON (its decoders are an argument of the bus), the Redis client and
-- its timeouts, logs. netip's parsers and printers and md5 are the record Library;
-- time.ParseDuration is an argument.
pub mod Base
pub mod Sets
pub mod Wire
pub mod Store
pub mod Keeper
pub mod Bus
pub mod Program
pub mod Report
pub mod Config
pub mod Tests
