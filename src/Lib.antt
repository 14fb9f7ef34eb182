-- ===== src/Lib.antt =====
-- Ticketer: a flash sale of tickets, in two Go services over Redis, Kafka and PostgreSQL.
--
-- The program. The gateway (services/api-gateway) takes a booking, reserves a ticket with a Lua
-- script in Redis (redis/gatekeeper.go), and writes a pending order to the Kafka topic of orders
-- (handlers/booking.go). A worker (services/order-worker) reads the topic, records the order in
-- PostgreSQL (db/repository.go), simulates its payment (payment/simulator.go), and confirms it, writes
-- it again for a retry, or writes it to the dead letter queue (consumer/consumer.go). A second consumer
-- gives the ticket of a dead order back (consumer/dlq.go). The worker publishes what happened on Redis
-- channels, and the gateway's hub passes it on to WebSocket clients (websocket/hub.go).
--
-- The files.
--   Base       names of the libraries, tests on numbers, Go's `int` as ℤ with `wrap64`, `Result`
--   Strconv    strconv.Itoa and strconv.Atoi
--   Json       encoding/json at the struct OrderEvent of shared/events/events.go: the escapes of a
--              string, the tokens and the grammar of a document, and the members as fields
--   Telemetry  the tracer of telemetry/tracer.go, with stripProtocol
--   Shared     shared/events, shared/models and shared/config
--   Platform   Platform/Redis: the commands of a Redis server as a record, with their laws;
--              Platform/Env: the parameters of a run; Platform/Action: the state and its monad;
--              Platform/Uuid: the texts of one UUID, as the columns of infra/postgres/init.sql
--              read them;
--              Platform/Startup: the surroundings of a program that starts, and its wait for Redis;
--              Platform/Collectors: what a metric is registered with
--   Gateway    under services/api-gateway: Gatekeeper (redis/gatekeeper.go), Http and Booking
--              (handlers/booking.go; Booking/Traffic has sequences of bookings, Booking/Interleaved
--              the phases of concurrent ones, Booking/Rollback and Booking/Resent what lost answers
--              do, Booking/Refunds and Booking/Kept what a booking gives back and keeps), Events
--              (handlers/events.go), Health (handlers/health.go), Hub (websocket/hub.go), Subscriber
--              (redis/subscriber.go), Middleware (the request identifier of middleware/requestid.go,
--              middleware/cors.go and middleware/metrics.go), Server (the routes and the connections
--              of main.go), Main (the start and the shutdown)
--   Worker     under services/order-worker: Repository (db/repository.go), Payment
--              (payment/simulator.go), Reader and Consumer (consumer/consumer.go, with the counters
--              of consumer/metrics.go in Platform/Action and their registration in
--              Worker/Collectors), Dlq (consumer/dlq.go), Main (main.go and telemetry/tracer.go)
--   System     the worker, the subscriber and the hub together; the states that requests, messages
--              and the end of locks lead to, in any order (System/Steps); a booking and its order
--              (System/Booked)
--   Tests      a Redis server in memory, and concrete runs
-- A Go function keeps its name, in this language's spelling: TryAcquireTicket is try_acquire_ticket. A
-- handler is one function for each of its steps, from the last to the first, since a step calls the
-- next one; a comment names the step.
--
-- The state. A World has the store of Redis, the messages published on its channels, the Kafka log, the
-- rows of the table `orders`, the waits, the worker's counters, the gateway's script digest, and two
-- counters, of the calls over the network and of the draws from a source of identifiers, random numbers
-- or times. An Action is a function from a World to a result and a World. Each call asks `net` for its
-- fate: it is carried out and answered, or never arrives, or is carried out and its answer is lost; in
-- the last case go-redis and the kafka.Writer, which services/api-gateway/main.go leaves at their default
-- number of retries, may send it again, and the repetition has a fate of its own. `repeats` counts the
-- repetitions of the calls so far. The pool of pgx repeats no query (services/order-worker/db). A
-- theorem over any network takes every `net`; one with every call carried out assumes IsOnline.
--
-- The abstract sale. A Sale has the tickets left for each event and the lock keys that are held;
-- `reserve` and `release` are what the gatekeeper promises. `Shows` relates a store to a sale, and the
-- refinement theorems say that the script and the pipeline of a release carry these two out.
--
-- Parameters. Redis, Kafka, PostgreSQL's checks of types and references, google/uuid, random numbers,
-- times, the JSON of a time and that of a WebSocketMessage are fields of Redis and Env. What is assumed
-- of them is a named hypothesis: IsRedis, RunsScript, IsOnline, IsClock, DrawsBelow. A script and a
-- pipeline run as a whole. Redis keys expire only as steps of System/Steps, where any lock may end.
--
-- Bounds. Go's `int` has 64 bits: sums and shifts wrap around with `wrap64`. INCR is known to succeed
-- only below 2^63. A send buffer of the hub has 256 places, and the channel from the subscriber to the
-- hub 1000. NewRepository tries 30 times, and both programs send Redis at most 30 pings. Only the
-- digits of Itoa are taken with fuel, one more than the number, and each round divides the number by
-- ten; every other loop is structural. A JSON document may be nested 10000 deep.
--
-- Loops. A loop that waits for messages is a function of the list of what its passes meet, which ends
-- where the run is looked at; the select of the hub and of the write pump is such a list, too.
--
-- Not modelled: how Fiber matches a path to its route, the arrival of a signal (what the shutdown does
-- is modelled), the time-outs, batch sizes and offsets of the Kafka clients, the page of metrics and
-- the timing of what is observed, the deadlines of a WebSocket, and texts that are no valid Unicode.
-- In System/Steps a request or a message is one step, and in Booking/Interleaved a reservation, a write
-- or a rollback is one; finer interleavings of single calls are left out.
pub mod Base
pub mod Gateway
pub mod Json
pub mod Platform
pub mod Shared
pub mod Strconv
pub mod System
pub mod Telemetry
pub mod Tests
pub mod Worker
