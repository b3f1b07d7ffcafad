-- ===== src/Lib.antt =====
-- hookbound: signed webhooks in Go, received through a guard against replays and sent from a durable
-- PostgreSQL queue.
--
-- A receiver (receiver.go) reads a request's bounded body, has a verifier (signing.go) check its
-- signature, validates the message (message.go, id.go), claims its source and identifier from a replay
-- guard (replay.go), gives it to the handler, and commits or releases the claim. The store
-- (postgres/store.go) is a durable inbox, which is such a handler, and a durable outbox: publishers
-- enqueue deliveries, workers claim them under a lease, make one attempt each, whose outcome outcome.go
-- reads off the response, and complete it; retry.go says when the next attempt is due. A cleaner
-- (postgres/cleanup.go) removes what has ended. A worker (postgres/runtime.go) has a sender (sender.go)
-- make the attempt: it signs the request (standard/standard.go), authenticates it (auth.go), and hands it
-- to an HTTP client, whose connections transport/policy.go restricts. standard/, provider/github and
-- provider/stripe hold the verifiers that a receiver may have.
--
-- Files, with the Go files that they model:
--   Base, Base/*          native numbers, integers, byte strings, UTF-8, decimals, base32, base64,
--                         hexadecimal, white space, tables by key
--   Errors                errors.go: the codes as a data type, a fallible call as a Result
--   Retry, Retry/Laws     retry.go: `next` is RetryPolicy.Next
--   Http                  what the program uses of net/http's header maps
--   Message, Message/Laws id.go and message.go: the validations
--   Ids                   the random identifiers of id.go and postgres/store.go
--   Outcome, Outcome/Laws outcome.go: `classify` is DefaultClassifier.Classify
--   Replay, Replay/*      replay.go: the locked sections of MemoryReplayGuard as functions of the guard;
--                         Replay/System has any number of requests that share a guard, as a step
--                         relation whose steps are those sections
--   Signing               signing.go: the values that verifiers take and give
--   Receiver, Receiver/*  receiver.go: `serve_http` is Receiver.ServeHTTP over a state that the
--                         verifier, the handler and the guard change; Receiver/Memory puts replay.go's
--                         guard into that place
--   Standard, Standard/*  standard/standard.go: the keys, the signers and the verifier in Keys, Signers
--                         and Verifier, what these share in Standard, and the laws beside them
--   Auth, Auth/Laws       auth.go: an authenticator is a function on requests that may fail
--   Sender, Sender/*      sender.go: `send` is Sender.Send, and answers with the requests that it hands
--                         to the HTTP client as well; Sender/EndToEnd joins it to the verifier
--   Provider, Provider/*  provider/github/github.go and provider/stripe/stripe.go
--   Registry, Registry/Laws  handler.go: registration and dispatch by event type
--   Transport, Transport/Laws  transport/policy.go: ValidateURL and the dialler
--   Postgres/Tables, Rows the tables of postgres/migrations as lists of rows, and the SQL of the queries
--   Postgres/Transition   deliveryTransition and receiptTransition of postgres/store.go
--   Postgres/Delivery, Enqueue, Receipt   the operations of postgres/store.go, each a function from the
--                         database to the database and the answer; the children invert and use them
--   Postgres/Cleanup, Postgres/Cleanup/Removes   postgres/cleanup.go, and which deliveries it removes
--   Postgres/System       runs of all these operations over one database
--   Postgres/Schema, Postgres/Schema/Quoting   postgres/schema.go and NewStoreWithConfig
--   Postgres/Canonical    canonicalHeaders, and the headers as JSON gives them back
--   Postgres/Migrate, Postgres/Migrate/Laws   postgres/migrate.go: `migrate_with_config` is
--                         MigrateWithConfig over one schema's ledger and tables
--   Postgres/Runtime      postgres/runtime.go: a worker's step as the operations that it runs, among
--                         which other processes commit, and the checks of NewRuntime; Runtime/Laws has
--                         the ways in which an outbound step ends
--   Tests                 runs on concrete data, and the theorems applied to it
--
-- Instants and durations are integers of nanoseconds, and an instant counts from Go's zero time; the
-- tests against math.MaxInt64 are those of the source, and instants themselves do not wrap. Bytes are
-- numbers, a string is a list of them. Parameters stand for what the repository does not hold: the
-- application's verifier and handler, the clock, the entropy, SHA-256, HMAC, Ed25519, the JSON decoder,
-- the HTTP client, what key and secret providers answer, url.Parse, http.ParseTime, the resolver, the
-- dialler, the collation of the database, and what it does with a migration's statement. The one fuel
-- is that of FormatInt: 20 digits, where an int64 has at most 19.
--
-- A transaction runs alone and, if it fails, changes nothing, a failure of its commit included; `Env`
-- says which statements fail, what the clock reads, and which rows others hold locked where a query
-- skips locked rows. What commits in the middle of an enqueue, between its look at the publication key
-- and its insertion, is a function that the enqueue takes. Error messages, causes and details are not
-- modelled, nor contexts and timeouts (a wait for a channel may end at any time), nor copies made
-- against aliasing, nor nil receivers and claims, nor the microseconds to which PostgreSQL rounds.
-- A provider answers once in an operation, as it does in the source. Not modelled at all: HandleJSON of
-- handler.go, qualifyQuery of postgres/schema.go, the goroutines, timers and contexts of the worker loop,
-- the HTTP client's own settings, what the SQL of a migration does, the test kit, the command line and the examples.
pub mod Base
pub mod Errors
pub mod Retry
pub mod Http
pub mod Message
pub mod Ids
pub mod Outcome
pub mod Replay
pub mod Signing
pub mod Standard
pub mod Registry
pub mod Transport
pub mod Auth
pub mod Sender
pub mod Provider
pub mod Receiver
pub mod Postgres
pub mod Tests
