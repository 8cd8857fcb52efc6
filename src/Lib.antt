-- ===== src/Lib.antt =====
-- The backend that locates faults of optical fibers from OTDR traces, of the directory backend: its
-- algorithms on traces, its localization cases with their life cycle, its routes, traces and events,
-- its accounts and tokens, the routes of its HTTP interface with who may use them, its rate limiter, the
-- redaction of its audit log, and its start.
--
-- How the parts interact. `main` loads the configuration (Config), prepares the database (Auth/Seed) and
-- sets up the program (Http/Start). A request gets an id, passes the middleware of its route (Http/Router,
-- Http/Middleware: the account of its token by Auth, its role, the rate limiter of
-- Middleware/RateLimiter) and reaches a handler (Http/Handlers), which reads its id, query and body (Http)
-- and calls a service: of cases (Cases/Service), routes (Routes/Service), traces (Traces/Service), events
-- (Events) or a listing (Listings). The services read through the repositories (the modules called
-- Repository) and write in transactions (Database), each with an entry of
-- the audit log (Audit) whose documents are redacted (Snapshot). The analysis of a case compares the
-- events of two traces (Algorithm/Compare); events are found in a trace by Algorithm/Detect, on
-- samples smoothed by Algorithm/Denoise, at distances computed by Algorithm/Distance.
--
-- Files and sources:
--   Algorithm/Distance, Denoise, Detect, Compare: backend/internal/algorithm/distance.go,
--     denoise.go, detect.go, compare.go; the loops are recursive functions (`peaks_from`,
--     `merge_from`, `detect_loop`, `match_all`, `nearest_from`, `unused_from`, `primary_from`).
--   Constants: backend/internal/constants/case.go and event.go.
--   Errors, Audit: the application errors and `Actor` of backend/internal/service/auth_service.go,
--     `audit` of service/route_service.go, `Create` of repository/audit_repository.go.
--   Snapshot, Json, Pages: `snapshot`, `scrubSnapshot`, `normalizePage` of
--     backend/internal/service/route_service.go.
--   Middleware/RateLimiter: `RateLimiter` of backend/internal/middleware/middleware.go.
--   Model: the rows of backend/internal/model.
--   Database, Database/Open: `Store.Transaction` and `Open` of
--     backend/internal/repository/user_repository.go, and what the repositories use of gorm.
--   Cases/Repository, Documents, Service with its Base, Creation, Analysis and Decision:
--     backend/internal/repository/case_repository.go and backend/internal/service/case_service.go. A
--     method is split where it loops or branches (`check_traces`, `take_back`, `recover`, `start_analysis`, `run_analysis`, `fail_analysis`,
--     `finish_analysis`, `confirm_case`, `close_case`).
--   Routes/Repository, Service: backend/internal/repository/fiber_route_repository.go and
--     backend/internal/service/route_service.go.
--   Events/Repository, Service, Detection: backend/internal/repository/event_repository.go and
--     trace_repository.go as far as used, and `Review` and `Detect` of
--     backend/internal/service/event_service.go.
--   Traces/Service: backend/internal/service/trace_service.go, `Create` of
--     repository/trace_repository.go.
--   Listings, Listings/Filters, Listings/Services: the methods `List` of backend/internal/repository and
--     backend/internal/service.
--   Auth, Auth/Seed: `Login` and `Parse` of backend/internal/service/auth_service.go, the reads of users
--     and `MigrateAndSeed` of backend/internal/repository/user_repository.go.
--   Http, Http/Handlers: backend/internal/handler, and the methods `Get` of the route and case services.
--   Http/Middleware: backend/internal/middleware/middleware.go. Http/Router: backend/internal/router, where
--     an endpoint stands for the method and path that gin matches.
--   Config: backend/internal/config/config.go. Http/Start: backend/cmd/server/main.go up to
--     `ListenAndServe`.
--   Strings: what is used of Go's packages strings, strconv and unicode.
--   Database/Preserves has the relations of the tables before and after that a computation may keep, with
--     the rules of its steps; Writes names the calls that write; Cases/Guarantee, Http/Keeps and
--     Http/Safe carry such a relation from the writes to whole requests. Cases/Keeps, Audit/Appended,
--     Traces/Lasting, Events/Lasting and Routes/Lasting are the relations shown, and Http/Requests and
--     Http/History apply them to histories of requests.
--   Audit/Logged, Audit/Methods and Http/Audited are about the entries that requests leave in the
--     audit log.
--   Cases/Rows, Calls, Locking, Inversion, Guards, Created, Released, Routes/Codes,
--     Routes/Baseline, Events/Reviewed, Detected and Replaced, Traces/Imported and Stored,
--     Listings/Bounds, Auth/Session and Seeded, Http/Access, Refused, Admitted, Logged and Inputs,
--     Config/Bounds, Database/Atomic and Extends, Writes/Frames, Strings/Decimal and the child modules
--     of Algorithm, Snapshot and RateLimiter hold the proofs; Tests the runs on a database in memory.
--
-- What is assumed. float64 is a parameter (Float): its operations, and in IsFloat the facts on
-- comparison, minimum and rounding that the theorems use; fixed-point numbers with a NaN meet them.
-- gorm and the database are a parameter (Table, Env): any call may fail at any moment, and IsTable
-- and IsReplacing state what a successful one does. Before each read and each transaction the other requests run
-- (`others`), of which a theorem on histories assumes that they keep what it shows; a transaction
-- itself is serial. IsPaging states that a page is cut as asked. The packages
-- jwt and bcrypt are a parameter (Crypto), with IsJwt for what is relied on of tokens; gin's binding of
-- bodies, the validator, the random bytes, `time.Parse`, the size of a
-- written answer and `json.Unmarshal` of differences are one (Library). IsIdSource states that the random
-- bytes are as many as asked for, and that a time is written in the form of a layout of fixed fields.
-- LIKE, the ping, gorm's migration, `unicode.ToLower` beyond ASCII, `unicode.ToUpper` and the formats of
-- other times are parameters.
--
-- Representation. `int` is ℤ and `uint` is ℕ; indices, ids and counts stay far below the bounds of
-- their words, but the increment of a version held in memory is written modulo 2^64, and the offset of a
-- page, whose number the client chooses, is wrapped to 64 bits (`wrap_int`). A time is a number of
-- nanoseconds. A JSON column is its document. `sort.Slice` is an insertion sort, and no theorem uses an
-- order among equal elements. Every loop is structural recursion, so there is no fuel.
--
-- Not modelled: the log line of a panic, the match of a path, the encoding of an answer, listening and
-- the shutdown, panics but the one of the role's assertion, `CaseStatus.Valid` and
-- `EventTypes`, which nothing calls, and the frontend, in another language. While a request is served,
-- the limiters and the access log change by its own calls alone. A `json.Marshal` of these rows does
-- not fail, and the value that a failing method returns beside its error is left out.
pub mod Prelude
pub mod Errors
pub mod Strings
pub mod Float
pub mod Config
pub mod Constants
pub mod Algorithm
pub mod Middleware
pub mod Http
pub mod Json
pub mod Snapshot
pub mod Model
pub mod Database
pub mod Audit
pub mod Auth
pub mod Cases
pub mod Routes
pub mod Events
pub mod Traces
pub mod Writes
pub mod Pages
pub mod Listings
pub mod Tests
