-- ===== src/Lib.antt =====
-- planes: the planning backend and the runtime of a mission-planning service for aircraft.
--
-- The program. A client submits a planning job over HTTP (src/planes/backend/api.py). The service
-- (service.py) checks it and appends it as a queued row to a SQLite table (store.py). Worker
-- processes (worker.py) claim the first queued row, refuse it when the wind exceeds every selected
-- aircraft (wind_filter.py) or hand it to an engine (engine.py), and close the row with the
-- response or the exception. The client polls the job and reads its result. The runtime
-- (src/planes/runtime/) is the engine behind a separate process, with a contract of its own
-- (types.py).
--
-- The files.
--   Base, Base/*         what the components share: Boolean tests, lists, integers, text, and the
--                        result type with the classes of exceptions; Base/Regex runs the
--                        regular expressions that `re` runs here, by backtracking.
--   Json, Json/*         JSON values: an object is its list of fields in insertion order. A float is
--                        a signed multiple of 2^-1074, an infinity or nan, so every finite double is
--                        one; the conversion of an int rounds to 53 bits, ties to even, and
--                        overflows where Python's does. Json/Numbers/Arithmetic has the rounded sum
--                        and difference of floats and `int` of a number.
--   Backend/Models       src/planes/backend/models.py
--   Backend/Store        src/planes/backend/store.py; Invariant, Claim, Lifecycle, History and Counts
--                        prove; Abstract is the store as a map from ids, Refinement relates them.
--   Backend/WindFilter   src/planes/backend/wind_filter.py; Order, Selection, Largest, Refusal prove.
--   Backend/Worker       src/planes/backend/worker.py; Round, Interference, Pool, Loop, Ahead and
--                        Drain prove.
--   Backend/Service      src/planes/backend/service.py; Validation, Clients and Delivery prove.
--   Backend/Api          src/planes/backend/api.py; Route and Replies prove.
--   Backend/ErrorCodes   src/planes/backend/error_codes.py: Copy has the codes, Signals what is read,
--                        Patterns the regular expressions, Public and Classify the limitations and
--                        rules, Attach the shaped result; Members, Public/Visible and Attach/* prove.
--   Backend/Engines      src/planes/backend/runtime_engine.py and fake_engine.py; Kept proves.
--   Backend/Tests        concrete tables, catalogs and requests on which the theorems are applied.
--   Runtime/Contract     src/planes/runtime/types.py: the types and the parser of requests, with
--                        Responses and Limitations; RoundTrip, Replies and Errors prove.
--   Runtime/Pipeline     src/planes/runtime/pipeline.py and the types of solver.py; Answers proves.
--   Runtime/Runner       src/planes/runtime/runner.py; Outcomes proves.
--   Runtime/Listener     src/planes/runtime/http_server.py with lock.py; Access and Answers prove.
--   Runtime/Placeholder  src/planes/runtime/placeholder.py; Runs proves what the runner makes of it.
--   Runtime/Adapter      src/planes/runtime/adapter.py; Responses proves.
--   Runtime/Enumeration  src/planes/runtime/enumeration/outer.py: Scenario, Catalog, Notes, Admission and
--                        Calls; Admission/Drawn and Account, Calls/Limits and Selection prove.
--   Runtime/Tests        concrete requests and responses.
--
-- How they correspond. A definition has the name of the function that it models, or of the step of
-- it that it is. A method of the store is one SQLite transaction, so it is a function from the table
-- to a result and the table after it; a history is a list of such transactions in the order in which
-- SQLite ran them, whichever process issued them. An exception is an `Error` with its class and
-- message, and a raise inside a transaction leaves the rolled-back table. `run_once` takes the
-- transactions that other processes run between its claim and its end as an argument; Worker/Pool
-- has the same as a step relation with any number of workers, clients, and deaths of processes.
-- `run_loop` takes what happens around each pass, the readings of the stop flag included.
--
-- Parameters. The clock, uuid4, the engine, the text of a float, and the contents of the catalog
-- file (or the exception that reading it raised) are arguments. So are, of the classification, which
-- characters Unicode counts as letters or digits and the float that a text of digits has. CPython's
-- limit of 4300 digits between an int and its text is taken at its default.
--
-- Of the board enumeration, the core, its `InputData`, the text that `format(x, ".12g")` and the value
-- that `float` of a text give, and the readings of the monotonic clock are arguments.
--
-- What `json.loads` makes of bytes is an argument everywhere (Json/Loading): a value, the error of bytes
-- that are no JSON, or any further exception. In Backend/Api the `Body` has the same three cases.
--
-- Of the client in Runtime/Adapter, the environment, the encoding of the request and the exchange over
-- HTTP are arguments. How a solver's process ends under a timeout is one of Runtime/Runner; a theorem
-- about the placeholder says which ends it is about.
--
-- Of the runtime, the solver, how its process ended, the log file's path, the text of an exit status
-- and the lines that src/planes/runtime/physical_check.py adds to an error are arguments.
--
-- Fuel and bounds. The worker's loop runs until it is stopped, so `run_loop` has fuel, and one
-- more than the passes before the stop is proved to be enough. Every other loop is a recursion on
-- a list, a text or a JSON value, but for the bit length in Json/Numbers, which halves a number at
-- most 1100 times: one below 2^1024 is zero by then, and a number of more than 1024 bits overflows
-- whatever its length. Sums of floats halve at most 4200 times, twice what a finite one has. The
-- digits of n take n + 1 steps, which is proved to be enough.
-- The INTEGER column takes 64-bit values, and `create_job` raises on any other seed.
--
-- Not modelled. The interpreter's recursion limit, but where JSON is decoded; lone surrogates in
-- texts, which SQLite refuses. Connections, pragmas and lock timeouts of SQLite; signals, logging
-- and the sleep of `run_loop`; headers and sockets of the servers; subprocesses, process groups
-- and log files of the runtime. The geometry of the optimizers, over floats and shapely, numpy,
-- SCIP and Fields2Cover, is not modelled, nor are the terrain downloads, the KML parsing, the web
-- client and the scripts.
pub mod Base
pub mod Json
pub mod Backend
pub mod Runtime
