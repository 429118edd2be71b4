-- ===== src/Lib.antt =====
-- Verification of xwork, a background job processor: jobs are enqueued into a storage, moved
-- between its tables by the loops and workers of a processor, and retried when they fail.
--
-- The parts and the files that model them:
--
-- - Job, Payload: the five job records and the payload map (job.go, and clonePayload of
--   storage/memory.go). A payload is nil or a Go map from texts to values; a value is opaque. An
--   id is a number (the bits of a UUID), a time a number (nanoseconds).
-- - Storage: the interface StorageAdapter of storage.go with its optional parts (JobQueryAdapter,
--   FailedJobLookup, FailedJobClaimer, Initializer) as one record over an abstract store.
-- - Memory and the files below it: the adapter in memory (storage/memory.go). State has the
--   tables, the copies that are made of jobs and of the whole state, and Transact; Scheduled,
--   Queue, Processing and Finished have a function for each method, under the method's name in
--   snake_case; Query has ListJobs, matchesJobQuery and Count; Paging has paginate,
--   paginateWithMore and normalizeJobQueryLimit with the wrap-around of 64-bit integers and the
--   bounds check of slices; Heap has the failed jobs with pointers, in one heap with the callers'
--   jobs and maps, where the rest of the model has values; Adapter puts them together as a
--   StorageAdapter. A Go map is an association list without repeated keys (GoMap), and a range
--   over it visits the entries in the order of the list, which is any. The mutex makes every call
--   one step. A method takes the clock's reading as an argument, for each time.Now() one.
-- - Text: the functions on texts that the queries use. The tables of Unicode, the text of a UUID
--   and json.Marshal are parameters (Platform); nothing is assumed of them.
-- - Processor and the files below it: process.go. Moves has the transactions (enqueue, dequeue,
--   complete, requeue, failWithStack, retry, enqueueScheduled) over any StorageAdapter; Passes has
--   one tick of each polling loop; Work has processJob with the handler as a function from the job
--   and the store to an outcome (nil, an error, or a panic); Definitions has DefineJob, Enqueue,
--   EnqueueIn, EnqueueAt and the queues that Process listens to; JobDefinition has the methods of
--   a definition (job.go) that call these; Backoff has exponentialBackoff. StackTrace has
--   cleanStackTrace on code points. Lifecycle has NewProcessor, the loops that Process starts, a
--   round of each, the tasks of the worker pool and Shutdown, as steps in any order; the pool
--   (pond) is outside, and what it accepts and when it runs is open.
-- - Processor/Events: the processor at work. Each event is one transaction of one goroutine on the
--   adapter in memory, and a history is any list of events that are enabled where they occur: a
--   new job has a new id, the poller of the schedule holds a job that is scheduled still, and a
--   job that is settled or failed as an orphan is in processing still. Races is about the moves
--   where the last two do not hold, as with several processes on one storage.
-- - Sql and the files below it: the adapter on a database (storage/sql.go, and Value and Scan of
--   job.go). Driver is what the code calls of database/sql, with the database behind it, and of
--   encoding/json; both are parameters. Schema, Schedule, Queue, Processing and Finished have a
--   function for each method, with the text of its statement; Query has listJobs, which builds its
--   statement, collectJobRows and count; Scan has the scans of rows; Adapter has Transact. An
--   action of the adapter is a sequence of calls of the driver. Sql/Engine is no code of the
--   program: it says what SQL gives for the statements of listJobs (Engine), what these are as
--   texts (Texts, Filters), and what claims, insertions, deletions and transactions do (Writes,
--   Inserts, Oldest). The results that take a database use these as hypotheses, and that the
--   database keeps a cell as it is sent: the rounding of a TIMESTAMP and what JSONB does to the
--   text of a payload are outside. LOWER is the Platform's table, and ids are ordered as their
--   texts. Sql/Moves runs the moves of the processor on both adapters side by side, and Taken is
--   about DeleteFromQueue.
-- - Server and the files below it: the API of server.go. Request has the guards and the functions
--   of net/http, mime, net/url, encoding/json and uuid that they call, as a parameter (Web); Query
--   has validJobType and parseJobQuery; Routes has the handlers, from the request to the code and
--   the body of the answer; Server itself has listLegacyJobs, trimLookahead and retryFailedJob,
--   over any StorageAdapter; Responses has writeJsonData, writeJsonError, doWriteJson and
--   ResponseWriterWithCode over any http.ResponseWriter; Serve has ServeMux with its routes, the
--   handler around it that logs, and env of util.go. Responses/Delivery has the calls of net/http
--   that an answer is; of net/http itself nothing is assumed. Reading says how the parameters of a
--   list request are to be read.
-- - AtomicMap: the map behind a mutex of atomic_map.go.
-- - Tests: concrete data, and the theorems at concrete inputs.
--
-- Prelude has the Boolean tests, the lists over machine numbers, results with errors and panics as
-- values, and sorting: sort.Slice is an insertion sort by the code's own test, of which only that
-- the result is sorted and has the same members is used.
--
-- Recursion is structural everywhere but in the walk over pages of Memory/Paging/Laws, whose fuel
-- is the number of requests. Numbers are unbounded but for the page arithmetic and those read from
-- a request: retry counts and delays stay small, as the results say, and times are those after the
-- epoch.
--
-- Not modelled: the times of tickers, the inside of the worker pool and the wait for it, signals,
-- and that steps of goroutines overlap within a call of the storage; logging but for the record of
-- a request; what the file servers of net/http send; the encoding of payloads as JSON; pointers
-- inside the values of a payload, which the code's copies share; the dashboard in the browser.
pub mod Prelude
pub mod GoMap
pub mod Payload
pub mod Job
pub mod Storage
pub mod Text
pub mod Memory
pub mod StackTrace
pub mod AtomicMap
pub mod Processor
pub mod Sql
pub mod Server
pub mod Tests
