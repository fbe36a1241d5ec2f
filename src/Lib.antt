-- ===== src/Lib.antt =====
-- Verification of the notes service of app/src/notes_rag: personal notes, which a user writes and
-- searches, and asks questions about that a language model answers from them.
--
-- The parts and how they interact. A user registers, logs in and gets a session, which a token
-- stands for. Notes belong to a user. Each change of a note leaves an indexing job in the same
-- transaction; a worker claims the jobs under a lease, cuts the note into chunks of whole words,
-- has them embedded and publishes them for the note's version. A search compares the question
-- with the published chunks. A chat message is first classified, and then asked back, answered
-- as general chat, answered from the notes that a search finds, or saved as a new note.
--
-- Prelude, Prelude/*: the library names that all modules share; Boolean tests and lists over the
--   native numbers; `Result`, with the exceptions of the program as values of `Error`; instants
--   as microseconds and identifiers as numbers.
-- Text, Text/*: `str` as a list of code points, with `strip`, `split` at white space and
--   at two newlines, and the lemmas on them. `is_space` is the set of `str.isspace`.
-- Domain/*: app/src/notes_rag/domain. Notes is notes.py, Users is users.py, Chat is chat.py;
--   Chunking is `chunk_note` and Jobs is `IndexingJob` of indexing.py. A method is a function of
--   that name, and a raised exception is an `err`.
-- Persistence/*: app/src/notes_rag/persistence. Tables is models.py, each table the list of its
--   rows; Transactions is rls.py and `session.begin()`: a state of the tables and the
--   transaction-local user, actions that may raise, and commit or rollback; Inserts is what one
--   write checks, from the constraints of models.py and migrations/versions; Notes, Jobs and
--   Accounts are the repositories of repositories.py. `claim_indexing_job` is the SQL function of
--   migrations/versions/003_runtime_role.py, which the worker's `claim_next` calls.
-- Services/*: app/src/notes_rag/services. Gateways is runtime.py, where each call is one
--   transaction; Throttle and Authentication are authentication.py; Notes is notes.py, over a
--   record of its `NoteStore` protocol; Intent is intent.py, Retrieval is retrieval.py, Rag is
--   rag.py, Indexing is indexing.py with one turn of worker.py.
--   Runtime is the rest of runtime.py, Worker the loop of worker.py. Isolation names every call
--   that changes the stored tables (`NoteCall` for one user, `Step` for all) and what they lead to
--   (`Reachable`); Persistence/Ownership says whose the rows are and what one write may do.
-- Config is config.py. Llm is llm/ollama.py, where a POST is answered by the server's JSON, or fails.
-- Api/*: app/src/notes_rag/api. Auth is auth.py, Notes and Cursors are notes.py, Chat is chat.py,
--   Errors is errors.py, each handler an action over the stored tables and the login throttle;
--   Health is the readiness route of main.py. Refusals is about the requests that are not let in.
-- Tests/*: runs on concrete data, and an instance of each theorem that has hypotheses.
--
-- What is a parameter: the language model (`complete`, `embed` and the two completions of an
-- answer, which may raise), the JSON readers of its output, the cosine distance, the hashes, and
-- `str.casefold`; of the settings, the library's test of a URL; of the HTTP interface, the formats
-- of a cursor (ISO dates, UUIDs, JSON in base64), `int`, the wording of a broken bound, and the
-- transport of the model client. The clock, `uuid4` and random tokens are arguments of each call;
-- a turn of the worker reads the clock twice, for the claim and after the embedding, and has both
-- readings. A handler's dependencies run before its body is validated, as in the library.
--
-- Bounds. Python's integers have no bound, and neither do the numbers here; the columns' checks
-- (five attempts, the lengths of names and titles, 768 dimensions) are those of Inserts. No
-- function of the program has fuel: every loop is structural recursion, and the worker's loop is
-- over a list of moments. `follow`, a client that reads pages, has the number of pages as fuel;
-- one more than the number of its notes is enough. A distance and a similarity are numbers
-- of parts of `one`, in place of floats. Instants are not negative, and a difference of instants
-- is compared only where a negative one and zero are treated alike.
--
-- What is not modelled. The page (web) is a browser's; main.py beside the readiness route, the
-- engines of persistence/database.py and the schema migrations build what the library runs. The
-- fields that a body may not have are refused by the library before a handler sees them. A
-- transaction runs alone: `FOR UPDATE SKIP LOCKED` has no counterpart.
pub mod Prelude
pub mod Text
pub mod Domain
pub mod Persistence
pub mod Services
pub mod Config
pub mod Llm
pub mod Api
pub mod Tests
