-- ===== src/Lib.antt =====
-- A verification library for the outpack server: a store of packets, of the files that they hold
-- and of where they are known, with an HTTP interface and a language of queries.
--
-- The parts of the program and their files here:
--
-- - src/hash.rs: Hash (`FromStr` and `Display` of a hash and of an algorithm, `validate_hash`,
--   `hash_data`, `validate_hash_data`); the checks of files are in Store/Put. The two regular
--   expressions of the program are written out as functions of the text.
-- - src/store.rs and src/upload.rs: Store (`file_path`, `file_exists`, `get_missing_files`) and
--   Store/Put (`put_file`, `Upload::persist`), Store/Steps (the operations of `put_file` on the disk
--   one by one, so that those of several calls can take turns), Store/Receive
--   (`Upload::from_request`, `stream_to_file`; a body is a list of chunks).
-- - src/metadata.rs and src/utils.rs: Packet (the types), Utils, Metadata/Read (packets read from
--   the disk), Metadata/Ids (ids, their digest, missing ids), Metadata/Add (`add_packet`).
-- - src/location.rs: Locations, Locations/Read, Locations/Known (`mark_packet_known`).
-- - src/config.rs and src/init.rs: Config, Config/File, Init (`outpack_init`).
-- - src/query/query_types.rs, query_eval.rs and query_format.rs: Query/Types, Query/Eval,
--   Query/Format. src/query/mod.rs: Query/Run (`run_query`).
-- - src/query/query.pest and query_parse.rs: Query/Parse/Grammar (a function for each rule of the
--   grammar, from a text to the pairs that pest makes and the rest of the text),
--   Query/Parse/Pairs, Query/Parse/Pratt (the crate's `PrattParser`), Query/Parse/Convert
--   (`parse_query` and what it calls). Query/Parse/Print is a printer of queries.
-- - src/bin/outpack: Command (`run_command`, for `main`).
-- - src/query/python.rs: Query/Python (`convert_query`, with a proof, and the function
--   `parse_query` of the module as `python_query`). An object of Python is a value
--   of a built-in type or an instance of one of the classes that the module makes.
-- - src/responses.rs, src/outpack_file.rs and src/api.rs: Responses, Api (the handlers),
--   Api/Routes (the route table), Api/Preflight (`check_config`, `preflight`), Api/Serve (a request
--   on its way through the table to its handler and its answer, and sequences of requests),
--   Api/Layers (the layer that records a request), Api/Start (`api`).
-- - src/index.rs: Index.
-- - src/git.rs: Git, over the crate git2 as a parameter.
-- - src/metrics.rs: Metrics (the gauges of the repository, with `enumerate_files` of src/store.rs),
--   Metrics/Http (`HttpMetrics::track` as steps of requests that overlap, and a proof),
--   Metrics/Registry (the metrics that are registered).
--
-- The other files hold proofs: Hash/Laws, Store/Paths, Store/Intact, Store/Found, Store/Missing,
-- Store/Succeeds, Store/Inserts, Store/Received, Store/Carried, Store/Placed, Store/Sure,
-- Store/Turns, Store/Alone, Store/Elsewhere, Store/Gained, Store/Kept, Store/TempFiles,
-- Metadata/Gained, Metrics/Totals, Api/Reads, Api/Intact, Api/Kept, Api/Posted, Api/Statuses,
-- Api/Started, Api/Recorded, Locations/Marked, Locations/Sorted, Metadata/Sorted, Metadata/Missing,
-- Metadata/Refused, Metadata/Added, Init/Fresh, Git/Listed, Api/Accepts, for the evaluation of queries
-- Query/Sets, Query/Boolean, Query/Meaning and Query/Latest, for their parser Query/Parse/Takes and
-- Fuel, and Query/Parse/Steps, Words, Literals, Values, Chains, Operands and RoundTrip, and for
-- both together Query/Searched. Prelude and Result hold what all share. Tests holds runs of the
-- definitions and the theorems at concrete data.
--
-- How the program is modelled:
--
-- - Text is a list of its UTF-8 bytes. A result is a value, an error or a panic (Result).
-- - The disk is a list of paths with files and directories (Io/Fs, Io/FilePath). An operation that
--   changes it takes it and gives it back, also where it fails. Links, permissions and failures of
--   the device are left out, and so is the limit of the length of a name. The order of a directory
--   is the order of the list. A separator at the end of a path is left out: the path of a hash of two
--   digits has one, at which the system finds, opens and moves no file. What is said of reading a
--   file leaves these hashes out; what is said of putting one takes them without the separator.
-- - A number of JSON is a double, kept exactly (Float); its arithmetic is that which the program
--   uses: comparison, and the conversion of milliseconds to seconds.
-- - The crates of the digests are a parameter (`Digest`), serde_json is one (`Json`, with the law
--   that a configuration that is written reads back), the names of temporary directories are one, and
--   so is the order in which a `HashSet` is walked (`Choices` for queries, a function for missing
--   ids): every order is allowed, also those in which a union of sets is never walked.
-- - Fuel is used by the grammar of queries alone: each expression of a query takes one unit, and
--   `parse_query` gives one more than the text has bytes, which is never spent. Every other function
--   recurses on its data.
-- - The `PrattParser` of pest is a parameter (`Pratt`). Its law (`IsPratt`) is that an expression
--   whose operators bind as the table of the program says is read back from its pairs;
--   Tests/Climbing has a value of it. Of an error of pest the place in the text is left out.
-- - `str::parse::<f64>` is a function of the text (Float/Decimal).
-- - The caches of entries and packets are left out: each is read from its file.
--
-- - A server is a disk and the gauges of the repository (`Site`). Each request runs to its end before
--   the next one begins; what overlapping requests do to the record of requests is in Metrics/Http,
--   and what overlapping calls of `put_file` do to the store in Store/Steps.
--   What the crate axum reads of a request for each extractor is given with the request, a refusal
--   by the extractor included. A panic of a handler, and one of `into_response` at a text that
--   makes no value of a header (by the crate http, a parameter), is answered by `internal_error`.
--   Of git2, what a fetch does to the disk is a parameter.
--
-- Not modelled: the sending of responses and the listening are the work of the crates axum and
-- tokio, the registry and the text of the metrics that of the crate prometheus, the reading of the
-- arguments of the command line that of the crate clap, and the module of Python that of pyo3. Of
-- the requests that write to the disk at the same time, the calls of `put_file` are interleaved.
-- The helpers of the tests (test-utils, src/test_utils.rs) make repositories for tests, by the
-- crate git2 for the most part, and no part of the server uses them.
pub mod Prelude
pub mod Result
pub mod Float
pub mod Hash
pub mod Io
pub mod Packet
pub mod Utils
pub mod Config
pub mod Locations
pub mod Json
pub mod Init
pub mod Store
pub mod Metadata
pub mod Index
pub mod Query
pub mod Responses
pub mod Api
pub mod Metrics
pub mod Git
mod Tests
pub mod Command
