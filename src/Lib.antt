-- ===== src/Lib.antt =====
-- Any2HeliosDB copies a database into HeliosDB and keeps the copy current. A bulk load splits every
-- table into key ranges and copies them (src/any2heliosdb/core, chunking). Change data capture
-- (src/any2heliosdb/cdc) has two halves that meet in a trail of files: an extract appends the
-- changes of the source, a replicat reads them from a cursor on and applies them to the target. This
-- library is about the parts of both whose failure loses or doubles rows without an error: what a
-- crash leaves behind, where a chunk of changes may end, in which order changes reach the target, and
-- which rows a chunk of a table stands for.
--
-- Prelude: the shared names, the Boolean tests, the lemmas on lists (Lists), an integer over the
--   native naturals (Int) and the words of an identifier (Words).
-- Ident: src/any2heliosdb/core/identifiers.py, `fold`, `quote_ident` and `render_ident`. The
--   reserved words are the source's set. Ident.Token is how PostgreSQL reads an identifier token, with
--   its own lists of key words: it describes the reader of the text, which is not in the repository.
-- Catalog: the fields of `Table` in src/any2heliosdb/core/catalog_model.py that the others read, and
--   `_single_pk_col` of src/any2heliosdb/core/loader.py.
-- Chunking: src/any2heliosdb/chunking/pk_range.py, `compute_chunks`, `Chunk` and its predicates. A
--   predicate is its text, beside the bounds that it is rendered from; the bounds of a table come from
--   the source database and are a parameter.
-- Ledger: src/any2heliosdb/core/manifest.py, `Manifest`: the rows of its four tables, and a function
--   for each statement on them. Ledger.Chunks has the chunks and their states, Ledger.Progress the
--   snapshot for the monitor; how SQLite orders texts is a parameter.
-- Loader: src/any2heliosdb/core/loader.py, `ResumableLoader.run` with `_load_pending`, `_safe_load` and
--   `_load_chunk`. A thread is a `Phase`, the place in the code between two of its effects, and `step`
--   is its next effect on the ledger and the target. A parallel pass runs by a schedule, which says
--   whose turn it is: every interleaving is a schedule, and a crash is one that stops early. The
--   adapter and the driver are a record of the calls, each with an exception or a result. Held says
--   what is relied on of them: `load_range` deletes its range and loads it in one transaction.
--   Loader.Plan has `plan` with `_plan_fresh` and `_replay_plan`; the hash of the configuration is given.
-- CopyCodec: src/any2heliosdb/target/copy_codec.py, the text of a COPY row, over lists of characters.
-- Record: src/any2heliosdb/core/change_record.py, `ChangeRecord` and `source_pos_key`. Record.Wire has
--   `to_json` and `from_json` with `_encode` and `_decode`, between a record and a value of Json, over
--   what the classes of the values (Decimal, datetime, base64) do with their texts. For the trail the
--   text of a record (Record.Codec) is a parameter with the laws that the trail relies on: a written
--   record is read back, and its text holds no newline.
-- Trail: src/any2heliosdb/cdc/trail.py, `Trail`. A segment is its index and its characters, a trail
--   is the list of the segments that the class lists, with the fields of the meta file: a file with a
--   number of six digits is written but never listed. Layout and Lines say when a trail is
--   well formed, Reading, Appending, Heal and Purge what its operations do to it. The effects of a
--   purge are a list of steps, so that a crash is a run of the first of them.
-- Apply: `_read_txn_aligned`, `_hold_incomplete_txn_tail` and `_segment_for_apply` of
--   src/any2heliosdb/cdc/engine.py. Runs cuts the records into the runs of their transactions, from
--   which Segments says what the segments are.
-- Extract: `_drop_already_trailed`, `_require_same_epoch` and `_snapshot_start_seq` of the same file.
--   Exact is about the dedup after a crash, whatever the positions of the captured records (those of
--   PostgreSQL do not grow where transactions interleave), Resume about positions that grow.
-- Replicat: src/any2heliosdb/cdc/replicat.py. The target is a record of the operations of
--   src/any2heliosdb/target/base.py that the replicat calls, over a state of its own. An action takes
--   that state and gives it back with a result or with none, which is an exception: the effects before
--   it stay. Replicat.Apply has `apply` and `apply_ordered`, Barrier has `apply_barriered` and the
--   isolation of poison records, Txn has `apply_txn`. Kinds, Barrier.Parts and Txn.Atomic prove them.
--   What a transaction of the target hides and undoes is a hypothesis of Txn.Isolated.
--   Follows carries a relation between the states before and after through all of it, on every path.
-- Registry: src/any2heliosdb/cdc/registry.py, `CdcRegistry`, as the rows of its table.
-- DeadLetter: src/any2heliosdb/cdc/deadletter.py, `DeadLetter`, as the text of its file. The JSON of
--   an entry is a parameter with the laws that the file relies on.
-- PosFile: src/any2heliosdb/cdc/posfile.py, `read_pos` and `write_pos_atomic`. The disk is what the path
--   names in memory and on the disk and whether each file was synced; the effects of a write are a
--   list, and a crash stops it anywhere. PosFile.Epoch has `_require_matching_epoch_identity` of
--   src/any2heliosdb/cdc/engine.py, which writes its file so.
-- Replicating: `run_replicat` of src/any2heliosdb/cdc/engine.py with its callbacks, from the look-up of
--   the extract to the summary, over the trail, the replicat, the registry and the dead letters.
--   Chunks and Pieces take its loop apart into what it hands to the replicat.
--   Replicat.Reconcile has `reconcile_deletes`, which a run is given as an action on the target.
-- Mcp: src/any2heliosdb/mcp, the server through which agents call the engine. Mcp.Auth has the tokens
--   and the roles, Mcp.Tools the registry and the catalog, Mcp.Protocol `Dispatcher.handle`, Mcp.Server
--   `do_POST` and `serve_stdio`. The handlers of the tools work on a state of their own and are a
--   parameter, as is the parser of JSON.
-- Json: the values of JSON that records and requests are made of.
-- Examples: concrete inputs at which the theorems apply, and a target that counts.
--
-- How the parts interact: the extract appends to the trail what `drop_already_trailed` leaves of a
-- capture. The replicat reads a chunk by `read_txn_aligned`, which calls `read`, splits it by
-- `segment_for_apply`, and applies the parts by `apply_txn` and `apply_barriered`; the cursor it
-- persists is what `purge_applied` later cuts behind. A planned chunk is recorded as text and rebuilt
-- by `from_recorded`; the loader reads and deletes by its two predicates.
--
-- Loops: lists are walked by structural recursion. `overshoot` and `segment_loop` of Apply run on
-- fuel: each round but the last takes one record or more, so one round more than there are records is
-- enough, and their theorems are stated at that fuel with a result; so is that of `run_chunks` of
-- Replicating. `attempts` and `try_record` recurse on the number of attempts, `drive` of Loader on
-- five effects, which no thread exceeds, and `chunk_loop` on the number of keys between the bounds,
-- since every round covers a key or more.
--
-- Not modelled: the drivers and adapters of live databases, the loop of `run_extract` that opens
-- them, threads and locks of change data capture, how json prints and parses, the type map, the DDL
-- emitters, the rewriting of PL/SQL, validation, the handlers of the tool server, the command line,
-- reports.
-- The files of a trail are written by one process at a time, as the source's lock provides.
pub mod Prelude
pub mod Ident
pub mod Catalog
pub mod Chunking
pub mod CopyCodec
pub mod Ledger
pub mod Loader
pub mod Mcp
pub mod Json
pub mod PosFile
pub mod Record
pub mod Trail
pub mod Apply
pub mod DeadLetter
pub mod Extract
pub mod Registry
pub mod Replicat
pub mod Replicating
pub mod Examples
