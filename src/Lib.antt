-- ===== src/Lib.antt =====
-- The import of conversation history into engineering memory: a run reads the conversations of a
-- source and takes each of them through hash, state lookup, sanitizer, classifier, enrichment, raw
-- archive, memory store and import state (src/engineering_memory).
--
-- Base holds what all parts share: code points, lists measured by native numbers, results, and
-- dictionaries. Json is a JSON value with Python's dumps and UTF-8.
--
-- Normalization is src/engineering_memory/normalization. Values has the checked strings and the
-- times of base.py (OpaqueIdentifier, Slug, Text, Timestamp); Conversation, Tags and Provenance the
-- models of the files of those names, where the construction of a model is `new_...` and answers
-- with the refused rule; Enrichment is `enrich`; Canonical is canonical.py. A string is its list of
-- code points, a timestamp its instant on the UTC clock with the offset that it was written with.
-- SHA-256 is a parameter.
--
-- Sanitization is src/engineering_memory/sanitization. Scanner is scanner.py, step by step:
-- find_spans, resolve with _merge, and redact; PatternSanitizer is the class of
-- pattern_sanitizer.py, whose shared dictionary of counts is passed on from field to field;
-- Placeholders is Pattern and is_placeholder of patterns.py; Report is sanitizer.py. The matches of
-- a regular expression and str.lower are parameters; what is assumed of the former is that a match
-- lies within the text.
--
-- Classification is src/engineering_memory/classification: Rules is rules.py, Matcher the expression
-- of matcher.py run position by position, AliasClassifier alias_classifier.py, Chain chain.py. Case
-- folding works code point by code point and is a parameter, as is the test for letters and
-- digits. A missing key of a table is `none`. The classifiers of a chain pass a state on, which shows
-- which of them are asked.
--
-- Ingestion is src/engineering_memory/ingestion: state.py, report.py and pipeline.py. In
-- Ingestion.Pipeline, Boundaries has the calls of a run, latest first, and the boundaries as
-- functions of the calls made so far, so that a boundary may answer differently each time; an
-- answer may be a value, an exception, or a cancellation (a BaseException that is no Exception).
-- Process is `_process`: its `try` block is a `Body` that ends with the skip's return, at its end,
-- with an exception and the local variables as they stand, or cancelled. Run is `run` and
-- `_try_emit`; what the source's iterator does is a list of events, since the loop does not look
-- back at it. A source without end is not modelled. The clock is read without failing.
--
-- Ingestion.Chatgpt is src/engineering_memory/ingestion/chatgpt: Thread is thread.py, Content and
-- ToolCalls are content.py, Record is conversation.py. JSON values are as json.loads gives them,
-- with a float an opaque number. UnreadableRecord has a constructor for each rule that a record may
-- break, one for a refused model, and one for the TypeError of a value that cannot be hashed.
-- math.isfinite and datetime.fromtimestamp are parameters. Source is the reader of source.py: its
-- input is the files of an export with the records that scanning them gives, or the failure of it, and
-- its result is the list of events that the pipeline takes.
--
-- Ingestion.SqliteState is sqlite_state.py: the database as its tables with their rows, each call of it
-- with the fault that may occur, and the contract of state.py. Its CHECK
-- constraints count a text as SQLite does, up to the first NUL. How a time is written is a parameter.
--
-- Archive is src/engineering_memory/archive, interface.py and local.py: Disk is the directory and what
-- the system's calls may raise during an operation, Store is `store` with its temporary file, Read is
-- `_read`, `load` and `load_original`, Listing is `_Identifiers`. SHA-256, base64 and the JSON of an
-- envelope are parameters, of which their documented behaviour is assumed (IsCodec).
--
-- Memory is src/engineering_memory/memory, interface/store.py and hindsight: Serialization is
-- serialization.py, Retry is retry.py, Requests, Retain and Recall are store.py. What the clock says and
-- the engine answers is a script, one list of exchanges for each request; a script that ends stands for
-- a deadline that has passed, which time sees to, so there is no fuel. The client of HTTP, JSON,
-- SHA-256 and uuid4 are parameters. Delays are natural numbers of some unit.
--
-- Observability is src/engineering_memory/observability/redaction.py: Names is the test for sensitive
-- names, Redaction the walk over a record. A value is a finite tree, so a cyclic one is not modelled; a
-- `repr` that raises is `none`. Sanitization.Manifest is secret_manifest_blocks of patterns.py.
--
-- Loops go over a list, but for two walks of thread.py, from the root down over last children and up
-- over parents, which are given as many steps as the mapping has nodes; that these are enough is part
-- of the result on `reconstruct`. The count of its validation breaks off where the source does.
--
-- Not modelled: the files of an export and their scanner, the command line, settings, the set-up of
-- logging and tracing, and deployment: these read files, environments and arguments and call libraries.
pub mod Base
pub mod Json
pub mod Normalization
pub mod Sanitization
pub mod Ingestion
pub mod Classification
pub mod Archive
pub mod Memory
pub mod Observability
