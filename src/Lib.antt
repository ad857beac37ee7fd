-- ===== src/Lib.antt =====
-- EpochDeck, the Python SDK (python/src/epochdeck): the durable, client-side half of an
-- experiment tracker. A run appends metric points, alerts, rich values and artifacts to journals
-- in a spool directory; a background worker reads the next batch of a journal, sends it to the
-- server and acknowledges it; after a crash the spool is recovered, and the batch that was in
-- flight is sent again.
--
-- Prelude, Exec, Error: shared tests, lists and integers; methods that change an object and may
-- raise; the exceptions, by class and failed check.
--
-- Text, Json: Python text and bytes, decimal numerals, UTF-8 and json.dumps with sorted keys, as
-- python/src/epochdeck/_protocol.py and python/src/epochdeck/_spool.py call them. A float is its
-- 64-bit pattern.
--
-- Platform: what is taken from the Python runtime as a parameter: json.loads, the text of a
-- float, float(int), SHA-256, == of decoded values, str() of a container. Where a theorem needs
-- that a file is decoded as what was written, that is a hypothesis about that file.
--
-- Protocol: python/src/epochdeck/_protocol.py: encode_json_request, the checks of
-- acknowledgements.
--
-- Spool.Lines: _read_journal_line; Spool.Lane: one journal of class _Spool of
-- python/src/epochdeck/_spool.py with its ack and delivery files (_append_record, _read_ack,
-- _read_delivery, _acknowledge, _pending); Spool.Lane.Batch, Begin and Read: _read_record_batch;
-- Spool.Lane.Recovery: _recover_interrupted_append. Spool.Entry and Spool.Lane.View hold the
-- abstract view: entries in order, how many are acknowledged, and the batch in flight.
--
-- Spool.Store: class _Spool as a whole: the four journals, run.json and the blob names; opening,
-- appending, pending, reclaim_delivered and the metadata.
--
-- Spool.Summary: recover_summary of class _Spool. Metrics: python/src/epochdeck/_metrics.py
-- (normalize_metrics) and python/src/epochdeck/_summary.py (merge_metric_preview, of metrics that
-- are floats already, as its callers pass them).
--
-- Pagination: python/src/epochdeck/_pagination.py (next_text_cursor, next_paired_cursor).
--
-- Python, Normalization: the objects that callers pass in, and
-- python/src/epochdeck/_json_normalization.py, which turns them into bounded JSON. The budget's
-- count of nodes is passed along; the paths in the messages are left out.
--
-- Run: class Run of python/src/epochdeck/_run.py. Run.Documents holds the checks of documents,
-- metadata, steps and alerts; Run.Flatten is _flatten_values, as recursion in the order in which
-- its stack of iterators visits the data; Run.State holds the fields of a run and log, alert,
-- use_artifact of an ID, _log_system_metrics, _append_metrics, the checkpoints, _update_summary
-- up to the request of an online run, and finish of a run without a worker (of an online run, up
-- to the stop of its worker). Time, identifiers and RichValue._prepare are arguments. Starting
-- and resuming a run, the online half of finish and the system monitor's thread are not modelled.
--
-- History: history, _validate_history_request and _validate_history_response of
-- python/src/epochdeck/client.py; History.Paging is _history_rows and scan_history of
-- python/src/epochdeck/public_api.py. The server is an argument, a function of the request. The
-- loop of scan_history has 2^53 + 1 rounds: each cursor is greater than the one before it and at
-- most 2^53 - 1.
--
-- Checkpoint: class Checkpoint of python/src/epochdeck/_wandb_state.py over the bytes of its
-- file: Checkpoint is _load and _checkpoint_line, Checkpoint.File is state, update,
-- _append_update and _compact, Checkpoint.File.Opening is __init__. A torn append leaves a prefix
-- of its line. The replacement of the file by a compacted one is one step. The process lock and
-- the cancellation of an import are not modelled.
--
-- Identifiers: python/src/epochdeck/_ids.py (uuid7), the number behind the text; the clock and
-- the random bits are arguments.
--
-- Wandb: the import of a history, python/src/epochdeck/wandb_importer.py. Wandb.Rows is what a
-- row is checked for, Wandb.History is _commit_metric_batch, _commit_split_metric_row and
-- _metric_chunks, Wandb.History.Loop is _import_history in the phase "history"; in the other
-- phases it reads no rows. What the source yields is a list of rows and of an exception. The
-- client, the checkpoint, the cancellation and the media pipeline are arguments that change a
-- state of their own and may raise; an update of the checkpoint that raises is taken to leave the
-- saved progress as it was. The length that _json_size computes is an argument.
-- Wandb.History.Spec has the points that a history stands for. Wandb.MediaPipeline is
-- _MediaPipeline; the files of the source, the executor, its futures and PurePosixPath are
-- arguments, a job counts as completed when its future's result was taken, and its loops run for
-- as many rounds as there are pending jobs or closed rows, which is enough since each round takes
-- one.
--
-- Delivery: python/src/epochdeck/_delivery.py: what one attempt of _DeliveryWorker reads, sends
-- and acknowledges for each journal (_deliver_metrics, _deliver_rich_value, _deliver_artifact,
-- _deliver_alert, _upload_blob), the retries, and the choice of the next journal
-- (_next_delivery). The HTTP client is an interface (record Client) whose state stands for the
-- network and the server. Threads, events and waiting are not modelled.
--
-- Tests: runs at concrete inputs.
--
-- Bounds and fuel: the batch loop takes one round more than there are bytes in the journal, and
-- each round that goes on reads at least one byte. The same holds of the loop of recover_summary.
-- A decimal numeral of n takes n + 1 rounds of division by ten. Offsets are assumed below 10 ^ 64
-- where an ack file of 64 bytes is written.
--
-- Files are byte sequences that the operating system reads, replaces and truncates without error;
-- permissions, locks, links, fsync, warnings and the texts of the exceptions are not modelled.
-- Nor are HTTP transport, the wandb package, exporters and backups.
pub mod Prelude
pub mod Text
pub mod Error
pub mod Json
pub mod Platform
pub mod Protocol
pub mod Exec
pub mod Spool
pub mod Delivery
pub mod Metrics
pub mod Pagination
pub mod Python
pub mod Normalization
pub mod Run
pub mod History
pub mod Checkpoint
pub mod Identifiers
pub mod Wandb
pub mod Tests
