-- ===== src/Lib.antt =====
-- A model of the core of the batch data pipelines: the object store and the run plan, the reconciliation
-- and its coverage declaration, the serving copy in ClickHouse with its retention, and the decisions of
-- the product API in front of that copy.
--
-- How the parts interact. A run is planned (ingestion/batch/pipeline/models.py), its raw files are landed,
-- validated and loaded, and reconcile_run (workflow.py) checks the counts and stores a summary through
-- put_immutable (storage.py). A reconciled run declares its coverage once (coverage_control.py). The
-- publisher (clickhouse_publisher.py) plans the changes from the last publication to the tested source,
-- verifies and audits the candidate, and makes it visible by a marker, its last write; retention
-- (clickhouse_retention.py) removes markers and then rows. The API (apps/api) authenticates, bounds and
-- authorizes a request, applies the completeness gates to what the repository answers, and reports its
-- readiness. The daily schedule asks the pipeline for one operating date at a time.
--
-- Which file models which part:
-- - Pipeline/Storage: storage.py, R2ObjectStore.put_immutable and get_bytes. The S3 client is a record of
--   calls, its exceptions are outcomes, and Pipeline/Storage/Immutable holds what is relied on of it.
--   The object metadata and the uri are left out.
-- - Pipeline/Plan: models.py, RunPlan.validate and from_mapping; Pipeline/Plan/Build: build_run_plan.
--   ISO parsing, hashing, paths and the environment are parameters; a date is its ordinal.
-- - Pipeline/Validation: validation.py, the candidates of a bundle and the tables by dataset. Its children are
--   the passes in the order of _validate_candidates: Schema (schemas, duplicate revisions, reused opaque
--   ids), Local, References, Episodes with Overlaps, Coverage with Intervals, and Outcome, the result;
--   Validate is their sequence, and Bundle validate_bundle around it. A loop that adds issues to
--   candidates is a rule that runs over the issues of each eligible one, and what a loop reads of the others is what they were before it. A field read by name may raise, as may the reading
--   of a time or a number, or a key that cannot be hashed; a raise that nothing catches ends the validation.
-- - Pipeline/Reconcile: workflow.py, reconcile_run.
-- - Pipeline/Coverage: coverage_control.py, BatchRunCoverage; Pipeline/Coverage/Publish:
--   BatchRunCoveragePublisher, each statement a call of a record, of which Pipeline/Coverage/Identity says
--   what is relied on.
-- - Serving/Ids, Serving/Changes, Serving/Summaries: clickhouse_publisher.py, the identifiers, the change
--   plan and its application, the audit summaries and their validation.
-- - Serving/Profile, Serving/Publish: clickhouse_publisher.py, the profiles of a dataset and
--   ServingPublisher.publish over the protocol in Serving/Publish/Store, each call of which has a law; the
--   marts, the normalization of rows, the clock and the new attempt id are the record Sources.
--   Serving/Publish/Summary: xcom_summary.
-- - Serving/Retention: clickhouse_retention.py, the plan and cleanup of ServingRetentionManager over the
--   protocol in Serving/Retention/Store; Serving/Retention/ClickHouse: the store that fills it.
-- - Api/Auth: auth.py; Api/Scope: the request dependencies of app.py; Api/Summary: service.py,
--   build_summary_response; Api/Context: service.py, context; Api/Readiness: app.py, health_ready;
--   Api/Metrics: request_logging.py, the counters.
-- - Orchestration/Daily: orchestration/daily_schedule.py, the request of a daily run and the assessment of its
--   completion; the time zone is a parameter.
-- - Prelude: tests on native numbers, results, the monad of calls on a store, keys as Python's sets of
--   texts, and the parts of str and re that the source uses.
--
-- State is passed explicitly: a call on a store is a function from a state to a result and a state, and
-- what was written before a raise stays written. An exception is a value of an error type for each
-- component, without its message. Sets of texts are lists. Counts are naturals, since
-- the source counts rows. Every loop is structural recursion, but for batches_of in
-- Serving/Retention/ClickHouse, whose fuel is the length of the list: a batch takes at least one
-- element, so that it is enough. Timestamps are numbers of microseconds, durations integers of ticks,
-- decimals a parameter with what is used of them.
--
-- Not modelled: the text of SQL statements, HTTP and Airflow; the normalization of rows in the publisher; the
-- report of the validation; the Iceberg loader, the dbt boundary, the generator, the serving repositories
-- and the settings; the validators of the response models but for the time in a summary; the web
-- application and the dbt models.
pub mod Prelude
pub mod Api
pub mod Serving
pub mod Pipeline
pub mod Orchestration
