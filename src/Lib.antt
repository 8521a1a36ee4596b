-- ===== src/Lib.antt =====
-- semcast answers SQL with semantic predicates: an operator asks a language model about the text of a
-- row. This library models the parts of the program that keep state, spend model calls or decide what
-- is kept.
--
-- Parts, and how they interact:
-- - Base: numbers, lists, maps as association lists, text as code points, decimal printing and the
--   operations of floats. What the program takes from the language is defined (split_whitespace, trim,
--   sort_by, dedup), what it takes from other packages is a parameter.
-- - Index/Chunk.antt is src/index/chunk.rs (ChunkConfig, chunk_text); Index/Dedupe.antt is
--   src/index/dedupe.rs (greedy_groups, similarity); Index/Kmeans.antt is src/index/kmeans.rs
--   (kmeans, seed, recentre, Clustering::members, Lcg). The index cuts documents into chunks, and the
--   distinct and cluster stages group their vectors.
-- - Model.antt and Model/Retry.antt are src/model/mod.rs (CompletionRequest, ModelProvider,
--   send_with_retry, backoff, parse_retry_after); Model/Fallback.antt is src/model/fallback.rs
--   (FallbackProvider). A provider is a parameter, the function from a batch to its answers in one
--   run.
-- - Cache.antt is src/cache/mod.rs (CacheKey, CachedValue, InMemoryCache), and Cache/Sqlite.antt is
--   src/cache/sqlite.rs (SqliteCache: store, get, put, put_many, flush, write_loop, write_batch, Drop);
--   the BLAKE3 digest is a parameter. The lock, the channel and the transaction each make one step, so
--   the state is the map, the messages under way, the table of the file and the answered flushes. A
--   get is three steps (get_amid), between which the other threads' steps are given.
-- - Physical/Verify.antt is src/physical/verify.rs (Verifier::verify_batch, its prompts, cache keys
--   and parse_verdict): it reads the cache, asks a provider for the rest and writes the cache. A row
--   is its text or NULL, and the result is the mask that the batch is filtered by.
-- - Optimizer/Calibrate.antt is src/optimizer/calibrate.rs (calibrate_threshold and its helpers). The
--   f32 and f64 operations are two records of operations; what the theorems need of an order is named
--   in them or assumed by name.
-- - Physical/IndexScan.antt is src/physical/index_scan.rs (score_labels, sample_priority,
--   sample_documents, scan_batch, bucket_chunks, prefilter), Physical/IndexScan/Labels.antt its
--   label_sample, and Physical/IndexScan/Calibrated.antt its calibrated_prefilter, which calls the
--   calibration of Optimizer/Calibrate.antt and shares the cache keys and prompts of the verify stage.
--   What the index answers and the fit of a learned proxy are parameters.
-- - Physical/Extract.antt is src/physical/extract.rs (validate_field, scalar_from_normalized, read_unit,
--   apply_unit): a unit of Types.antt is read from the cache or written to it. serde_json and Arrow's
--   scalars are records of functions, and serde_json's text is exact but for floats.
-- - Physical/Rank.antt is src/physical/rank.rs (bucket_candidates, keep_candidates), and
--   Physical/Distinct.antt is src/physical/distinct.rs (Deduper::run, keys, with_keys), which calls the
--   grouping of Index/Dedupe.antt.
-- - Types.antt is src/types/mod.rs (SemanticType: synthesize_prompt, arrow_type, generation_units,
--   pruned; unit_hash), and Types/Registry.antt is src/types/registry.rs (TypeRegistry). Floats are
--   their bits, and how one is displayed is a parameter.
-- - Sql.antt and Sql/Ddl.antt with Sql/Ddl/CreateType.antt and Sql/Ddl/Statement.antt are
--   src/sql/ddl.rs (parse_semantic_ddl, parse_create_index, parse_create_type, parse_field_type). A
--   parser is the list of the tokens that are left; what is sqlparser's is a record of functions.
-- - Server/Progress.antt is src/server/progress.rs (snapshot, snapshot_if_changed, the plan walk); a
--   plan of DataFusion is a tree of names, metrics and children.
-- - Server/Jobs.antt is src/server/jobs/mod.rs (JobRegistry: create, spawn_attached, start, update,
--   cancel), Server/Jobs/Recover.antt its recover, and Server/Jobs/Runner.antt the updates of
--   src/server/jobs/runner.rs. An operation runs under the registry's lock and is one function from
--   the registry to the registry; tasks and clients interleave as sequences of such steps
--   (Server/Jobs/Lifecycle.antt, Fresh.antt, Final.antt, Persist.antt); the server runs recover once,
--   before it takes calls. The clock's readings and the success of
--   file operations are arguments; serde_json is a pair of functions with their round trip.
--
-- Bounds and fuel:
-- - A usize is 64 bits wide and wraps where it is written out. The chunker's loop runs on fuel of one
--   turn per word, and its theorem shows that it never runs out for texts below 2^63 words.
-- - The retry loop runs on fuel 5, one attempt and four retries; its theorem shows that the result is
--   reached.
-- - The k-means loop runs its 50 iterations, seeding one turn per centroid that is missing.
-- - The loop over the tranches of a calibration runs on fuel of one more than the pool has documents;
--   its theorem shows that a result is reached if a tranche is not empty.
-- - The loops over the fields of a type run on fuel of one more than the tokens; its theorem shows that
--   any statement is read to its end or to an error.
-- - A cache that is dropped takes as many writer turns as messages are under way.
-- - The generator's and the clock's numbers are plain numbers.
--
-- Not modelled:
-- - The SQL front end but its DDL, the logical nodes and rewrites, the classify and cluster operators,
--   the extraction's loop over a batch, the wire protocol, the HTTP providers and Lance tables. Of the
--   SQLite cache, the set-up of the file and its schema version; of the semantic types, the JSON
--   Schema; of the calibration, the fit of the learned proxy.
-- - Text formatting of progress lines, log files, tracing, and poisoned locks.
-- - In the job registry, the sorted listing; in the clusterer, the choice of k and the
--   representatives.
pub mod Base
pub mod Cache
pub mod Index
pub mod Model
pub mod Optimizer
pub mod Physical
pub mod Server
pub mod Sql
pub mod Types
