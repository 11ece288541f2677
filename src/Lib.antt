-- ===== src/Lib.antt =====
-- A verification library for the memory service: the life of claims, the partition boundary, the
-- receipts of accepted content, the erasure of sources, the recognition of nodes, and the cutting
-- of long texts.
--
-- Parts and files:
--   Prelude            shared helpers: Boolean tests on native numbers, lists, case splits.
--   Graph              src/types/graph.ts: node types, statuses, kinds and predicates.
--   Claims/Policies    src/lib/claims/predicate-policies.ts: `PREDICATE_POLICIES` is
--                      `predicate_policies`, `resolvePredicatePolicy` is `resolve_predicate_policy`.
--   Claims/Shapes      src/lib/claims/predicate-shapes.ts.
--   Claims/Repair      src/lib/claims/predicate-shape-repair.ts.
--   Claims/Rows        the rows that the lifecycle reads (src/db/schema.ts,
--                      src/lib/schemas/commitment-request-evidence.ts).
--   Claims/Lifecycle   src/lib/claims/lifecycle.ts and src/lib/email-deadline-lifecycle.ts: Order is the
--                      sort, Settle the carrying of progress, the trust rule and the chain, Removal the
--                      search for the removal of a deadline, and Apply the recomputation of one subject
--                      and `applyClaimLifecycle` over the table.
--   Partition          src/lib/partition-access.ts: Tables has the rows and the version trigger of
--                      drizzle/0028_dizzy_norrin_radd.sql, Access the checks of reads and writes, and
--                      Fence `withSourceWriteFence` and its checks. Retirement is
--                      src/lib/source-identity-lifecycle.ts.
--   Processing         src/lib/ingestion/source-processing.ts: Receipts is the table, Accept creates and
--                      reopens receipts, Work has the handlers of the worker, which stand behind the
--                      fence of Partition, Elsewhere has the writes of receipts by src/lib/sources.ts,
--                      ingestion/source-revision.ts, partition-reclassification.ts and
--                      partition-migration.ts of src/lib, Queue the public view of a receipt beside its
--                      job in the queue; Invariant, Keeps, Handled, Others, Lifecycle, Reuse and Progress
--                      have proofs.
--   Redirects          src/lib/node-redirects.ts: what became of merged nodes.
--   Erasure            src/lib/source-lifecycle.ts, `eraseSourceReadModels`: Walk is the fixed point of
--                      `erasePartitionDerivatives`, Derivatives its deletes, Reviews the tasks that were
--                      made for a metric, ReadModels the whole.
--   Sources            src/lib/source-lifecycle.ts: Tree is `loadAndLockSourceTree`, Actions
--                      `applyAction`, Commands `applySourceLifecycleCommand`, Cleanup the sweeps. Uploads
--                      has the transactions of src/lib/sources.ts that put bytes into the object store,
--                      and Unsettled what all of these keep of an upload that may still arrive.
--   Identity           src/lib/identity-resolution.ts: Signals has the lookups by the canonical label, the
--                      alias and the embedding, Profile the comparison of profiles, and Resolve
--                      `resolveIdentity`. The rows of `findSimilarNodes` and the thresholds are arguments,
--                      and scores are fractions.
--   Chunking           src/lib/ingestion/chunk-markdown.ts: the sections, the paragraphs and the packing;
--                      Content and Kept follow the text, Bounds and Fits the length.
--   Tests              the theorems at concrete inputs.
--
-- Ids, texts, keys and dates are numbers; a date that may be absent is an Option. A table is a list of
-- rows, or a function of its primary key. A transaction is a function of the rows that it reads under
-- its locks; what it reads before it takes them is a separate argument, so that other transactions may
-- have come between. An exception is an error value, and with it the transaction leaves nothing.
--
-- Two loops run on fuel: the fixed point of the erasure has a round more than there are mappings and
-- commands, and the recursive query of a source tree has as many rounds as there are sources. Both are
-- shown to be enough. Every other loop of the modelled code runs over a list.
--
-- Not modelled: log events, advisory locks (they decide no result of a transaction that has them), the
-- patterns that recognise the text of a removed deadline (a parameter), random ids, the clock and what
-- the queue shows (arguments), and the rest of the service: language models, embeddings, search, routes,
-- jobs, and partition migrations but for their writes of receipts.
pub mod Prelude
pub mod Graph
pub mod Claims
pub mod Partition
pub mod Processing
pub mod Redirects
pub mod Erasure
pub mod Identity
pub mod Chunking
pub mod Sources
pub mod Tests
