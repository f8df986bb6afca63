-- ===== src/Lib.antt =====
-- Verification of nodel-mcp, an MCP sidecar that lets an assistant inspect and change the nodes of a
-- Nodel host. Every change passes a gate: the operator grants an approval for one proposal (its
-- operation, its target and the hash of what would be written), the tool that applies the proposal
-- consumes the approval, and the change is made and recorded. The development models the state that
-- this rests on.
--
-- Parts, and how they correspond to the code:
--  Base       shared helpers: texts as UTF-16 code units, lists measured by native numbers, results;
--             Base/Outcome has the error codes of src/shared/publicErrors.ts
--  Values     values of type `unknown`, as JSON.parse returns them; Values/Keys has the laws of get,
--             put and delete
--  Files      the part of node:fs that the state modules call, as actions over a world of files with
--             a list of faults; Files/Triple has the rules for statements about actions, Files/Laws
--             those of each call, Files/Reads, Files/Appends and Files/Disk those of the calls that
--             read and append
--  Messages   src/shared/publicErrors.ts: sanitizeSensitiveMessage with its regular expressions;
--             Messages/Words has what it leaves as it is
--  Platform   SHA-256 and `Date` as an interface of operations and laws, with an instance
--  Config     src/config.ts: the record `AppConfig`; Config/Load has loadConfig and its helpers (value,
--             booleanValue, integerValue, normalizeHttpUrl, originList, validateToken, validateGates),
--             Config/Bounds and Config/Validity what it guarantees, Config/Samples a configuration
--             for the tests
--  Store      src/state/store.ts: `StateStore` (initialize, atomicWrite, durableRename,
--             acquireStartupLock, recoverStaleLock, readLock, close); Store/Writes, Completion, Locking,
--             Exclusion and Reads have the theorems
--  Approvals  src/state/approvals.ts: the records, approvalRequest and the schema checks;
--             Approvals/Effects has the operations on the file (approveWrite, assertWriteApproved,
--             loadApprovals, saveApprovals, quarantine); Approvals/Records, Loading, Consume, Once,
--             Invariant, Reach, Grants and Granting have the theorems
--  Locks      src/state/locks.ts: withWriteLock as a step relation; Locks/Order and Locks/Entries have
--             its invariants, Locks/Runs the theorems
--  Policy     src/safety/policy.ts: the gates and the allowlist; Policy/Gates and Policy/Allowlist have
--             the theorems
--  Paths      src/nodel/pathPolicy.ts: assertSafeRecipePath, assertSafePublicRecipePath,
--             contentAssetPathWarning; Paths/Containment and Paths/Slashes have the theorems
--  Canonical  src/shared/canonicalJson.ts: stableStringify, stableJsonHash; Canonical/Order has the theorem
--  Plans      src/domain/config/planner.ts: planConfigWrite, deepMerge, applyRemovePaths, removePath,
--             cloneUnknown; Plans/Merge, Plans/Conflict and Plans/Removal have the theorems
--  Resolution src/nodel/resolution/matching.ts: the scores of nodes, bestLocalMatch, bestRemoteMatch;
--             Resolution/Best and Resolution/Origins have the theorems
--  Decoders   src/nodel/contracts/decoders.ts: the decoders of the host's responses;
--             Decoders/Discovered has the theorem
--  Resolver   src/nodel/resolution/resolver.ts: Resolver has the cache and the addresses that inputs
--             are, Resolver/Actions the actions on the cache and the host, Resolver/Discovering
--             listLocalNodes and discover, Resolver/Search resolve; Resolver/Bounded and
--             Allowed have the theorems
--  Recipes    src/domain/recipes/operations.ts: Recipes/Edits has applyTextEdits; Recipes/Pieces and
--             Recipes/Replace have the theorems; src/domain/recipes/readiness.ts: Recipes/Readiness has
--             waitForNodeReadyAfterWrite, Recipes/Waiting the theorems
--  Points     src/mcp/tools/pointFiltering.ts: Points has the selector (buildPointPredicate),
--             Points/Patterns the checks on a pattern, Points/Names the names of points and the point
--             that a status is of, Points/Definitions filterDefinitions, Points/Bindings the points
--             of a node, Points/Filters filterBindings; Points/Bindings/Keyed and
--             Known and Points/Filters/Selected have the theorems
--  Audit      src/state/audit.ts: Audit has redaction and the names of backups, Audit/Log auditWrite,
--             rotateAudit and auditFilePaths, Audit/Mutation auditedMutation, Audit/Backups
--             backupState and pruneBackups; Audit/Paths, Views, Rotation, Records, Refines, Redacted,
--             Recorded, Retention, Unended and Pruning have the theorems
--  Writes     src/domain/config/writes.ts: Writes has the monad of tools, Writes/Requests actionRequest,
--             resolveDefinitionName and activityContainsAction, Writes/Tools setParameters and
--             callAction; Writes/Barred has the theorem
--  Bindings   src/domain/bindings/planner.ts: Bindings has the scores (bindingScore, bestBindingTarget),
--             Bindings/Definitions the helpers of src/domain/bindings/directPlanner.ts, Bindings/Direct
--             buildDirectBindingPlan; Bindings/Loop, Clones, Patch, Kept and Scores have the theorems
--
-- A tool of Writes plans by Plans, checks the approval by Approvals, saves a backup and records the
-- change by Audit, and asks the host through actions that are parameters.
-- The resolver takes what the host answers through Decoders, chooses by the scores of Resolution, and
-- asks the allowlist of Policy. The audit log wraps every change of the remote host: what the host
-- does is an action that is a parameter. The approvals module keeps its file
-- through `atomicWrite` of the store. Both are synchronous code: JavaScript does not interleave it
-- within a process, and the startup lock is there to keep a second process away. The gates of Policy read the configuration, and a plan of Plans is compared by the hash
-- of Canonical.
--
-- Faults: a call of node:fs that can throw takes one Boolean from the world's list and fails if it is
-- true; a call past the end of the list succeeds. Loops are structural recursion on lists. The wait for
-- a node takes the list of its probes as fuel, one for each attempt, with what the clock says before
-- and behind it; the digits of a number take a fuel of one more than the number, which has no more
-- digits than that. A file of records that is appended to keeps them as a list, and a flag for a last
-- line that has no end, since an append that fails may have written a part. Numbers are native; times
-- are those that `Date` can hold.
--
-- Not modelled: the texts of error messages, network requests, the registration of tools with the MCP
-- SDK, logging, and the tables of guidance and of the UI catalogue. A name made unique by process,
-- time and randomness is made unique by a fresh uuid.
pub mod Base
pub mod Values
pub mod Files
pub mod Messages
pub mod Platform
pub mod Config
pub mod Store
pub mod Approvals
pub mod Locks
pub mod Policy
pub mod Paths
pub mod Canonical
pub mod Plans
pub mod Resolution
pub mod Recipes
pub mod Points
pub mod Audit
pub mod Decoders
pub mod Resolver
pub mod Writes
pub mod Bindings
