-- ===== src/Lib.antt =====
-- Models of the packages of AgentPlace, a service in which AI Workers research and, within limits
-- that a user sets, act for the user.
--
-- The program. packages/authority decides what a Worker may do: a mandate is a revisioned policy
-- (capabilities, networks, assets, limits, a budget), and every proposed action is put to
-- evaluateAuthorityPolicy, which allows it, asks for approval or denies it. The other packages ask
-- it before anything is executed. packages/router decides, for a request, which Workers form the
-- team and which implementation of each capability (of packages/capabilities) is used; it only
-- routes capabilities that read. The database is PostgreSQL: each call is a query or a transaction
-- on tables, and a transaction that throws leaves the tables as they were.
--
-- The files:
-- - Prelude: lists, Boolean tests, equality as an instance, and Result, the value or the thrown
--   error of a call.
-- - Text: strings as lists of code units, with trim, lower and upper case (ASCII letters) and the
--   patterns of the regular expressions that the packages use.
-- - Decimal: the amounts of packages/authority/src/index.ts (units, fromUnits, canonicalDecimal,
--   addDecimal, greaterThan). A BigInt is a natural number, since the code never makes a negative
--   one.
-- - Authority.Types, Authority.Evaluate: the records and evaluateAuthorityPolicy of the same file.
--   Checks holds the groups of checks in their order, Decide the whole; Inversion, Spec, Sound and
--   Allowed are about what an answer means.
-- - Authority.Inputs, Authority.Normalize: the errors of the package, uniqueStrings, networks,
--   decimal and text; and normalizePolicy, which uses them.
-- - Authority.Store, Authority.Mandates: the owner's tables as a record, with expireMandates,
--   getMandate and validateMandateReferences; and createMandate, reviseMandate, setMandateStatus,
--   revokeAllMandates on them. Keeps and Rows reduce a property of all calls to one of the changes
--   of a row.
-- - Authority.Period, Authority.Envelope, Authority.Decisions, Authority.Usage: periodStart,
--   normalizeEnvelope, evaluateAuthority with the decision log and the pause, recordAuthorityUsage,
--   and any calls of the package in a row. What PostgreSQL's numeric reads and prints is the
--   parameter Authority.Numeric; Numeric.Postgres is its documented form. The clock runs from
--   Monday, the 5th of January 1970 on.
-- - Router: planRoute of packages/router/src/index.ts. Types has its records, Networks
--   canonicalizeNetworkId with its regular expressions, Eligibility implementationEligibility,
--   Order sortImplementations, Graph normalizeGraph, Team workerCandidates and pickTeam, Routes the
--   loop over the requested capabilities, Plan the whole up to what is stored. `localeCompare`,
--   which depends on the host, is a parameter.
-- - Collaboration: apps/worker/src/collaborationPlan.ts. The depth-first search of
--   checkCollaborationDependencies runs on a depth, two more than the number of steps; Enough shows
--   that it is never used up.
-- - Security: emergencyStopFutureExecution of packages/security/src/index.ts, on the actions,
--   attempts and approvals of one owner. Rows has the loops, and Stopped compares them with what
--   the stop is meant to do to each row.
-- - Risk: assessActionRisk of packages/risk/src/index.ts.
-- - Environment: parseEnvironmentContract of packages/shared/src/environment.ts.
-- - Wallets: the calls of packages/wallets/src/index.ts on the wallets, networks and agent accounts
--   of one owner. Inputs has the checks of addresses, names and networks, Rows the queries, Calls
--   updateWallet, createAgentAccount and any calls in a row; Edits reduces every call to the change
--   of one row, which Invariant, Removed, Connected, Watched and Agents use. Random ids are
--   arguments; the ids of other owners' rows are a list, since a primary key refuses them too.
-- - Verification: verificationResult and readIndependentEvidence of
--   packages/verification/src/index.ts. Numbers reads BigInts, Evidence has the ERC-20 call and
--   log, Checks and Outcome the result, Providers the reading from the RPC providers. The hash of
--   the evidence, the environment variables and the answers of the providers are parameters.
--   Approved, Settled and Providers.Agreed say what a verified outcome and its evidence mean.
--   Settlement has the tables and the operations on them, claimNextCandidate, markUnknown,
--   persistObservationEvidence, finalizeNotVerified and finalizeVerified; Settlement.Answered and
--   Settlement.Deferred have the lemmas on one round; Settlement.Rounds has verifyCandidate and the
--   loop of verifyConfirmedTransactionAttempts, whose bound is the number of rounds. A row keeps
--   the columns that decide; the body of a receipt, the events and errors of the database are left
--   out.
--
-- Numbers are natural numbers; times are milliseconds, and an invalid Date is `none`. Every loop is
-- structural recursion, except the search in Collaboration. One call sees one clock value. The
-- tables of one owner are the state; another owner's rows are never read or written, since every
-- query names the owner.
--
-- Not modelled: HTTP, the user interface, the SQL text, prompts and calls of model providers, the
-- row decoding of JSON columns, and constraints of the database on mandates (the partial unique
-- index, the trigger on the status and the foreign key to the Workers), without which the model
-- allows more than the database.
pub mod Prelude
pub mod Text
pub mod Decimal
pub mod Authority
pub mod Router
pub mod Risk
pub mod Environment
pub mod Collaboration
pub mod Security
pub mod Wallets
pub mod Verification
