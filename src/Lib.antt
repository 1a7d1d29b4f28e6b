-- ===== src/Lib.antt =====
-- The services of JITO INDIA GAMES: the ledger that owns every balance, the placement of bets, the
-- audited adjustments of an administrator, the engine that opens and locks the rounds, and the
-- authentication of players and administrators.
--
-- The parts, and how they interact. `services/api/src/points/points-ledger.service.ts` is the one
-- writer of ledger rows and balances: it locks an account, validates the balance under the lock,
-- inserts a row under a unique idempotency key and updates the balance. Bet placement
-- (`services/api/src/bets/bets.service.ts`) and the admin adjustment
-- (`services/api/src/admin/points/admin-points.service.ts`) compose its steps into their own
-- transactions, and `services/api/src/points/reconciliation.service.ts` compares balances with the
-- ledger. The engine (`services/game-engine/src/rounds`) creates, opens and locks the rounds that
-- bets are placed on: each tick, the engine that holds the leader lock in Redis
-- (`services/game-engine/src/redis/redis.service.ts`) reads the rounds and makes the next change.
-- A player registers, logs in, refreshes its tokens and logs out through
-- `services/api/src/auth/auth.service.ts`: a registration creates the points account that the ledger
-- moves, a login creates a session, each refresh replaces a session by a successor, and the guards
-- (`services/api/src/auth/guards`) look the session of an access token up on every request.
-- `services/api/src/users/users.service.ts` changes the password and ends the sessions, and
-- `services/api/src/admin/auth/admin-auth.service.ts` logs administrators in. But for the leader
-- lock, a scheduler's flags, the counters of the rate limits and a cache of the players' status, all
-- state is in PostgreSQL.
--
-- The files:
--   Prelude       shared names, Boolean tests, integers, JavaScript's string length and trim
--   Database      the tables, errors, transactions, and the SQL statements on accounts and ledger
--                 rows, with the constraints of the migration
--                 services/api/prisma/migrations/20260910000000_phase2a_init/migration.sql
--   Centipoints   packages/shared/src/centipoints.ts: `centipointsToNumber`, `sumCentipoints`
--   Points        Ledger (`applyMutation`, `mutateWithinTransaction`, `lockAndValidateAccount`,
--                 `commitMutation`, replays), Reconciliation (`verifyAccount`, `verifyAll`),
--                 Listing (points.service.ts, and its Order and Pages), Invariant and Posting (soundness of
--                 the tables), Mutation (its properties)
--   Bets          Items (merging and validation), Tables (SQL statements), Service (`placeBet`),
--                 and its properties: Merging, Placement, Outcomes, Recorded, Replay, Retry, Paid,
--                 Funding, Acceptance
--   Admin         `adjust`, Outcomes and Audit
--   Auth          the requests and answers; Tables (statements on users, administrators and
--                 sessions), RateLimit (`checkRateLimit`), Sessions (`createSession`, `logout`,
--                 `logoutAll`, revocation), Refresh, Login, Register, Guards (guards and
--                 strategies), Users (users.service.ts), Admins (admin-auth.service.ts), each with
--                 its properties below it, and Requests: the requests in any order and
--                 interleaving, how they move the sessions table (Moving, Changes, Logins,
--                 Serving), and what that gives (Spent, Ended)
--   System        bets and adjustments in any order and interleaving, Steps (what each keeps, all
--                 keep) and Sound
--   Rounds        `reconcile` and its statements (rounds.service.ts, display-code.ts), Steps (the
--                 legal changes), Reconciled, Progress, Numbers and Numbering, and Betting
--                 (locks against bets)
--   Scheduler     `tick` and `ensureLeader` (round-scheduler.service.ts), the leader lock, and
--                 Leadership and Ticks
--   Examples      runs at concrete inputs
--
-- State and operations. A table is a list of records, the newest row at its head; `Db` is all of
-- them. A transaction's body is a function of the tables into an error or a result with new tables,
-- and an error rolls everything back. It is one step, because each body first takes the row locks
-- (FOR UPDATE) on all that it checks and changes. What other requests commit while a call is under
-- way is an argument of the call: `before_lock` and `before_reread` of `Others` change the tables
-- between the call's reads without a lock and its transaction, `Races` those of a `reconcile`, and
-- `meanwhile` those of the reconciliation, which sums each account's rows after it has read the
-- balances. The order in which PostgreSQL finds rows is an argument of the listing, which sorts them.
-- A command to Redis that throws may have run or not (`Delivery`). A UUID is a number, with the text of
-- a UUID as the parameter `uuid_text`; money is an integer of centipoints, time a number. Generated
-- identifiers and the transaction's time are arguments (`Stamp`, `BetStamp`, `AdjustStamp`,
-- `RoundStamp`, and the stamps of the authentication).
-- The authentication's statements that are no transaction together are steps of their own, with
-- the commits of other requests between them (`LoginOthers`, `RegisterOthers`, `RefreshOthers`,
-- `PasswordOthers`, `AdminLoginOthers`). An UPDATE of many sessions works on the rows of its snapshot
-- and tests each again when it has its lock (`revoke_sessions`). `Libraries` has the third-party
-- functions: argon2, SHA-256, the signature of a token, and `toLowerCase`; the balance in an answer
-- is an integer, which the code prints in decimal.
--
-- Bounds and fuel. BIGINT columns refuse what is out of the 64-bit range, VARCHAR(120) what is too
-- long. The double nearest to an integer is found with fuel 1024 for its halvings: a double has no
-- larger exponent, and a BIGINT needs 11 at most. A round number is printed with fuel 19, the digits
-- of a BIGINT.
--
-- Not modelled: logging, the texts of HTTP errors, the decorators of the validation library, the
-- foreign keys of tables that no code here reads, and the parts of the repository that hold no state
-- of the services: user interfaces, health probes, configuration. The verification of a dummy hash,
-- which only takes time, is left out of the logins. Inside the transaction of a refresh, other
-- requests commit before its row lock and before a revocation has its rows; its other statements are
-- one step. Of centipoints.ts, the decimal strings are not modelled.
pub mod Prelude
pub mod Database
pub mod Centipoints
pub mod Points
pub mod Bets
pub mod Admin
pub mod System
pub mod Auth
pub mod Examples
pub mod Rounds
pub mod Scheduler
