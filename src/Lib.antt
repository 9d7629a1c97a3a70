-- ===== src/Lib.antt =====
-- Agent Gateway: a self-hosted control plane for an organization of AI agents. Events come in, are
-- routed to agents under loop guards, agents run, wait and answer, and every side effect leaves
-- through a transactional outbox. The program is TypeScript over PostgreSQL; this library models the
-- deterministic core of it.
--
-- Files:
--   Prelude     shared names; tables as lists of rows, stable sort, keyed lists, maps
--   Agents      packages/core/src/state-machine.ts
--   Outbox      packages/outbox/src/deliver.ts, and the writes of the same table in
--               packages/core/src/services (store.ts, admin.ts, agent-lifecycle.ts, retention.ts)
--   Events      packages/contracts/src/event.ts, packages/events/src/envelope.ts
--   Waits       packages/core/src/waits.ts; Store, Consumed, Once and Life are the rows that
--               packages/core/src/services/wait-store.ts consumes and cancels
--   Routing     packages/core/src/routing.ts, which uses Events, Waits and Agents
--   Runs        packages/core/src/services/runs.ts (failed attempts and their backstops) and
--               packages/core/src/outcome.ts (the scope of a run, which completionScope of runs.ts
--               widens by the thread of its context), with the store operations they use; its holds
--               come from Policy, its states from Agents
--   Approvals   packages/core/src/services/approvals.ts and approval-store.ts, with the guards of
--               packages/db/migrations/0011_approval_guards.sql: Requests, Actions and Case are the
--               rows of one approval, Decide, Execution, Begin, Settle, Sweep, Reports and Withdraw
--               the handlers, Writes the writes they come to, Life their histories; Codes is
--               packages/policy/src/approval-code.ts; it uses the tool policy of Policy
--   Turns       packages/contracts/src/turn-authority.ts, the authority of a run over its result; it
--               uses the tool patterns of Policy and the waits of Waits
--   Policy      packages/policy/src (tools.ts, budget.ts, ip-guard.ts) and the usage ledger,
--               packages/core/src/services/budgets.ts
--
-- Conventions. Identifiers are texts; times are milliseconds as natural numbers; `null` and
-- `undefined` are `none`; a function of the source keeps its name in snake case. A transaction is
-- one function from the state before to the state after: PostgreSQL's row locks make it so. A
-- handler of several transactions (deliverOutboxItem) is the composition of theirs, and
-- Outbox/Fencing lets the transactions of several workers interleave. A JSON value that the code only
-- stores is a type parameter `J`; what a Zod schema reads from it is a parameter of type `Schemas`.
-- A handler of an approval is a function of the rows it holds locked (Case). The deliverer of an
-- outbox item, the code of an approval request, the hash of an action, the redaction of error texts,
-- the ids that the queue gives its jobs and the size of a serialized input are parameters too. Money is counted in millionths of a dollar,
-- a random number in parts of 2 ^ 53, an address by its numeric value. Sorting is a
-- stable insertion sort, as the language's own sort is stable. There is no fuel: every loop of the
-- modelled code is over a list.
--
-- Not modelled: network and process I/O (Mattermost, Gmail, runtimes, sandboxes), the console and the
-- command line, database migrations, logging, hashing; of the modelled services, what the comments of
-- their files name: the late card notices after a sweep of approvals, the batches of the retention
-- sweep, the query for the correlation of a thread (a parameter of the scope of a completion), and of a
-- run everything but its failed attempts and the check of its result's scope.
pub mod Agents
pub mod Approvals
pub mod Events
pub mod Outbox
pub mod Policy
pub mod Prelude
pub mod Routing
pub mod Runs
pub mod Turns
pub mod Waits
