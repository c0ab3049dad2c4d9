-- ===== src/Lib.antt =====
-- CanvasWatcher: a multi-user study assistant. A gateway (identity-gateway) signs users in and sends
-- each one to an isolated backend, its slot; a backend (backend) keeps a student's courses, tasks and
-- calendar; a desktop broker (auth-broker) opens browsers for the sign-in to the providers. This
-- library models parts of the gateway and of the backend and proves what makes them correct.
--
-- Gateway/Identity: identity-gateway/aw_gateway/store.py and security.py. Schema has the tables as
--   lists of rows in the order of insertion, Tx the transactions (`_write`: BEGIN IMMEDIATE, commit
--   or rollback; UNIQUE and foreign keys), Names `normalize_username` and `normalize_email`, Security
--   the tokens and passwords over hashes that are parameters, Accounts, Sessions, Attempts and
--   Callbacks the operations of `IdentityStore`, Calls the sequences of its calls.
-- Gateway/Broker: identity-gateway/aw_gateway/broker_map.py, the capabilities that bind the desktop
--   broker's calls to a user and slot.
-- Gateway/Routes: identity-gateway/aw_gateway/main.py. Http has requests, answers and the shared guards
--   (`_session`, `_csrf_ok`, `_form`, `host_guard`), SignIn, Admin, Tenant and Frontend the routes over
--   the identity store and the broker map, Handled the routes together. A page is given by its status.
-- Gateway/Proxy: identity-gateway/aw_gateway/config.py and proxy.py. Config has the limits of a
--   deployment and the paths and secrets of a slot, Forward what goes on to a tenant and comes back.
-- Auth: backend/app/auth/broker_challenges.py, the sign-in attempts of one backend. The gateway's
--   capabilities stand for an attempt of a slot: `BrokerMap.create` gets the ticket of
--   `ChallengeStore.create`.
-- Calendar: backend/app/services/calendar_capacity.py, the merging of busy intervals and the free
--   time.
-- Work: backend/app/services/completion.py and work_tracking.py over the rows of backend/app/db.py.
--   Schema has the rows, Progress `apply_progress`, Timer the work timer and the totals, Heartbeat
--   `record_work_heartbeat`, which calls `apply_progress`, Calls the sequences of calls. A loaded task
--   is an argument of its own beside the database, since another request may have committed.
--   Repair is backend/app/services/completion_repair.py, over the same rows.
-- Credentials: backend/app/auth/store.py and models.py. Store has an account, what all maps hold for one
--   id, and the methods, Calls the write of the vault before each change and sequences of calls.
-- The modules under Plan: backend/app/services/planner.py. Blocks has `split_minutes` and the loops of
--   `Planner.rebuild`, which reckon on the wall clock, with `as_utc` as an argument, Active the plans it
--   supersedes.
-- Changes: backend/app/services/change_policy.py. Json has the values of a snapshot, Policy the tests
--   on the type of a change and `should_emit_change`, Release `grade_is_released` and
--   `is_user_facing_event`.
-- Analysis: backend/app/ai/queue.py and backend/app/services/assignment_summaries.py. Schema has the rows
--   of backend/app/db.py, Enqueue `enqueue_task_analysis` and `enqueue_change_analysis`, Worker the loop
--   of `AnalysisWorker` with `_mark_failed`, Summaries `run_summaries` and `run_pending`. The reviews
--   themselves are parameters, and so is what `prefilter` answers. Notify is the policy's
--   `analysis_should_notify_user`.
-- Links: backend/app/services/task_links.py. Resolve has `safe_task_url` and the choice among the
--   links of a task's source items.
-- Tokens: backend/app/services/canvas_lifecycle.py. Lifecycle has the metadata of a Canvas token and what
--   is shown of them.
-- Base: Boolean tests on the native numbers, lists, SQL's statements on lists of rows, texts as lists
--   of code points.
--
-- State is passed explicitly. The time, random ids and random tokens are arguments of each call;
-- writers of the database and holders of a lock run one behind the other, so a sequence of calls
-- is an order in which concurrent requests take effect. Errors are values. The loop of
-- `split_minutes` runs on fuel, as many steps as minutes, and its theorem shows that this is
-- enough; the other loops of the source are recursions on lists, or on the number of slots. Texts
-- are lists of code points; SQLite's NOCASE folds ASCII letters, as it is documented, and
-- `str.lower` is a parameter.
--
-- Not modelled: the HTTP routes of the backend, the synchronization with the providers, downloads, the
-- chat, the language models and their prompts, the desktop broker's processes, migrations, the
-- frontend and the texts of the gateway's pages: these are mostly calls of libraries and services, or
-- remain to be modelled.
pub mod Base
pub mod Gateway
pub mod Auth
pub mod Calendar
pub mod Work
pub mod Plan
pub mod Changes
pub mod Analysis
pub mod Credentials
pub mod Links
pub mod Tokens
