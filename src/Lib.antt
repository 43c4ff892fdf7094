-- ===== src/Lib.antt =====
-- The admin dashboard of telecam: its session, its access control, and the readers and
-- calculations behind its pages. Its files are named below without
-- their directory admin-dashboard/.
--
-- The dashboard is a browser program. `AuthProvider` (lib/auth/auth-context.tsx) holds the
-- session: it signs in and out, refreshes the access token, and registers two handlers with the
-- session store, through which `apiFetch` (lib/api.ts) refreshes the token on a 401 or ends the
-- session. The role of the signed-in user decides which pages and actions are open
-- (lib/auth/permissions.ts, lib/auth/page-permissions.ts, lib/routes.ts). What the server
-- answers is of unknown shape and is read by normalizers.
--
-- - Prelude: Boolean tests on numbers, the conditional, options, lists.
-- - Text: JavaScript strings as lists of code points. `trim`, `includes`, `startsWith`, `split` at
--   a character, and the replacements by regular expressions are functions by clauses.
-- - Json: values of type `unknown`. An object is the list of its properties. The engine
--   (numbers, case mappings above ASCII, `JSON.parse` and `JSON.stringify`) is a parameter.
-- - Paging: lib/list-controls.ts and hooks/use-client-pagination.ts.
-- - Auth: Roles and Users (lib/auth/types.ts, lib/auth/session-store.ts), Permissions
--   (lib/auth/permissions.ts, hooks/use-permissions.ts), Routes (lib/auth/page-permissions.ts,
--   lib/routes.ts).
-- - Session: World (the state: the variables of lib/auth/session-store.ts, the local storage and
--   the states of `AuthProvider`), Storage (lib/auth/storage.ts), Api (lib/api.ts), Requests
--   (lib/auth/auth-api.ts), Provider (lib/auth/auth-context.tsx), Guards
--   (lib/auth/guards.tsx, components/auth/RequirePermission.tsx). The other modules hold proofs:
--   Frame (what a request leaves alone), Access, Invariant, Operations, SignedIn, Passwords,
--   Reach, Outcomes, SignIn; Retry and Sends (the second call of `apiFetch`, and what is sent);
--   Spec (what the session promises, as moves of an abstract state), Drift and Refines (that it
--   does), Overlap (a refresh that waits while the user signs out). Queries is what the request
--   wrappers of lib/admin share.
-- - Search: `matchesSearch` of lib/list-controls.ts.
-- - AuditLogs: lib/admin/audit-logs-utils.ts and audit-logs-types.ts: Sanitize (metadata), Logs
--   (categories, summary, search); Read (audit-logs-normalizer.ts), Requests (audit-logs-api.ts).
-- - Alerts: lib/admin/alerts-types.ts (Types), alerts-normalizer.ts (Sanitize, Read, Summary,
--   Filter) and alerts-api.ts (Requests).
-- - System: lib/admin/system-types.ts and system-health.ts; Read (system-normalizer.ts), Requests
--   (system-api.ts). What a health score takes off is computed on natural numbers, where a
--   difference stops at 0 as the clamped score does.
-- - Schools: lib/admin/schools-types.ts (Types), schools-normalizer.ts (Address: the fields that
--   are kept in an address; Read), lib/school-form.ts (Form), schools-api.ts (Requests).
-- - Cameras: lib/admin/camera-monitoring-types.ts (Types) and camera-monitoring-normalizer.ts:
--   Status (the decision on a camera's status), Read (rows of cameras and schools), Health (one
--   camera, its stream state, the scheduler), Summary (the counts); Catalog (cameras-types.ts,
--   cameras-normalizer.ts), Requests (cameras-api.ts), Hosts (lib/rtsp-validation.ts).
-- - Users: lib/admin/users-types.ts and users-normalizer.ts (Read), users-api.ts (Requests).
-- - Entities: Classrooms, Children and Parents (lib/admin/classrooms-types.ts,
--   classrooms-normalizer.ts and so on), Requests (their *-api.ts).
-- - Billing: lib/admin/billing-types.ts (Types), billing-normalizer.ts (Read), billing-utils.ts and
--   lib/billing-form.ts (Amounts), billing-api.ts (Requests).
-- - Dashboard: Score (lib/health-score.ts), on natural numbers; Read (lib/admin/dashboard-types.ts,
--   dashboard-normalizer.ts and dashboard-api.ts).
--
-- Names are those of the sources in snake_case: `refreshSession` is `refresh_session`, and the
-- `login` of lib/auth/auth-api.ts is `login_request`. A function of the session is a function
-- from the world to a run, which returns or throws and leaves a world. The server is a
-- function of the requests sent before and of the request, or no answer.
--
-- Bounds and fuel: numbers of pages and items are natural numbers. `decimal` runs on fuel, one
-- more than the number, which is more than its digits. `apiFetch` calls itself with `_retried`; it
-- runs on fuel for two calls, since the second, on a retry, makes no third. Without fuel it would
-- throw an error of its own, which no run reaches. Amounts are computed with JavaScript's numbers,
-- of which what is proved uses that they are exact for natural numbers below 2 ^ 53.
--
-- Not modelled: two runs that overlap in time, but for the refresh in Session/Overlap (each runs
-- to its end before the next), the storage usage of lib/admin/system-normalizer.ts, the checks of
-- the zod library, the dates of billing, React's rendering and effects (the interval is a refresh
-- at any time), a local storage that is there and throws, the parts of a request besides its
-- method, body and headers, dates and locales, the components and their styles, the query hooks,
-- the backend and the gateway agent.
pub mod Prelude
pub mod Text
pub mod Json
pub mod Paging
pub mod Auth
pub mod Session
pub mod AuditLogs
pub mod Cameras
pub mod Search
pub mod System
pub mod Alerts
pub mod Schools
pub mod Users
pub mod Entities
pub mod Dashboard
pub mod Billing
