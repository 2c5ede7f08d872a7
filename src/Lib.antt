-- ===== src/Lib.antt =====
-- IdentityHub's authentication core: accounts and their roles, sign-in with a second factor,
-- sessions, authorization codes and the keys of machine clients.
--
-- The program. A login (backend/internal/auth/login) checks a password and issues an MFA challenge
-- (backend/internal/auth/mfa); the code that is mailed buys a session: an access token
-- (backend/internal/auth/token), a family of one-time refresh tokens
-- (backend/internal/auth/refresh) and a Hub session. Sessions end in backend/internal/auth/session
-- and backend/internal/auth/logout, and all of an account's at once in
-- backend/internal/auth/passwordreset; an account begins with an invitation
-- (backend/internal/auth/invitation), which backend/internal/auth/invitationresend replaces. An
-- application of the company asks for an authorization code and exchanges it for the user's roles
-- in backend/internal/auth/oauth. Administrators change accounts and their roles in
-- backend/internal/auth/admin, configure the roles of applications in
-- backend/internal/auth/rolegrid, and issue keys to machine clients in
-- backend/internal/auth/servicekey. Each service runs its steps in a transaction of
-- backend/internal/store, whose writers call the queries of backend/internal/store/internal/sqlc.
--
-- The files.
--   Base          lists as tables, Boolean tests, bytes.
--   World         Rows: the rows of sqlc/models.go. Failure: the services' errors. Broker: the messages
--                 of backend/internal/events. Library: what other packages compute. Effects: an action
--                 is a function from a world to a result and a world; it holds the tables, the
--                 published messages and an environment that chooses, at each tick, which call fails,
--                 the clocks, the random bytes and the identifiers. A transaction restores the tables
--                 when its callback or its commit fails, as the Within…Transaction functions do.
--                 Laws, Keeps: rules for proofs.
--   Sql           one function for each query of sqlc/users.sql.go, sqlc/audit.sql.go,
--                 sqlc/service_keys.sql.go and sqlc/roles.sql.go that a modelled service calls, by its
--                 name in snake case. A search by a unique column finds at most one row, and is the
--                 first match in the list.
--   Roles, Token, Lockout, Refresh, Session, Logout, Mfa, Login, OAuth, PasswordReset, Invitation,
--   InvitationResend, Admin, RoleGrid, ServiceKey
--                 the packages of those names below backend/internal/auth. A Go method m of a service
--                 is the function m in snake case that takes the service's record first; its comment
--                 names the method where the names differ. Children named Reuse, Once, Frame, Activates
--                 and so on hold proofs, and Tests runs at concrete inputs.
--   Trace         the services together. Steps: the table of refresh tokens as an abstract machine, a step
--                 relation. Moves: rules for actions that take it through steps; a child named Trail of a
--                 service applies them. System: sequences of calls, of verify, refresh, logout, revoke and
--                 confirm, with any arguments; Preserved: what all steps keep.
--   Http          two decisions of backend/internal/api: the client's address (clientip.go) and the role
--                 that a request needs (rbac.go).
--   Fixtures      a small directory for the tests.
--
-- Conventions. Numbers are naturals: identifiers, addresses, and times in nanoseconds from an
-- origin before all records. Texts are lists of bytes. A database error, a failed publication and
-- a failed read of the random source may happen at any call. Transactions run one at a time:
-- PostgreSQL's row and advisory locks are not modelled, and neither is cancellation of a context.
-- The foreign key of an INSERT is modelled for invitations, MFA challenges, authorization codes,
-- user roles and the roles of applications; elsewhere it is left out, and its violation is one of
-- the errors that may happen at any call. Wrapping of errors by %w is dropped, since errors.Is
-- sees through it. Loops run over lists, but for that which writes the digits of a code
-- (Mfa.write_decimal): its 19 rounds are enough for an int64.
--
-- What other packages compute is a parameter (World.External): SHA-256, HMAC, base64,
-- crypto/rand.Int, UUID texts, the Argon2id hasher, the JWT signer, the folding of citext. No
-- theorem assumes more of them than its statement says; in particular none assumes that a hash has
-- no collisions.
--
-- Not modelled: the HTTP handlers, generated code, configuration, the broker's and the mail's
-- transport, logging, and the frontends; employees, the bootstrap of the first
-- administrator, the text of password hashes, organizations and the audit log's pages.
pub mod Base
pub mod World
pub mod Sql
pub mod Roles
pub mod Token
pub mod Refresh
pub mod Session
pub mod Logout
pub mod Lockout
pub mod Mfa
pub mod Login
pub mod OAuth
pub mod PasswordReset
pub mod Invitation
pub mod InvitationResend
pub mod Http
pub mod ServiceKey
pub mod Admin
pub mod RoleGrid
pub mod Trace
pub mod Fixtures
