-- ===== src/Lib.antt =====
-- obligator is an OpenID Connect provider and an authenticating multiplexer for applications. A
-- user proves an e-mail address or an account at another provider; the server keeps all identities
-- of the browser in one signed login cookie, and hands the one that the user picks to the clients
-- that ask for it. It keeps no sessions: cookies, authorization requests and codes are signed
-- tokens, and every handler parses them again.
--
-- The parts and their files:
--   * Base, Types, Pages: results, lists and texts; the structs of obligator.go, database.go and
--     utils.go; what the handlers write to the client.
--   * Platform, JwtLaws: what the program calls and does not implement. The jwx library, the hash
--     functions, the random source, net/url and the templates are the fields of a record, and
--     JwtLaws says what the proofs use of signing and parsing. The database is an interface,
--     as in database.go.
--   * Handler, Http: a handler of net/http as a function of the state that goes on, has returned or
--     has panicked; the response, the headers and cookies that can be set until the status is sent.
--   * Jose (jose.go), Utils (utils.go): tokens, cookie domains, the login cookie and its readers,
--     random texts.
--   * Server (obligator.go): ServeHTTP of ObligatorMux, the validation that it forwards with, and the
--     methods of Server.
--   * Oidc (oidc.go): the handlers of the provider. Oidc/AuthRequest is ParseAuthRequest, Oidc/Auth,
--     Oidc/Approve and Oidc/Token are /auth, /approve and /token, Oidc/Pkce is their code challenge
--     (add_identity_oauth2.go), Oidc/Endpoints has the others.
--   * Sqlite (database.go): the tables and every method of SqliteDatabase.
--   * Cluster (cluster.go), Email (add_identity_email.go): the instances of a cluster, and the login
--     by a link in a mail. Email has /login-email, /email-sent and the clean-up, Email/Magic has /magic
--     and /complete-email-login, Email/Mail is StartEmailValidation. Email/Spent has what can happen to
--     the pending logins of an instance, as steps.
--   * Qr (qr.go), Domains (domains.go), Site (handler.go): sharing a session with another browser,
--     domains that users add, and the server's own pages, /validate, /login and /logout.
--   * Gaml (add_identity_gaml.go): the login with a page that shows a code.
--   * Upstream (add_identity_oauth2.go): /login-oauth2 and /callback; the provider's metadata, keys and
--     answers are parameters.
--   * Api (api.go): the administration API.
--   * FedCm (fedcm.go): the accounts of the browser's session, and the codes that are made for them.
--   * IndieAuth (indieauth.go): /indieauth/auth, /confirm and /token, and the metadata document.
--   * Metadata (oauth2.go): what the server knows of the providers. Metadata/Lock has the goroutine
--     of Update and the readers as steps under the mutex. GetOidcConfiguration is here as well.
--   * FedCmLogin (add_identity_fedcm.go): the login with the token of a FedCM provider.
--   * Proxy (proxy.go): the reverse proxy that is told of each domain; its side of the HTTP API is a
--     state and a function.
--   * Jose/Generate, Jose/Signed (jose.go): the key pair of the first start, and what was signed is
--     read back.
--   * Start (obligator.go): NewServer. Start has the configuration that the primary stores,
--     Start/NewServer the order in which the parts are made, Start/Routes the paths,
--     Start/ServeMux what net/http does with them, Start/Command is cmd/obligator/main.go.
--   * Tests: a small platform with concrete parts, and the theorems at concrete inputs.
--
-- A function of the source keeps its name in snake case, and its arguments: time.Now() is the
-- argument `now` in seconds, the database and the random source are read from the state and
-- written back. An error return is a `Result` or ends the handler. The loops that draw random
-- texts are recursions over the number of characters left, and the one that draws a new code for
-- a page is one over the 1025 rounds that it makes at most; no other recursion needs a bound.
-- Times are natural numbers of seconds, and no arithmetic of the program can wrap.
--
-- Not modelled: the text of pages and logs, static files and /debug, the parsing of flags, and
-- Server.Start, which only listens. What the network answers to the server is a parameter; within
-- one update of the providers' metadata it does not change, and a call of the update may also never
-- come back. The paths of requests are clean, as
-- net/http makes them by a redirect. Sorting is stable here, where sort.Slice may keep logins of
-- one time in any order.
pub mod Base
pub mod Types
pub mod Pages
pub mod Platform
pub mod Handler
pub mod Http
pub mod Jose
pub mod Utils
pub mod JwtLaws
pub mod Server
pub mod Oidc
pub mod Sqlite
pub mod Api
pub mod Cluster
pub mod Domains
pub mod Email
pub mod FedCm
pub mod FedCmLogin
pub mod Gaml
pub mod IndieAuth
pub mod Metadata
pub mod Proxy
pub mod Qr
pub mod Site
pub mod Start
pub mod Upstream
pub mod Tests
