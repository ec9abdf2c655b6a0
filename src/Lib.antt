-- ===== src/Lib.antt =====
-- Verification of the OKK analytics gateway (server/okk_mcp): an OAuth 2.1 authorization server and
-- an MCP resource server in front of the OKK platform.
--
-- How the parts interact. A client exchanges an authorization code at `POST /token`, rotates its
-- refresh token there, and revokes tokens at `POST /revoke`; every MCP request carries an access
-- token that `verify_token` checks against the tables and against the live OKK account. The OKK
-- account is reached through the platform client, which keeps one sealed OKK session per sign-in,
-- renews its access token under the lock of the session row, and repeats reads that failed in
-- transit.
--
-- Which file models which part:
--   Models     server/okk_mcp/models.py: the rows; a table is the list of its rows. Instants are
--              microseconds since the epoch and UUIDs are numbers.
--   Errors     the exceptions as values.
--   Effect     the state that the code runs on (`World`), what it takes from elsewhere (`Host`) and
--              the code that changes the one and reads the other (`Action`). Effect/Preserves and
--              Effect/Keeps carry invariants through any action built from these parts.
--   Crypto     server/okk_mcp/crypto.py.
--   Platform   server/okk_mcp/platform_client.py: Account (`authenticate`, `_refresh`, `_get_me`),
--              Rotation (`_rotate_session`, `_remember_renewal`), Context (`live_context`,
--              `revoke_upstream`), Reads (`get`, `_read`, `_send_read` and the lookups).
--   Security   server/okk_mcp/security.py: scopes, PKCE and redirect URIs.
--   ClientMetadata  server/okk_mcp/client_metadata.py: Parsing (`_parse`), Network (what the code takes
--              from elsewhere and its state), and the load with its checks and cache.
--   Oauth      server/okk_mcp/oauth.py: Authorize is `authorize` with `_load_client`, Authorize/Login
--              is `authorize_login`, Register is `register_client`, Consent is `_granted_scope`,
--              UserInfo is `userinfo`, CodeGrant and RefreshGrant are the two branches of
--              `token_endpoint`, Token the endpoint with `revoke_token` and `verify_token`, Store the
--              queries and the transaction of server/okk_mcp/db.py.
--   Maintenance  server/okk_mcp/maintenance.py: the cleanup of expired grants and orphaned sessions.
--   Gateway    histories of requests to `/token` and `/revoke` and with access tokens, and what holds
--              through all of them; Visits has the histories in which people also sign in.
--   Json       JSON values, dicts and lists as the analytics code reads them; `str` of a value.
--   Analytics  server/okk_mcp/backend_client.py: Adapter (the state of an `AnalyticsAdapter`, `context`,
--              `_get`), Departments, Supervisors, Employees and Directory (what the account sees of
--              OKK's catalogs), Journal (`_journal_pages`), Calls (`_safe_call`, `_visible_call`), Texts
--              (selectors, search terms, phone numbers), Envelope (the answers), Transcripts with
--              CallTranscript (`get_call_transcript`) and SupervisorTranscript
--              (`get_supervisor_call_transcript`), Grounding (`_ground_employee_rows`). Guarded carries
--              the account's scope through any method built from these parts.
--   Reporting  server/okk_mcp/reporting.py: plans without their edit history.
--   Client     server/okk_mcp/backend_client.py: `BackendClient.get`, with the limit of tool calls (Limit)
--              and the errors of a read as the tools see them.
--   Tools      server/okk_mcp/server.py: the tools with their scopes, Periods (`_period_params`), Routes
--              (the read of each tool) and Server (`_require_scopes`, `_read` and the call of a tool).
--   Common     shared helpers: Python's text operations, sets of texts, Boolean tests.
--   Tests      runs at concrete inputs.
--
-- Parameters. `Host` holds the clock, the random source, SHA-256, Fernet, JSON, Unicode's
-- classes of characters and the answers of OKK, and `Net`, `Web` and `Service` hold URL parsing, IP addresses,
-- DNS, the HTTP client, the signature of the login page and Redis, and `Limits` the counters of
-- registration: none of it is code of this repository. `Redis` counts tool calls, with two laws: a count
-- returns the number that the key then has, and lowers no key's number. `validate` is pydantic's check
-- of an answer, `iso` the text of a date, `uuid_text` the text of a UUID, and `dispatch` the methods of
-- `AnalyticsAdapter` behind their paths. The n-th reading of the clock and the n-th
-- draw are functions of n, so that nothing is assumed of them except where a theorem names it (a clock
-- that has not passed an instant, a random value that is new).
--
-- Bounds. The loops that read pages of OKK run on fuel, one unit for each page. Without fuel they raise
-- the `TimeoutError` of the time budget that ends a tool call; a bound on OKK's number of pages is
-- enough fuel. Every other loop runs over a given list. Numbers are unbounded, as in Python.
--
-- Not modelled. A request runs to its end before the next one starts, as the row locks of the token
-- and session rows make it look for one token; interleavings of requests on different rows are
-- covered by no theorem. Rows are found by the first match, which is the only one where the unique
-- constraints of the tables hold. A session id is a UUID that parsed. HTTP headers, the HTML of
-- the pages (which are values here), the handlers of the analytics tools but two and deployment glue are
-- left out. `_journal_pages` takes the read of a page as an argument; the reads that `calls` and
-- `transcript_matches` give it are not modelled. An answer of OKK depends on how many requests were
-- sent, a signed page is read back by a parameter, and the JSON of a 200 answer always parses. The body
-- of a client's document is measured in characters, where the code counts bytes. A JSON number that is negative or a fraction stands as its spelling.
pub mod Common
pub mod Errors
pub mod Json
pub mod Models
pub mod Effect
pub mod Crypto
pub mod Platform
pub mod Security
pub mod Oauth
pub mod ClientMetadata
pub mod Gateway
pub mod Maintenance
pub mod Analytics
pub mod Reporting
pub mod Client
pub mod Tools
pub mod Tests
