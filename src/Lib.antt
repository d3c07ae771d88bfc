-- ===== src/Lib.antt =====
-- Models of the services of the smart-c playground, a C playground in the browser.
--
-- The LSP service (apps/lsp) gives each visitor a clangd of its own behind a WebSocket. The web
-- service (apps/web) checks and limits the requests and has the LSP service create the session; the
-- browser then connects with a ticket that is good once. On the socket a guard reads every message
-- both ways.
--
-- Text.antt has JavaScript strings as lists of UTF-16 units, with UTF-8 in Text/Utf8.antt and the
-- laws of its searches in Text/Search.antt; Json.antt has parsed JSON values; Map.antt has
-- JavaScript's Map as its entries in insertion order.
--
-- Guard models apps/lsp/src/json-rpc-guard.ts. Guard/State.antt has the fields of LspJsonRpcGuard,
-- Guard/Session.antt its public methods (validate_client_message, validate_server_message,
-- take_document_update, open_document_versions) and #validateClientMethod, Guard/Documents.antt the
-- four document handlers, Guard/Methods.antt the small predicates, Guard/Uris.antt
-- hasUnexpectedUri, Guard/Position.antt positionToOffset and Guard/Change.antt applyDocumentChange.
-- A method takes the guard and returns it with its result. JSON.parse and fileURLToPath are
-- parameters (Platform), the clock is an argument. hasUnexpectedUri recurs on the nodes that it may
-- still visit, so nothing runs out of fuel.
--
-- Ticket.antt models apps/lsp/src/ticket.ts. The HMAC, base64url and JSON are a codec, a parameter;
-- what the round trips rely on is IsFaithful in Ticket/RoundTrip.antt, and Examples/Codec.antt has
-- a codec for which it holds.
--
-- Manager models LspSessionManager of apps/lsp/src/session-manager.ts. Manager/State.antt has its
-- fields, Manager/Quota.antt #reserve and #release, Manager/Sessions.antt createSession after its
-- file writes and authorizeWebSocket, Manager/Closing.antt the rest. An asynchronous method is cut
-- at its awaits, and Manager/System.antt has the interleavings of the parts as a step relation. A
-- timer is the time at which it fires. The functions of node:path and node:url are parameters
-- (Paths).
--
-- Adapter models JsonRpcWebSocketAdapter of the same file. Adapter.antt has its handlers as actions
-- on a state with a queue in place of the promise chain, which return the effects as events; the
-- state of the socket is an argument.
--
-- Clangd.antt models apps/lsp/src/clangd-process.ts, the command, the environment and the limits of
-- a clangd; its limits are put into text by Text/Decimal.antt, with 20 digits at most, more than
-- any has.
--
-- Contracts.antt models the predicates of packages/contracts/src/index.ts, Validation.antt
-- apps/web/lib/server/validation.ts and RateLimit.antt apps/web/lib/server/rate-limit.ts.
--
-- Web models the server side of apps/web. Web.antt has requests, responses and the environment as
-- records, Web/Identity.antt lib/server/identity.ts, Web/Http.antt lib/server/http.ts,
-- Web/Services.antt createInternalSession and setTicketCookie of lib/server/services.ts, and
-- Web/Routes.antt the POST handlers of app/api/lsp/sessions/route.ts and
-- app/api/executions/route.ts, which differ in a Route. A handler takes the store of the rate
-- limiter and returns it with the response and the calls that it made; the answer of the internal
-- service is a function of the call, and what other requests do to the store while the body is read
-- a function of the store.
--
-- Upgrade.antt models apps/lsp/src/websocket.ts on top of Manager: each callback is a function of
-- the manager and the pending authorizations, and a request is known by a name. App.antt models
-- apps/lsp/src/app.ts; the POST stops where the creation starts to write files (creating) and
-- finish_post is the rest. Config.antt models apps/lsp/src/config.ts, whose errors are values, and
-- Health.antt apps/lsp/src/health.ts with stopChildProcess of session-manager.ts.
--
-- Transport models apps/web/lib/client/lsp-transport.ts. Transport.antt has WebSocketLspTransport
-- as a state with one action for each call of the client, event of the socket and expiry of the
-- timer; the ready state of the socket comes with the action, and the effects are returned as
-- events. A subscriber may call dispose within a fan-out, which goes on. Transport/Disposer.antt
-- has DeferredDisposer.
--
-- Client models the browser's side. Client/Storage.antt is the projects of
-- apps/web/lib/client/storage.ts. The others take three parts of the state of
-- apps/web/components/playground.tsx: Client/Project.antt its files, Client/Connection.antt
-- connectLsp and the reconnections, and Client/Execution.antt run, stop and the events of the
-- execution socket, with the phases in Client/Phase.antt. connect_lsp recurs on fuel; three, one
-- for each attempt, is enough, as Client/Connection/Attempts.antt proves. Sockets and requests are
-- numbers, and so is the identity that the refs are compared by.
--
-- Numbers: byte counts, versions, times and counters are natural numbers. The source keeps them
-- below 2^53 or compares them with limits far below; JSON numbers may be negative or no integers.
--
-- Not modelled: the start of the clangd process, exceptions that clangd's reader throws into the
-- adapter, the start of the LSP service in apps/lsp/src/index.ts; the readiness checks, the
-- settings and the HTTP client of apps/web; its rendering, editor and terminal, which wire
-- libraries; the executor, which is written in Rust; scripts; file and process input and output.
pub mod Prelude
pub mod Text
pub mod Contracts
pub mod Validation
pub mod RateLimit
pub mod Json
pub mod Map
pub mod Guard
pub mod Ticket
pub mod Transport
pub mod Web
pub mod Client
pub mod Upgrade
pub mod App
pub mod Config
pub mod Health
pub mod Manager
pub mod Adapter
pub mod Clangd
pub mod Examples
