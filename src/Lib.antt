-- ===== src/Lib.antt =====
-- express-botx: a gateway between HTTP senders and the eXpress messenger's BotX API.
--
-- An HTTP request is authenticated (internal/server/auth.go, query_key.go), its chats are parsed and
-- checked against the scope of its key (auth.go, membership.go, multisend.go), a bot is chosen for
-- each chat (server.go), and the message is delivered to every chat by one fan-out with one response
-- (multisend.go). The plain endpoint
-- (handler_send.go) does so at once or queues one message for each chat. The GitLab endpoint (handler_gitlab.go, gitlab_routing.go) has tokens of its own:
-- an event is filtered, rendered, routed by rules or by the request's chats, and handed to the same
-- fan-out. A message that is too long is cut (internal/botapi/truncate.go); inline
-- mentions in it are replaced by placeholders (internal/mentions/parser.go). In asynchronous mode each
-- message is routed by a catalog of bots and chats and queued (internal/cmd/serve.go, enqueue.go), and a
-- worker takes the messages from a queue and sends them with retries (internal/cmd/worker.go).
-- The platform's own requests, commands and notifications, are verified by a token and handed to the
-- handlers of their event (callback.go, callback_router.go, callback_jwt.go, handler_callback.go).
--
-- The files and the code they model:
--
--   Common, Text, Errors      shared: tests on numbers, list lemmas; Go strings and the functions of
--                             the package strings; Go errors with the sentinels that errors.Is finds
--   MultiSend/ChatIds         parseChatIDs and sameChats
--   MultiSend/Fanout          fanout, its two result lists and the counters it records
--   MultiSend/Response        writeMultiSend, failedStatus, authorizationFailure, writeAccessError
--   Server/Config             ResolvedKey, Config, the values of a context, the key map that New fills
--   Server/Bots               resolveRequestBot
--   Server/Access             authorizeTargets, authorizeMembership, ChatAllowed and what they answer
--   Server/Middleware         authMiddleware and stripQueryKey
--   Server/Membership         membershipChecker: check, run and sweep, as steps between Lock and
--                             Unlock, and the relation Run of all their interleavings
--   Server/Send               fanoutSend, SendPayload
--   Server/PlainSend          handleSend (internal/server/handler_send.go): Form has the reading of the
--                             body, Prepare the checks, Routing validateAsyncRouting, Handler the rest
--   Server/Gate               checkMembership, and the check before each send that New puts in
--   Server/Alerts             handleAlertmanager, handleGrafana and handleIncidentRelay
--                             (handler_alertmanager.go, handler_grafana.go, handler_incidentrelay.go)
--   Server/Mattermost         handleMattermostCreatePost and handleMattermostUpdatePost
--                             (internal/server/handler_mattermost.go)
--   Gitlab/Payload            gitlabView, the event keys, the filters
--   Gitlab/Glob               globMatch; Glob/Spec has the meaning of a pattern
--   Gitlab/Routing            the selectors, the compilation of the rules, evaluateRoutes
--   Gitlab/Templates          selectTemplate and canonGitlabTemplateKey
--   Gitlab/Sender             resolveGitlabAuth and senderScopeTargets
--   Gitlab/Handler            handleGitlab, every branch of it
--   Botapi/Truncate           TruncateMessage and its helpers
--   Botapi/Requests           BuildSendRequest, capBody, filterOrphanMentions (client.go,
--                             mentions_filter.go) and BotDeliveryPolicy (internal/config/delivery.go)
--   Mentions/Scan             scan (internal/mentions/parser.go)
--   Mentions/Token            parseTokenBody
--   Mentions/Parse            Parse, with normalize and mergeMentions
--   Worker/Retry              the loop of handleMessage over the attempts
--   Worker/Prepare            what handleMessage does before: the parsing of mentions with the resolver
--                             of internal/cmd/send.go, and buildSendRequestFromWork
--   Worker/Handle             handleMessage around both
--   Queue/Message             the messages of internal/queue/queue.go
--   Queue/Catalog             the snapshot of bots and chats and its cache (internal/queue/catalog.go)
--   Queue/Enqueue             the send function of the asynchronous server (internal/cmd/serve.go)
--   Queue/Command             the command enqueue (internal/cmd/enqueue.go)
--   Settings/Chats, Bots      chats and bots of the configuration (internal/config/config.go)
--   Settings/Keys             the API keys and their scopes (internal/cmd/serve.go)
--   Callbacks/Event           parseEventType (internal/server/callback.go)
--   Callbacks/Router          the callback router (internal/server/callback_router.go)
--   Callbacks/Jwt             verifyCallbackJWT and its middleware (callback_jwt.go)
--   Callbacks/Handler         handleCommand and handleNotificationCallback (handler_callback.go), and
--                             the endpoint with the middleware around the handler
--   Tests                     test data, and concrete inputs for the theorems
--
-- How code becomes definitions. A Go string is the list of its code points, so positions count code
-- points. A function that returns an error gives a Result; one that answers the request gives a
-- Reply, or says that the request goes on. What delivery, lookups and the BotX API change is a state
-- of an arbitrary type that is passed through every call. A context is a record with the empty value
-- for what is not set. Maps are association lists; nil and empty are read alike. Counters are kept
-- where the model says so, log lines are left out. A text printed with %q stands between quotes
-- without escapes. A limit of 0 stands for the source's limits that are not positive.
--
-- What is a parameter: strings.ToLower, regular expressions, templates, the decoding of JSON, the
-- chat resolver, sending and authenticating, HMAC and base64, the handlers of callbacks. A JSON
-- number is given by its decimal text.
--
-- Bounds and fuel. placeholderSpans runs on fuel, the length of the message and one more; it suffices,
-- since every round moves past a placeholder; the scan for mentions likewise, past a prefix. Every other loop is a recursion on a
-- list or on the number of attempts. The waits of the worker are computed on natural numbers, without
-- the rounding and the overflow of the source. An int64 of a token's claims is a number below 2^64,
-- with the wrap-around of the source written out.
--
-- Not modelled: the command line, the loading of the configuration and the drivers of the queues, which
-- are wiring around libraries; tracing, metrics exposition, TLS and the documentation pages, which are
-- glue; and, of the program's own logic, what builds the configuration of the server's webhooks on the
-- command line.
pub mod Common
pub mod Text
pub mod Errors
pub mod MultiSend
pub mod Server
pub mod Gitlab
pub mod Botapi
pub mod Worker
pub mod Callbacks
pub mod Mentions
pub mod Queue
pub mod Settings
pub mod Tests
