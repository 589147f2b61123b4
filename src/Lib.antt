-- ===== src/Lib.antt =====
-- yamp, a proxy for the Model Context Protocol: it stands between one client and several backends,
-- shows the client one surface, and sends each request on to the backend that owns it.
--
-- Parts, and the file that models each:
--   Namespace     yamp/namespace.py: a backend's id in front of names and in the path of URIs
--   Json          the values and messages that the json library decodes
--   Jsonrpc       yamp/jsonrpc.py: requests, results and errors
--   Resilience    yamp/resilience.py: the circuit breaker (Breaker), and ResilientRouter (Managed)
--   Errors        yamp/errors.py: the registry of error codes
--   Observability yamp/observability.py: hops and trace context
--   Routing       yamp/routing.py and yamp/status.py: name patterns, keywords, the server card
--   Cache         yamp/cache.py: the list cache, ListCache.get, put and invalidate_backend
--   Pool          yamp/pool.py: admission, idle deadlines and the registry of calls in flight
--   Tasks         yamp/tasks.py: task ids of backends, and the server's own task store
--   Subscriptions yamp/subscriptions.py: the registry of subscribed URIs
--   Collision     yamp/collision.py: the strategies `priority` and `manual`
--   Signing       yamp/signing.py: the signed, hash-chained audit log
--   Filters       yamp/filters.py: verdicts, the filter chain and the failure policy
--   Auth          yamp/auth.py: the credential a backend receives, claim checks, OAuth parameters
--   Router        yamp/router.py: messages that pass outside the request path
--   Requests      yamp/router.py: _route_task and _route_subscription, and how a request is forwarded
--   Version       yamp/version.py: the versions served and their negotiation
--   Policy        yamp/policy.py: client tokens and the headers that a backend receives
--   Capability    yamp/capability.py: composition of tool surfaces and progressive disclosure
--   Server        yamp/server.py: cache directives and the bound on the server's output
--   Forward       yamp/forward.py: the handshakes of the stateful proxy
--   Handlers      yamp/handler.py: the registry of local handlers
--   Variants      yamp/variants.py: the selection and composition of variants, the composite cursor
--   Callout       yamp/callout.py: a scan by an out-of-process service, and the cache of its verdicts
--   Content       yamp/content.py: the content blocks of a message, and writes at a block's path
--   Icap          yamp/icap.py: the ICAP bridge and the scan of a message's blocks
--   Media         yamp/media.py: the media type of an answer
--   Schema        yamp/schema.py: the contract of a local tool's calls
--   Security      yamp/security.py: the gate of the bind address
--   Stateless     yamp/stateless.py: the stateless forwarder
--   Connection    yamp/router.py: Backend, its pending requests and its read loop
--   Aggregate     yamp/router.py: list requests, _collect and _aggregate
--   Calls         yamp/router.py: _route_call, the call of a tool, a prompt or a resource
--   Health        yamp/router.py and yamp/resilience.py: the announced set of backends
--   Serving       yamp/router.py: _route_loop, which takes each message to its handler
--   Transport     yamp/transport/line.py, sse.py and yamp/relay.py: two framings, and the pump
--   Transparent   yamp/transparent.py and yamp/transparent_l2.py: the messages that pass unseen and
--                 unchanged, and the check of the headers against the body
--   Tap           yamp/tap.py: the redaction of a message that is shown
--   Prelude       shared names, Python's dict and text operations
-- A class is a record of its attributes, and a method is a function from that record to the next one,
-- with its result beside it. The router uses the cache (a note that a list changed invalidates it), the
-- tasks and the subscriptions (notes of backends are rewritten to the ids that the client knows), and
-- the readers of the pool. Requests are resolved by the namespace, served from the task store or the
-- subscriptions, or forwarded with the hop and trace context of the observability part; which backend
-- may be asked is the answer of its breaker. The loop of Serving takes each message of the client to
-- Router, Requests, Aggregate or Calls; Calls runs the filters, then a local handler or a backend; the
-- scanner of Icap finds a message's blocks by Content and asks the service through Callout.
--
-- Bounds. A dict is an association list in insertion order. JSON numbers are integers; a number with a
-- fraction is not modelled. A clock is an argument of the call that reads it, in whole milliseconds or
-- ticks. An operation that may raise returns an Option, and `none` is the exception. Only the pump
-- of Transport needs fuel, for which one receive more than the stream has bytes is enough;
-- every other loop is by recursion on its list or text.
--
-- Not modelled: what the json, hashlib, hmac, base64 and jsonschema libraries and `str.lower` and
-- `str.strip` compute (they are parameters), asyncio's scheduling, with the pooled calls, the drain and
-- the timers that rest on it, and the other transports, the loading of configuration and the REST
-- adapter, which stand around the parts above.
pub mod Prelude
pub mod Namespace
pub mod Json
pub mod Jsonrpc
pub mod Resilience
pub mod Cache
pub mod Pool
pub mod Tap
pub mod Tasks
pub mod Subscriptions
pub mod Collision
pub mod Signing
pub mod Filters
pub mod Auth
pub mod Router
pub mod Errors
pub mod Observability
pub mod Routing
pub mod Requests
pub mod Version
pub mod Policy
pub mod Capability
pub mod Server
pub mod Handlers
pub mod Variants
pub mod Forward
pub mod Callout
pub mod Content
pub mod Icap
pub mod Connection
pub mod Aggregate
pub mod Schema
pub mod Calls
pub mod Security
pub mod Media
pub mod Stateless
pub mod Health
pub mod Serving
pub mod Transparent
pub mod Transport
