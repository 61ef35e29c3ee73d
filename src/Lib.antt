-- ===== src/Lib.antt =====
-- Veloce, an asynchronous web framework: the parts of it that decide. The bytes of a WebSocket are
-- read, and its messages put together, by src/veloce/websocket.py. A request's address is taken from
-- the headers of trusted proxies by src/veloce/middleware/proxy_fix.py, which uses the parsers of
-- src/veloce/_header_parsing.py. It is routed by src/veloce/routing/router.py, whose converters take
-- its parameters, may be admitted or rejected by a strategy of src/veloce/ratelimit.py, and reads and
-- writes its session and the cache, src/veloce/sessions.py and src/veloce/cache.py. What is sent back
-- is marked for other origins by src/veloce/middleware/cors.py, and src/veloce/signals.py tells of it.
--
-- Paths are from the repository's root.
--
-- Prelude     what the parts share: tests on numbers, lists, Python's dict in insertion order
--             (Prelude/Dict), the eviction that the bounded tables share (Prelude/Dict/Evict)
-- Text        str as a list of code points, with split, join and upper. Case mapping is that of
--             ASCII letters, and digits are those below 256.
-- Routing     src/veloce/routing/router.py and _node.py
--   Path        _cached_split_path
--   Node        RadixNode, as a tree: node, its static children, parameter children, wildcard child
--   Insert      _insert_path_into_tree; a failed insertion keeps the nodes it made, as the source
--               does. The parser of converters is a parameter.
--   Match       _match_node, _slash_mismatch, _match_tree, get_allowed_methods; a converter's match
--               is a field of its record. A walk hits, misses, or raises KeyError.
--   StaticMap   _build_static_routes and match; the regex fallback is a parameter
--   Regex       the fallback: _match_regex and get_allowed_methods; matching a compiled pattern is a
--               function of the route
--   Register    _classify_route_path and _commit_route_methods, with DuplicateRouteError among the
--               errors of an insertion; _allow_duplicate, which compares two records field by field, is
--               a parameter
--   Converters  src/veloce/routing/converters.py: the converters Str, Number and Literal, the Args and
--               the Spec of a placeholder, Placeholders, RouteRegex, and RegexPath, which chooses between tree and regex.
--               float of a text, re.escape and the classes' constructors are parameters.
-- RateLimit   src/veloce/ratelimit.py
--   Fixed, Sliding, Bucket   evaluate and __init__ of the three strategies
--   Backend     InMemoryRateLimitBackend over any strategy
--   Time        arithmetic on windows
-- Cache       InMemoryCache of src/veloce/cache.py, with the time of each call as an argument
-- WebSocket   src/veloce/websocket.py on a raw transport
--   Utf8        _Utf8Validator; an invalid byte is none
--   Mask        _unmask; the loop over blocks has the length of the payload as its fuel, which is enough
--               because each round takes a whole block away
--   Frame       _send_frame, and _parse_frame up to where it looks at the opcode
--   Connection  the rest of _parse_frame, _terminate_raw and _handle_close_frame, on a record of the
--               connection; transports take every write, and the send gate answers the same throughout
--   Feed        feed_data; the number of bytes is the fuel of its loop, which is enough because each
--               round takes a byte. A raised WebSocketDisconnect is its code.
--   Heartbeat   the timer's ticks
--   Closing     _sanitise_close
-- Sessions    src/veloce/sessions.py
--   Session     Session: a dict, and the flags that its mutators set
--   Store       InMemorySessionStore; a call is given the time at which it reads the clock
-- Headers     quoted strings and parameters (src/veloce/_header_parsing.py), comma-separated lists,
--             and HeaderSet of src/veloce/http/header_set.py
-- Cors        src/veloce/middleware/cors.py; Response has header_key, header_pop and add_vary of
--             src/veloce/http/response.py, Preflight the two phases of the middleware
-- Mounting    src/veloce/app/mounting.py, and the path that a mounted application sees; of a directory
--             handler only which paths it takes
-- Ranges      RangeSpec of src/veloce/http/datastructures.py; Serve has _negotiate_file_range and the
--             constructor of FileResponse of src/veloce/http/response.py, for a file that is read whole
-- Signing     src/veloce/signing.py; Base64 has _b64encode and _b64decode of src/veloce/_internal.py, and
--             Time the packing of the time. The keyed hash and JSON are parameters.
-- Csrf        src/veloce/middleware/csrf.py, over Signing; Origin has its origin stage, and strip_default_port
--             of src/veloce/_internal.py. A request is what the middleware reads of it, the form of its body
--             included; urlsplit of the standard library is a parameter.
-- Signals     src/veloce/signals.py
--   Send        send, send_robust and the walk over the subscriptions, which receivers may change
--               meanwhile. Its fuel counts the entries that it looks at; a receiver that connects another
--               every time would keep it going for ever, so it may run out.
--   Async       asend and send_robust_async; the coroutines run to their end, one by one
--   Namespace   the signals by their names
-- ProxyFix    src/veloce/middleware/proxy_fix.py; the headers are a function from the names that it
--             reads to their field lines, what it writes is a record
--
-- Time is a number of ticks, `u` of them to the second, for any u: the source's float seconds are
-- rational numbers, and every comparison is multiplied out, so the model does not round,
-- as the floats do. All functions but the loops of Mask and of Feed are structurally recursive.
--
-- Not modelled: regular expressions, merging of routers and the names of routes; the converters that
-- parse with the standard library; the Lua scripts of the strategies, which Redis runs; requests and
-- responses, dependency injection and the application, which are asynchronous glue, reflection and
-- generated code; everything that is input, output or scheduling.
pub mod Prelude
pub mod Text
pub mod Routing
pub mod RateLimit
pub mod Cache
pub mod WebSocket
pub mod Sessions
pub mod Headers
pub mod ProxyFix
pub mod Cors
pub mod Mounting
pub mod Ranges
pub mod Signing
pub mod Csrf
pub mod Signals
mod Tests
