-- ===== src/Lib.antt =====
-- The core of hfw, a framework for HTTP and gRPC services in Go: which method of which controller serves
-- a request, the life of that request, its response, its session, the Redis client below the sessions,
-- the defaults of the configuration, the shutdown, the database layer, the calls of other services over
-- HTTP and gRPC with what chooses their addresses, the shared SSH connections with the SOCKS5 proxy on
-- them, and two libraries beside them.
--
-- How the parts meet. At start initDefaultConfig completes what the configuration file left out, and a
-- program calls Handler for its controllers, which fills the tables of the router. A request comes to
-- Router, which counts it, refuses it if too many are in progress, finds an instance and a method by
-- findInstanceByPath, and calls Init, Before, the method, After and Finish of the controller, with a
-- recovery between. Init opens the session, Finish renders the response and closes the session before
-- anything is sent. The session keeps its values in a store, which is a Redis client. What serves a
-- request reads and writes tables by a dao, which asks xorm in sessions of its own or in that of a
-- transaction; it calls other services by Call, which takes an address of a list or of a resolver, or by
-- Do, on a connection that all callers with the same resolver scheme share and whose balancer picks a
-- server for each call. The requests of Call are made by a curl, whose client is one that all curls with
-- the same settings share. A proxy of the SSH configuration takes a reference to the shared connection
-- of its server, and connects what its clients ask for over it or directly.
--
-- Which file models what:
--   Base          texts as lists of codes, dictionaries, integers, list lemmas
--   Encoding      encoding/cased.go: Snake
--   Route         router_map.go (findInstanceByPath, completeURL, getActionsAndMethod, DispatchRoute up to
--                 the calls) and Handler of router.go; the package variables are the record Routes
--   Context       context.go (HTTPContext, Cancel, ThrowCheck, CheckErr), common/error.go (Context.Errors),
--                 output.go (Context.Output) and the methods of controller.go (Context.Controller)
--   Request       router.go (Router, recoverPanic, checkConcurrence, HandlerFunc), initCtx of context.go,
--                 and the calls of DispatchRoute
--   Config        initDefaultConfig of configs/util.go, on the fields that configs/config.go declares
--   Session       session/session.go, and session/session_store.go (Session.Store)
--   Redis         redis/client.go, by kinds of commands; Redis.Store is the client as the sessions use it
--   Db            db/xorm_dao.go, db/dao.go, db/models.go and db/db.go: how a condition becomes calls of a
--                 session (Db.Cond), the log of the calls (Db.Log), the methods of the dao (Db.Dao,
--                 Db.Ops), the map of the engines (Db.Engine) and calls of getEngine that overlap (Db.Overlap);
--                 Max and ConvertToInt of common/common.go
--   Discovery     service/discovery/consul.go: resolve, Addresses, GetAddress, HasTag
--   Api           api/api.go: Call and StdCall; their options and the URL of a call (Api.Urls)
--   Curl          curl/curl.go: CreateRequest and createPostRequest; getHttpClient (Curl.Clients)
--   Balancer      grpc/balancer/p2c/p2c.go, and Acceptable of grpc/balancer/p2c/accept.go
--   Grpc          grpc/client/conn.go and client.go, with grpc/discovery/resolver.go, and common.go and
--                 static.go of grpc/discovery/resolver; Do of grpc/client/do.go (Grpc.Do); Min of
--                 common/common.go
--   Ssh           ssh/ssh.go: the shared connections (Ssh.Counts, Ssh.Shared); ssh/proxy.go: the life of a
--                 proxy and the way to a host (Ssh.Proxy, Ssh.Overclosed), HandSocks5 (Ssh.Socks, Ssh.Handled,
--                 Ssh.Asked)
--   Crypto        crypto/aes.go
--   Signal        signal/signal.go: doShutdownDone and waitDone, as steps of their goroutines
--   Pac           pac/common.go, and the format of the file of pac/pac.go
--
-- How the code is read. Functions that change state take it and return it: Routes for registration, Page
-- for a request (its context, its response writer, the state of the store, the wait group), World for a
-- request with the counter of the process. A panic is a value: Outcome is a state that a call returns or
-- panics with, defer runs a deferred call on either, and StopRun is one kind of panic. A response writer
-- records the headers, the cookies, what the first WriteHeader sends, and the bodies. The database is
-- the log of the calls that xorm got, the newest first, with each session numbered by the length of the
-- log when it was opened; a connection of gRPC is numbered by the dials before it. Code under a lock is
-- one step; the Load and the Store of getEngine, and the close by a check of ssh that times out, which
-- are under none, are steps of their own. What a client sends is the list of the pieces that its reads
-- return, and a reader that several requests share is what is left of it. A loop of tries is a function
-- of the tries that are left, whose rest is passed to the parts of a try.
--
-- Bounds. Texts are lists of codes below 128 where case matters: ToLower and Snake are those of ASCII.
-- Error numbers wrap at 64 bits, the counter of requests at 32; the offset of a page, the counter of the
-- resolver, and the counters, times and loads of the balancer wrap at 64, as do the references to an SSH
-- connection, of which there are less than 2 ^ 63. Decimals are printed for ports, which are below
-- 65536. All loops are structural recursion on lists or on the tries that are left, of which there are
-- three at most, so no fuel is needed.
--
-- What is a parameter: reflection (a controller is its tag, its type name and its method names, and what
-- its methods do is a function), the gRPC server, the identifier that common.Uuid makes, the trace id,
-- how a template is found and executed, the flag of a websocket upgrade, how FlatCmd writes an argument
-- and how radix runs a command, the block modes of crypto/cipher, what xorm answers to a call, the names
-- of the data sources and the pings of the drivers, net/url and the headers of net/http, the encoding of
-- forms, the request that curl sends, the files that it posts, the dials and checks of ssh, the key of a
-- configuration of ssh, what writes to a client and connections to a host answer, the codecs, the random
-- numbers, the clock and the arithmetic on floats, the dials of grpc-go and the calls on a connection,
-- the resolvers of consul and etcd, the file system. What Redis and crypto/cipher document of these is a
-- record of laws, and each has an instance in memory among the tests.
--
-- What is not modelled: logging and metrics; the goroutine that cancels a context when a client goes
-- away; static files; the search for templates, with the error that a missing one sets in the context,
-- and their cache; how the files of the configuration are found and decoded; the cache, the keepalive
-- and the drivers of the database; how a Redis client is made and its commands are sent; the watch of
-- the resolver over consul; the interceptors and the server of gRPC; the steps of a Done of the balancer
-- that other goroutines may interleave with; the run of a request of curl over net/http and the reading
-- of its answer; the authentication and the timer of the keepalive of ssh, its commands, copies and
-- forwards, and HandHTTP; the proxy of the proxy folder. They are plain calls of other libraries, or
-- left out for now.
pub mod Api
pub mod Balancer
pub mod Base
pub mod Config
pub mod Context
pub mod Crypto
pub mod Curl
pub mod Db
pub mod Discovery
pub mod Encoding
pub mod Grpc
pub mod Pac
pub mod Redis
pub mod Request
pub mod Route
pub mod Session
pub mod Signal
pub mod Ssh
