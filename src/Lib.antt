-- ===== src/Lib.antt =====
-- Lancet is a load generator that measures the latency of a server. Agents send requests of an
-- application protocol over a transport, parse the responses, match them with the transmit times that
-- the kernel or the agent reports, and sample latencies into memory that the agent manager reads.
--
-- The parts and their files:
--   Base         shared helpers: lists, integers, Boolean tests, the `Outcome` of a C call (a value or
--                the fault that stops the process) and the shape of the C loops;
--   Libc         memchr, atoi, the printing of numbers, strncmp, strcmp and strtok, as the C standard says;
--   RandGen      agents/rand_gen.c and inc/lancet/rand_gen.h: the distributions (`Distributions`), the
--                parser of their names (`Init`) and generate, over an interface `Floating` of doubles;
--   AppProto     inc/lancet/app_proto.h and agents/app_proto.c: requests and responses; echo, synthetic
--                and stss. `Framing` is the abstract view of a response stream: a function that finds
--                the first whole message, and the count of whole messages at the front of a stream;
--                `Replies` is the loop that takes whole replies off a response, for any protocol;
--   Memcache     agents/memcache.c: the parsers of binary responses and of text ones (`Ascii`), and the
--                requests of both (`Requests`);
--   Redis        agents/redis.c: the parser of replies, the SET and GET requests (`Requests`) and those of
--                YCSB-E (`Ycsbe`);
--   KeyGen       agents/key_gen.c: the keys of the key-value protocols;
--   KeyValue     what agents/redis.c and agents/memcache.c share: struct kv_info, its parser and the draws
--                of a request;
--   Protocols    struct application_protocol of inc/lancet/app_proto.h: the init functions of
--                agents/app_proto.c, agents/redis.c and agents/memcache.c (`Init`), and create_request and
--                consume_response, which call through its pointers (`Dispatch`);
--   Args         agents/args.c: parse_arguments;
--   EventLoop    the shape that the event loops of the transports share: a schedule of requests, a pick of a
--                connection, and the events of a round. `Schedule` is about the times of the requests,
--                `Items` and `Growth` carry properties from the parts of a loop to the loop;
--   Tcp          agents/tp_tcp.c: struct tcp_connection, handle_response, the reads of the event loops and
--                pick_conn. `Send` has send_request and the write loop of throughput_tcp_main, `Throughput`
--                and `Symmetric` a request and a read of throughput_tcp_main and symmetric_tcp_main; `Loops`
--                has throughput_tcp_main as a whole, `Loops.Timed` the two symmetric agents, and `Latency`
--                latency_tcp_main;
--   Udp          agents/tp_udp.c: the sockets, and for one socket the sends and the events of the loops;
--                `Sockets` is about those that are free, `Loops` has the four loops, and `Loops.Closed` how
--                many requests are under way in them;
--   Tls          agents/tp_ssl.c: symmetric_ssl_main, with the connections of Tcp;
--   R2p2         agents/tp_r2p2.c: the contexts of requests, the callbacks of the R2P2 library, and the loops;
--                `Latency` has latency_r2p2_main, and `Nic` the loop with the times of the network card;
--   Agent        agents/agent.c: the control block, the start of the threads, and the calls by which a
--                transport makes requests and parses responses;
--   Timespec     timespec_diff of agents/timestamping.c;
--   Timestamping agents/timestamping.c: the ring of requests that wait for their transmit times;
--   Stats        agents/stats.c: counters and sample rings.
-- A transport gives the bytes of a read to handle_response, which calls the parser of the protocol;
-- `Tcp.Buffer.Parses` is the contract between them, which `Tcp.Parsers` fills for echo, synthetic and
-- binary memcached; the text parser of memcached does not keep it, and that of Redis is treated on
-- well-formed replies alone. The transport pops one
-- transmit time from the ring of Timestamping for each response, and records the difference in Stats. The
-- main loops of the transports are records of `EventLoop.Handlers`: how a connection is picked, and what a
-- request and an event do (latency_tcp_main, of which a request lasts until its response, is written out);
-- the main function of the agent starts one for each thread.
-- parse_arguments makes the protocol with init_app_proto and the interarrival distribution with init_rand;
-- a protocol draws the key, the kind and the size of each request from its own generators.
--
-- Machine integers keep their wrap-around: uint16_t, uint32_t and uint64_t counters are natural numbers
-- with a remainder written out. An `int` or a `long` that overflows is outside the model, and is excluded
-- by a hypothesis where it could matter. A latency is the exact difference in nanoseconds, where the code
-- computes it in a double, which is exact below 2^53 ns. Memory is a list of bytes; a read outside it is a fault.
-- Function pointers are data types with the functions as constructors, NULL is `none`, and what malloc
-- returns holds any values. The protocols are those of the build without R2P2, where a replicated request
-- fails its assertion; R2p2 is the transport of the build with it.
-- Loops run on fuel. The binary memcached parser fixes it at three rounds for each byte and three more,
-- the text parser at two rounds more than bytes, and the loop over the targets of the command line at
-- one round more than bytes;
-- that of the Redis parser and of get_tx_timestamp is an argument, with the bound that is enough in the
-- theorem. What the kernel returns (bytes, control messages), the clock, and random draws are arguments.
-- An endless loop of a main function runs on the list of its rounds, each with the lists of its tests of the
-- clock and of its events; a list of tests that ends while requests are still due is no run of the code. A
-- theorem about such a loop is about each run, however long.
--
-- Not modelled: the opening of sockets and connections, epoll, the shared memory and the scheduling of
-- the threads (I/O), the set-up of OpenSSL, agents/http_app.cc and agents/cpp_rand.cc (C++),
-- agents/loader.c (process set-up), agents/picohttpparser.c (a copy of another project),
-- agents/manager.c (not built), and the programs in Go and Python.
pub mod Agent
pub mod AppProto
pub mod Args
pub mod Base
pub mod EventLoop
pub mod KeyGen
pub mod KeyValue
pub mod Libc
pub mod Memcache
pub mod Protocols
pub mod R2p2
pub mod RandGen
pub mod Redis
pub mod Stats
pub mod Tcp
pub mod Timespec
pub mod Timestamping
pub mod Tls
pub mod Udp
