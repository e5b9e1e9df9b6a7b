-- ===== src/Lib.antt =====
-- kernel-udp-tcp: UDP servers and clients over asio, with the utilities they stand on.
--
-- The program's core is AsioWrapper::Asio (include/server/asio, source/server/asio): a Service
-- runs asio's io_service on its threads, and a UDPServer or UDPClient posts its
-- handlers and starts its socket operations there. AsioUtils (include/server, source/server) has
-- the UUIDs, threads and errors they use; server.cpp and client.cpp are the two programs.
--
-- Prelude   numbers, Booleans, lists and options, with the lemmas that the parts share
-- Uuid      include/server/uuid.h, source/server/uuid.cpp: a UUID is the list of its bytes;
--           string, parse (the constructor from text), less, equals, hash and generated (the copy
--           loop of Sequential and Random, from libuuid's bytes) are the members of those names
-- Thread    include/server/thread.h, source/server/thread.cpp: priorities, CPU affinities and
--           SleepFor (Sleep); the calls of the operating system are the parameter System, its documentation SystemLaws
-- Asio      what the wrapper takes of asio: the record `Asio` of the calls that it makes of a
--           socket is a parameter, the documented laws of an open socket (OpenLaws) are a hypothesis.
--           Action is the monad of methods: a state, a result or an exception. Race is the timer
--           against an operation, as the methods with a timeout have it; a wait that never ends is `none`
-- HandlerStorage
--           include/server/asio/memory.h: the memory that an object lends to the handler of its
--           operation; what has been handed out is a ghost field
-- Errors    include/server/errors, source/server/errors, source/server/filesystem/exceptions.cpp,
--           source/server/stack_trace.cpp: the text of exceptions and traces (Exceptions), the
--           handler of fatal signals (Signals); what streams, strerror_r and sigaction do is a parameter
-- Flags     include/server/flags.h, by the number of bits of the underlying type
-- Memory    include/server/memory.h: alignment of addresses of 64 bits
-- Time      include/server/timespan.h, include/server/timestamp.h, on 64-bit patterns
-- FilePath  include/server/filesystem/path.h: the class Path on the bytes of its text
-- Service   include/server/asio/service.h, source/server/asio/service.cpp: the constructors, the
--           choice of an io_service for a new object (get_asio_service, RoundRobin) and the loop of a
--           thread (Thread), on the ways in which asio's poll and run may end. Lifecycle has Start,
--           Stop and Restart with the handlers that they post: while a method waits, the threads make
--           the moves that it is given (Move), and `none` says that it still waits when they are used
--           up. Await, Reach, Renewal, Live, Hang and Poll are about what becomes of such a wait
-- UdpResolver  include/server/asio/udp_resolver.h, source/server/asio/udp_resolver.cpp: a resolver
--           on the io_service that it was given, and which io_service handles its answers
-- UdpServer include/server/asio/udp_server.h, source/server/asio/udp_server.cpp: the record UdpServer
--           has the class's fields, and two more: what asio holds for the object (posted handlers
--           and operations under way) and the virtual methods called so far. Lifecycle has
--           Start, Stop and Restart, Send has Send, SendAsync and Multicast, Receive has Receive
--           and ReceiveAsync, each with the lambdas that it hands to asio (run_start, run_stop,
--           run_send, run_receive). Step closes them into a program: a thread calls a method, or a
--           thread of the service runs any of the handlers that asio holds. Invariant, Preserve
--           and Reach are about what holds in every reachable state; Stuck about a failed start;
--           Growth, Delivery, Success and Restart about single operations
-- UdpClient include/server/asio/udp_client.h, source/server/asio/udp_client.cpp, in the same way:
--           Connection has Connect, Disconnect and Reconnect with their asynchronous forms and
--           the resolver's handler, Multicast the groups, Send and Receive the datagrams, Step the
--           program around them; Failure is about how a connection ends, Success about how one
--           begins, Delivery about an asynchronous send
-- Programs  client.cpp: the virtual methods of MulticastClient, as an instance of what UdpClient
--           leaves to a derived class (MulticastClient); its loop over the typed lines and
--           DisconnectAndStop (ClientLoop); its connect handler when all goes well (Connecting) and
--           the datagrams that then come (Listening); the whole of its main (ClientMain), when the
--           client cannot connect (Disconnected, NoConnection) and when all goes well (Leaving,
--           ClientEnding). server.cpp: its loop (MulticastServer, Broadcast) and the whole of its
--           main (ServerMain), on a server that could not start (Idle, TakenPort) and when all goes
--           well (Asked, Ending). In both the one thread of the service runs the handlers of the
--           program too (Turns, Going): before the lines are read, and those that are posted by then
--           before the Stop of the service. Network, Lossy and Together have the two programs together
-- Tests     the theorems at concrete values
--
-- A derived class is a parameter: a function from a virtual call (those whose name starts with
-- `on`) to an action on the server or client. A method and a handler are each one step; that two
-- threads may be inside the object at the same time is not modelled, nor what other threads do to it
-- while a method with a timeout waits. What asio answers, when, and in what order is free. uint64_t
-- and size_t wrap at 2^64. The only fuel is that of a UUID's last loop (16 rounds for an index that
-- starts at 0 or more and goes up by two until 16) and the rounds that Restart and ReconnectAsync
-- wait, which are an argument.
--
-- Not modelled: the vendored libraries under external; output and formatting;
-- the methods of Path that have no body in the repository; locks and other guards.
pub mod Prelude
pub mod Uuid
pub mod Thread
pub mod Asio
pub mod HandlerStorage
pub mod Errors
pub mod Flags
pub mod Memory
pub mod FilePath
pub mod Time
pub mod Service
pub mod UdpResolver
pub mod UdpServer
pub mod UdpClient
pub mod Programs
pub mod Tests
