-- ===== src/Lib.antt =====
-- An IOCP game server: ServerCoreLibrary is the network library (sessions over Winsock, a ring
-- buffer for each, a pool of sessions, packet handlers by id), and GameServer, GateServer and
-- GameDB are the programs on it. This library models the C++ as functions on explicit state.
--
-- RingBuffer: ServerCoreLibrary/RingBuffer.h and RingBuffer.cpp, each method a function that
--   returns the new ring beside its result; `none` is a memcpy that leaves the buffer. Valid says
--   when a ring is well formed, Contents what it holds, Write, Front and Read what each method
--   does.
-- World: the state that the methods share. Session objects stand in a store by address; the
--   SessionManager, the jobs of the game thread and the calls made to Winsock stand beside it. What
--   Winsock answers is the record `Os`, a function of the calls made before.
-- SessionManager: SessionManager.h and SessionManager.cpp. Laws has the pool and the map of tokens.
-- Session: Session.h and Session.cpp. Sending is the send queue, Stream its runs, Lifecycle the
--   disconnect, Reuse the pool's reuse of a session, Broadcast BroadCastActive.
-- Packet: ServerCommon/PacketStruct.h, PacketID.h and Defines.h.
-- Dispatcher: PacketDispatcher.h and PacketDispatcher.cpp.
-- Receive: ClientSession.cpp and ServerSession.cpp, the packet loop of a completed receive. Frames
--   is a parser of byte strings, Verdicts what the loop makes of a ring in its terms, Step one
--   round, Loop the loop, Completed the whole method, Packets streams of whole packets, Append the
--   parser on a stream in two parts, Pieces a stream that comes in several receives, Overrun the
--   receive that leaves the buffer.
-- Listener: Listener.cpp and NetworkManager.cpp. Accepts counts the accepts that are posted.
-- IocpCore: IocpCore.cpp and IocpContext.h, the worker loop over what it takes from the port.
--   Worker has its accepts and its end, Start is Initialize, Run, ShutDown and the destructor.
-- Game: GameServer/CUnitPC.cpp, GameManager.cpp, GamePacketHandler.cpp, GameDispatcher.h and the
--   queue of DBManager.cpp. Pool is the free objects, Users and Leaving who is found under an id,
--   Twice a second login of one session, Handlers the packet handlers and the jobs that they post,
--   Thread the game thread, Answer the way of a login from the client's packet back to the client.
-- Vector: std::vector of pointers, as GameServer and the connection pool use it.
-- Database: DbCore/OdbcCore.h over a trace of the ODBC calls, which `Odbc` answers: environment,
--   connections, transactions, and in Stmt the statements. Init is the pool's constructor. Pool has
--   the threads that lease connections, as steps of a shared state: Claims sums over threads,
--   Leases what every reachable state has, Sleepers the threads that sleep, Progress how a waiting
--   thread is served. Manager is GameServer/DBManager.h and DBManager.cpp: Initialize, Finalize,
--   the check of an account, and the workers of the queue as steps between which anything may
--   happen; Order has the mutex and the order of the tasks, Stop what Finalize does to a worker
--   that is about to sleep, Ends the handles of the pool from Initialize to Finalize, Answers the
--   calls of a check, Turn a task on a leased connection.
-- Client: TestClient/main.cpp. RecvAll and ReadOnePacket in Client, the two threads' shared state
--   in Thread; Packets has the reading of a stream, Login the answer to a login. Main is main from
--   its socket to its return, Ends the socket, Refused a login that the server refuses.
-- StressTest: StressTest/main.cpp. Arguments and buckets in StressTest; Socket is SendAll and
--   RecvExact, Exchange one exchange with its send buffer, Worker the loop of a thread; Ends,
--   Packets, Buffer, Exchanges and Shares have the proofs about them. Percentiles is the summary,
--   Main is CreateAndConnectSocket and main, Closed its sockets, Options a command line.
-- Gate: GateServer/GatePacketHandler.cpp and GameDB/GameDBPacketHandler.cpp.
-- Ports: ServerCoreLibrary/ConfigReader.cpp, with Keys for the sets of ports that a file gives.
-- Earlier: ServerCore, the library before ServerCoreLibrary. Worker is its IocpCore and Listener,
--   Start its main; Queue and Runs set its send queue beside that of ServerCoreLibrary.
-- DbConfig: GameServer/DBConfigReader.cpp.
-- Servers: GameServer/main.cpp, GateServer/main.cpp and GameDB/main.cpp, composed of the parts
--   above. Exits has the ways in which the game server ends, Logins the login packets that come to
--   it.
--
-- Integers are natural numbers with the wrap of `size_t`, `INT32` and `UINT16` written out. The
-- packet loop runs on fuel, one unit for a round: each round takes four bytes or more from the
-- ring, so more fuel than bytes is enough. SendAll and RecvExact run on one unit for each byte and
-- one more, since each call moves a byte or more; the loop of a thread of StressTest on one for
-- each tick of its clock and one more. The main thread of TestClient looks at most so many times
-- for its login. Methods that lock are single steps; runs of them are lists of events.
--
-- Not modelled: logging, the console, Winsock and ODBC themselves, memory allocation, the
-- completion contexts (a completion carries their fields), the search for the ini files, the
-- drawing of TestClient, the results file of StressTest, and two packets that GateServer and
-- ServerCore name but the repository does not define.
pub mod Prelude
pub mod RingBuffer
pub mod World
pub mod SessionManager
pub mod Session
pub mod Packet
pub mod Dispatcher
pub mod Receive
pub mod Client
pub mod Database
pub mod DbConfig
pub mod Earlier
pub mod Game
pub mod Gate
pub mod IocpCore
pub mod Listener
pub mod Ports
pub mod Servers
pub mod StressTest
pub mod Vector
