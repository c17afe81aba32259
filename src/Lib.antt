-- ===== src/Lib.antt =====
-- The game server jhshinServer (jhshin_Server/jhshin_Server): clients send packets over TCP,
-- sessions collect the bytes and hand on whole packets, rooms run the jobs that come of them in a
-- thread each, and what rooms answer goes through shared send buffers into the sessions' queues.
--
-- Packet is the header of a packet, its type and its bytes (PacketStruct.h). Packet/Wire and
-- Packet/Split describe a stream of packets without a buffer, to compare the code with.
--
-- RecvBuffer is the class of that name (Buffer.h, Buffer.cpp), with `initialize`, `receive` and
-- `divide_buffer` (DivideBuffer), `set_read_pos`, `clear`. Session/Recv is SessionData::Recv and
-- RecvStart (SessionData.cpp); what PacketHandler::Dispatch does is an argument of them.
-- Session/Recv/Stream runs them through a whole connection, where Delivers is what the
-- documentation of WSARecv says.
--
-- Session/Send is the sending side, InsertSendQueue, Send and CheckSendComplete (SessionData.cpp)
-- with SendObject::Execute (IOCP.cpp). What stands between two locks or calls of the system is
-- one section, and the sections of all threads and completions come in any order.
--
-- Worker is the receiving side from completion to completion: the branches of Worker and
-- RecvObject::Execute (IOCP.cpp) for a WSARecv, completed or failed, with RecvStart.
-- Worker/Stopping is the life of the threads of the port, Start, Worker and Stop (IOCP.cpp), step
-- by step. What the system brings and which posts it refuses is the sequence of completions.
--
-- PacketHandler is PacketHandler.cpp: the table, Dispatch and the handlers; it stands for the
-- dispatch of Session/Recv in PacketHandler/Requests, which follows a connection from its bytes
-- to the queues of the rooms, while the threads of the rooms set the session's room and take jobs
-- out. RoomManager is RoomManager.cpp, the rooms with their queues.
--
-- Acceptance is how the server keeps accepting (SessionManager.cpp, Accept, Error and Shutdown of
-- ListenManager.cpp, AcceptObject::Execute of IOCP.cpp) over the pool of sessions: each thread is
-- a stack of what it does next, the sections between two locks, flags or calls of the system come
-- in any order, and the completions and the ends of connections come at any time.
--
-- SendBuffer is the class of that name (Buffer.cpp). ObjectPool is ObjectPool.h: a pointer is an
-- address counted in objects. ServiceManager is MakeSendPacket and GetSendBuffer
-- (ServiceManager.cpp) for one thread, where the references to a send buffer are counted by its
-- address; ServiceManager/Sharing lets many threads, each with its `LSendBuffer`, make chunks,
-- copy them and let them go in any order. ServiceManager/Sessions is the map of connected
-- sessions, from AddIOCP to CloseSession and Shutdown (ServiceManager.cpp); the order in which
-- the map is visited is an argument. ServiceManager/Monitor is the thread that prints how full
-- the pools are, from StartMonitor to StopMonitor, with its waits and its lines as steps of their
-- own.
--
-- Message has the bodies that rooms send (PacketStruct.h). The operations of `float` are the
-- record Message/Float, an argument of all that uses them.
--
-- Room is Room.h and Room.cpp: Room/Enter, Room/Leave (Leave and BroadCast), Room/Motion (Move
-- and MovePosition), Room/Tick (MoveCheckUsers and SendMoveData), Room/Jobs (JobQueue.cpp,
-- JobObject.cpp, StartJob; Room/Jobs/Loop is the thread of a room, Work of RoomManager.cpp,
-- beside those that push jobs), Room/UserMap (the std::map of users). What a room calls of the
-- rest of the server is the record Room/Outgoing, with the laws that it relies on: a chunk holds
-- the packet that was asked for, and goes to the end of the queue of the session it was meant
-- for.
--
-- Client is TestClient, the programs that talk to a running server. Client/Socket is the
-- connection, with what is documented of send and recv. Client/Transfer has SendAll and
-- RecvExact, Client/Echo the packets and Test_Batched of TestClient.cpp, Client/Echo/Trip their
-- way to the server and back, Client/Echo/Scenarios the other tests of TestClient.cpp,
-- Client/MoveTest the parser of MoveTest.cpp and what it notes down, Client/LoadTest the worker
-- of LoadTest.cpp, Client/LoadTestFast one connection of LoadTestFast.cpp through the rounds of
-- its polling, Client/LoadTestRoom the pacing of LoadTestRoom.cpp, Client/LoadTestRoom/Replies
-- what comes back to it and the rounds of its polling, Client/Framing the loop that takes packets
-- from what has arrived. A structure that a body is copied into is the bytes of memory from its
-- address on.
--
-- A byte and a machine integer are natural numbers; where the source wraps around, the remainder
-- is written out. A session is a number, a socket is a number, the tick of GetTickCount64 is an
-- argument. A call that holds a lock from its beginning to its end is one step. The loop of Recv
-- runs on fuel: each round takes at least the four bytes of a header, and 4097 is more than a
-- buffer of 4096 can hold, so the fuel never ends (this is proved). The loops of the clients run
-- on one round more than there are bytes, and each round moves one byte at least; the pacing loop
-- runs on twelve rounds (that these are enough is proved too). All other loops are recursion on
-- lists.
--
-- Not modelled: the sockets and the completion port, the waiting for threads and for a condition
-- variable, the use of the CPU that the monitor prints, the log on the console, and of the
-- clients the scenarios of MoveTest.cpp, the sums at the end of the load tests, what is printed
-- and the clock.
pub mod Common
pub mod Packet
pub mod RecvBuffer
pub mod Session
pub mod SendBuffer
pub mod ObjectPool
pub mod Acceptance
pub mod ServiceManager
pub mod Message
pub mod Room
pub mod RoomManager
pub mod Worker
pub mod PacketHandler
pub mod Client
mod Tests
