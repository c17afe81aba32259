-- ===== src/Client.antt =====
-- The test clients of TestClient: how TestClient.cpp, LoadTest.cpp, LoadTestFast.cpp,
-- LoadTestRoom.cpp and MoveTest.cpp send, receive and take apart the stream of packets.
pub mod Socket
pub mod Framing
pub mod Transfer
pub mod Echo
pub mod MoveTest
pub mod LoadTest
pub mod LoadTestFast
pub mod LoadTestRoom
