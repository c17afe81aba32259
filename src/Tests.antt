-- ===== src/Tests.antt =====
-- The components at work on small inputs.
mod Closing
mod Samples
mod Recv
mod Buffers
mod Rooms
mod Packets
mod Members
mod Routing
mod Sending
mod Accepting
mod Clients
mod Loads
mod Threads
mod Trip
