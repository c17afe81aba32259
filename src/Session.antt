-- ===== src/Session.antt =====
-- `SessionData` of jhshin_Server/jhshin_Server/SessionData.h and SessionData.cpp: its receiving side
-- and its sending side.
pub mod Recv
pub mod Send
