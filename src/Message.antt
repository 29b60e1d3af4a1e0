-- ===== src/Message.antt =====
-- include/message.hpp and src/message.cpp: the handshake, and the messages of the peer protocol.
pub mod Handshake
pub mod Kind
pub mod Frame
pub mod Print
