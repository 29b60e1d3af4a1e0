-- ===== src/Tests.antt =====
-- Runs of the theorems at concrete inputs, a module for each part of the program.
mod Common
mod Torrent
mod Piece
mod Message
mod Peer
mod System
mod Monitor
