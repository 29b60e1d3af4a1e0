-- ===== src/Torrent.antt =====
-- include/torrent.hpp and src/torrent.cpp: the metainfo file, the tracker's response, and the pieces
-- of a file with the blocks they are fetched in.
pub mod Bencode
pub mod Metainfo
pub mod Tracker
pub mod Block
pub mod CompletePiece
pub mod Piece
