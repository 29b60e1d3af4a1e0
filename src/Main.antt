-- ===== src/Main.antt =====
-- src/main.cpp: the request to the tracker, and how the queues, the peers and the monitor are set up.
pub mod Query
pub mod Client
pub mod System
use picotor.Base.{
  ℕ, zero, suc, ◌+◌, ◌≡◌, refl, List, [], ◌∷◌, ◌++◌, map, Bytes, codes, length, Outcome, ok, ◌>>=◌,
}
use picotor.Common.Address.{Address}
use picotor.Common.Decimal.{to_decimal}
use picotor.Common.Urlencode.{urlencode}
use picotor.Message.Handshake.{new_handshake, serialise}
use picotor.Torrent.Bencode.{Bencode}
use picotor.Torrent.Metainfo
use picotor.Torrent.Metainfo.{SingleFileTorrent, pieces}
use picotor.Torrent.Tracker
use picotor.Torrent.Tracker.{TrackerResponse}
use picotor.Result.{TorrentContext}
use picotor.Peer.State.{Peer, new_peer}
use picotor.Monitor.{Monitor, push_all, new_monitor}

abbrev pub peer_id : Bytes
peer_id = codes "-pt0001-0123456789ab"

abbrev pub port : ℕ
port = 6881

unfoldable pub request_url : SingleFileTorrent → Bytes
request_url tor =
    tor.announce
    ++ (codes "?info_hash="
        ++ (urlencode tor.info_hash.bytes
            ++ (codes "&peer_id="
                ++ (peer_id
                    ++ (codes "&port="
                        ++ (to_decimal port
                            ++ (codes "&uploaded=0&downloaded=0&compact=1&left="
                                ++ to_decimal tor.file_length)))))))

-- The HTTP library is a parameter: the body of the answer to a `GET`, or what it throws.
unfoldable pub send_request :
    {Value Dict : Type 0}
    → Bencode Value Dict
    → (Bytes → Outcome Bytes)
    → SingleFileTorrent
    → Outcome TrackerResponse
send_request b http tor = do body ← http (request_url tor); Tracker.parse b body

-- What `start_run_connections` has made when it starts the monitor and the I/O context.
pub record Connections : Type 0 where
  pub context : TorrentContext
  pub work_queue : List ℕ
  pub peers : List Peer
  pub monitor : Monitor

unfoldable pub start_connections : SingleFileTorrent → TrackerResponse → ℕ → Connections
start_connections tor response clock =
    let context : TorrentContext = record {
      handshake = serialise (new_handshake tor.info_hash peer_id);
      tor = tor;
      total_peers = length response.peers;
    } in
    record {
      context = context;
      work_queue = push_all (pieces tor) 0 [];
      peers = map new_peer response.peers;
      monitor = new_monitor context clock;
    }

-- `main`, up to the start of the connections: `file` is what the torrent file holds.
unfoldable pub main :
    {Value Dict : Type 0}
    → Bencode Value Dict
    → (Bytes → Bytes)
    → (Bytes → Outcome Bytes)
    → Bytes
    → ℕ
    → Outcome Connections
main b sha1 http file clock = do
  tor ← Metainfo.from_file b sha1 file
  response ← send_request b http tor
  ok (start_connections tor response clock)
