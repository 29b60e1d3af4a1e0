-- ===== src/Main/System/Download/Greets.antt =====
-- src/main.cpp with src/peer.cpp: the first peer connects, greets, and tells that it has every piece.
use picotor.Base.{
  ℕ, zero, suc, ◌+◌, ◌*◌, ◌/◌, ◌%◌, ◌<◌, ◌≡◌, refl, sym, ap, ◌∙◌, true, false, List, [], ◌∷◌, map,
  none, arith, Bytes, All, IsByte, replicate, get_elem?-replicate, ok, value_or,
}
use picotor.Stream.{Junk}
use picotor.Common.Address.{Address}
use picotor.Common.Bitfield.{copy_from, empty, get}
use picotor.Common.Bitfield.Lookup.{bit, has_bit, get-copy_from}
use picotor.Message.Frame
use picotor.Message.Kind
use picotor.Result.{TorrentContext}
use picotor.Peer.State.{Peer, new_peer, length_word, body}
use picotor.Peer.Download
use picotor.Peer.Download.{async_download}
use picotor.Peer.Handlers
use picotor.Peer.Handlers.{async_read_message}
use picotor.Peer.Run.{Event, connected, handshake_written, handshake_read, body_done, step, run}
use picotor.Peer.Run.Orderly.{reading, ended}
use picotor.Peer.Run.Honest.Finish.{loaded}
use picotor.Peer.Run.Honest.Tally.{IsTallied}
use picotor.Main.Client.{held_by_all}
use picotor.Main.System.{System, here}
use picotor.Main.System.Download.{Stage, moves}

byte-set : (r : ℕ) → r < 8 → bit 255 r ≡ true
byte-set zero h = refl
byte-set (suc zero) h = refl
byte-set (suc (suc zero)) h = refl
byte-set (suc (suc (suc zero))) h = refl
byte-set (suc (suc (suc (suc zero)))) h = refl
byte-set (suc (suc (suc (suc (suc zero))))) h = refl
byte-set (suc (suc (suc (suc (suc (suc zero)))))) h = refl
byte-set (suc (suc (suc (suc (suc (suc (suc zero))))))) h = refl
byte-set (suc (suc (suc (suc (suc (suc (suc (suc r)))))))) h = absurd (omega (arith, h))

bytes-AreBytes : (n : ℕ) → All IsByte (replicate n 255)
bytes-AreBytes zero = tt
bytes-AreBytes (suc n) = (omega arith, bytes-AreBytes n)

-- Bytes that are all 255 set the bit of every piece that they reach.
pub full_field : (n a : ℕ) → a < n * 8 → get (copy_from empty (replicate n 255)) a ≡ true
full_field n a less =
    let split : a / 8 * 8 + a % 8 ≡ a = omega arith in
    let inside : a / 8 < n = omega (arith, less) in
    let low : a % 8 < 8 = omega arith in
    ap (get (copy_from empty (replicate n 255))) (sym split)
    ∙ (get-copy_from empty (replicate n 255) (a / 8) (a % 8) (bytes-AreBytes n) low).1
    ∙ rw (has_bit, get_elem?-replicate {A = ℕ} n (a / 8) 255 inside) (byte-set (a % 8) low)

-- A bit field at a peer that may not send requests yet.
pub step-bitfield :
    (sha1 : Bytes → Bytes) (ctx : TorrentContext) (junk : Junk) (bits : Bytes) (queue : List ℕ)
    (p : Peer)
    → p.choked ≡ true
    → p.requests ≡ []
    → step sha1 ctx p (body_done junk false (5 ∷ bits) queue)
      ≡ ok (
          async_read_message (record (loaded (5 ∷ bits) queue p) {
            available_pieces = copy_from p.available_pieces bits;
          }))
unfolding step Handlers.body_read Handlers.async_handle_message Frame.parse Handlers.handle_kind
    Kind.try_from Handlers.dispatch Download.async_download Handlers.download_fuel
step-bitfield sha1 ctx junk bits queue p choked free =
    let fuel : ctx.tor.piece_length + 2 ≡ suc (ctx.tor.piece_length + 1) = omega arith in
    rw (choked, free, fuel) refl

pub new-idle : (a : ℕ) (xs : List Address) → held_by_all a (map new_peer xs) ≡ 0
unfolding new_peer
new-idle a [] = refl
new-idle a (x ∷ xs) = omega (arith, new-idle a xs)

-- The peer with the handshakes exchanged.
pub greeted : (Bytes → Bytes) → TorrentContext → Junk → Address → Peer
greeted sha1 ctx junk x = value_or (new_peer x) (
    run sha1 ctx (new_peer x)
      (connected false ∷ handshake_written false ∷ handshake_read junk false ctx.handshake ∷ []))

pub greeted-tally :
    (sha1 : Bytes → Bytes) (ctx : TorrentContext) (junk : Junk) (x : Address)
    → let p = greeted sha1 ctx junk x in
      IsTallied 1 0 0 0 p.history
      × (p.choked ≡ true)
      × (p.piece ≡ none)
      × (p.requests ≡ [])
      × (p.available_pieces ≡ empty)
unfolding greeted run step new_peer Handlers.async_handshake_write Handlers.async_handshake_read
    Handlers.async_next Handlers.async_read_message Frame.serialize Frame.interested
greeted-tally sha1 ctx junk x = ((refl, refl, refl, refl, omega arith), refl, refl, refl, refl)

-- The handshakes are exchanged.
pub greets :
    (sha1 : Bytes → Bytes) (ctx : TorrentContext) (junk : Junk) (s : System) (x : Address)
    (back : List Peer)
    → s.client.peers ≡ new_peer x ∷ back
    → (t : System) × (es : List Event) × Stage sha1 ctx s t (greeted sha1 ctx junk x) back es
      × (ended (reading length_word) es ≡ 0)
      × (ended (reading body) es ≡ 0)
unfolding greeted run step new_peer Handlers.async_handshake_write Handlers.async_handshake_read
    Handlers.async_next Handlers.async_read_message Frame.serialize Frame.interested
greets sha1 ctx junk s x back at =
    let e1 = connected false in
    let e2 = handshake_written false in
    let e3 = handshake_read junk false ctx.handshake in
    let (t, g1, _) =
      moves sha1 ctx s s (new_peer x) _ back [] e1
        (record { trace = here; orderly = tt; events = refl; at = at }) tt tt (omega arith, refl)
        refl in
    let (u, g2, _) = moves sha1 ctx s t _ _ back (e1 ∷ []) e2 g1 tt tt (omega arith, refl) refl in
    let (v, g3, _) =
      moves sha1 ctx s u _ (greeted sha1 ctx junk x) back (e2 ∷ e1 ∷ []) e3 g2 tt tt
        (omega arith, (refl, refl)) refl in
    (v, e3 ∷ e2 ∷ e1 ∷ [], g3, refl, refl)
