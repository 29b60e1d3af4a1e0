-- ===== src/Main/System/Download/Receives.antt =====
-- src/main.cpp with src/peer.cpp: the first peer receives a message.
use picotor.Base.{
  ℕ, suc, ◌<◌, ◌≡◌, refl, sym, ap, subst, ◌∙◌, false, List, [], ◌∷◌, ◌++◌, append_assoc, append-nil,
  arith, Bytes, length, ok,
}
use picotor.Stream.{Junk}
use picotor.Common.Words.{u32_mod, big_endian}
use picotor.Result.{TorrentContext}
use picotor.Peer.State.{Peer, read, length_word, body}
use picotor.Peer.Run.{Event, length_read, body_done, step}
use picotor.Peer.Run.Orderly.{reading, ended, IsOutstanding}
use picotor.Peer.Run.Honest.Finish.{heard, step-length}
use picotor.Peer.Run.Honest.Tally.{IsTallied}
use picotor.Main.Client.{act}
use picotor.Main.System.{System, pushed, handle, next}
use picotor.Main.System.Download.{Stage, IsLater, moves}

pub later : (s t u : System) → IsLater s t → IsLater t u → IsLater s u
later s t u (same, (x, e)) (same', (y, e')) =
    (same' ∙ same, (x ++ y, e' ∙ ap (λ q. q ++ y) e ∙ append_assoc s.result_queue x y))

-- The completions of the two reads of a message.
abbrev pub message : Junk → Bytes → List ℕ → List Event → List Event
message junk buffer queue done =
    body_done junk false buffer queue ∷ length_read false (big_endian (length buffer)) ∷ done

module _ (sha1 : Bytes → Bytes) (ctx : TorrentContext) (start : System) (back : List Peer) where
  -- The length takes nothing from the work queue.
  hears :
      (s : System) (p : Peer) (done : List Event) (n : ℕ)
      → Stage sha1 ctx start s p back done
      → 0 < n
      → n < u32_mod
      → IsOutstanding done p (length_read false (big_endian n))
      → (t : System) × Stage sha1 ctx start t
          (heard n p)
          back
          (length_read false (big_endian n) ∷ done)
        × IsLater s t
        × (t.client.work_queue ≡ s.client.work_queue)
  unfolding pushed
  hears s p done n g some_ small waits =
      let e = length_read false (big_endian n) in
      let ran = step-length sha1 ctx n p some_ small in
      let t : System = record {
        client = record { work_queue = s.client.work_queue; peers = heard n p ∷ back };
        result_queue = s.result_queue;
        monitor = s.monitor;
      } in
      let none_ = sym (append-nil s.result_queue) in
      (
        t,
        record {
          trace = next g.trace (
              handle (act [] back p (heard n p) e (read n body ∷ []) g.at refl ran refl refl) none_
                refl);
          orderly = (g.orderly, subst (λ es. IsOutstanding es p e) (sym g.events) waits, tt);
          events = ap (λ es. e ∷ es) g.events;
          at = refl;
        },
        (refl, ([], none_)),
        refl,
      )

  pub receives :
      (s : System) (p r : Peer) (done : List Event) (a k : ℕ) (junk : Junk) (buffer : Bytes)
      → Stage sha1 ctx start s p back done
      → IsTallied (suc (ended (reading length_word) done)) (ended (reading body) done) a k p.history
      → 0 < length buffer
      → length buffer < u32_mod
      → step sha1 ctx (heard (length buffer) p) (body_done junk false buffer s.client.work_queue)
        ≡ ok r
      → (t : System) × Stage sha1 ctx start t r back (message junk buffer s.client.work_queue done)
        × IsLater s t
  receives s p r done a k junk buffer g (c, d, open_, size, _) some_ small ran =
      let (t, g', later_, same) =
        hears s p done (length buffer) g some_ small (omega (arith, c), (open_, sym size)) in
      let (u, g'', later') =
        moves sha1 ctx start t (heard (length buffer) p) r back
          (length_read false (big_endian (length buffer)) ∷ done)
          (body_done junk false buffer s.client.work_queue) g'
          ([], same ∙ sym (append-nil s.client.work_queue)) (sym same)
          (omega (arith, d), (open_, refl)) ran in
      (u, g'', later s t u later_ later')
