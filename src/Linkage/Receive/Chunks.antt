-- ===== src/Linkage/Receive/Chunks.antt =====
-- A stream that arrives in pieces of any size.
use mathlib.Core.List.{flatten}
use flinter.Base.{
  ℕ, zero, suc, ◌<◌, ◌≡◌, refl, sym, ◌∙◌, ap, false, Option, some, Bytes, List, [], ◌∷◌, ◌++◌,
  append_assoc, append-nil, length, length-drop, take, drop, ◌>>=◌, arith, ◌==◌,
}
use flinter.Base.Int.{ℤ, pos, negsuc}
use flinter.Linkage.State.{Conn, LinkageHandler, Linkage, update_last_received}
use flinter.Linkage.Receive.{on_received, received}
use flinter.Linkage.Framing.{
  Frame, invalid, incomplete, message, deliver, deliver_within, turn, go, IsFraming, turned,
  replied, frame,
}
use flinter.Linkage.Framing.Append.{
  deliver-append, deliver-append_broken, deliver_stop, deliver_go, turn_cases, advances, waits,
  ends,
}
use flinter.Linkage.Receive.Refines.{
  IsPending, Refines, Sign, goes_on, stops, received-Refines, transfer,
}

module _ {S H : Type 0} (h : LinkageHandler S H) where
  and_then : (Linkage S H → Option (ℤ × Linkage S H)) → ℤ × Linkage S H → Option (ℤ × Linkage S H)
  and_then k (pos (suc _), l) = k l
  and_then k (z, l) = some (z, l)

  and_then_stop :
      (k : Linkage S H → Option (ℤ × Linkage S H)) (z : ℤ) (l : Linkage S H)
      → Sign h z
      → and_then k (z, l) ≡ some (z, l)
  unfolding and_then
  and_then_stop k (pos zero) l s = refl
  and_then_stop k (negsuc m) l s = refl
  and_then_stop k (pos (suc m)) l s = absurd (ground arith)

  -- OnReceived() for one piece after another, until it says to stop.
  unfoldable pub feed : List Bytes → Linkage S H → Option (ℤ × Linkage S H)
  unfolding and_then
  feed [] l = some (pos 1, l)
  feed (b ∷ bs) l = on_received h (some b) l >>= and_then (feed bs)

  -- No callback asks to hang up: a linkage that hangs up drops what it receives.
  abbrev pub Stays : Type 0
  Stays = (b : Bytes) (c : Conn S H) → c.graceful ≡ false → (h.on_message b c).1.graceful ≡ false

  -- Between two pieces: nothing that could be delivered is kept.
  pub record IsIdle (l : Linkage S H) : Type 0 where
    pub pending : IsPending h l.rx
    pub quiet :
        deliver h l.rx.rbuffer l.conn
        ≡ some (record { ret = pos 1; rest = l.rx.rbuffer; conn = l.conn })
    pub open_ : l.conn.graceful ≡ false

  replied-graceful :
      (n : ℕ) (b : Bytes) (r : ℤ × Conn S H) (m : ℕ) (c' : Conn S H)
      → r.1.graceful ≡ false
      → replied h n b r ≡ go m c'
      → c'.graceful ≡ false
  unfolding replied
  replied-graceful n b (pos (suc k), c) m c' q e = ground arith
  replied-graceful n b (pos zero, c) m c' q e = absurd (ground arith)
  replied-graceful n b (negsuc k, c) m c' q e = absurd (ground arith)

  turned-graceful :
      (fr : Frame) (b : Bytes) (c : Conn S H) (m : ℕ) (c' : Conn S H)
      → Stays
      → c.graceful ≡ false
      → turned h fr b c ≡ go m c'
      → c'.graceful ≡ false
  unfolding turned
  turned-graceful invalid b c m c' stays q e = absurd (ground arith)
  turned-graceful incomplete b c m c' stays q e = absurd (ground arith)
  turned-graceful (message n) b c m c' stays q e =
      replied-graceful n b (h.on_message (take n b) c) m c' (stays (take n b) c q) e

  turn-graceful :
      (b : Bytes) (c : Conn S H) (n : ℕ) (c' : Conn S H)
      → Stays
      → c.graceful ≡ false
      → turn h b c ≡ go n c'
      → c'.graceful ≡ false
  unfolding turn
  turn-graceful b c n c' = turned-graceful (frame (h.get_message_length c b) (length b)) b c n c'

  deliver-graceful :
      (f : ℕ) (b rest : Bytes) (c c' : Conn S H)
      → IsFraming h
      → Stays
      → c.graceful ≡ false
      → length b < f
      → deliver_within h f b c ≡ some (record { ret = pos 1; rest = rest; conn = c' })
      → c'.graceful ≡ false
  deliver-graceful zero b rest c c' fr stays q l e = elim l [ ]
  deliver-graceful (suc f) [] rest c c' fr stays q l e = unfold deliver_within in ground arith
  deliver-graceful (suc f) (x ∷ b) rest c c' fr stays q l e = elim (turn_cases h (x ∷ b) [] c fr) [
    | advances n c'' t _ m ↦
        deliver-graceful f (drop (suc n) (x ∷ b)) rest c'' c' fr stays
          (turn-graceful (x ∷ b) c (suc n) c'' stays q t)
          (omega (arith, length-drop (suc n) (x ∷ b)))
          (sym (deliver_go h f x b c (suc n) c'' t) ∙ e)
    | waits t ↦ ground (arith, deliver_stop h f x b c _ t)
    | ends z c'' w t _ ↦ absurd (ground (arith, w, deliver_stop h f x b c _ t))
  ]

  -- What is left of a delivery cannot be delivered.
  deliver_again :
      (b rest : Bytes) (c c' : Conn S H)
      → IsFraming h
      → deliver h b c ≡ some (record { ret = pos 1; rest = rest; conn = c' })
      → deliver h rest c' ≡ some (record { ret = pos 1; rest = rest; conn = c' })
  deliver_again b rest c c' fr e =
      sym (ap (λ r. deliver h r c') (append-nil rest))
      ∙ sym (deliver-append h b [] rest c c' fr e)
      ∙ ap (λ r. deliver h r c) (append-nil b)
      ∙ e

  on_received_lem :
      (x : ℕ) (b : Bytes) (l : Linkage S H)
      → l.conn.graceful ≡ false
      → on_received h (some (x ∷ b)) l
        ≡ received h (x ∷ b) (update_last_received l.conn.now l.rx) l.conn
  unfolding on_received
  on_received_lem x b l q =
      let some_left : (suc (length b) == 0) ≡ false = ground arith in rw (some_left, q)

  one :
      (b : Bytes) (l : Linkage S H)
      → IsFraming h
      → IsIdle l
      → Refines h (l.rx.rbuffer ++ b) l.conn (on_received h (some b) l)
  unfolding update_last_received
  one [] l fr idle =
      goes_on l.rx l.conn (unfold on_received in refl)
        (ap (λ r. deliver h r l.conn) (append-nil l.rx.rbuffer) ∙ idle.quiet) idle.pending
  one (x ∷ b) l fr idle = rw (on_received_lem x b l idle.open_) (
      received-Refines h (x ∷ b) (update_last_received l.conn.now l.rx) l.conn fr
        (record { cached = idle.pending.cached; short = idle.pending.short }))

  joined :
      (b rest e : Bytes) (bs : Bytes) (c c' : Conn S H)
      → IsFraming h
      → deliver h (b ++ e) c ≡ some (record { ret = pos 1; rest = rest; conn = c' })
      → deliver h (b ++ (e ++ bs)) c ≡ deliver h (rest ++ bs) c'
  joined b rest e bs c c' fr d =
      rw (← append_assoc b e bs) (deliver-append h (b ++ e) bs rest c c' fr d)

  -- Where GetMessageLength() stays with a length once it has given one, and no OnMessage() asks to
  -- hang up, a stream that comes to OnReceived() in any pieces is handled as one that comes whole
  -- to the plain parser: the same messages go to the handler, the last result is the same, and as
  -- long as it is 1 the same bytes are kept. It starts from a linkage that is not hanging up and
  -- keeps no whole message.
  pub feed-Refines :
      (bs : List Bytes) (l : Linkage S H)
      → IsFraming h
      → Stays
      → IsIdle l
      → Refines h (l.rx.rbuffer ++ flatten bs) l.conn (feed bs l)
  unfolding feed and_then flatten
  feed-Refines [] l fr stays idle =
      goes_on l.rx l.conn refl (ap (λ r. deliver h r l.conn) (append-nil l.rx.rbuffer) ∙ idle.quiet)
        idle.pending
  feed-Refines (b ∷ bs) l fr stays idle = elim (one b l fr idle) [
    | goes_on rx c e d pending ↦
        let idle' : IsIdle (record { rx = rx; conn = c }) = record {
          pending = pending;
          quiet = deliver_again _ rx.rbuffer l.conn c fr d;
          open_ =
              deliver-graceful _ (l.rx.rbuffer ++ b) rx.rbuffer l.conn c fr stays idle.open_
                (omega arith) d;
        } in
        rw e (
          transfer h (joined l.rx.rbuffer rx.rbuffer b (flatten bs) l.conn c fr d)
            (feed-Refines bs (record { rx = rx; conn = c }) fr stays idle'))
    | stops z rx rest c w s e d ↦
        stops z rx (rest ++ flatten bs) c w s (rw e (and_then_stop (feed bs) z _ s)) (
          rw (← append_assoc l.rx.rbuffer b (flatten bs))
            (deliver-append_broken h (l.rx.rbuffer ++ b) (flatten bs) rest l.conn c z fr w d))
  ]
