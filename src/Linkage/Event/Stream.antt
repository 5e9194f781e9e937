-- ===== src/Linkage/Event/Stream.antt =====
-- A write event sends the queued bytes in their order, and keeps the rest.
use flinter.Base.{
  ℕ, zero, suc, ◌≤◌, ◌≡◌, ◌≢◌, inl, inr, refl, ◌∙◌, ap, Bool, true, false, ltb, not, Bytes, List,
  [], ◌∷◌, ◌++◌, append_assoc, take, drop, arith, Bool-cases, ◌==◌, take-append-drop, length-take,
}
use flinter.Linkage.Io.{
  Status, ok, bug, error, jammed, closed, wanna_read, wanna_write, Action, write, AbstractIo,
}
use flinter.Linkage.State.{Conn, LinkageHandler, Linkage}
use flinter.Linkage.Send.{
  pick_sending_buffer, consume_sending_buffer, io_write, update_last_sent, set_wanna,
}
use flinter.Linkage.Send.Stream.{IsHonest, stream}
use flinter.Linkage.Event.{finish, after_event, after_written, written, picked}

module _ {S H : Type 0} (io : AbstractIo S) (h : LinkageHandler S H) (log : S → Bytes) where
  stream-set_wanna : (r w : Bool) (c : Conn S H) → stream log (set_wanna r w c) ≡ stream log c
  unfolding set_wanna
  stream-set_wanna r w c = ground arith

  stream-finish :
      (a : Action) (status : Status) (l : Linkage S H)
      → stream log (finish a status l).linkage.conn ≡ stream log l.conn
  unfolding finish after_event
  stream-finish a wanna_read l = stream-set_wanna true false _
  stream-finish a wanna_write l = stream-set_wanna false true _
  stream-finish a ok l = refl
  stream-finish a _ l = refl

  take-take : {A : Type 0} (n m : ℕ) (xs : List A) → n ≤ m → take n (take m xs) ≡ take n xs
  take-take zero m xs h = refl
  take-take (suc n) zero xs h = absurd (omega arith)
  take-take (suc n) (suc m) [] h = refl
  take-take (suc n) (suc m) (x ∷ xs) h = ap (◌∷◌ x) (take-take n m xs (omega arith))

  sent_front :
      (c : Conn S H) (n len : ℕ) (s : S)
      → IsHonest io log
      → io.do_write (take len c.wbuffer) c.io ≡ (ok, n, s)
      → log s ++ drop n c.wbuffer ≡ stream log c
  sent_front c n len s honest e =
      let (fits, wrote) = honest.wrote (take len c.wbuffer) c.io s n e in
      ap (λ x. x ++ drop n c.wbuffer)
        (wrote
          ∙ ap (◌++◌ (log c.io))
              (take-take n len c.wbuffer (omega (arith, length-take len c.wbuffer))))
      ∙ append_assoc (log c.io) (take n c.wbuffer) (drop n c.wbuffer)
      ∙ ap (◌++◌ (log c.io)) (take-append-drop n c.wbuffer)

  unsent :
      (c : Conn S H) (status : Status) (n len : ℕ) (s : S)
      → IsHonest io log
      → status ≢ ok
      → io.do_write (take len c.wbuffer) c.io ≡ (status, n, s)
      → log s ++ c.wbuffer ≡ stream log c
  unsent c status n len s honest bad e =
      ap (λ x. x ++ c.wbuffer) (honest.kept (take len c.wbuffer) c.io s n status e bad)

  -- The connection behind an incomplete write, before the worker is asked for an event.
  jammed_conn : Conn S H → ℕ → S → Action → Conn S H
  unfolding update_last_sent
  jammed_conn c len s a = record (update_last_sent false true (record c { io = s })) {
    last_writing = len;
    action = a;
  }

  after_written-stream :
      (c : Conn S H) (status : Status) (n len : ℕ) (s : S) (l : Linkage S H)
      → IsHonest io log
      → io.do_write (take len c.wbuffer) c.io ≡ (status, n, s)
      → stream log (after_written io h len (status, n, record c { io = s }) l).linkage.conn
        ≡ stream log c
  unfolding after_written consume_sending_buffer update_last_sent finish after_event jammed_conn
  after_written-stream c ok n len s l honest e = elim (Bool-cases (ltb n len)) [
    | inl part ↦ rw part (sent_front c n len s honest e)
    | inr whole ↦ rw whole (
        let same : len ≡ n =
          ground
            (arith, (honest.wrote (take len c.wbuffer) c.io s n e).0, length-take len c.wbuffer) in
        rw same (sent_front c n len s honest e))
  ]
  after_written-stream c wanna_read n len s l honest e =
      stream-set_wanna true false (jammed_conn c len s write)
      ∙ unsent c wanna_read n len s honest (cc) e
  after_written-stream c wanna_write n len s l honest e =
      stream-set_wanna false true (jammed_conn c len s write)
      ∙ unsent c wanna_write n len s honest (cc) e
  after_written-stream c jammed n len s l honest e = unsent c jammed n len s honest (cc) e
  after_written-stream c bug n len s l honest e = unsent c bug n len s honest (cc) e
  after_written-stream c error n len s l honest e = unsent c error n len s honest (cc) e
  after_written-stream c closed n len s l honest e = unsent c closed n len s honest (cc) e

  picked-stream :
      (len : ℕ) (c : Conn S H) (l : Linkage S H)
      → IsHonest io log
      → stream log (picked io h (len, c) l).linkage.conn ≡ stream log c
  unfolding picked io_write
  picked-stream len c l honest = elim (Bool-cases (not (len == 0))) [
    | inl some_bytes ↦ rw some_bytes (
        after_written-stream c (io.do_write (take len c.wbuffer) c.io).0
          (io.do_write (take len c.wbuffer) c.io).1 len (io.do_write (take len c.wbuffer) c.io).2 l
          honest refl)
    | inr none_left ↦ rw none_left refl
  ]

  stream-pick : (c : Conn S H) → stream log (pick_sending_buffer c).1 ≡ stream log c
  unfolding pick_sending_buffer
  stream-pick c = ground arith

  -- Where the transport logs just the bytes that it says it wrote, a write event leaves the
  -- sequence of the bytes sent and queued as it was, whatever the transport answers.
  pub written-stream :
      (l : Linkage S H)
      → IsHonest io log
      → stream log (written io h l).linkage.conn ≡ stream log l.conn
  unfolding written
  written-stream l honest =
      picked-stream (pick_sending_buffer l.conn).0 (pick_sending_buffer l.conn).1 l honest
      ∙ stream-pick l.conn
