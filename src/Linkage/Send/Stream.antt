-- ===== src/Linkage/Send/Stream.antt =====
-- What Send() puts on the wire and in the sending buffer: the bytes keep their order, none is lost
-- and none is sent twice, but for one case.
use flinter.Base.{
  ℕ, ◌+◌, ◌-◌, ◌%◌, ◌≤◌, ◌<◌, ◌≡◌, ◌≢◌, refl, sym, ap, ◌∙◌, ◌⊎◌, Bool, true, false, not, ◌||◌, ◌==◌,
  ltb, Option, none, some, Bytes, [], ◌++◌, length, take, drop, arith, length_zero, append_assoc,
  append-nil, Bool-cases, inl, inr, length-drop, take_all, take-append-drop,
}
use flinter.Linkage.Io.{
  Status, ok, jammed, wanna_read, wanna_write, bug, error, closed, write, AbstractIo,
}
use flinter.Linkage.State.{Conn}
use flinter.Linkage.Send.{
  maximum_bytes, size_mod, int_max, append_sending_buffer, queue, after_write, io_write, send,
  send_attached, set_wanna, set_wanna_write, update_last_sent, retry_later, is_idle,
}

-- What Write() of abstract_io.h promises: `log` is what the peer will read.
pub record IsHonest {S : Type 0} (io : AbstractIo S) (log : S → Bytes) : Type 0 where
  pub wrote :
      (b : Bytes) (s s' : S) (n : ℕ)
      → io.do_write b s ≡ (ok, n, s')
      → (n ≤ length b) × (log s' ≡ log s ++ take n b)
  pub kept :
      (b : Bytes) (s s' : S) (n : ℕ) (status : Status)
      → io.do_write b s ≡ (status, n, s')
      → status ≢ ok
      → log s' ≡ log s

module _ {S H : Type 0} (log : S → Bytes) where
  -- The bytes sent, and those that wait behind them.
  abbrev pub stream : Conn S H → Bytes
  stream c = log c.io ++ c.wbuffer

  -- The results of Send().
  pub data Sent (b : Bytes) (c : Conn S H) (r : Bool × Conn S H) : Type 0 where
    accepted : r.0 ≡ true → stream r.1 ≡ stream c ++ b → Sent b c r
    refused : r.0 ≡ false → stream r.1 ≡ stream c → Sent b c r
    torn :
        (n : ℕ)
        → c.wbuffer ≡ []
        → maximum_bytes < length b - n
        → r.0 ≡ false
        → stream r.1 ≡ stream c ++ take n b
        → Sent b c r

  -- AppendSendingBuffer() with what follows it, if that leaves the bytes alone.
  queue_lem :
      (b : Bytes) (k : Conn S H → Conn S H) (c : Conn S H)
      → ((c' : Conn S H) → stream (k c') ≡ stream c')
      → length c.wbuffer ≤ maximum_bytes
      → ((queue b k c).0 ≡ true) × (stream (queue b k c).1 ≡ stream c ++ b)
        ⊎ ((queue b k c).0 ≡ false)
          × ((queue b k c).1 ≡ c)
          × (maximum_bytes < length c.wbuffer + length b)
  unfolding queue append_sending_buffer
  queue_lem b k c same fits =
      elim (Bool-cases
        (ltb ((maximum_bytes + size_mod - length c.wbuffer) % size_mod) (length b))) [
          | inl full ↦ inr (rw full, rw full, ground arith)
          | inr room ↦ inl (rw room, rw room (same _ ∙ sym (append_assoc (log c.io) c.wbuffer b)))
        ]

  stream-set_wanna : (r w : Bool) (c : Conn S H) → stream (set_wanna r w c) ≡ stream c
  unfolding set_wanna
  stream-set_wanna r w c = ground arith

  stream-set_wanna_write : (w : Bool) (c : Conn S H) → stream (set_wanna_write w c) ≡ stream c
  unfolding set_wanna_write
  stream-set_wanna_write w c = ground arith

  stream-retry_later : (r w : Bool) (n : ℕ) (c : Conn S H) → stream (retry_later r w n c) ≡ stream c
  unfolding retry_later update_last_sent
  stream-retry_later r w n c = stream-set_wanna r w (record c { action = write })

  -- A write that took nothing: all bytes are queued, or none.
  none_written :
      (b : Bytes) (k : Conn S H → Conn S H) (c c' : Conn S H)
      → ((c'' : Conn S H) → stream (k c'') ≡ stream c'')
      → length c'.wbuffer ≤ maximum_bytes
      → stream c' ≡ stream c
      → Sent b c (queue b k c')
  none_written b k c c' same fits e = elim (queue_lem b k c' same fits) [
    | inl done ↦ accepted done.0 (done.1 ∙ ap (λ x. x ++ b) e)
    | inr full ↦ refused full.0 (ap stream full.1 ∙ e)
  ]

  -- A write that took the first `n` bytes.
  some_written :
      (b : Bytes) (n : ℕ) (k : Conn S H → Conn S H) (c c' : Conn S H)
      → ((c'' : Conn S H) → stream (k c'') ≡ stream c'')
      → c.wbuffer ≡ []
      → c'.wbuffer ≡ []
      → log c'.io ≡ log c.io ++ take n b
      → Sent b c (queue (drop n b) k c')
  some_written b n k c c' same e e' w =
      elim (queue_lem (drop n b) k c' same (rw e' (omega arith))) [
        | inl done ↦
            accepted done.0
              (done.1 ∙ ap (λ x. x ++ drop n b) front ∙ simp (append_assoc, take-append-drop))
        | inr full ↦
            torn n e (omega (arith, ap length e', length-drop n b, full.2)) full.0
              (ap stream full.1 ∙ front)
      ]
    where
      front : stream c' ≡ stream c ++ take n b
      front = simp (e, e', w, append-nil)

  after_write-Sent :
      (io : AbstractIo S) (b : Bytes) (c : Conn S H) (status : Status) (n : ℕ) (s : S)
      → IsHonest io log
      → c.wbuffer ≡ []
      → io.do_write b c.io ≡ (status, n, s)
      → Sent b c (after_write b (status, n, record c { io = s }))
  unfolding after_write update_last_sent
  after_write-Sent io b c jammed n s honest e w =
      none_written b (λ c'. update_last_sent false true (set_wanna false true c')) c
        (record c { io = s }) (λ c'. stream-set_wanna false true c') (rw e (omega arith))
        (ap (λ x. x ++ c.wbuffer) (honest.kept b c.io s n jammed w (cc)))
  after_write-Sent io b c wanna_read n s honest e w =
      none_written b (retry_later true false (length b)) c (record c { io = s })
        (stream-retry_later true false (length b)) (rw e (omega arith))
        (ap (λ x. x ++ c.wbuffer) (honest.kept b c.io s n wanna_read w (cc)))
  after_write-Sent io b c wanna_write n s honest e w =
      none_written b (retry_later false true (length b)) c (record c { io = s })
        (stream-retry_later false true (length b)) (rw e (omega arith))
        (ap (λ x. x ++ c.wbuffer) (honest.kept b c.io s n wanna_write w (cc)))
  after_write-Sent io b c ok n s honest e w = elim (Bool-cases (ltb n (length b))) [
    | inl part ↦ rw part (
        some_written b n (λ c'. update_last_sent true true (set_wanna_write true c')) c
          (record c { io = s }) (λ c'. stream-set_wanna_write true c') e e
          (honest.wrote b c.io s n w).1)
    | inr whole ↦ rw whole (
        accepted refl (
          simp (e, append-nil)
            ((honest.wrote b c.io s n w).1 ∙ ap (◌++◌ (log c.io)) (take_all n b (ground arith)))))
  ]
  after_write-Sent io b c bug n s honest e w =
      refused refl (ap (λ x. x ++ c.wbuffer) (honest.kept b c.io s n bug w (cc)))
  after_write-Sent io b c error n s honest e w =
      refused refl (ap (λ x. x ++ c.wbuffer) (honest.kept b c.io s n error w (cc)))
  after_write-Sent io b c closed n s honest e w =
      refused refl (ap (λ x. x ++ c.wbuffer) (honest.kept b c.io s n closed w (cc)))

  send_attached-Sent :
      (io : AbstractIo S) (b : Bytes) (c : Conn S H)
      → IsHonest io log
      → length c.wbuffer ≤ maximum_bytes
      → Sent b c (send_attached io b c)
  unfolding send_attached io_write is_idle
  send_attached-Sent io b c honest fits = elim (Bool-cases (ltb int_max (length b) || c.graceful)) [
    | inl bad ↦ rw (bad) (refused refl refl)
    | inr good ↦ elim (Bool-cases (length b == 0)) [
      | inl empty ↦
          rw (good, empty)
            (accepted refl (rw (length_zero b (ground arith)) (sym (append-nil (stream c)))))
      | inr full ↦ elim (Bool-cases (not (is_idle c.action) || not (length c.wbuffer == 0))) [
        | inl busy ↦ rw (good, full, busy) (none_written b (λ c'. c') c c (λ _. refl) fits refl)
        | inr free ↦
            rw (good, full, free)
              (after_write-Sent io b c (io.do_write b c.io).0 (io.do_write b c.io).1
                (io.do_write b c.io).2 honest (length_zero c.wbuffer (ground arith)) refl)
      ]
    ]
  ]

  -- Where the transport logs just the bytes that it says it wrote, and the sending buffer is
  -- within its bound, a Send() that returns true adds exactly its bytes behind all that was sent
  -- and queued before, and one that returns false adds nothing; but where the sending buffer was
  -- empty, the transport took a first part and the rest exceeds the buffer, it returns false with
  -- that part sent.
  pub send-Sent :
      (io : AbstractIo S) (b : Bytes) (c : Conn S H)
      → IsHonest io log
      → length c.wbuffer ≤ maximum_bytes
      → Sent b c (send io (some b) c)
  unfolding send
  send-Sent io b c honest fits = by_worker c.worker
    where
      by_worker :
          (w : Option ℕ) → Sent b c (elim w [ none ↦ (false, c) | some _ ↦ send_attached io b c ])
      by_worker none = refused refl refl
      by_worker (some _) = send_attached-Sent io b c honest fits
