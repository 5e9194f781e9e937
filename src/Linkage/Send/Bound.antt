-- ===== src/Linkage/Send/Bound.antt =====
-- The sending buffer never exceeds kMaximumBytes.
use flinter.Base.{
  ℕ, ◌+◌, ◌-◌, ◌%◌, ◌≤◌, ◌≡◌, refl, Bool, true, false, ltb, Option, none, some, Bytes, length, drop,
  arith, Bool-cases, inl, inr, length-append,
}
use flinter.Linkage.Io.{
  Status, ok, jammed, wanna_read, wanna_write, bug, error, closed, write, AbstractIo,
}
use flinter.Linkage.State.{Conn}
use flinter.Linkage.Send.{
  maximum_bytes, size_mod, append_sending_buffer, queue, after_write, io_write, send, send_attached,
  set_wanna, set_wanna_write, update_last_sent, retry_later,
}

module _ {S H : Type 0} where
  abbrev pub Fits : Conn S H → Type 0
  Fits c = length c.wbuffer ≤ maximum_bytes

  queue-Fits :
      (b : Bytes) (k : Conn S H → Conn S H) (c : Conn S H)
      → ((c' : Conn S H) → (k c').wbuffer ≡ c'.wbuffer)
      → Fits c
      → Fits (queue b k c).1
  unfolding queue append_sending_buffer
  queue-Fits b k c same fits =
      elim (Bool-cases
        (ltb ((maximum_bytes + size_mod - length c.wbuffer) % size_mod) (length b))) [
          | inl full ↦ rw full fits
          | inr room ↦ rw (room, same) (ground (arith, length-append c.wbuffer b))
        ]

  wbuffer-set_wanna : (r w : Bool) (c : Conn S H) → (set_wanna r w c).wbuffer ≡ c.wbuffer
  unfolding set_wanna
  wbuffer-set_wanna r w c = ground arith

  wbuffer-set_wanna_write : (w : Bool) (c : Conn S H) → (set_wanna_write w c).wbuffer ≡ c.wbuffer
  unfolding set_wanna_write
  wbuffer-set_wanna_write w c = ground arith

  after_write-Fits :
      (b : Bytes) (status : Status) (n : ℕ) (c : Conn S H)
      → Fits c
      → Fits (after_write b (status, n, c)).1
  unfolding after_write update_last_sent retry_later
  after_write-Fits b jammed n c fits =
      queue-Fits b (λ c'. update_last_sent false true (set_wanna false true c')) c
        (λ c'. wbuffer-set_wanna false true c') fits
  after_write-Fits b wanna_read n c fits =
      queue-Fits b (retry_later true false (length b)) c
        (λ c'. wbuffer-set_wanna true false (record c' { action = write })) fits
  after_write-Fits b wanna_write n c fits =
      queue-Fits b (retry_later false true (length b)) c
        (λ c'. wbuffer-set_wanna false true (record c' { action = write })) fits
  after_write-Fits b ok n c fits = elim (Bool-cases (ltb n (length b))) [
    | inl part ↦ rw part (
        queue-Fits (drop n b) (λ c'. update_last_sent true true (set_wanna_write true c')) c
          (λ c'. wbuffer-set_wanna_write true c') fits)
    | inr whole ↦ rw whole fits
  ]
  after_write-Fits b bug n c fits = fits
  after_write-Fits b error n c fits = fits
  after_write-Fits b closed n c fits = fits

  send_attached-Fits :
      (io : AbstractIo S) (b : Bytes) (c : Conn S H) → Fits c → Fits (send_attached io b c).1
  unfolding send_attached io_write
  send_attached-Fits io b c fits = ground (
    arith,
    queue-Fits b (λ c'. c') c (λ _. refl) fits,
    after_write-Fits b (io.do_write b c.io).0 (io.do_write b c.io).1
        (record c { io = (io.do_write b c.io).2 }) fits,
  )

  -- A Send() on a linkage whose sending buffer is within 64 MB leaves it within 64 MB, whatever
  -- the transport answers.
  pub send-Fits :
      (io : AbstractIo S) (b : Option Bytes) (c : Conn S H) → Fits c → Fits (send io b c).1
  unfolding send
  send-Fits io none c fits = fits
  send-Fits io (some b) c fits = ground (arith, send_attached-Fits io b c fits)
