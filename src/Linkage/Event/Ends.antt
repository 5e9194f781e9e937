-- ===== src/Linkage/Event/Ends.antt =====
-- The loop of OnEvent() comes to an end.
use flinter.Base.{
  ℕ, zero, suc, ◌+◌, ◌<◌, ◌≤◌, ◌≡◌, ◌⊎◌, inl, inr, refl, Bool, true, false, if◌then◌else◌, Option,
  none, some, Bytes, ◌>>=◌, arith,
}
use flinter.Base.Int.{ℤ, pos, negsuc}
use flinter.Linkage.Io.{
  Status, ok, bug, Action, idle, read, write, accept, connect, shutdown, AbstractIo,
}
use flinter.Linkage.State.{Conn, LinkageHandler, Linkage}
use flinter.Linkage.Send.{is_idle, pick_sending_buffer}
use flinter.Linkage.Receive.Total.{Returns, on_received-Returns}
use flinter.Linkage.Event.{
  Turned, finish, set_action, after_received, after_read, after_written, written, picked,
  after_handshake, shut, after_shut, on_event_once, event_rounds, on_event, watch,
}

-- The transport's own buffer runs dry: `pending` bounds how often Read() can still ask for more, and
-- no callback of the handler fills it.
pub record Drains {S H : Type 0} (io : AbstractIo S) (h : LinkageHandler S H) (pending : S → ℕ)
    : Type 0 where
  pub read_drains : (s : S) → (io.do_read s).0.more ≡ true → pending (io.do_read s).1 < pending s
  pub message_keeps : (b : Bytes) (c : Conn S H) → pending (h.on_message b c).1.io ≤ pending c.io

module _ {S H : Type 0} (io : AbstractIo S) (h : LinkageHandler S H) where
  -- What a round that reads hands over to.
  abbrev ReadNext : (S → ℕ) → ℕ → Turned S H → Type 0
  ReadNext pending k t =
      (is_idle t.next_action ≡ true)
      ⊎ (t.next_action ≡ shutdown)
      ⊎ (t.next_action ≡ read) × (pending t.linkage.conn.io < k)

  pub shutdown_next :
      (l : Linkage S H) → is_idle (after_shut io h (shut io h bug l.conn) l).next_action ≡ true
  unfolding after_shut finish is_idle
  shutdown_next l = ground arith

  written_next :
      (l : Linkage S H)
      → (is_idle (written io h l).next_action ≡ true) ⊎ ((written io h l).next_action ≡ shutdown)
  unfolding written picked pick_sending_buffer after_written finish is_idle
  written_next l = ground arith

  handshake_next :
      (a : Action) (r : Status × S) (l : Linkage S H)
      → is_idle (after_handshake io h a r l).next_action ≡ true
  unfolding after_handshake finish is_idle
  handshake_next a (ok, s) l = refl
  handshake_next a (bug, s) l = refl
  handshake_next a (_, s) l = refl

  module _ (pending : S → ℕ) (drains : Drains io h pending) where
    abbrev Hands : ℕ → Option (Turned S H) → Type 0
    Hands k none = ⊥
    Hands k (some t) = ReadNext pending k t

    received_next :
        (k : ℕ) (more : Bool) (r : ℤ × Linkage S H)
        → (more ≡ true → pending r.1.conn.io < k)
        → ReadNext pending k (after_received io h more r)
    unfolding after_received is_idle
    received_next k more (pos zero, l) p = inr (inl refl)
    received_next k more (negsuc m, l) p = inl refl
    received_next k true (pos (suc m), l) p = inr (inr (refl, p refl))
    received_next k false (pos (suc m), l) p = inl refl

    -- Bounded by what the transport holds after the read.
    abbrev Within : ℕ → Conn S H → Type 0
    Within n c = pending c.io ≤ n

    within_keeps : (n : ℕ) (b : Bytes) (c : Conn S H) → Within n c → Within n (h.on_message b c).1
    within_keeps n b c p = omega (arith, drains.message_keeps b c)

    bound_next :
        (k n : ℕ) (more : Bool) (o : Option (ℤ × Linkage S H))
        → (more ≡ true → n < k)
        → Returns h (Within n) (within_keeps n) o
        → Hands k (o >>= λ r. some (after_received io h more r))
    bound_next k n more none p e = absurd e
    bound_next k n more (some r) p e = received_next k more r (λ m. omega (arith, p m))

    read_next :
        (l : Linkage S H) (status : Status) (b : Bytes) (more : Bool) (s : S)
        → (more ≡ true → pending s < pending l.conn.io)
        → Hands
            (pending l.conn.io)
            (after_read io h (record { status = status; bytes = b; more = more }, s) l)
    unfolding after_read finish is_idle set_action
    read_next l ok b more s p = bound_next (pending l.conn.io) (pending s) more _ p (
        on_received-Returns h (Within (pending s)) (within_keeps (pending s)) (some b)
          (record l { conn = record l.conn { io = s; action = idle } }) (omega arith))
    read_next l bug b more s p = inl refl
    read_next l _ b more s p = inl refl

    abbrev IsSome : Option (ℤ × Linkage S H) → Type 0
    IsSome none = ⊥
    IsSome (some r) = Unit

    -- After one round: by its next action.
    by_next :
        (f : ℕ) (t : Turned S H)
        → (is_idle t.next_action ≡ true) ⊎ IsSome (event_rounds io h f t.next_action t.linkage)
        → IsSome (elim (is_idle t.next_action) [
          | true ↦ some (t.ret, t.linkage)
          | false ↦ event_rounds io h f t.next_action t.linkage
        ])
    by_next f t (inl e) = rw e tt
    by_next f t (inr p) = by_test (is_idle t.next_action)
      where
        by_test :
            (b : Bool)
            → IsSome (elim b [
              | true ↦ some (t.ret, t.linkage)
              | false ↦ event_rounds io h f t.next_action t.linkage
            ])
        by_test true = tt
        by_test false = p

    shutdown_ends : (f : ℕ) (l : Linkage S H) → IsSome (event_rounds io h (suc f) shutdown l)
    unfolding event_rounds on_event_once
    shutdown_ends f l = by_next f (after_shut io h (shut io h bug l.conn) l) (inl (shutdown_next l))

    shutdown_from :
        (f : ℕ) (a : Action) (l : Linkage S H)
        → 0 < f
        → a ≡ shutdown
        → IsSome (event_rounds io h f a l)
    shutdown_from zero a l p e = absurd (omega arith)
    shutdown_from (suc f) a l p e = rw e (shutdown_ends f l)

    read_ends :
        (f : ℕ) (l : Linkage S H) → pending l.conn.io + 1 < f → IsSome (event_rounds io h f read l)
    unfolding event_rounds on_event_once
    read_ends zero l p = absurd (omega arith)
    read_ends (suc f) l p =
        by_read (after_read io h (io.do_read l.conn.io) l)
          (read_next l (io.do_read l.conn.io).0.status (io.do_read l.conn.io).0.bytes
            (io.do_read l.conn.io).0.more (io.do_read l.conn.io).1 (drains.read_drains l.conn.io))
          (λ l'. read_ends f l')
      where
        by_read :
            (o : Option (Turned S H))
            → Hands (pending l.conn.io) o
            → ((l' : Linkage S H)
                → pending l'.conn.io + 1 < f
                → IsSome (event_rounds io h f read l'))
            → IsSome (
                o >>= λ t. elim (is_idle t.next_action) [
                  | true ↦ some (t.ret, t.linkage)
                  | false ↦ event_rounds io h f t.next_action t.linkage
                ])
        by_read none e ih = absurd e
        by_read (some t) (inl e) ih = by_next f t (inl e)
        by_read (some t) (inr (inl e)) ih =
            by_next f t (inr (shutdown_from f t.next_action t.linkage (omega arith) e))
        by_read (some t) (inr (inr (e, q))) ih =
            by_next f t (inr (rw e (ih t.linkage (omega arith))))

    write_ends : (f : ℕ) (l : Linkage S H) → 1 < f → IsSome (event_rounds io h f write l)
    unfolding event_rounds on_event_once
    write_ends zero l p = absurd (omega arith)
    write_ends (suc f) l p = by_next f (written io h l) (by_written (written_next l))
      where
        by_written :
            (is_idle (written io h l).next_action ≡ true)
              ⊎ ((written io h l).next_action ≡ shutdown)
            → (is_idle (written io h l).next_action ≡ true)
              ⊎ IsSome (event_rounds io h f (written io h l).next_action (written io h l).linkage)
        by_written (inl e) = inl e
        by_written (inr e) = inr (shutdown_from f _ _ (omega arith) e)

    rounds_end :
        (f : ℕ) (a : Action) (l : Linkage S H)
        → pending l.conn.io + 2 < f
        → IsSome (event_rounds io h f a l)
    unfolding event_rounds on_event_once
    rounds_end zero a l p = absurd (omega arith)
    rounds_end (suc f) read l p = read_ends (suc f) l (omega arith)
    rounds_end (suc f) write l p = write_ends (suc f) l (omega arith)
    rounds_end (suc f) accept l p =
        by_next f (after_handshake io h accept (io.do_accept l.conn.io) l)
          (inl (handshake_next accept _ l))
    rounds_end (suc f) connect l p =
        by_next f (after_handshake io h connect (io.do_connect l.conn.io) l)
          (inl (handshake_next connect _ l))
    rounds_end (suc f) shutdown l p = shutdown_ends f l
    rounds_end (suc f) idle l p =
        by_next f (finish idle bug l) (inl (unfold finish is_idle in refl))

    -- OnEvent() returns: where every read that asks for another one lowers the number of reads
    -- that are still to be asked for, and no OnMessage() raises it, three rounds more than that
    -- number are enough.
    pub on_event_ends :
        (f : ℕ) (a : Action) (l : Linkage S H)
        → pending l.conn.io + 2 < f
        → (r : ℤ × Linkage S H) × (on_event io h f a l ≡ some r)
    unfolding on_event
    on_event_ends f a l p =
        by_rounds _ (rounds_end f (if is_idle l.conn.action then a else l.conn.action) l p)
      where
        by_rounds :
            (o : Option (ℤ × Linkage S H))
            → IsSome o
            → (r : ℤ × Linkage S H) × ((o >>= λ r. some (watch io h r)) ≡ some r)
        by_rounds none e = absurd e
        by_rounds (some r) e = (watch io h r, refl)
