-- ===== src/Linkage/Receive/Total.antt =====
-- OnReceived() always comes to an end, and what every callback keeps, it keeps.
use flinter.Base.{
  ℕ, zero, suc, ◌+◌, ◌-◌, ◌<◌, ◌≡◌, inl, inr, sym, Bool, true, false, ltb, leb, if◌then◌else◌, not,
  ◌&&◌, Option, none, some, Bytes, [], ◌∷◌, ◌++◌, length, length-drop, subst, take, drop, ◌>>=◌,
  arith, Bool-cases, ◌==◌,
}
use flinter.Base.Int.{ℤ, pos, negsuc}
use flinter.Linkage.State.{Conn, LinkageHandler, Receiver, Linkage, update_last_received}
use flinter.Linkage.Receive.{
  Round, leave, next, Outcome, round, rounds, process, measured, dispatch, do_received,
  received_direct, received_exact, received_behind, received_moved, received, keep_rest,
  drop_consumed, on_received,
}

module _ {S H : Type 0} (h : LinkageHandler S H) (P : Conn S H → Type 0)
    (keeps : (b : Bytes) (c : Conn S H) → P c → P (h.on_message b c).1) where
  -- A round that goes on takes at least one byte.
  abbrev RoundKeeps : Round S H → Type 0
  RoundKeeps (leave z rx c) = P c
  RoundKeeps (next n rx c) = (0 < n) × P c

  dispatch_keeps :
      (r : ℤ × Conn S H) (rx : Receiver) → 0 < rx.rlength → P r.1 → RoundKeeps (dispatch h r rx)
  unfolding dispatch
  dispatch_keeps (negsuc m, c) rx l p = p
  dispatch_keeps (pos zero, c) rx l p = p
  dispatch_keeps (pos (suc n), c) rx l p = (l, p)

  process_keeps :
      (b : Bytes) (rx : Receiver) (c : Conn S H)
      → 0 < rx.rlength
      → P c
      → RoundKeeps (process h b rx c)
  unfolding process
  process_keeps b rx c l p = elim (Bool-cases (ltb (length b) rx.rlength)) [
    | inl short ↦ rw short p
    | inr whole ↦ rw whole (
        dispatch_keeps (h.on_message (take rx.rlength b) c) (record rx { receive_jam = 0 }) l
          (keeps _ c p))
  ]

  measured_keeps :
      (z : ℤ) (b : Bytes) (rx : Receiver) (c : Conn S H) → P c → RoundKeeps (measured h z b rx c)
  unfolding measured
  measured_keeps (negsuc m) b rx c p = p
  measured_keeps (pos zero) b rx c p = p
  measured_keeps (pos (suc n)) b rx c p =
      process_keeps b (record rx { rlength = suc n }) c (omega arith) p

  round_keeps : (b : Bytes) (rx : Receiver) (c : Conn S H) → P c → RoundKeeps (round h b rx c)
  unfolding round
  round_keeps b rx c p = elim (Bool-cases (rx.rlength == 0)) [
    | inl fresh ↦ rw fresh (measured_keeps (h.get_message_length c b) b rx c p)
    | inr known ↦ rw known (process_keeps b rx c (ground arith) p)
  ]

  -- A loop that has come to its end, with `P`.
  abbrev Ends : Option (Outcome S H) → Type 0
  Ends none = ⊥
  Ends (some o) = P o.conn

  rounds_keeps :
      (f : ℕ) (b : Bytes) (k : ℕ) (rx : Receiver) (c : Conn S H)
      → length b < f
      → P c
      → Ends (rounds h f b k rx c)
  unfolding rounds
  rounds_keeps zero b k rx c l p = elim l [ ]
  rounds_keeps (suc f) [] k rx c l p = p
  rounds_keeps (suc f) (x ∷ b) k rx c l p =
      by_round (round h (x ∷ b) rx c) (round_keeps (x ∷ b) rx c p)
        (λ n k' rx' c'. rounds_keeps f (drop n (x ∷ b)) k' rx' c')
    where
      by_round :
          (r : Round S H)
          → RoundKeeps r
          → ((n k' : ℕ) (rx' : Receiver) (c' : Conn S H)
              → length (drop n (x ∷ b)) < f
              → P c'
              → Ends (rounds h f (drop n (x ∷ b)) k' rx' c'))
          → Ends (elim r [
            | leave ret rx' c' ↦ some (record { ret = ret; consumed = k; rx = rx'; conn = c' })
            | next n rx' c' ↦ rounds h f (drop n (x ∷ b)) (k + n) rx' c'
          ])
      by_round (leave z rx' c') q ih = q
      by_round (next n rx' c') q ih =
          ih n (k + n) rx' c' (omega (arith, q.0, length-drop n (x ∷ b))) q.1

  do_received_keeps : (b : Bytes) (rx : Receiver) (c : Conn S H) → P c → Ends (do_received h b rx c)
  unfolding do_received
  do_received_keeps b rx c = rounds_keeps (suc (length b)) b 0 rx c (omega arith)

  abbrev pub Returns : Option (ℤ × Linkage S H) → Type 0
  Returns none = ⊥
  Returns (some r) = P r.1.conn

  if_keeps :
      (t : Bool) (x y : Option (ℤ × Linkage S H))
      → Returns x
      → Returns y
      → Returns (if t then x else y)
  if_keeps true x y p q = p
  if_keeps false x y p q = q

  conn-keep_rest : (b : Bytes) (o : Outcome S H) → (keep_rest h b o).1.conn ≡ o.conn
  unfolding keep_rest
  conn-keep_rest b o = ground arith

  conn-drop_consumed : (o : Outcome S H) → (drop_consumed h o).1.conn ≡ o.conn
  unfolding drop_consumed
  conn-drop_consumed o = ground arith

  bind_keeps :
      (o : Option (Outcome S H)) (k : Outcome S H → Option (ℤ × Linkage S H))
      → Ends o
      → ((x : Outcome S H) → P x.conn → Returns (k x))
      → Returns (o >>= k)
  bind_keeps none k e f = absurd e
  bind_keeps (some o) k e f = f o e

  direct_keeps :
      (b : Bytes) (rx : Receiver) (c : Conn S H) → P c → Returns (received_direct h b rx c)
  unfolding received_direct
  direct_keeps b rx c p =
      bind_keeps (do_received h b rx c) (λ o. some (keep_rest h b o)) (do_received_keeps b rx c p)
        λ o q. subst P (sym (conn-keep_rest b o)) q

  behind_keeps :
      (b : Bytes) (last : ℕ) (o : Outcome S H) → P o.conn → Returns (received_behind h b last o)
  unfolding received_behind
  behind_keeps b last o p = by_ret o.ret
    where
      rest : Bytes
      rest = drop (o.consumed - last) b

      rx : Receiver
      rx = record o.rx { rbuffer = [] }

      by_ret :
          (z : ℤ)
          → Returns (elim z [
            | pos (suc _) ↦
                if length rest == 0
                then some (pos 1, record { rx = rx; conn = o.conn })
                else received_direct h rest rx o.conn
            | _ ↦ some (o.ret, record { rx = o.rx; conn = o.conn })
          ])
      by_ret (pos zero) = p
      by_ret (negsuc m) = p
      by_ret (pos (suc m)) = if_keeps (length rest == 0) _ _ p (direct_keeps rest rx o.conn p)

  exact_keeps : (b : Bytes) (rx : Receiver) (c : Conn S H) → P c → Returns (received_exact h b rx c)
  unfolding received_exact
  exact_keeps b rx c p =
      bind_keeps (do_received h (take rx.rlength filled) (record rx { rbuffer = filled }) c)
        (received_behind h b (length rx.rbuffer))
        (do_received_keeps (take rx.rlength filled) (record rx { rbuffer = filled }) c p)
        (behind_keeps b (length rx.rbuffer))
    where
      filled : Bytes
      filled = rx.rbuffer ++ take (rx.rlength - length rx.rbuffer) b

  moved_keeps : (b : Bytes) (rx : Receiver) (c : Conn S H) → P c → Returns (received_moved h b rx c)
  unfolding received_moved
  moved_keeps b rx c p =
      bind_keeps (do_received h moved (record rx { rbuffer = moved }) c)
        (λ o. some (drop_consumed h o))
        (do_received_keeps moved (record rx { rbuffer = moved }) c p)
        λ o q. subst P (sym (conn-drop_consumed o)) q
    where
      moved : Bytes
      moved = rx.rbuffer ++ b

  received_keeps : (b : Bytes) (rx : Receiver) (c : Conn S H) → P c → Returns (received h b rx c)
  unfolding received
  received_keeps b rx c p = if_keeps (length rx.rbuffer == 0) _ _ (direct_keeps b rx c p) (
      if_keeps (not (rx.rlength == 0) && leb rx.rlength (length rx.rbuffer + length b)) _ _
        (exact_keeps b rx c p) (moved_keeps b rx c p))

  -- OnReceived() returns, and what OnMessage() keeps of the connection still holds then.
  pub on_received-Returns :
      (b : Option Bytes) (l : Linkage S H) → P l.conn → Returns (on_received h b l)
  unfolding on_received update_last_received
  on_received-Returns none l p = p
  on_received-Returns (some b) l p = if_keeps (length b == 0) (some (pos 1, l)) _ p (
      if_keeps l.conn.graceful _ _ p
        (received_keeps b (update_last_received l.conn.now l.rx) l.conn p))
