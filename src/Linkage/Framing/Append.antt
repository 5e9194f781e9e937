-- ===== src/Linkage/Framing/Append.antt =====
-- Delivery from a longer stream: fuel does not matter, and what a stream leaves behind goes on with
-- the bytes that come later.
use flinter.Base.{
  ℕ, zero, suc, ◌<◌, ◌≤◌, ◌≡◌, ◌≢◌, refl, sym, ◌∙◌, ap₂, some, Bytes, [], ◌∷◌, ◌++◌, length,
  length-append, length-drop, take-append, drop-append, take, drop, arith,
}
use flinter.Base.Int.{ℤ, pos, negsuc}
use flinter.Linkage.State.{Conn, LinkageHandler}
use flinter.Linkage.Framing.{
  frame, turn, turned, replied, stop, go, deliver_within, deliver, Delivery, IsFraming, is_invalid,
  is_unknown, is_short, is_whole, frame_cases, goes_on, hangs_up, fails, reply_cases,
}

module _ {S H : Type 0} (h : LinkageHandler S H) where
  -- One message, against the same stream with more bytes behind it.
  pub data TurnCase (b e : Bytes) (c : Conn S H) : Type 0 where
    advances :
        (n : ℕ) (c' : Conn S H)
        → turn h b c ≡ go (suc n) c'
        → turn h (b ++ e) c ≡ go (suc n) c'
        → suc n ≤ length b
        → TurnCase b e c
    waits : turn h b c ≡ stop (record { ret = pos 1; rest = b; conn = c }) → TurnCase b e c
    ends :
        (z : ℤ) (c' : Conn S H)
        → z ≢ pos 1
        → turn h b c ≡ stop (record { ret = z; rest = b; conn = c' })
        → turn h (b ++ e) c ≡ stop (record { ret = z; rest = b ++ e; conn = c' })
        → TurnCase b e c

  pub turn_whole :
      (b : Bytes) (c : Conn S H) (n : ℕ)
      → h.get_message_length c b ≡ pos (suc n)
      → suc n ≤ length b
      → turn h b c ≡ replied h (suc n) b (h.on_message (take (suc n) b) c)
  unfolding turn turned frame
  turn_whole b c n z l = ground arith

  turn_whole_append :
      (b e : Bytes) (c : Conn S H) (n : ℕ)
      → IsFraming h
      → h.get_message_length c b ≡ pos (suc n)
      → suc n ≤ length b
      → turn h (b ++ e) c ≡ replied h (suc n) (b ++ e) (h.on_message (take (suc n) b) c)
  turn_whole_append b e c n fr z l = rw (
    turn_whole (b ++ e) c n (fr.settled c c b e (rw z (cc)) ∙ z) (omega (arith, length-append b e)),
    take-append (suc n) b e l,
  )

  pub turn_cases : (b e : Bytes) (c : Conn S H) → IsFraming h → TurnCase b e c
  unfolding turn turned replied frame
  turn_cases b e c fr = elim (frame_cases (h.get_message_length c b) (length b)) [
    | is_invalid m z ↦ ends (negsuc 0) c (cc) (rw (z)) (rw (fr.settled c c b e (rw z (cc)), z))
    | is_unknown z ↦ waits (rw (z))
    | is_short n z l ↦ waits (rw z (ground arith))
    | is_whole n z l ↦ elim (reply_cases (h.on_message (take (suc n) b) c)) [
      | goes_on m c' r ↦
          advances n c' (turn_whole b c n z l ∙ rw r) (turn_whole_append b e c n fr z l ∙ rw r) l
      | hangs_up c' r ↦
          ends (pos 0) c' (cc) (turn_whole b c n z l ∙ rw r)
            (turn_whole_append b e c n fr z l ∙ rw r)
      | fails m c' r ↦
          ends (negsuc 0) c' (cc) (turn_whole b c n z l ∙ rw r)
            (turn_whole_append b e c n fr z l ∙ rw r)
    ]
  ]

  -- The verdict on a stream, and on that stream with more bytes behind it.
  pub data DeliverCase (b e : Bytes) (c : Conn S H) : Type 0 where
    drains :
        (rest : Bytes) (c' : Conn S H)
        → deliver h b c ≡ some (record { ret = pos 1; rest = rest; conn = c' })
        → deliver h (b ++ e) c ≡ deliver h (rest ++ e) c'
        → DeliverCase b e c
    breaks :
        (z : ℤ) (rest : Bytes) (c' : Conn S H)
        → z ≢ pos 1
        → deliver h b c ≡ some (record { ret = z; rest = rest; conn = c' })
        → deliver h (b ++ e) c ≡ some (record { ret = z; rest = rest ++ e; conn = c' })
        → DeliverCase b e c

  pub deliver_stop :
      (f : ℕ) (x : ℕ) (b : Bytes) (c : Conn S H) (d : Delivery S H)
      → turn h (x ∷ b) c ≡ stop d
      → deliver_within h (suc f) (x ∷ b) c ≡ some d
  unfolding deliver_within
  deliver_stop f x b c d e = rw (e, deliver_within)

  pub deliver_go :
      (f : ℕ) (x : ℕ) (b : Bytes) (c : Conn S H) (n : ℕ) (c' : Conn S H)
      → turn h (x ∷ b) c ≡ go n c'
      → deliver_within h (suc f) (x ∷ b) c ≡ deliver_within h f (drop n (x ∷ b)) c'
  unfolding deliver_within
  deliver_go f x b c n c' e = rw (e, deliver_within)

  pub deliver_fuel :
      (f g : ℕ) (b : Bytes) (c : Conn S H)
      → IsFraming h
      → length b < f
      → length b < g
      → deliver_within h f b c ≡ deliver_within h g b c
  deliver_fuel zero g b c fr p q = elim p [ ]
  deliver_fuel (suc f) zero b c fr p q = elim q [ ]
  deliver_fuel (suc f) (suc g) [] c fr p q = unfold deliver_within in refl
  deliver_fuel (suc f) (suc g) (x ∷ b) c fr p q = elim (turn_cases (x ∷ b) [] c fr) [
    | advances n c' t _ l ↦
        deliver_go f x b c (suc n) c' t
        ∙ deliver_fuel f g (drop (suc n) (x ∷ b)) c' fr (omega (arith, length-drop (suc n) (x ∷ b)))
            (omega (arith, length-drop (suc n) (x ∷ b)))
        ∙ sym (deliver_go g x b c (suc n) c' t)
    | waits t ↦ deliver_stop f x b c _ t ∙ sym (deliver_stop g x b c _ t)
    | ends z c' _ t _ ↦ deliver_stop f x b c _ t ∙ sym (deliver_stop g x b c _ t)
  ]

  -- One message, with the canonical fuel on both sides.
  pub deliver_message :
      (x : ℕ) (b : Bytes) (c : Conn S H) (n : ℕ) (c' : Conn S H)
      → IsFraming h
      → turn h (x ∷ b) c ≡ go (suc n) c'
      → deliver h (x ∷ b) c ≡ deliver h (drop (suc n) (x ∷ b)) c'
  deliver_message x b c n c' fr t =
      deliver_go _ x b c (suc n) c' t
      ∙ deliver_fuel _ _ (drop (suc n) (x ∷ b)) c' fr (omega (arith, length-drop (suc n) (x ∷ b)))
          (omega arith)

  deliver_advance :
      (x : ℕ) (b e : Bytes) (c : Conn S H) (n : ℕ) (c' : Conn S H)
      → IsFraming h
      → turn h (x ∷ b) c ≡ go (suc n) c'
      → turn h (x ∷ b ++ e) c ≡ go (suc n) c'
      → suc n ≤ length (x ∷ b)
      → DeliverCase (drop (suc n) (x ∷ b)) e c'
      → DeliverCase (x ∷ b) e c
  deliver_advance x b e c n c' fr t u l (drains rest c'' p q) =
      drains rest c'' (deliver_message x b c n c' fr t ∙ p)
        (deliver_message x (b ++ e) c n c' fr u ∙ rw (drop-append (suc n) (x ∷ b) e l) q)
  deliver_advance x b e c n c' fr t u l (breaks z rest c'' w p q) =
      breaks z rest c'' w (deliver_message x b c n c' fr t ∙ p)
        (deliver_message x (b ++ e) c n c' fr u ∙ rw (drop-append (suc n) (x ∷ b) e l) q)

  append_within :
      (f : ℕ) (b e : Bytes) (c : Conn S H) → IsFraming h → length b < f → DeliverCase b e c
  append_within zero b e c fr p = elim p [ ]
  append_within (suc f) [] e c fr p = drains [] c (unfold deliver_within in refl) refl
  append_within (suc f) (x ∷ b) e c fr p = elim (turn_cases (x ∷ b) e c fr) [
    | advances n c' t u l ↦ deliver_advance x b e c n c' fr t u l (
        append_within f (drop (suc n) (x ∷ b)) e c' fr (omega (arith, length-drop (suc n) (x ∷ b))))
    | waits t ↦ drains (x ∷ b) c (deliver_stop _ x b c _ t) refl
    | ends z c' w t u ↦
        breaks z (x ∷ b) c' w (deliver_stop _ x b c _ t) (deliver_stop _ x (b ++ e) c _ u)
  ]

  pub deliver_cases : (b e : Bytes) (c : Conn S H) → IsFraming h → DeliverCase b e c
  deliver_cases b e c fr = append_within (suc (length b)) b e c fr (omega arith)

  -- More bytes behind a stream whose verdict is known.
  pub deliver-append :
      (b e r : Bytes) (c c' : Conn S H)
      → IsFraming h
      → deliver h b c ≡ some (record { ret = pos 1; rest = r; conn = c' })
      → deliver h (b ++ e) c ≡ deliver h (r ++ e) c'
  deliver-append b e r c c' fr d = elim (deliver_cases b e c fr) [
    | drains r' c'' p q ↦ q ∙ ap₂ (λ x y. deliver h (x ++ e) y) (cc) (cc)
    | breaks z r' c'' w p q ↦ absurd (w (cc))
  ]

  pub deliver-append_broken :
      (b e r : Bytes) (c c' : Conn S H) (z : ℤ)
      → IsFraming h
      → z ≢ pos 1
      → deliver h b c ≡ some (record { ret = z; rest = r; conn = c' })
      → deliver h (b ++ e) c ≡ some (record { ret = z; rest = r ++ e; conn = c' })
  deliver-append_broken b e r c c' z fr w d = elim (deliver_cases b e c fr) [
    | drains r' c'' p q ↦ absurd (w (cc))
    | breaks z' r' c'' w' p q ↦ q ∙ ground (arith)
  ]
