-- ===== src/Linkage/Receive/Refines.antt =====
-- OnReceived() cuts the stream as it should, whichever of its three ways it takes.
use flinter.Base.{
  ℕ, zero, suc, ◌+◌, ◌-◌, ◌<◌, ◌≤◌, ◌≡◌, ◌≢◌, ◌⊎◌, inl, inr, refl, sym, ◌∙◌, ap, false, leb,
  if◌then◌else◌, Option, some, Bytes, [], ◌∷◌, ◌++◌, append_assoc, length, length-append,
  length-take, length_zero, drop_all, take_all, subst, take, drop, ◌>>=◌, arith, Bool-cases, ◌==◌,
  take-append-drop, not, ◌&&◌,
}
use flinter.Base.Int.{ℤ, pos, negsuc}
use flinter.Linkage.State.{Conn, LinkageHandler, Receiver, Linkage}
use flinter.Linkage.Receive.{
  Outcome, do_received, received_direct, received_exact, received_behind, received_moved, received,
  keep_rest, drop_consumed,
}
use flinter.Linkage.Framing.{deliver, deliver_within, IsFraming}
use flinter.Linkage.Framing.Append.{deliver-append, deliver-append_broken}
use flinter.Linkage.Receive.Loop.{Cached, LoopCase, drained, broken, rounds_cases}

module _ {S H : Type 0} (h : LinkageHandler S H) where
  -- Between two calls: a cached length is the one of the bytes kept, and these are too few for it.
  pub record IsPending (rx : Receiver) : Type 0 where
    pub cached : Cached h rx.rlength rx.rbuffer
    pub short : (rx.rlength ≡ 0) ⊎ (length rx.rbuffer < rx.rlength)

  -- A result on which the connection is given up.
  abbrev pub Sign : ℤ → Type 0
  Sign z = (m : ℕ) × ((z ≡ pos 0) ⊎ (z ≡ negsuc m))

  -- A result of OnReceived() against the delivery of the bytes kept and the new ones.
  pub data Refines (b : Bytes) (c : Conn S H) (r : Option (ℤ × Linkage S H)) : Type 0 where
    goes_on :
        (rx' : Receiver) (c' : Conn S H)
        → r ≡ some (pos 1, record { rx = rx'; conn = c' })
        → deliver h b c ≡ some (record { ret = pos 1; rest = rx'.rbuffer; conn = c' })
        → IsPending rx'
        → Refines b c r
    stops :
        (z : ℤ) (rx' : Receiver) (rest : Bytes) (c' : Conn S H)
        → z ≢ pos 1
        → Sign z
        → r ≡ some (z, record { rx = rx'; conn = c' })
        → deliver h b c ≡ some (record { ret = z; rest = rest; conn = c' })
        → Refines b c r

  extend : (fr : IsFraming h) (n : ℕ) (b d : Bytes) → Conn S H → Cached h n b → Cached h n (b ++ d)
  extend fr n b d c (inl e) = inl e
  extend fr n b d c (inr (z, p)) =
      inr ((λ c'. fr.settled c' c' b d (λ e. absurd (ground (arith, z c'))) ∙ z c'), p)

  -- One run of DoReceived(), as the three ways use it.
  data Run (b : Bytes) (rx : Receiver) (c : Conn S H) (r : Option (Outcome S H)) : Type 0 where
    ran :
        (n : ℕ) (rx' : Receiver) (c' : Conn S H)
        → r ≡ some (record { ret = pos 1; consumed = n; rx = rx'; conn = c' })
        → deliver h b c ≡ some (record { ret = pos 1; rest = drop n b; conn = c' })
        → n ≤ length b
        → IsPending (record rx' { rbuffer = drop n b })
        → rx'.rbuffer ≡ rx.rbuffer
        → (0 < rx.rlength → length b ≡ rx.rlength → n ≡ length b)
        → Run b rx c r
    failed :
        (z : ℤ) (n : ℕ) (rx' : Receiver) (rest : Bytes) (c' : Conn S H)
        → z ≢ pos 1
        → Sign z
        → r ≡ some (record { ret = z; consumed = n; rx = rx'; conn = c' })
        → deliver h b c ≡ some (record { ret = z; rest = rest; conn = c' })
        → Run b rx c r

  of_loop :
      (b : Bytes) (rx : Receiver) (c : Conn S H) (r : Option (Outcome S H))
      → LoopCase h 0 b rx c r
      → Run b rx c r
  of_loop b rx c r (drained n rx' c' e d l cached short eb whole) =
      ran n rx' c'
        (e
          ∙ ap (λ j. some (record { ret = pos 1; consumed = j; rx = rx'; conn = c' }))
              (omega arith))
        d l (record { cached = cached; short = short }) eb whole
  of_loop b rx c r (broken z n rx' rest c' w s e d) = failed z n rx' rest c' w s e d

  run :
      (b : Bytes) (rx : Receiver) (c : Conn S H)
      → IsFraming h
      → Cached h rx.rlength b
      → Run b rx c (do_received h b rx c)
  unfolding do_received
  run b rx c fr cached =
      of_loop b rx c _ (rounds_cases h (suc (length b)) b 0 rx c fr (omega arith) cached)

  drop_consumed_stop :
      (z : ℤ) (n : ℕ) (rx : Receiver) (c : Conn S H)
      → Sign z
      → drop_consumed h (record { ret = z; consumed = n; rx = rx; conn = c })
        ≡ (z, record { rx = rx; conn = c })
  unfolding drop_consumed
  drop_consumed_stop (pos zero) n rx c s = refl
  drop_consumed_stop (negsuc m) n rx c s = refl
  drop_consumed_stop (pos (suc m)) n rx c s = absurd (ground arith)

  keep_rest_stop :
      (b : Bytes) (z : ℤ) (n : ℕ) (rx : Receiver) (c : Conn S H)
      → Sign z
      → keep_rest h b (record { ret = z; consumed = n; rx = rx; conn = c })
        ≡ (z, record { rx = rx; conn = c })
  unfolding keep_rest
  keep_rest_stop b (pos zero) n rx c s = refl
  keep_rest_stop b (negsuc m) n rx c s = refl
  keep_rest_stop b (pos (suc m)) n rx c s = absurd (ground arith)

  -- `_rbuffer` held the buffer: what was consumed is dropped.
  drop_step :
      (b : Bytes) (c : Conn S H) (r : Option (Outcome S H)) (rx : Receiver)
      → rx.rbuffer ≡ b
      → Run b rx c r
      → Refines b c (r >>= λ o. some (drop_consumed h o))
  unfolding drop_consumed
  drop_step b c r rx eb (ran n rx' c' e d l pending eb' _) =
      goes_on (record rx' { rbuffer = drop n b }) c' (rw (e, eb', eb)) d pending
  drop_step b c r rx eb (failed z n rx' rest c' w s e d) =
      stops z rx' rest c' w s (rw e (ap some (drop_consumed_stop z n rx' c' s))) d

  -- `_rbuffer` was empty: it takes the rest of the buffer.
  keep_step :
      (b : Bytes) (c : Conn S H) (r : Option (Outcome S H)) (rx : Receiver)
      → rx.rbuffer ≡ []
      → Run b rx c r
      → Refines b c (r >>= λ o. some (keep_rest h b o))
  unfolding keep_rest
  keep_step b c r rx eb (ran n rx' c' e d l pending eb' _) =
      goes_on (record rx' { rbuffer = drop n b }) c'
        (rw e (ap (λ x. some (pos 1, record { rx = x; conn = c' })) (ground (arith, drop_all n b))))
        d pending
  keep_step b c r rx eb (failed z n rx' rest c' w s e d) =
      stops z rx' rest c' w s (rw e (ap some (keep_rest_stop b z n rx' c' s))) d

  pub transfer :
      {b b' : Bytes} {c c' : Conn S H} {r : Option (ℤ × Linkage S H)}
      → deliver h b c ≡ deliver h b' c'
      → Refines b' c' r
      → Refines b c r
  transfer e (goes_on rx' c'' p d q) = goes_on rx' c'' p (e ∙ d) q
  transfer e (stops z rx' rest c'' w s p d) = stops z rx' rest c'' w s p (e ∙ d)

  received_behind_stop :
      (b : Bytes) (last : ℕ) (z : ℤ) (n : ℕ) (rx : Receiver) (c : Conn S H)
      → Sign z
      → received_behind h b last (record { ret = z; consumed = n; rx = rx; conn = c })
        ≡ some (z, record { rx = rx; conn = c })
  unfolding received_behind
  received_behind_stop b last (pos zero) n rx c s = refl
  received_behind_stop b last (negsuc m) n rx c s = refl
  received_behind_stop b last (pos (suc m)) n rx c s = absurd (ground arith)

  direct_step :
      (b : Bytes) (rx : Receiver) (c : Conn S H)
      → IsFraming h
      → rx.rbuffer ≡ []
      → Cached h rx.rlength []
      → Refines b c (received_direct h b rx c)
  unfolding received_direct
  direct_step b rx c fr eb cached =
      keep_step b c _ rx eb (run b rx c fr (extend fr rx.rlength [] b c cached))

  rest_step :
      (rest : Bytes) (rx : Receiver) (c : Conn S H)
      → IsFraming h
      → rx.rbuffer ≡ []
      → IsPending rx
      → Refines rest c (
          if length rest == 0
          then some (pos 1, record { rx = rx; conn = c })
          else received_direct h rest rx c)
  rest_step [] rx c fr eb pending = goes_on rx c refl (unfold deliver_within in rw eb) pending
  rest_step (x ∷ rest) rx c fr eb pending =
      let some_left : (suc (length rest) == 0) ≡ false = ground arith in
      rw some_left
        (direct_step (x ∷ rest) rx c fr eb (subst (Cached h rx.rlength) eb pending.cached))

  -- Behind a message that filled `_rbuffer` up.
  behind_step :
      (filled rest buffer : Bytes) (last : ℕ) (rx : Receiver) (c : Conn S H)
      (o : Option (Outcome S H))
      → IsFraming h
      → drop (length filled - last) buffer ≡ rest
      → 0 < rx.rlength
      → length filled ≡ rx.rlength
      → Run filled rx c o
      → Refines (filled ++ rest) c (o >>= received_behind h buffer last)
  unfolding received_behind
  behind_step filled rest buffer last rx c o fr er p size (failed z n rx' r c' w s e d) =
      stops z rx' (r ++ rest) c' w s (rw e (received_behind_stop buffer last z n rx' c' s))
        (deliver-append_broken h filled rest r c c' z fr w d)
  behind_step filled rest buffer last rx c o fr er p size (ran n rx' c' e d l pending eb whole) =
      rw (e, whole p size, er)
        (transfer onward (
          rest_step rest (record rx' { rbuffer = [] }) c' fr refl
            (subst (λ b. IsPending (record rx' { rbuffer = b })) none_left pending)))
    where
      none_left : drop n filled ≡ []
      none_left = drop_all n filled (omega (arith, whole p size))

      onward : deliver h (filled ++ rest) c ≡ deliver h rest c'
      onward = deliver-append h filled rest [] c c' fr (rw none_left at d)

  exact_step :
      (buffer : Bytes) (rx : Receiver) (c : Conn S H)
      → IsFraming h
      → Cached h rx.rlength rx.rbuffer
      → 0 < rx.rlength
      → length rx.rbuffer < rx.rlength
      → rx.rlength ≤ length rx.rbuffer + length buffer
      → Refines (rx.rbuffer ++ buffer) c (received_exact h buffer rx c)
  unfolding received_exact
  exact_step buffer rx c fr cached p q r = rw whole (
      subst
        (λ b. Refines b c (
          do_received h filled (record rx { rbuffer = filled }) c
          >>= received_behind h buffer (length rx.rbuffer)))
        joined
        (behind_step filled (drop need buffer) buffer (length rx.rbuffer)
          (record rx { rbuffer = filled }) c _ fr (ap (λ n. drop n buffer) (omega (arith, size))) p
          size
          (run filled (record rx { rbuffer = filled }) c fr
            (extend fr rx.rlength rx.rbuffer front c cached))))
    where
      need : ℕ
      need = rx.rlength - length rx.rbuffer

      front : Bytes
      front = take need buffer

      filled : Bytes
      filled = rx.rbuffer ++ front

      size : length filled ≡ rx.rlength
      size = omega (arith, length-append rx.rbuffer front, length-take need buffer)

      whole : take rx.rlength filled ≡ filled
      whole = take_all rx.rlength filled (omega (arith, size))

      joined : filled ++ drop need buffer ≡ rx.rbuffer ++ buffer
      joined =
          append_assoc rx.rbuffer front (drop need buffer)
          ∙ ap (◌++◌ rx.rbuffer) (take-append-drop need buffer)

  -- Where GetMessageLength() stays with a length once it has given one, and a cached length is
  -- that of the bytes kept and more than these, OnReceived() behind its checks, by each of its
  -- three ways, returns and does what the plain parser does with the bytes kept and the new ones:
  -- the same result and the same state of the connection; if the result is 1, the bytes kept are
  -- the parser's rest, and the cached length is valid again.
  pub received-Refines :
      (buffer : Bytes) (rx : Receiver) (c : Conn S H)
      → IsFraming h
      → IsPending rx
      → Refines (rx.rbuffer ++ buffer) c (received h buffer rx c)
  unfolding received received_moved
  received-Refines buffer rx c fr pending = elim (Bool-cases (length rx.rbuffer == 0)) [
    | inl empty ↦ rw empty (
        let eb : rx.rbuffer ≡ [] = length_zero rx.rbuffer (ground arith) in
        subst (λ b. Refines (b ++ buffer) c (received_direct h buffer rx c)) (sym eb)
          (direct_step buffer rx c fr eb (subst (Cached h rx.rlength) eb pending.cached)))
    | inr kept ↦
        elim (Bool-cases
          (not (rx.rlength == 0) && leb rx.rlength (length rx.rbuffer + length buffer))) [
            | inl enough ↦
                rw (kept, enough)
                  (exact_step buffer rx c fr pending.cached (ground arith)
                    (ground (arith, pending.short)) (ground arith))
            | inr few ↦
                rw (kept, few)
                  (drop_step (rx.rbuffer ++ buffer) c _
                    (record rx { rbuffer = rx.rbuffer ++ buffer }) refl
                    (run (rx.rbuffer ++ buffer) (record rx { rbuffer = rx.rbuffer ++ buffer }) c fr
                      (extend fr rx.rlength rx.rbuffer buffer c pending.cached)))
          ]
  ]
