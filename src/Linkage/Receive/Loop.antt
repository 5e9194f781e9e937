-- ===== src/Linkage/Receive/Loop.antt =====
-- The loop of DoReceived() against the cutting of the stream.
use flinter.Base.{
  ℕ, zero, suc, ◌+◌, ◌-◌, ◌<◌, ◌≤◌, ◌≡◌, ◌≢◌, ◌⊎◌, inl, inr, refl, sym, ◌∙◌, ap, true, false, ltb,
  Option, some, Bytes, [], ◌∷◌, append-nil, length, length-drop, drop-drop, subst, take, drop,
  arith, Bool-cases,
}
use flinter.Base.Int.{ℤ, pos, negsuc}
use flinter.Linkage.State.{Conn, LinkageHandler, Receiver, update_receive_jam}
use flinter.Linkage.Receive.{leave, next, Outcome, round, rounds, process, measured, dispatch}
use flinter.Linkage.Framing.{
  frame, turn, turned, replied, stop, go, deliver_within, deliver, IsFraming, is_invalid,
  is_unknown, is_short, is_whole, frame_cases, goes_on, hangs_up, fails, reply_cases,
}
use flinter.Linkage.Framing.Append.{deliver_message, deliver_stop, turn_whole}

module _ {S H : Type 0} (h : LinkageHandler S H) where
  -- The cached length is none, or the verdict of GetMessageLength() on these bytes.
  abbrev pub Cached : ℕ → Bytes → Type 0
  Cached n b = (n ≡ 0) ⊎ (((c : Conn S H) → h.get_message_length c b ≡ pos n) × (0 < n))

  -- One round against one message. `ptr` is what is left of the buffer.
  pub data RoundCase (ptr : Bytes) (rx : Receiver) (c : Conn S H) : Type 0 where
    advances :
        (n : ℕ) (rx' : Receiver) (c' : Conn S H)
        → round h ptr rx c ≡ next (suc n) rx' c'
        → turn h ptr c ≡ go (suc n) c'
        → suc n ≤ length ptr
        → rx'.rlength ≡ 0
        → rx'.rbuffer ≡ rx.rbuffer
        → (0 < rx.rlength → rx.rlength ≡ suc n)
        → RoundCase ptr rx c
    waits :
        (rx' : Receiver)
        → round h ptr rx c ≡ leave (pos 1) rx' c
        → turn h ptr c ≡ stop (record { ret = pos 1; rest = ptr; conn = c })
        → Cached rx'.rlength ptr
        → ((rx'.rlength ≡ 0) ⊎ (length ptr < rx'.rlength))
        → rx'.rbuffer ≡ rx.rbuffer
        → (0 < rx.rlength → length ptr < rx.rlength)
        → RoundCase ptr rx c
    ends :
        (z : ℤ) (rx' : Receiver) (c' : Conn S H)
        → z ≢ pos 1
        → (n : ℕ) × ((z ≡ pos 0) ⊎ (z ≡ negsuc n))
        → round h ptr rx c ≡ leave z rx' c'
        → turn h ptr c ≡ stop (record { ret = z; rest = ptr; conn = c' })
        → RoundCase ptr rx c

  round_known :
      (ptr : Bytes) (rx : Receiver) (c : Conn S H) (n : ℕ)
      → rx.rlength ≡ suc n
      → round h ptr rx c ≡ process h ptr rx c
  unfolding round
  round_known ptr rx c n e = ground arith

  process_cases :
      (ptr : Bytes) (rx : Receiver) (c : Conn S H) (n : ℕ)
      → IsFraming h
      → rx.rlength ≡ suc n
      → h.get_message_length c ptr ≡ pos (suc n)
      → (rx0 : Receiver) → rx0.rbuffer ≡ rx.rbuffer
      → (0 < rx0.rlength → rx0.rlength ≡ suc n)
      → round h ptr rx0 c ≡ process h ptr rx c
      → RoundCase ptr rx0 c
  unfolding process dispatch turn turned frame replied update_receive_jam
  process_cases ptr rx c n fr e z rx0 eb known same = elim (Bool-cases (ltb (length ptr) (suc n))) [
    | inl short ↦
        waits (update_receive_jam true c.now rx) (same ∙ ground arith) (ground arith)
          (inr ((λ c'. stable c'), ground arith)) (inr (ground arith)) (sym eb)
          (λ p. ground (arith, known p))
    | inr whole ↦ elim (reply_cases (h.on_message (take (suc n) ptr) c)) [
      | goes_on m c' r ↦
          advances n (record (update_receive_jam false c.now rx) { rlength = 0 }) c'
            (same ∙ ground arith) (turn_whole h ptr c n z (ground arith) ∙ rw r) (ground arith) refl
            (sym eb) known
      | hangs_up c' r ↦
          ends (pos 0) (update_receive_jam false c.now rx) c' (cc) (0, inl refl)
            (same ∙ ground arith) (turn_whole h ptr c n z (ground arith) ∙ rw r)
      | fails m c' r ↦
          ends (negsuc 0) (update_receive_jam false c.now rx) c' (cc) (0, inr refl)
            (same ∙ ground arith) (turn_whole h ptr c n z (ground arith) ∙ rw r)
    ]
  ]
    where
      stable : (c' : Conn S H) → h.get_message_length c' ptr ≡ pos rx.rlength
      stable c' = rw e (
          sym (ap (h.get_message_length c') (append-nil ptr))
          ∙ fr.settled c c' ptr [] (rw z (cc))
          ∙ z)

  round_fresh :
      (ptr : Bytes) (rx : Receiver) (c : Conn S H)
      → rx.rlength ≡ 0
      → round h ptr rx c ≡ measured h (h.get_message_length c ptr) ptr rx c
  unfolding round
  round_fresh ptr rx c e = ground arith

  pub round_cases :
      (ptr : Bytes) (rx : Receiver) (c : Conn S H)
      → IsFraming h
      → Cached rx.rlength ptr
      → RoundCase ptr rx c
  unfolding measured turn turned frame update_receive_jam
  round_cases ptr rx c fr (inr (z, p)) =
      let e : rx.rlength ≡ suc (rx.rlength - 1) = omega arith in
      process_cases ptr rx c (rx.rlength - 1) fr e (rw (← e) (z c)) rx refl (λ _. e)
        (round_known ptr rx c _ e)
  round_cases ptr rx c fr (inl e) = elim (frame_cases (h.get_message_length c ptr) (length ptr)) [
    | is_invalid m z ↦
        ends (negsuc 0) rx c (cc) (0, inr refl) (round_fresh ptr rx c e ∙ rw z) (rw z)
    | is_unknown z ↦
        waits (update_receive_jam true c.now rx) (round_fresh ptr rx c e ∙ rw z) (rw z) (inl e)
          (inl e) refl (λ p. absurd (omega arith))
    | is_short n z l ↦ sized n z
    | is_whole n z l ↦ sized n z
  ]
    where
      sized : (n : ℕ) → h.get_message_length c ptr ≡ pos (suc n) → RoundCase ptr rx c
      sized n z =
          process_cases ptr (record rx { rlength = suc n }) c n fr refl z rx refl
            (λ p. absurd (omega arith)) (round_fresh ptr rx c e ∙ rw z)

  -- The loop from any round on, against the delivery of what is left of the buffer.
  pub data LoopCase (k : ℕ) (ptr : Bytes) (rx : Receiver) (c : Conn S H) (r : Option (Outcome S H))
      : Type 0 where
    drained :
        (n : ℕ) (rx' : Receiver) (c' : Conn S H)
        → r ≡ some (record { ret = pos 1; consumed = k + n; rx = rx'; conn = c' })
        → deliver h ptr c ≡ some (record { ret = pos 1; rest = drop n ptr; conn = c' })
        → n ≤ length ptr
        → Cached rx'.rlength (drop n ptr)
        → ((rx'.rlength ≡ 0) ⊎ ((length (drop n ptr) < rx'.rlength)))
        → rx'.rbuffer ≡ rx.rbuffer
        → (0 < rx.rlength → length ptr ≡ rx.rlength → n ≡ length ptr)
        → LoopCase k ptr rx c r
    broken :
        (z : ℤ) (n : ℕ) (rx' : Receiver) (rest : Bytes) (c' : Conn S H)
        → z ≢ pos 1
        → (m : ℕ) × ((z ≡ pos 0) ⊎ (z ≡ negsuc m))
        → r ≡ some (record { ret = z; consumed = n; rx = rx'; conn = c' })
        → deliver h ptr c ≡ some (record { ret = z; rest = rest; conn = c' })
        → LoopCase k ptr rx c r

  rounds_leave :
      (f x : ℕ) (ptr : Bytes) (k : ℕ) (rx : Receiver) (c : Conn S H) (z : ℤ) (rx' : Receiver)
      (c' : Conn S H)
      → round h (x ∷ ptr) rx c ≡ leave z rx' c'
      → rounds h (suc f) (x ∷ ptr) k rx c
        ≡ some (record { ret = z; consumed = k; rx = rx'; conn = c' })
  unfolding rounds
  rounds_leave f x ptr k rx c z rx' c' e = rw (e, rounds)

  rounds_next :
      (f x : ℕ) (ptr : Bytes) (k : ℕ) (rx : Receiver) (c : Conn S H) (n : ℕ) (rx' : Receiver)
      (c' : Conn S H)
      → round h (x ∷ ptr) rx c ≡ next n rx' c'
      → rounds h (suc f) (x ∷ ptr) k rx c ≡ rounds h f (drop n (x ∷ ptr)) (k + n) rx' c'
  unfolding rounds
  rounds_next f x ptr k rx c n rx' c' e = rw (e, rounds)

  loop_advance :
      (x : ℕ) (ptr : Bytes) (k : ℕ) (rx : Receiver) (c : Conn S H) (n : ℕ) (rx' : Receiver)
      (c' : Conn S H) (r : Option (Outcome S H))
      → IsFraming h
      → turn h (x ∷ ptr) c ≡ go (suc n) c'
      → suc n ≤ length (x ∷ ptr)
      → rx'.rbuffer ≡ rx.rbuffer
      → (0 < rx.rlength → rx.rlength ≡ suc n)
      → LoopCase (k + suc n) (drop (suc n) (x ∷ ptr)) rx' c' r
      → LoopCase k (x ∷ ptr) rx c r
  loop_advance x ptr k rx c n rx' c' r fr t l eb known
        (drained m rx'' c'' e d lm cached short eb' whole) =
      drained (suc n + m) rx'' c''
        (e
          ∙ ap (λ j. some (record { ret = pos 1; consumed = j; rx = rx''; conn = c'' }))
              (omega arith))
        (deliver_message h x ptr c n c' fr t
          ∙ d
          ∙ ap (λ b. some (record { ret = pos 1; rest = b; conn = c'' })) shift)
        (omega (arith, length-drop (suc n) (x ∷ ptr))) (subst (Cached rx''.rlength) shift cached)
        (subst (λ b. (rx''.rlength ≡ 0) ⊎ (length b < rx''.rlength)) shift short) (eb' ∙ eb)
        (λ p q. omega (arith, known p, length-drop (suc n) (x ∷ ptr)))
    where
      shift : drop m (drop (suc n) (x ∷ ptr)) ≡ drop (suc n + m) (x ∷ ptr)
      shift = drop-drop (suc n) m (x ∷ ptr)
  loop_advance x ptr k rx c n rx' c' r fr t l eb known (broken z m rx'' rest c'' w sign e d) =
      broken z m rx'' rest c'' w sign e (deliver_message h x ptr c n c' fr t ∙ d)

  pending : {n : ℕ} → Cached n [] → (n ≡ 0) ⊎ (0 < n)
  pending (inl e) = inl e
  pending (inr (_, p)) = inr p

  pub rounds_cases :
      (f : ℕ) (ptr : Bytes) (k : ℕ) (rx : Receiver) (c : Conn S H)
      → IsFraming h
      → length ptr < f
      → Cached rx.rlength ptr
      → LoopCase k ptr rx c (rounds h f ptr k rx c)
  rounds_cases zero ptr k rx c fr p cached = elim p [ ]
  rounds_cases (suc f) [] k rx c fr p cached =
      drained 0 rx c
        (unfold rounds in
          ap (λ j. some (record { ret = pos 1; consumed = j; rx = rx; conn = c })) (omega arith))
        (unfold deliver_within in refl) (omega arith) cached (pending cached) refl (λ _ _. refl)
  rounds_cases (suc f) (x ∷ ptr) k rx c fr p cached = elim (round_cases (x ∷ ptr) rx c fr cached) [
    | advances n rx' c' e t l z eb known ↦
        subst (LoopCase k (x ∷ ptr) rx c) (sym (rounds_next f x ptr k rx c (suc n) rx' c' e)) (
          loop_advance x ptr k rx c n rx' c' _ fr t l eb known (
            rounds_cases f (drop (suc n) (x ∷ ptr)) (k + suc n) rx' c' fr
              (omega (arith, length-drop (suc n) (x ∷ ptr))) (inl z)))
    | waits rx' e t cached' short eb long ↦
        drained 0 rx' c
          (rounds_leave f x ptr k rx c (pos 1) rx' c e
            ∙ ap (λ j. some (record { ret = pos 1; consumed = j; rx = rx'; conn = c }))
                (omega arith))
          (deliver_stop h _ x ptr c _ t) (omega arith) cached' short eb
          (λ p q. absurd (omega (arith, long p)))
    | ends z rx' c' w sign e t ↦
        broken z k rx' (x ∷ ptr) c' w sign (rounds_leave f x ptr k rx c z rx' c' e)
          (deliver_stop h _ x ptr c _ t)
  ]
