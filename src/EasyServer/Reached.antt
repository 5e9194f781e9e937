-- ===== src/EasyServer/Reached.antt =====
-- What holds of an EasyServer in every order of its calls.
use flinter.Base.{
  ℕ, zero, suc, ◌+◌, ◌-◌, ◌<◌, ◌≤◌, ◌≡◌, ◌≢◌, refl, subst, sym, ap, ◌∙◌, ◌&&◌, ◌||◌, not, Bool,
  ◌==◌, none, some, arith, Bool-cases, inl, inr,
}
use native.Mathlib.Nat.{mod-eq_of_lt}
use flinter.Base.Map.{find, total}
use flinter.EasyServer.{
  EasyServer, Outgoing, top, is_outgoing, thread_of, allocate_channel, release_channel,
}
use flinter.EasyServer.Calls.{new_server, Step, Reach}
use flinter.EasyServer.Kept.{
  IsKept, no_handler, has, next_number, allocate_channel-next, next_number-IsNew,
}
use flinter.EasyServer.Counts.{sum_to, ins, outs}
use flinter.EasyServer.Books.{IsBooked, thread_of-bound}
use flinter.EasyServer.Accepts.{accept_channel-IsBooked, connect_channel-IsBooked}
use flinter.EasyServer.Releases.{release_channel-IsBooked, forget-IsBooked}
use flinter.EasyServer.Reconnects.{send_channel-IsBooked, real_send-IsBooked}

within_limit : (i m : ℕ) → (0 < i → i < m) → i ≤ m - 1
within_limit zero m h = omega arith
within_limit (suc i) m h = omega (arith, h (omega arith))

some-server : {s s' : EasyServer} → some s ≡ some s' → s ≡ s'
some-server {s = s} e = ap (λ o. elim o [ none ↦ s | some x ↦ x ]) e

step-IsBooked : {s s' : EasyServer} → Step s s' → IsBooked s → IsBooked s'
step-IsBooked {s = s} (Step.accept_step t accepted l h b w) k =
    accept_channel-IsBooked t accepted l s h b w k
step-IsBooked {s = s} (Step.connect_step t x h b) k = connect_channel-IsBooked t x s h b k
step-IsBooked {s = s} (Step.release_step c l e f) k =
    let (s', (g, k')) = release_channel-IsBooked c l s e k in
    subst IsBooked (some-server (sym g ∙ f)) k'
step-IsBooked {s = s} (Step.forget_step c) k = forget-IsBooked c s k
step-IsBooked {s = s} (Step.send_step here c bytes made b) k =
    send_channel-IsBooked here c bytes made s b k
step-IsBooked {s = s} (Step.real_send_step c bytes made b) k = real_send-IsBooked c bytes made s b k

zeros : (n : ℕ) → sum_to n (λ t. 0) ≡ 0
unfolding sum_to
zeros zero = refl
zeros (suc n) = omega (arith, zeros n)

Reach-IsBooked :
    {slots maximum : ℕ} {s : EasyServer}
    → 0 < slots
    → slots < top
    → Reach slots maximum s
    → IsBooked s
unfolding new_server ins outs total find has
Reach-IsBooked {slots = slots} p q Reach.start = record {
  threads = p;
  contexts = λ t h. record {
    sorted_i = tt;
    sorted_h = tt;
    sorted_l = tt;
    kept = λ c. ground arith;
    outward = λ c. refl;
    bound = λ c i e. absurd (ground (arith, e));
    old_i = λ c g. refl;
    old_l = λ c g. refl;
    home_i = λ c g. refl;
    home_l = λ c g. refl;
    lane = mod-eq_of_lt h;
    small = omega arith;
  };
  in_sum = sym (zeros slots);
  out_sum = sym (zeros slots);
  in_word = omega arith;
  out_word = omega arith;
  limit = λ h. absurd (omega (arith, h));
}
Reach-IsBooked p q (Reach.after r step) = step-IsBooked step (Reach-IsBooked p q r)

-- With at least one thread and fewer than 2^63, in every order of the calls, the counters of incoming and
-- of outgoing connections are the numbers of their linkages in all the tables, and at most one connection fewer than the configured maximum is incoming.
pub Reach-counted :
    {slots maximum : ℕ} {s : EasyServer}
    → 0 < slots
    → slots < top
    → Reach slots maximum s
    → (s.incoming ≡ sum_to s.slots (λ t. ins (s.contexts t)))
      × ((s.outgoing ≡ sum_to s.slots (λ t. outs (s.contexts t))) × (s.incoming ≤ s.maximum - 1))
Reach-counted {s = s} p q r =
    let k = Reach-IsBooked p q r in
    (k.in_sum, (k.out_sum, within_limit s.incoming s.maximum k.limit))

-- With at least one thread and fewer than 2^63, in every order of the calls, a proxy handler is in the table
-- of a context if and only if its channel is an outgoing one that is not forgotten or that has a linkage.
pub Reach-handlers :
    {slots maximum : ℕ} {s : EasyServer}
    → 0 < slots
    → slots < top
    → Reach slots maximum s
    → (c : ℕ)
    → let ioc = s.contexts (thread_of s.slots c) in
      has (find c ioc.handlers)
      ≡ (is_outgoing c && (has (find c ioc.informations) || has (find c ioc.linkages)))
Reach-handlers {s = s} p q r c =
    let k = Reach-IsBooked p q r in
    (k.contexts (thread_of s.slots c) (thread_of-bound s.slots c k.threads)).kept c

-- With at least one thread and fewer than 2^63, in every order of the calls, ReleaseChannel() of a channel
-- that has a linkage succeeds: the proxy handler that it asserts is there.
pub Reach-releases :
    {slots maximum : ℕ} {s : EasyServer}
    → 0 < slots
    → slots < top
    → Reach slots maximum s
    → (c l : ℕ) → find c (s.contexts (thread_of s.slots c)).linkages ≡ some l
    → (s' : EasyServer) × ((release_channel c s ≡ some s') × Reach slots maximum s')
Reach-releases {s = s} p q r c l e =
    let (s', (g, k)) = release_channel-IsBooked c l s e (Reach-IsBooked p q r) in
    (s', (g, Reach.after r (Step.release_step c l e g)))

-- With at least one thread and fewer than 2^63, in every order of the calls before and where the numbers of the
-- context stay below 2^63, the number that a context gives next is one of its thread, outgoing if
-- and only if it is meant to be, and in none of the three tables of any context.
pub Reach-new_channel :
    {slots maximum : ℕ} {s : EasyServer}
    → 0 < slots
    → slots < top
    → Reach slots maximum s
    → (t : ℕ) (is_incoming : Bool) → t < s.slots
    → (s.contexts t).channel + s.slots < top
    → let c = (allocate_channel s.slots is_incoming (s.contexts t)).0 in
      (thread_of s.slots c ≡ t)
      × ((is_outgoing c ≡ not is_incoming)
          × ((u : ℕ)
              → u < s.slots
              → (find c (s.contexts u).linkages ≡ none)
                × ((find c (s.contexts u).informations ≡ none)
                    × (find c (s.contexts u).handlers ≡ none))))
Reach-new_channel {s = s} p q r t is_incoming h b =
    let k = Reach-IsBooked p q r in
    let ioc = s.contexts t in
    let c = next_number s.slots is_incoming ioc in
    let (m, (o, (thread, (no_i, no_l)))) =
      next_number-IsNew s.slots t is_incoming ioc (k.contexts t h) k.threads b in
    rw (allocate_channel-next s.slots is_incoming ioc b)
      (thread, (o, λ u g. in_none u g (k.contexts u g) (elsewhere u g thread no_l no_i)))
  where
    c : ℕ
    c = next_number s.slots is_incoming (s.contexts t)

    elsewhere :
        (u : ℕ)
        → u < s.slots
        → thread_of s.slots c ≡ t
        → find c (s.contexts t).linkages ≡ none
        → find c (s.contexts t).informations ≡ none
        → (find c (s.contexts u).linkages ≡ none) × (find c (s.contexts u).informations ≡ none)
    elsewhere u g thread no_l no_i = elim (Bool-cases (t == u)) [
      | inl same ↦
          subst
            (λ x.
              (find c (s.contexts x).linkages ≡ none) × (find c (s.contexts x).informations ≡ none))
            (ground arith) (no_l, no_i)
      | inr other ↦
          let away : thread_of s.slots c ≢ u = ground (arith, thread, other) in
          let k = (Reach-IsBooked p q r).contexts u g in (k.home_l c away, k.home_i c away)
    ]

    in_none :
        (u : ℕ)
        → u < s.slots
        → IsKept s.slots u (s.contexts u)
        → (find c (s.contexts u).linkages ≡ none) × (find c (s.contexts u).informations ≡ none)
        → (find c (s.contexts u).linkages ≡ none)
          × ((find c (s.contexts u).informations ≡ none) × (find c (s.contexts u).handlers ≡ none))
    in_none u g k (a, b) = (a, (b, no_handler s.slots u c (s.contexts u) k b a))

-- The thread that a known channel is bound to is the channel's.
pub Reach-bound :
    {slots maximum : ℕ} {s : EasyServer}
    → 0 < slots
    → slots < top
    → Reach slots maximum s
    → (c : ℕ) (info : Outgoing) → find c (s.contexts (thread_of s.slots c)).informations ≡ some info
    → info.thread_id ≡ thread_of s.slots c
Reach-bound {s = s} p q r c info e =
    let k = Reach-IsBooked p q r in
    (k.contexts (thread_of s.slots c) (thread_of-bound s.slots c k.threads)).bound c info e
