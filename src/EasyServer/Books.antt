-- ===== src/EasyServer/Books.antt =====
-- What an EasyServer keeps over all its contexts.
use flinter.Base.{
  ℕ, ◌+◌, ◌%◌, ◌<◌, ◌≡◌, subst, ap, ◌==◌, if◌then◌else◌, List, arith, Bool-cases, inl, inr,
}
use native.Mathlib.Nat.{mod-lt}
use flinter.Base.Map.{total}
use flinter.EasyServer.{IoContext, EasyServer, word, top, thread_of, sub_one, set_context}
use flinter.EasyServer.Kept.{IsKept}
use flinter.EasyServer.Counts.{sum_to, sum_to-set, one_in, one_out, ins, outs}

pub record IsBooked (s : EasyServer) : Type 0 where
  pub threads : 0 < s.slots
  pub contexts : (t : ℕ) → t < s.slots → IsKept s.slots t (s.contexts t)
  pub in_sum : s.incoming ≡ sum_to s.slots (λ t. ins (s.contexts t))
  pub out_sum : s.outgoing ≡ sum_to s.slots (λ t. outs (s.contexts t))
  pub in_word : s.incoming < word
  pub out_word : s.outgoing < word
  pub limit : 0 < s.incoming → s.incoming < s.maximum

-- A change of one context, and of the counters by what it changes.
pub set_context-IsBooked :
    (t : ℕ) (ioc : IoContext) (i o : ℕ) (d : List ℕ) (s : EasyServer)
    → t < s.slots
    → IsKept s.slots t ioc
    → i + ins (s.contexts t) ≡ ins ioc + s.incoming
    → o + outs (s.contexts t) ≡ outs ioc + s.outgoing
    → i < word
    → o < word
    → (0 < i → i < s.maximum)
    → IsBooked s
    → IsBooked (set_context t ioc (record s { incoming = i; outgoing = o; deleted = d }))
unfolding set_context
set_context-IsBooked t ioc i o d s h k ei eo bi bo m b = record {
  threads = b.threads;
  contexts = λ u g. elim (Bool-cases (t == u)) [
    | inl same ↦ rw same (subst (λ x. IsKept s.slots x ioc) (ground arith) k)
    | inr other ↦ rw other (b.contexts u g)
  ];
  in_sum = omega (arith, sums ins, b.in_sum, ei);
  out_sum = omega (arith, sums outs, b.out_sum, eo);
  in_word = bi;
  out_word = bo;
  limit = m;
}
  where
    sums :
        (f : IoContext → ℕ)
        → sum_to s.slots (λ u. f (if t == u then ioc else s.contexts u)) + f (s.contexts t)
          ≡ f ioc + sum_to s.slots (λ u. f (s.contexts u))
    sums f = sum_to-set t ioc f s.contexts s.slots h

-- A change of one context that leaves the counts.
pub same-IsBooked :
    (t : ℕ) (ioc : IoContext) (d : List ℕ) (s : EasyServer)
    → t < s.slots
    → IsKept s.slots t ioc
    → ioc.linkages ≡ (s.contexts t).linkages
    → IsBooked s
    → IsBooked (set_context t ioc (record s { deleted = d }))
unfolding ins outs
same-IsBooked t ioc d s h k e b =
    set_context-IsBooked t ioc s.incoming s.outgoing d s h k (omega (arith, ap (total one_in) e))
      (omega (arith, ap (total one_out) e)) b.in_word b.out_word b.limit b

pub sub_one-suc : (n : ℕ) → n < word → sub_one (n + 1) ≡ n
unfolding sub_one
sub_one-suc n h = omega arith

pub word-small : (n : ℕ) → n < word → n % word ≡ n
word-small n h = omega arith

pub thread_of-bound : (slots c : ℕ) → 0 < slots → thread_of slots c < slots
unfolding thread_of
thread_of-bound slots c p = mod-lt (c % top) p

pub sub_one-pred : (n : ℕ) → n < word → 0 < n → sub_one n + 1 ≡ n
unfolding sub_one
sub_one-pred n h p = omega arith
