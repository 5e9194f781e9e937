-- ===== src/EasyServer/Jobs/Order.antt =====
-- The order in which job workers take what is appended for them, and how they end.
use flinter.Base.{
  ltb, ℕ, zero, suc, ◌<◌, ◌≤◌, ◌%◌, ◌≡◌, refl, subst, sym, ap, ◌∙◌, false, ◌==◌, if◌then◌else◌,
  Option, none, some, List, [], ◌∷◌, ◌++◌, arith, append_assoc, append-nil, Bool-cases, inl, inr,
}
use flinter.Base.Int.{pos, negsuc}
use native.Mathlib.Nat.{mod-eq_of_lt}
use flinter.EasyServer.Jobs.{
  JobQueues, append_job, get_global, get_own, get_job, dump_jobs, append_ends, shutdown_jobs, Call,
  step, run, sent, from_own, taken,
}

get_global-frame :
    (jobs : List (Option ℕ)) (q : JobQueues) (t : ℕ)
    → ((get_global jobs q).1.hashjobs t ≡ q.hashjobs t)
      × ((get_global jobs q).1.workers ≡ q.workers)
unfolding get_global
get_global-frame [] q t = (refl, refl)
get_global-frame (job ∷ rest) q t = (refl, refl)

get_own-workers :
    (lane : List (Option ℕ)) (id : ℕ) (q : JobQueues) → (get_own lane id q).1.workers ≡ q.workers
unfolding get_own
get_own-workers [] id q = (get_global-frame q.jobs q id).1
get_own-workers (job ∷ rest) id q = refl

-- A worker gets the front of its own queue, which loses it, and takes nothing of another's.
get_own-mine :
    (lane : List (Option ℕ)) (id : ℕ) (q : JobQueues)
    → q.hashjobs id ≡ lane
    → from_own lane (get_own lane id q).0 ++ (get_own lane id q).1.hashjobs id ≡ lane
unfolding get_own from_own
get_own-mine [] id q e = (get_global-frame q.jobs q id).0 ∙ e
get_own-mine (job ∷ rest) id q e = ap (λ x. job ∷ x) (ground arith)

get_own-other :
    (lane : List (Option ℕ)) (id t : ℕ) (q : JobQueues)
    → (id == t) ≡ false
    → (get_own lane id q).1.hashjobs t ≡ q.hashjobs t
unfolding get_own
get_own-other [] id t q n = (get_global-frame q.jobs q t).0
get_own-other (job ∷ rest) id t q n = rw n refl

get_job-mine :
    (id t : ℕ) (q : JobQueues)
    → id ≡ t
    → from_own (q.hashjobs t) (get_job t q).0 ++ (get_job id q).1.hashjobs t ≡ q.hashjobs t
unfolding get_job
get_job-mine id t q same =
    subst
      (λ u. from_own (q.hashjobs u) (get_job u q).0 ++ (get_job id q).1.hashjobs u ≡ q.hashjobs u)
      same (get_own-mine (q.hashjobs id) id q refl)

step-workers : (c : Call) (q : JobQueues) → (step c q).workers ≡ q.workers
unfolding step append_job get_job
step-workers (Call.append job (negsuc n)) q = refl
step-workers (Call.append job (pos hash)) q = refl
step-workers (Call.get id) q = get_own-workers (q.hashjobs id) id q

pub run-order :
    (t : ℕ) (cs : List Call) (q : JobQueues)
    → taken t cs q ++ (run cs q).hashjobs t ≡ q.hashjobs t ++ sent t q.workers cs
unfolding taken run sent step append_job get_job
run-order t [] q = sym (append-nil (q.hashjobs t))
run-order t (Call.append job (negsuc n) ∷ cs) q = run-order t cs (append_job job (negsuc n) q)
run-order t (Call.append job (pos hash) ∷ cs) q = elim (Bool-cases (hash % q.workers == t)) [
  | inl mine ↦
      let ih = run-order t cs (append_job job (pos hash) q) in
      rw mine ((rw mine at ih) ∙ append_assoc (q.hashjobs t) (job ∷ []) (sent t q.workers cs))
  | inr other ↦ let ih = run-order t cs (append_job job (pos hash) q) in rw other (rw other at ih)
]
run-order t (Call.get id ∷ cs) q =
    let q' = (get_job id q).1 in
    let ih = run-order t cs q' in
    let w = get_own-workers (q.hashjobs id) id q in
    elim (Bool-cases (id == t)) [
      | inl mine ↦
          let same : id ≡ t = ground arith in
          rw mine (
            append_assoc (from_own (q.hashjobs t) (get_job t q).0) (taken t cs q')
              ((run cs q').hashjobs t)
            ∙ ap (λ x. from_own (q.hashjobs t) (get_job t q).0 ++ x) (rw w at ih)
            ∙ sym (
                append_assoc (from_own (q.hashjobs t) (get_job t q).0) (q'.hashjobs t)
                  (sent t q.workers cs))
            ∙ ap (λ x. x ++ sent t q.workers cs) (get_job-mine id t q same))
      | inr other ↦ rw other ((rw (w, get_own-other (q.hashjobs id) id t q other) at ih))
    ]

append_ends-workers : (n : ℕ) (q : JobQueues) → (append_ends n q).workers ≡ q.workers
unfolding append_ends append_job
append_ends-workers zero q = refl
append_ends-workers (suc n) q = append_ends-workers n q

append_ends-lane :
    (n t : ℕ) (q : JobQueues)
    → n ≤ q.workers
    → (append_ends n q).hashjobs t ≡ (if ltb t n then q.hashjobs t ++ none ∷ [] else q.hashjobs t)
unfolding append_ends append_job
append_ends-lane zero t q h = ground arith
append_ends-lane (suc n) t q h =
    let at_n : n % (append_ends n q).workers ≡ n =
      rw (append_ends-workers n q) (mod-eq_of_lt (omega (arith, h))) in
    let ih = append_ends-lane n t q (omega (arith, h)) in
    rw at_n (elim (Bool-cases (n == t)) [
      | inl mine ↦ rw (mine, ih) (ground (arith, mine))
      | inr other ↦ rw (other, ih) (ground (arith, other))
    ])

-- Behind DoShutdown() each worker has NULL in its own queue, and nothing else.
shutdown-lane : (t : ℕ) (q : JobQueues) → t < q.workers → (shutdown_jobs q).hashjobs t ≡ none ∷ []
unfolding shutdown_jobs dump_jobs
shutdown-lane t q h = append_ends-lane q.workers t (dump_jobs q) (omega arith) ∙ ground (arith, h)

-- No call of worker `t`.
abbrev pub IsIdle : ℕ → List Call → Type 0
IsIdle t [] = Unit {0}
IsIdle t (Call.append job hash ∷ cs) = IsIdle t cs
IsIdle t (Call.get id ∷ cs) = ((id == t) ≡ false) × IsIdle t cs

taken-idle : (t : ℕ) (cs : List Call) (q : JobQueues) → IsIdle t cs → taken t cs q ≡ []
unfolding taken
taken-idle t [] q h = refl
taken-idle t (Call.append job hash ∷ cs) q h = taken-idle t cs _ h
taken-idle t (Call.get id ∷ cs) q (n, h) = rw n (taken-idle t cs _ h)

get_job-front :
    (t : ℕ) (job : Option ℕ) (rest : List (Option ℕ)) (q : JobQueues)
    → q.hashjobs t ≡ job ∷ rest
    → (get_job t q).0 ≡ some job
unfolding get_job get_own
get_job-front t job rest q e = rw (e, get_own) refl

-- Behind DoShutdown(), whatever is appended and whatever other workers take, the next GetJob() of each worker gives
-- NULL: the worker ends, and does not wait.
pub shutdown-ends :
    (t : ℕ) (cs : List Call) (q : JobQueues)
    → t < q.workers
    → IsIdle t cs
    → (get_job t (run cs (shutdown_jobs q))).0 ≡ some none
shutdown-ends t cs q h idle =
    let q' = shutdown_jobs q in
    let order = run-order t cs q' in
    get_job-front t none (sent t q'.workers cs) (run cs q')
      (rw (taken-idle t cs q' idle, shutdown-lane t q h) at order)
