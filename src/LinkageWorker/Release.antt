-- ===== src/LinkageWorker/Release.antt =====
-- OnHealthCheck() and the end of Run(), which release many clients.
use flinter.Base.{
  ℕ, ◌≡◌, refl, sym, ◌∙◌, ap, ◌≢◌, Bool, true, false, if◌then◌else◌, Option, none, some, List, [],
  ◌∷◌, arith, Bool-cases, inl, inr, ◌>>=◌,
}
use flinter.Base.Map.{
  find, erase, IsSorted, IsAbove, IsAbove-lower, IsSorted-tail, find_least, find-erase,
  find-erase_ne, IsSorted-erase,
}
use flinter.LinkageWorker.{
  Attached, Timer, LinkageWorker, release_client, release_all, health_drops, health_check,
  release_timers, release_timer, run_end,
}

find-health_drops :
    (keeps : ℕ → Bool) (j : ℕ) (events : List (ℕ × Attached))
    → IsSorted events
    → find j (health_drops keeps events) ≡ (find j events >>= λ c. if keeps j then none else some c)
unfolding find health_drops
find-health_drops keeps j [] p = refl
find-health_drops keeps j ((l, c) ∷ events) p =
    let ih = find-health_drops keeps j events (IsSorted-tail l events p) in
    elim (Bool-cases (keeps l)) [
      | inl kept ↦ rw (kept, health_drops) (ground (arith, ih, find_least l events p, kept))
      | inr drop ↦ rw (drop, health_drops) (ground (arith, ih, drop))
    ]

IsAbove-health_drops :
    (keeps : ℕ → Bool) (i : ℕ) (events : List (ℕ × Attached))
    → IsAbove i events
    → IsAbove i (health_drops keeps events)
unfolding health_drops
IsAbove-health_drops keeps i [] p = tt
IsAbove-health_drops keeps i ((l, c) ∷ events) (q, p) =
    ground (
      arith,
      IsAbove-health_drops keeps l events p,
      IsAbove-lower i l (health_drops keeps events) q,
    )

IsSorted-health_drops :
    (keeps : ℕ → Bool) (events : List (ℕ × Attached))
    → IsSorted events
    → IsSorted (health_drops keeps events)
unfolding health_drops
IsSorted-health_drops keeps [] p = tt
IsSorted-health_drops keeps ((l, c) ∷ events) p =
    ground
      (arith, IsAbove-health_drops keeps l events p, IsSorted-tail l (health_drops keeps events))

-- The clients that are yet to release are in the table.
abbrev pub Listed : List (ℕ × Attached) → LinkageWorker → Type 0
Listed clients k = (j : ℕ) (c : Attached) → find j clients ≡ some c → find j k.events ≡ some c

found-ne :
    (j l : ℕ) (c : Attached) (clients : List (ℕ × Attached))
    → IsAbove l clients
    → find j clients ≡ some c
    → j ≢ l
found-ne j l c clients p f = ground (arith, find_least l clients p)

Listed-tail :
    (l : ℕ) (c : Attached) (clients : List (ℕ × Attached)) (k : LinkageWorker)
    → IsAbove l clients
    → Listed ((l, c) ∷ clients) k
    → Listed clients (release_client l c true k)
unfolding find release_client
Listed-tail l c clients k p listed j d f =
    let ne = found-ne j l d clients p f in
    find-erase_ne j l k.events ne ∙ listed j d (ground (arith, ne, f))

Listed-head :
    (l : ℕ) (c : Attached) (clients : List (ℕ × Attached)) (k : LinkageWorker)
    → Listed ((l, c) ∷ clients) k
    → find l k.events ≡ some c
unfolding find
Listed-head l c clients k listed = listed l c (ground arith)

-- What the release of a client of the table keeps, the release of many keeps.
module _ (P : LinkageWorker → Type 0)
    (keeps_P : (l : ℕ) (c : Attached) (k : LinkageWorker)
      → find l k.events ≡ some c
      → P k
      → P (release_client l c true k)) where
  release_all-induct :
      (clients : List (ℕ × Attached)) (k : LinkageWorker)
      → IsSorted clients
      → Listed clients k
      → P k
      → P (release_all true clients k)
  unfolding release_all
  release_all-induct [] k p listed h = h
  release_all-induct ((l, c) ∷ clients) k p listed h =
      release_all-induct clients (release_client l c true k) (IsSorted-tail l clients p)
        (Listed-tail l c clients k p listed) (keeps_P l c k (Listed-head l c clients k listed) h)

  pub health_check-induct :
      (keeps : ℕ → Bool) (k : LinkageWorker) → IsSorted k.events → P k → P (health_check keeps k)
  unfolding health_check
  health_check-induct keeps k p h =
      release_all-induct (health_drops keeps k.events) k (IsSorted-health_drops keeps k.events p)
        (λ j c f. ground (arith, find-health_drops keeps j k.events p, f)) h

  pub release_table-induct :
      (k : LinkageWorker) → IsSorted k.events → P k → P (release_all true k.events k)
  release_table-induct k p h = release_all-induct k.events k p (λ j c f. f) h

-- What the release of some clients leaves of a client.
unfoldable left_by : Option Attached → Option Attached → Option Attached
left_by none e = e
left_by (some _) e = none

release_all-find :
    (j : ℕ) (clients : List (ℕ × Attached)) (k : LinkageWorker)
    → IsSorted clients
    → IsSorted k.events
    → find j (release_all true clients k).events ≡ left_by (find j clients) (find j k.events)
unfolding release_all release_client find left_by
release_all-find j [] k p q = refl
release_all-find j ((l, c) ∷ clients) k p q =
    let ih =
      release_all-find j clients (release_client l c true k) (IsSorted-tail l clients p)
        (IsSorted-erase l k.events q) in
    ih ∙ ground (arith, find-erase j l k.events q)

-- What OnHealthCheck() leaves of a client.
unfoldable pub outlives : Bool → Option Attached → Option Attached
outlives keeps none = none
outlives keeps (some c) = if keeps then some c else none

pub health_check-find :
    (keeps : ℕ → Bool) (j : ℕ) (k : LinkageWorker)
    → IsSorted k.events
    → find j (health_check keeps k).events ≡ outlives (keeps j) (find j k.events)
unfolding health_check outlives left_by
health_check-find keeps j k p =
    release_all-find j (health_drops keeps k.events) k (IsSorted-health_drops keeps k.events p) p
    ∙ ground (arith, find-health_drops keeps j k.events p)

-- But for the table, it is the same whether a client is taken out at once.
release_all-later :
    (clients e : List (ℕ × Attached)) (k k' : LinkageWorker)
    → record k { events = e } ≡ record k' { events = e }
    → record (release_all false clients k) { events = e }
      ≡ record (release_all true clients k') { events = e }
unfolding release_all release_client
release_all-later [] e k k' same = same
release_all-later ((l, c) ∷ clients) e k k' same =
    release_all-later clients e (release_client l c false k) (release_client l c true k')
      (ap (λ x. record (release_client l c false x) { events = e }) same)

release_all-empty :
    (clients : List (ℕ × Attached)) (k : LinkageWorker)
    → k.events ≡ clients
    → (release_all true clients k).events ≡ []
unfolding release_all release_client erase
release_all-empty [] k e = e
release_all-empty ((l, c) ∷ clients) k e =
    release_all-empty clients (release_client l c true k) (rw e (ground arith))

-- The timers do not look at the table.
release_timers-table :
    (ts : List (ℕ × Timer)) (k : LinkageWorker)
    → record (release_timers ts k) { events = []; timers = [] }
      ≡ record (release_timers ts (record k { events = [] })) { timers = [] }
unfolding release_timers release_timer
release_timers-table [] k = refl
release_timers-table ((p, t) ∷ ts) k = release_timers-table ts (release_timer p t false k)

-- The end of Run() releases the whole table and then the timers.
pub run_end-all :
    (k : LinkageWorker)
    → run_end k ≡ record (release_timers k.timers (release_all true k.events k)) { timers = [] }
unfolding run_end
run_end-all k =
    let all = release_all true k.events k in
    release_timers-table k.timers (release_all false k.events k)
    ∙ ap (λ x. record (release_timers k.timers x) { timers = [] })
        (release_all-later k.events [] k k refl
          ∙ ap (λ e. record all { events = e }) (sym (release_all-empty k.events k refl)))

-- What the timers and a release of a client keep, the end of Run() keeps.
module _ (P : LinkageWorker → Type 0)
    (keeps_P : (l : ℕ) (c : Attached) (k : LinkageWorker)
      → find l k.events ≡ some c
      → P k
      → P (release_client l c true k))
    (timers_P : (ts : List (ℕ × Timer)) (d : List ℕ) (k : LinkageWorker)
      → P k
      → P (record k { timers = ts; deleted = d })) where
  release_timers-induct :
      (ts : List (ℕ × Timer)) (k : LinkageWorker) → P k → P (release_timers ts k)
  unfolding release_timers release_timer
  release_timers-induct [] k h = h
  release_timers-induct ((p, t) ∷ ts) k h =
      release_timers-induct ts (release_timer p t false k) (timers_P _ _ k h)

  pub run_end-induct : (k : LinkageWorker) → IsSorted k.events → P k → P (run_end k)
  run_end-induct k p h =
      let all = release_all true k.events k in
      rw (run_end-all k) (
        timers_P [] _ _ (release_timers-induct k.timers all (release_table-induct P keeps_P k p h)))

pub run_end-empty : (k : LinkageWorker) → (run_end k).events ≡ []
unfolding run_end
run_end-empty k = refl
