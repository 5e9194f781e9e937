-- ===== src/AsyncRouter/Pending.antt =====
-- Every reference of an AsyncRouter's connections is that of one pending call.
use flinter.Base.{
  ℕ, ◌+◌, ◌<◌, ◌≡◌, refl, sym, ap, subst, ◌∙◌, ◌&&◌, ◌==◌, true, false, Option, none, some, List,
  [], ◌∷◌, arith, Bool-cases, Option-cases, inl, inr,
}
use flinter.Base.Int.{ℤ, pos}
use flinter.Base.Map.{find, IsSorted}
use flinter.ObjectMap.{
  ObjectMap, size_mod, add, get_next, release, erase_all, erase_all_wait, may_return,
}
use flinter.ObjectMap.Totals.{one_if, entries_of, refs_of}
use flinter.ObjectMap.Accounts.{times, entries_with}
use flinter.ObjectMap.Sharing.{
  System, Reach, count, drop_one, count-drop_one, Reach-held, Reach-may_return, none_held,
}
use flinter.ObjectMap.Sharing
use flinter.ObjectMap.Waking.{waiters_after}
use flinter.ObjectMap.Taking.{get_next-none, do_add-nothing, do_add_made}
use flinter.TimeoutPool.{Value, TimeoutPool, insert, take_out, check, deadline_of}
use flinter.TimeoutPool
use flinter.TimeoutPool.Weights.{
  weigh, stored_weight, push_some, insert-stored, take_out-stored, check-stored, clear-stored,
  take_out-deleted, insert-auto_release, take_out-auto_release, check-auto_release,
  clear-auto_release,
}
use flinter.TimeoutPool.Lookup.{lookup_laws}
use flinter.TimeoutPool.Ledger.{stored}
use flinter.AsyncRouter.{
  AsyncRouter, Track, create, update, on_timeout, destroy_tracks, expire, get, put, cleanup,
  shutdown, add_host, del_host, set_hosts,
}
use flinter.AsyncRouter.Calls.{has, pending, Step, Runs}

-- The map's holders are those of the pool's tracks, and `n` more of each key and context.
record Owes (n : ℕ → ℕ → ℕ) (tracks : ℕ → Track) (pool : List (ℕ × Value)) (m : ObjectMap)
    : Type 0 where
  held : List (ℕ × ℕ)
  reach : Reach (record { map = m; held = held; waiters = 0 })
  same : (k x : ℕ) → count k x held ≡ n k x + stored_weight (has tracks k x) pool

-- One that is owed is given back.
release-Owes :
    (n : ℕ → ℕ → ℕ) (tracks : ℕ → Track) (pool : List (ℕ × Value)) (m : ObjectMap) (key c : ℕ)
    → Owes (λ k x. n k x + one_if (key == k && c == x)) tracks pool m
    → Owes n tracks pool (release key c m)
release-Owes n tracks pool m key c o =
    let one : one_if (key == key && c == c) ≡ 1 = ground arith in
    let there : 0 < count key c o.held = omega (arith, o.same key c, one) in
    record {
      held = drop_one key c o.held;
      reach = Reach.after o.reach (Sharing.Step.release_step key c there);
      same = λ k x. omega (arith, o.same k x, count-drop_one k x key c o.held there);
    }

on_timeout-frame :
    (p : ℕ) (r : AsyncRouter)
    → ((on_timeout p r).tracks ≡ r.tracks)
      × ((on_timeout p r).clearing ≡ r.clearing)
      × ((on_timeout p r).timeout ≡ r.timeout)
unfolding on_timeout
on_timeout-frame p r = elim (Bool-cases r.clearing) [
  | inl e ↦ rw (e, on_timeout) (refl, refl, refl)
  | inr e ↦ rw (e, on_timeout) (refl, refl, refl)
]

-- The router's fields that the destructor of a track leaves alone.
destroy_tracks-frame :
    (l : List ℕ) (r : AsyncRouter)
    → ((destroy_tracks l r).tracks ≡ r.tracks)
      × ((destroy_tracks l r).clearing ≡ r.clearing)
      × ((destroy_tracks l r).timeout ≡ r.timeout)
unfolding destroy_tracks
destroy_tracks-frame [] r = (refl, refl, refl)
destroy_tracks-frame (p ∷ l) r =
    let (a, b, c) = destroy_tracks-frame l r in
    let (a', b', c') = on_timeout-frame p (destroy_tracks l r) in (a' ∙ a, b' ∙ b, c' ∙ c)

on_timeout-map :
    (p : ℕ) (r : AsyncRouter)
    → r.clearing ≡ false
    → (on_timeout p r).map ≡ release (r.tracks p).key (r.tracks p).context r.map
unfolding on_timeout
on_timeout-map p r e = rw (e, on_timeout)

has_lem :
    (tracks : ℕ → Track) (k x p : ℕ)
    → has tracks k x p ≡ one_if ((tracks p).key == k && (tracks p).context == x)
unfolding has
has_lem tracks k x p = refl

destroy_tracks-Owes :
    (n : ℕ → ℕ → ℕ) (l : List ℕ) (r : AsyncRouter)
    → r.clearing ≡ false
    → Owes (λ k x. n k x + weigh (has r.tracks k x) l) r.tracks r.timeout.pool r.map
    → Owes n r.tracks r.timeout.pool (destroy_tracks l r).map
unfolding destroy_tracks weigh
destroy_tracks-Owes n [] r e o = record {
  held = o.held;
  reach = o.reach;
  same = λ k x. omega (arith, o.same k x);
}
destroy_tracks-Owes n (p ∷ l) r e o =
    let (same_tracks, same_flag, _) = destroy_tracks-frame l r in
    let t = r.tracks p in
    let rest : Owes (λ k x. n k x + one_if (t.key == k && t.context == x)) r.tracks r.timeout.pool
        (destroy_tracks l r).map =
      destroy_tracks-Owes (λ k x. n k x + one_if (t.key == k && t.context == x)) l r e
        (record {
          held = o.held;
          reach = o.reach;
          same = λ k x. omega (arith, o.same k x, has_lem r.tracks k x p);
        }) in
    subst (Owes n r.tracks r.timeout.pool)
      (sym (
        on_timeout-map p (destroy_tracks l r) (same_flag ∙ e)
        ∙ ap (λ (ts : ℕ → Track). release (ts p).key (ts p).context (destroy_tracks l r).map)
            same_tracks))
      (release-Owes n r.tracks r.timeout.pool (destroy_tracks l r).map t.key t.context rest)

move-Owes :
    {n : ℕ → ℕ → ℕ} {tracks ts : ℕ → Track} {pool pl : List (ℕ × Value)} (m : ObjectMap)
    → ts ≡ tracks
    → pl ≡ pool
    → Owes n tracks pool m
    → Owes n ts pl m
move-Owes m e f o = rw (e, f) o

-- A router between two calls.
record IsSettled (r : AsyncRouter) : Type 0 where
  owes : Owes (λ k x. 0) r.tracks r.timeout.pool r.map
  sorted : IsSorted r.timeout.pool
  auto : r.timeout.auto_release ≡ true
  nothing_deleted : r.timeout.deleted ≡ []
  not_clearing : r.clearing ≡ false

-- The pool's method has run on a settled router, with `n` holders to come.
expire-IsSettled :
    (t : TimeoutPool) (r : AsyncRouter)
    → Owes (λ k x. weigh (has r.tracks k x) t.deleted) r.tracks t.pool r.map
    → IsSorted t.pool
    → t.auto_release ≡ true
    → r.clearing ≡ false
    → IsSettled (expire t r)
unfolding expire
expire-IsSettled t r o p auto e =
    let r' = record r { timeout = record t { deleted = [] } } in
    let (a, b, c) = destroy_tracks-frame t.deleted r' in
    record {
      owes = move-Owes _ a (ap (λ (t : TimeoutPool). t.pool) c) (
          destroy_tracks-Owes (λ k x. 0) t.deleted r' e
            (record { held = o.held; reach = o.reach; same = λ k x. omega (arith, o.same k x) }));
      sorted = rw c p;
      auto = rw c auto;
      nothing_deleted = rw c refl;
      not_clearing = b ∙ e;
    }

-- Put() of a call that is pending, and of none.
put-found :
    (seq p : ℕ) (r : AsyncRouter)
    → (take_out seq r.timeout).0 ≡ some p
    → put seq r ≡ (
      some (r.tracks p).task,
      record r {
        timeout = (take_out seq r.timeout).1;
        map = release (r.tracks p).key (r.tracks p).context r.map;
      },
    )
unfolding put
put-found seq p r e = rw (e, put)

put-none :
    (seq : ℕ) (r : AsyncRouter)
    → (take_out seq r.timeout).0 ≡ none
    → put seq r ≡ (none, record r { timeout = (take_out seq r.timeout).1 })
unfolding put
put-none seq r e = rw (e, put)

taken_weight :
    (g : ℕ → ℕ) (seq : ℕ) (t : TimeoutPool) {p : ℕ}
    → (take_out seq t).0 ≡ some p
    → stored_weight g (take_out seq t).1.pool + g p ≡ stored_weight g t.pool
unfolding push_some weigh
taken_weight g seq t e = omega (arith, (rw e at (take_out-stored g seq t [])))

missed_weight :
    (g : ℕ → ℕ) (seq : ℕ) (t : TimeoutPool)
    → (take_out seq t).0 ≡ none
    → stored_weight g (take_out seq t).1.pool ≡ stored_weight g t.pool
unfolding push_some weigh
missed_weight g seq t e = omega (arith, (rw e at (take_out-stored g seq t [])))

put-IsSettled : (seq : ℕ) (r : AsyncRouter) → IsSettled r → IsSettled (put seq r).1
put-IsSettled seq r s =
    let sorted = (lookup_laws seq seq 0 (pos 0) (pos 0) r.timeout s.sorted).5 in
    let auto = take_out-auto_release seq r.timeout ∙ s.auto in
    let clean = take_out-deleted seq r.timeout ∙ s.nothing_deleted in
    elim (Option-cases (take_out seq r.timeout).0) [
      | inl gone ↦ rw (put-none seq r gone) (record {
        owes = record {
          held = s.owes.held;
          reach = s.owes.reach;
          same = λ k x.
              omega (arith, s.owes.same k x, missed_weight (has r.tracks k x) seq r.timeout gone);
        };
        sorted = sorted;
        auto = auto;
        nothing_deleted = clean;
        not_clearing = s.not_clearing;
      })
      | inr (p, found) ↦ rw (put-found seq p r found) (record {
        owes =
            release-Owes (λ k x. 0) r.tracks (take_out seq r.timeout).1.pool r.map (r.tracks p).key
              (r.tracks p).context
              (record {
                held = s.owes.held;
                reach = s.owes.reach;
                same = λ k x. omega (
                  arith,
                  s.owes.same k x,
                  taken_weight (has r.tracks k x) seq r.timeout found,
                  has_lem r.tracks k x p,
                );
              });
        sorted = sorted;
        auto = auto;
        nothing_deleted = clean;
        not_clearing = s.not_clearing;
      })
    ]

cleanup-IsSettled : (now : ℤ) (r : AsyncRouter) → IsSettled r → IsSettled (cleanup now r)
unfolding cleanup weigh
cleanup-IsSettled now r s =
    expire-IsSettled (check now r.timeout) r
      (record {
        held = s.owes.held;
        reach = s.owes.reach;
        same = λ k x. omega (
          arith,
          s.owes.same k x,
          check-stored (has r.tracks k x) now r.timeout s.auto s.sorted,
          ap (weigh (has r.tracks k x)) s.nothing_deleted,
        );
      })
      (lookup_laws 0 0 0 (pos 0) now r.timeout s.sorted).6
      (check-auto_release now r.timeout ∙ s.auto) s.not_clearing

cleared-IsSettled :
    (r : AsyncRouter) → IsSettled r → IsSettled (expire (TimeoutPool.clear r.timeout) r)
unfolding weigh
cleared-IsSettled r s =
    let (kept, empty) = clear-auto_release r.timeout in
    expire-IsSettled (TimeoutPool.clear r.timeout) r
      (record {
        held = s.owes.held;
        reach = s.owes.reach;
        same = λ k x. omega (
          arith,
          s.owes.same k x,
          clear-stored (has r.tracks k x) r.timeout s.auto,
          ap (weigh (has r.tracks k x)) s.nothing_deleted,
        );
      })
      (rw empty tt) (kept ∙ s.auto) s.not_clearing

-- A new track where no pending one stands.
stored-update :
    (tracks : ℕ → Track) (p : ℕ) (t : Track) (k x : ℕ) (pool : List (ℕ × Value))
    → stored p pool ≡ 0
    → stored_weight (has (update tracks p t) k x) pool ≡ stored_weight (has tracks k x) pool
unfolding stored stored_weight has
stored-update tracks p t k x [] e = refl
stored-update tracks p t k x ((j, v) ∷ pool) e = ground (arith, stored-update tracks p t k x pool)

has-update :
    (tracks : ℕ → Track) (p : ℕ) (t : Track) (k x : ℕ)
    → has (update tracks p t) k x p ≡ one_if (t.key == k && t.context == x)
unfolding has
has-update tracks p t k x = ground arith

get-none :
    (seq task : ℕ) (timeout now : ℤ) (p : ℕ) (r : AsyncRouter)
    → (get_next r.map).0 ≡ none
    → get seq task timeout now p r ≡ (none, r)
unfolding get
get-none seq task timeout now p r e = rw (e, get, get_next-none r.map e)

get-found :
    (seq task : ℕ) (timeout now : ℤ) (p : ℕ) (r : AsyncRouter) (key c : ℕ)
    → (get_next r.map).0 ≡ some (key, c)
    → get seq task timeout now p r ≡ (
      some c,
      expire (insert seq p timeout now r.timeout) (record r {
        map = (get_next r.map).1;
        tracks = update r.tracks p (record { seq = seq; task = task; key = key; context = c });
      }),
    )
unfolding get
get-found seq task timeout now p r key c e = rw (e, get)

get-IsSettled :
    (seq task : ℕ) (timeout now : ℤ) (p : ℕ) (r : AsyncRouter)
    → stored p r.timeout.pool ≡ 0
    → ((k x : ℕ) → pending k x r + 1 < size_mod)
    → IsSettled r
    → IsSettled (get seq task timeout now p r).1
unfolding pending weigh count
get-IsSettled seq task timeout now p r fresh bound s = elim (Option-cases (get_next r.map).0) [
  | inl gone ↦ rw (get-none seq task timeout now p r gone) s
  | inr ((key, c), found) ↦
      let t : Track = record { seq = seq; task = task; key = key; context = c } in
      rw (get-found seq task timeout now p r key c found) (
        expire-IsSettled (insert seq p timeout now r.timeout)
          (record r { map = (get_next r.map).1; tracks = update r.tracks p t })
          (record {
            held = (key, c) ∷ s.owes.held;
            reach = Reach.after s.owes.reach (
                Sharing.Step.next_step key c found (omega (arith, s.owes.same key c, bound key c)));
            same = λ k x. omega (
              arith,
              ap (weigh (has (update r.tracks p t) k x)) s.nothing_deleted,
              s.owes.same k x,
              insert-stored (has (update r.tracks p t) k x) seq p timeout now r.timeout s.auto
                  s.sorted,
              has-update r.tracks p t k x,
              stored-update r.tracks p t k x r.timeout.pool fresh,
            );
          })
          (lookup_laws seq seq p timeout now r.timeout s.sorted).4
          (insert-auto_release seq p timeout now r.timeout ∙ s.auto) s.not_clearing)
]

add_host-none :
    (host : ℕ) (c : Option ℕ) (r : AsyncRouter)
    → (add host c r.map).0 ≡ none
    → add_host host c r ≡ r
unfolding add_host add
add_host-none host c r e = rw (e, add_host, do_add-nothing host c r.map e)

add_host-some :
    (host o : ℕ) (c : Option ℕ) (r : AsyncRouter)
    → (add host c r.map).0 ≡ some o
    → add_host host c r ≡ record r { map = release host o (add host c r.map).1 }
unfolding add_host
add_host-some host o c r e = rw (e, add_host)

add_host-IsSettled :
    (host : ℕ) (c : Option ℕ) (r : AsyncRouter)
    → ((o : ℕ) → find host r.map.live ≡ none → c ≡ some o → entries_of host o r.map ≡ 0)
    → ((k x : ℕ) → pending k x r + 1 < size_mod)
    → IsSettled r
    → IsSettled (add_host host c r)
unfolding pending count add
add_host-IsSettled host c r new bound s = elim (Option-cases (add host c r.map).0) [
  | inl gone ↦ rw (add_host-none host c r gone) s
  | inr (o, found) ↦ rw (add_host-some host o c r found) (record {
    owes =
        release-Owes (λ k x. 0) r.tracks r.timeout.pool (add host c r.map).1 host o
          (record {
            held = (host, o) ∷ s.owes.held;
            reach = Reach.after s.owes.reach (
                Sharing.Step.add_step host o c found
                  (omega (arith, s.owes.same host o, bound host o))
                  (λ gone. new o gone (do_add_made host o c r.map found gone)));
            same = λ k x. omega (arith, s.owes.same k x);
          });
    sorted = s.sorted;
    auto = s.auto;
    nothing_deleted = s.nothing_deleted;
    not_clearing = s.not_clearing;
  })
]

-- A change of the map that gives and takes no reference.
map-IsSettled :
    (m : ObjectMap) (r : AsyncRouter) (s : IsSettled r)
    → Reach (record { map = m; held = s.owes.held; waiters = 0 })
    → IsSettled (record r { map = m })
map-IsSettled m r s reach = record {
  owes = record { held = s.owes.held; reach = reach; same = s.owes.same };
  sorted = s.sorted;
  auto = s.auto;
  nothing_deleted = s.nothing_deleted;
  not_clearing = s.not_clearing;
}

step-IsSettled : {r r' : AsyncRouter} → Step r r' → IsSettled r → IsSettled r'
unfolding shutdown del_host set_hosts waiters_after erase_all_wait
step-IsSettled {r = r} (Step.get_step seq task timeout now p fresh bound) s =
    get-IsSettled seq task timeout now p r fresh bound s
step-IsSettled {r = r} (Step.put_step seq) s = put-IsSettled seq r s
step-IsSettled {r = r} (Step.cleanup_step now) s = cleanup-IsSettled now r s
step-IsSettled {r = r} Step.shutdown_step s =
    let s' = cleared-IsSettled r s in
    map-IsSettled _ (expire (TimeoutPool.clear r.timeout) r) s'
      (Reach.after s'.owes.reach (Sharing.Step.erase_all_step false))
step-IsSettled {r = r} (Step.add_step host c new bound) s = add_host-IsSettled host c r new bound s
step-IsSettled {r = r} (Step.del_step host) s =
    map-IsSettled _ r s (Reach.after s.owes.reach (Sharing.Step.erase_step host))
step-IsSettled {r = r} (Step.set_step hosts new) s =
    map-IsSettled _ r s (Reach.after s.owes.reach (Sharing.Step.set_all_step hosts new))

Runs-IsSettled : {d : ℤ} {r : AsyncRouter} → Runs d r → IsSettled r
unfolding create count stored_weight
Runs-IsSettled Runs.start = record {
  owes = record { held = []; reach = Reach.start; same = λ k x. omega arith };
  sorted = tt;
  auto = refl;
  nothing_deleted = refl;
  not_clearing = refl;
}
Runs-IsSettled (Runs.after r step) = step-IsSettled step (Runs-IsSettled r)

-- In every order of the calls, the references of a connection are those of the calls that are pending on it; a
-- connection with a pending call has one entry, in the map or among the dropped ones, and was destroyed less often than
-- it was created; and each time that it was created, it has an entry or was destroyed once: it is not destroyed
-- before the last of its calls has been answered or has timed out.
pub Runs-refs :
    {d : ℤ} {r : AsyncRouter}
    → Runs d r
    → (k x : ℕ)
    → (refs_of k x r.map ≡ pending k x r)
      × (0 < pending k x r
          → (entries_of k x r.map ≡ 1) × (times x r.map.destroyed < times x r.map.made))
      × (times x r.map.made ≡ entries_with x r.map + times x r.map.destroyed)
unfolding pending
Runs-refs {r = r} runs k x =
    let s = Runs-IsSettled runs in
    let (a, b, c) = Reach-held s.owes.reach k x in
    let e = s.owes.same k x in (a ∙ e ∙ omega arith, (λ h. b (omega (arith, e))), c)

expire-pool : (t : TimeoutPool) (r : AsyncRouter) → (expire t r).timeout.pool ≡ t.pool
unfolding expire
expire-pool t r =
    ap (λ (x : TimeoutPool). x.pool)
      (destroy_tracks-frame t.deleted (record r { timeout = record t { deleted = [] } })).2

erase_all-live : (m : ObjectMap) → (erase_all m).live ≡ []
unfolding erase_all
erase_all-live m = refl

-- In every order of the calls before, Shutdown() does not wait: behind the time-out of all pending calls, EraseAll()
-- finds nobody to wait for.
pub shutdown-may_return :
    {d : ℤ} {r : AsyncRouter} → Runs d r → may_return true (shutdown r).map ≡ true
unfolding shutdown stored_weight erase_all_wait
shutdown-may_return {r = r} runs =
    let r' = expire (TimeoutPool.clear r.timeout) r in
    let s = cleared-IsSettled r (Runs-IsSettled runs) in
    let empty = expire-pool (TimeoutPool.clear r.timeout) r ∙ (clear-auto_release r.timeout).1 in
    let nobody = none_held s.owes.held (λ k x. s.owes.same k x ∙ rw empty (omega arith)) in
    (Reach-may_return (Reach.after s.owes.reach (Sharing.Step.erase_all_step false))
        (erase_all-live r'.map)).0.1
      nobody
