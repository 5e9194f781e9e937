-- ===== src/ObjectMap/Sharing.antt =====
-- Whom the objects of an ObjectMap belong to, in any order of the threads' calls.
use flinter.Base.{
  refl, ap, length, ◌-◌, Bool, ◌↔◌, ℕ, ◌+◌, ◌<◌, ◌≤◌, ◌≡◌, sym, ◌∙◌, true, ◌&&◌, ◌==◌,
  if◌then◌else◌, Option, none, some, List, [], ◌∷◌, length_zero, arith, Bool-cases, inl, inr,
}
use flinter.Base.Map.{find, IsSorted, total}
use flinter.ObjectMap.Accounts.{
  times, entries_with, IsAccounted, do_add-IsAccounted, get-IsAccounted, get_next-IsAccounted,
  release-IsAccounted, erase_key-IsAccounted, erase_all-IsAccounted, set_all-IsAccounted,
  entries-made,
}
use flinter.ObjectMap.Waking.{
  Grows, IsAwake, Grows-IsAwake, do_add-Grows, get-Grows, get_next-Grows, erase_key-Grows,
  erase_all-Grows, set_all-Grows, release-IsAwake, waiters_after, erase_all_wait-IsAwake,
  resume_wait-IsAwake,
}
use flinter.ObjectMap.{
  wait_dropped, erase_all_wait, resume_wait, Entries, ObjectMap, size_mod, add, get, erase_key,
  erase_all, may_return, release, get_next, set_all,
}
use flinter.ObjectMap.Totals.{refs_at, one_if, refs_of, entries_of, no_entries}
use flinter.ObjectMap.Steps.{Keeps, erase_key-Keeps, erase_all-Keeps, release-totals}
use flinter.ObjectMap.Waiting.{
  IsUsed, do_add-drop, get-drop, get_next-drop, release-IsUsed, erase_key-IsUsed, erase_all-IsUsed,
  set_all-IsUsed,
}
use flinter.ObjectMap.Taking.{AllNew, Takes, get-Takes, do_add-Takes, get_next-Takes, set_all-Holds}

-- How often a key and an object stand in a list.
unfoldable pub count : ℕ → ℕ → List (ℕ × ℕ) → ℕ
count k x [] = 0
count k x ((j, o) ∷ l) = one_if (j == k && o == x) + count k x l

unfoldable pub drop_one : ℕ → ℕ → List (ℕ × ℕ) → List (ℕ × ℕ)
drop_one k x [] = []
drop_one k x ((j, o) ∷ l) =
    let rest = drop_one k x l in if j == k && o == x then l else (j, o) ∷ rest

pub count-drop_one :
    (k x key o : ℕ) (l : List (ℕ × ℕ))
    → 0 < count key o l
    → count k x (drop_one key o l) + one_if (key == k && o == x) ≡ count k x l
unfolding count drop_one
count-drop_one k x key o [] h = absurd (omega arith)
count-drop_one k x key o ((j, p) ∷ l) h = elim (Bool-cases (j == key && p == o)) [
  | inl hit ↦ ground arith
  | inr miss ↦ ground (arith, count-drop_one k x key o l (ground arith))
]

-- The map, the objects that threads have, each with the key it was got by, and the number of threads that
-- wait in EraseAll().
pub record System : Type 0 where
  pub map : ObjectMap
  pub held : List (ℕ × ℕ)
  pub waiters : ℕ

-- A thread takes the mutex for one method. What Create() gives is no object that the map has; a
-- release is of an object that its thread has, by its key; fewer than 2^64 references are out. A thread in
-- EraseAll() sleeps and comes back to its test when it was woken, by WakeAll() or by the system.
pub data Step (s : System) : System → Type 0 where
  add_step :
      (key o : ℕ) (c : Option ℕ)
      → (add key c s.map).0 ≡ some o
      → count key o s.held + 1 < size_mod
      → (find key s.map.live ≡ none → entries_of key o s.map ≡ 0)
      → Step s (record { map = (add key c s.map).1; held = (key, o) ∷ s.held; waiters = s.waiters })
  get_step :
      (key o : ℕ)
      → (get key s.map).0 ≡ some o
      → count key o s.held + 1 < size_mod
      → Step s (record { map = (get key s.map).1; held = (key, o) ∷ s.held; waiters = s.waiters })
  next_step :
      (key o : ℕ)
      → (get_next s.map).0 ≡ some (key, o)
      → count key o s.held + 1 < size_mod
      → Step s (record { map = (get_next s.map).1; held = (key, o) ∷ s.held; waiters = s.waiters })
  release_step :
      (key o : ℕ)
      → 0 < count key o s.held
      → Step s
          (record { map = release key o s.map; held = drop_one key o s.held; waiters = s.waiters })
  erase_step :
      (key : ℕ) → Step s (record { map = erase_key key s.map; held = s.held; waiters = s.waiters })
  erase_all_step :
      (wait : Bool)
      → Step s (record {
        map = (erase_all_wait wait s.map).1;
        held = s.held;
        waiters = waiters_after (erase_all_wait wait s.map).0 s.waiters;
      })
  resume_step :
      0 < s.map.woken
      → Step s (record {
        map = (resume_wait s.map).1;
        held = s.held;
        waiters = waiters_after (resume_wait s.map).0 (s.waiters - 1);
      })
  stir_step :
      0 < s.map.sleeping
      → Step s (record {
        map = record s.map { sleeping = s.map.sleeping - 1; woken = s.map.woken + 1 };
        held = s.held;
        waiters = s.waiters;
      })
  set_all_step :
      (keys : List (ℕ × Option ℕ))
      → AllNew keys s.map
      → Step s (record { map = set_all keys s.map; held = s.held; waiters = s.waiters })

pub data Reach : System → Type 0 where
  start : Reach (record {
    map = record {
      live = [];
      drop = [];
      ptr = none;
      made = [];
      destroyed = [];
      sleeping = 0;
      woken = 0;
    };
    held = [];
    waiters = 0;
  })
  after : {s t : System} → Reach s → Step s t → Reach t

-- The keys ascend, the counts are the holders', none has an object twice under one key, no object is lost or
-- destroyed twice, and no sleeping thread is forgotten.
record Counts (s : System) : Type 0 where
  sorted : IsSorted s.map.live
  refs : (k x : ℕ) → refs_of k x s.map ≡ count k x s.held
  single : (k x : ℕ) → entries_of k x s.map ≤ 1
  room : (k x : ℕ) → count k x s.held < size_mod
  used : IsUsed s.map.drop
  accounted : IsAccounted s.map
  waiting : IsAwake s.waiters s.map

one_lt :
    (k x key o : ℕ) (l : List (ℕ × ℕ))
    → count key o l + 1 < size_mod
    → count k x l < size_mod
    → one_if (key == k && o == x) + count k x l < size_mod
one_lt k x key o l h b = ground arith

taking-Counts :
    {s : System} {key o : ℕ} {m : ObjectMap}
    → Counts s
    → count key o s.held + 1 < size_mod
    → Takes key o s.map m
    → m.drop ≡ s.map.drop
    → IsAccounted m
    → Grows s.map m
    → Counts (record { map = m; held = (key, o) ∷ s.held; waiters = s.waiters })
unfolding count
taking-Counts {s = s} {key = key} {o = o} {m = m} inv bound (a, b, d) same acc grows = record {
  sorted = a;
  refs = λ k x. omega (arith, b k x, inv.refs k x);
  single = λ k x. d k x (inv.single k x);
  room = λ k x. one_lt k x key o s.held bound (inv.room k x);
  used = rw same inv.used;
  accounted = acc;
  waiting = Grows-IsAwake s.waiters s.map m grows inv.waiting;
}

-- A call that gives and takes no reference.
keeping-Counts :
    {s : System} {m : ObjectMap} {w : ℕ}
    → Counts s
    → Keeps s.map m
    → IsUsed m.drop
    → IsAccounted m
    → IsAwake w m
    → Counts (record { map = m; held = s.held; waiters = w })
keeping-Counts inv (a, b, d) used acc awake = record {
  sorted = a inv.sorted;
  refs = λ k x. b k x ∙ inv.refs k x;
  single = λ k x. omega (arith, d k x, inv.single k x);
  room = inv.room;
  used = used;
  accounted = acc;
  waiting = awake;
}

-- The test of the wait touches no entry.
waited-Counts :
    {held : List (ℕ × ℕ)} {m : ObjectMap} {w0 w : ℕ} (b : Bool)
    → Counts (record { map = m; held = held; waiters = w0 })
    → IsAwake w (wait_dropped b m).1
    → Counts (record { map = (wait_dropped b m).1; held = held; waiters = w })
unfolding wait_dropped refs_of entries_of entries_with
waited-Counts {m = m} b inv awake = elim (Bool-cases (may_return b m)) [
  | inl leaves ↦ simp leaves (record {
    sorted = inv.sorted;
    refs = inv.refs;
    single = inv.single;
    room = inv.room;
    used = inv.used;
    accounted = inv.accounted;
    waiting = (simp leaves at awake);
  })
  | inr sleeps ↦ simp sleeps (record {
    sorted = inv.sorted;
    refs = inv.refs;
    single = inv.single;
    room = inv.room;
    used = inv.used;
    accounted = inv.accounted;
    waiting = (simp sleeps at awake);
  })
]

erase_all-Counts :
    {s : System}
    → Counts s
    → Counts (record { map = erase_all s.map; held = s.held; waiters = s.waiters })
erase_all-Counts {s = s} inv =
    keeping-Counts inv (erase_all-Keeps s.map) (erase_all-IsUsed s.map inv.used)
      (erase_all-IsAccounted s.map inv.accounted)
      (Grows-IsAwake s.waiters s.map (erase_all s.map) (erase_all-Grows s.map) inv.waiting)

step-Counts : {s t : System} → Step s t → Counts s → Counts t
unfolding count add erase_all_wait resume_wait refs_of entries_of entries_with
step-Counts {s = s} (add_step key o c got bound new) inv =
    taking-Counts inv bound
      (do_add-Takes key o c s.map inv.sorted got (omega (arith, inv.refs key o)) new)
      (do_add-drop key 1 c s.map) (do_add-IsAccounted key 1 c s.map inv.sorted inv.accounted)
      (do_add-Grows key 1 c s.map)
step-Counts {s = s} (get_step key o got bound) inv =
    taking-Counts inv bound (get-Takes key o s.map inv.sorted got (omega (arith, inv.refs key o)))
      (get-drop key s.map) (get-IsAccounted key s.map inv.sorted inv.accounted)
      (get-Grows key s.map)
step-Counts {s = s} (next_step key o got bound) inv =
    taking-Counts inv bound
      (get_next-Takes key o s.map inv.sorted got (omega (arith, inv.refs key o)))
      (get_next-drop s.map) (get_next-IsAccounted s.map inv.sorted inv.accounted)
      (get_next-Grows s.map)
step-Counts {s = s} (release_step key o h) inv =
    let (a, b, d) =
      release-totals key o s.map inv.sorted (omega (arith, inv.refs key o)) (inv.single key o)
        (omega (arith, inv.refs key o, inv.room key o)) in
    record {
      sorted = a;
      refs = λ k x. omega (arith, b k x, inv.refs k x, count-drop_one k x key o s.held h);
      single = λ k x. omega (arith, d k x, inv.single k x);
      room = λ k x. omega (arith, count-drop_one k x key o s.held h, inv.room k x);
      used = release-IsUsed key o s.map inv.used;
      accounted = release-IsAccounted key o s.map inv.sorted inv.accounted;
      waiting = release-IsAwake s.waiters key o s.map inv.waiting;
    }
step-Counts {s = s} (erase_step key) inv =
    keeping-Counts inv (erase_key-Keeps key s.map) (erase_key-IsUsed key s.map inv.used)
      (erase_key-IsAccounted key s.map inv.accounted)
      (Grows-IsAwake s.waiters s.map (erase_key key s.map) (erase_key-Grows key s.map) inv.waiting)
step-Counts {s = s} (erase_all_step wait) inv =
    waited-Counts wait (erase_all-Counts inv)
      (erase_all_wait-IsAwake wait s.waiters s.map inv.waiting)
step-Counts {s = s} (resume_step h) inv =
    waited-Counts {w0 = s.waiters - 1} true
      (record {
        sorted = inv.sorted;
        refs = inv.refs;
        single = inv.single;
        room = inv.room;
        used = inv.used;
        accounted = inv.accounted;
        waiting = record {
          woken_up = inv.waiting.woken_up;
          all = omega (arith, inv.waiting.all, h);
        };
      })
      (resume_wait-IsAwake s.waiters s.map h inv.waiting)
step-Counts {s = s} (stir_step h) inv = record {
  sorted = inv.sorted;
  refs = inv.refs;
  single = inv.single;
  room = inv.room;
  used = inv.used;
  accounted = inv.accounted;
  waiting = record {
    woken_up = λ e. omega (arith, inv.waiting.woken_up e);
    all = omega (arith, inv.waiting.all, h);
  };
}
step-Counts {s = s} (set_all_step keys new) inv =
    let (a, b, d) = set_all-Holds keys s.map inv.sorted new in
    record {
      sorted = a;
      refs = λ k x. b k x ∙ inv.refs k x;
      single = d inv.single;
      room = inv.room;
      used = set_all-IsUsed keys s.map inv.used;
      accounted = set_all-IsAccounted keys s.map inv.sorted inv.accounted;
      waiting =
          Grows-IsAwake s.waiters s.map (set_all keys s.map) (set_all-Grows keys s.map) inv.waiting;
    }

Reach-Counts : {s : System} → Reach s → Counts s
unfolding count refs_of entries_of entries_with times total
Reach-Counts start = record {
  sorted = tt;
  refs = λ k x. omega arith;
  single = λ k x. omega arith;
  room = λ k x. omega arith;
  used = tt;
  accounted = λ x. refl;
  waiting = record { woken_up = λ e. refl; all = omega arith };
}
Reach-Counts (after r step) = step-Counts step (Reach-Counts r)

has_entry : (k x : ℕ) (m : ObjectMap) → 0 < refs_of k x m → 1 ≤ entries_of k x m
unfolding refs_of entries_of
has_entry k x m h = ground (arith, no_entries k x m.live, no_entries k x m.drop)

-- However the threads' calls of Add(), Get(), GetNext(), Release(), Erase(), EraseAll() and SetAll() come one after
-- another, the count of a key and an object is the number of holders; an object that is held has one entry, in
-- the map or among the dropped ones, and was destroyed less often than Create() gave it; and each time that
-- Create() gave an object, it has an entry or was destroyed once: none is lost, and none is destroyed that has an entry.
pub Reach-held :
    {s : System}
    → Reach s
    → (k x : ℕ)
    → (refs_of k x s.map ≡ count k x s.held)
      × (0 < count k x s.held
          → (entries_of k x s.map ≡ 1) × (times x s.map.destroyed < times x s.map.made))
      × (times x s.map.made ≡ entries_with x s.map + times x s.map.destroyed)
Reach-held {s = s} r k x =
    let inv = Reach-Counts r in
    (
      inv.refs k x,
      (λ h.
          let one = has_entry k x s.map (omega (arith, inv.refs k x)) in
          (
            omega (arith, one, inv.single k x),
            entries-made k x s.map inv.accounted (omega (arith, one)),
          )),
      inv.accounted x,
    )

pub none_held : (l : List (ℕ × ℕ)) → ((k x : ℕ) → count k x l ≡ 0) → l ≡ []
unfolding count
none_held [] e = refl
none_held ((k, x) ∷ l) e = absurd (ground (arith, e k x))

none_dropped : (l : Entries) → IsUsed l → ((k x : ℕ) → total (refs_at k x) l ≡ 0) → l ≡ []
unfolding total refs_at
none_dropped [] p e = refl
none_dropped ((j, v) ∷ l) (h, p) e = absurd (ground (arith, e j v.object))

only_dropped : (k x : ℕ) (m : ObjectMap) → m.live ≡ [] → refs_of k x m ≡ total (refs_at k x) m.drop
unfolding refs_of total
only_dropped k x m e = rw e (omega arith)

may_return_iff : (m : ObjectMap) → (may_return true m ≡ true) ↔ (length m.drop ≡ 0)
unfolding may_return
may_return_iff m = ground arith

pub Reach-may_return :
    {s : System}
    → Reach s
    → s.map.live ≡ []
    → ((may_return true s.map ≡ true) ↔ (s.held ≡ []))
      × (s.held ≡ [] → (s.map.woken ≡ s.waiters) × ((resume_wait s.map).0 ≡ true))
unfolding count total resume_wait wait_dropped
Reach-may_return {s = s} r empty =
    let inv = Reach-Counts r in
    let no_entry : s.held ≡ [] → s.map.drop ≡ [] = λ e.
      none_dropped s.map.drop inv.used
        (λ k x. sym (only_dropped k x s.map empty) ∙ inv.refs k x ∙ ap (count k x) e) in
    let returns : s.held ≡ [] → may_return true s.map ≡ true =
      λ e. (may_return_iff s.map).1 (ap length (no_entry e)) in
    (
      (
        (λ e. none_held s.held (λ k x.
            sym (inv.refs k x)
            ∙ only_dropped k x s.map empty
            ∙ ap (total (refs_at k x)) (length_zero s.map.drop ((may_return_iff s.map).0 e)))),
        returns,
      ),
      λ e. (
        omega (arith, inv.waiting.all, inv.waiting.woken_up (ap length (no_entry e))),
        leaves (record s.map { woken = s.map.woken - 1 }) (no_entry e),
      ),
    )
  where
    leaves : (m : ObjectMap) → m.drop ≡ [] → (wait_dropped true m).0 ≡ true
    leaves m e = simp ((may_return_iff m).1 (ap length e)) refl
