-- ===== src/ObjectMap/Waking.antt =====
-- The threads that sleep in EraseAll(), and what wakes them.
use flinter.Base.{
  ℕ, ◌+◌, ◌-◌, ◌<◌, ◌≤◌, ◌≡◌, refl, ◌∙◌, Bool, true, false, ◌==◌, if◌then◌else◌, Option, none, some,
  List, [], ◌∷◌, length, arith, Bool-cases, Option-cases, inl, inr,
}
use flinter.Base.Map.{find}
use flinter.ObjectMap.{
  Counted, Entries, ObjectMap, insert_multi, do_add, get, retire, erase_key, retire_loop, erase_all,
  may_return, wait_dropped, erase_all_wait, resume_wait, release_drop, wake_all, release_dropped,
  release, next_entry, get_next, add_missing, gone_keys, erase_keys, set_all,
}

-- Nothing is taken out of `_drop`, and nobody is put to sleep or woken.
pub record Grows (m m' : ObjectMap) : Type 0 where
  pub more : length m.drop ≤ length m'.drop
  pub asleep : m'.sleeping ≡ m.sleeping
  pub awake : m'.woken ≡ m.woken

Grows-same : (m : ObjectMap) → Grows m m
Grows-same m = record { more = omega arith; asleep = refl; awake = refl }

Grows-trans : (a b c : ObjectMap) → Grows a b → Grows b c → Grows a c
Grows-trans a b c g h = record {
  more = omega (arith, g.more, h.more);
  asleep = h.asleep ∙ g.asleep;
  awake = h.awake ∙ g.awake;
}

pub do_add-Grows : (k init : ℕ) (c : Option ℕ) (m : ObjectMap) → Grows m (do_add k init c m).1
unfolding do_add
do_add-Grows k init none m = elim (Option-cases (find k m.live)) [
  | inl gone ↦ rw (gone, do_add) (Grows-same m)
  | inr (v, found) ↦ rw (found, do_add) (record { more = omega arith; asleep = refl; awake = refl })
]
do_add-Grows k init (some o) m = elim (Option-cases (find k m.live)) [
  | inl gone ↦ rw (gone, do_add) (record { more = omega arith; asleep = refl; awake = refl })
  | inr (v, found) ↦ rw (found, do_add) (record { more = omega arith; asleep = refl; awake = refl })
]

pub get-Grows : (k : ℕ) (m : ObjectMap) → Grows m (get k m).1
unfolding get
get-Grows k m = elim (Option-cases (find k m.live)) [
  | inl gone ↦ rw (gone, get) (Grows-same m)
  | inr (v, found) ↦ rw (found, get) (record { more = omega arith; asleep = refl; awake = refl })
]

pub get_next-Grows : (m : ObjectMap) → Grows m (get_next m).1
unfolding get_next
get_next-Grows m = elim (Option-cases (next_entry m.ptr m.live)) [
  | inl gone ↦ rw (gone, get_next) (Grows-same m)
  | inr ((k, v), found) ↦
      rw (found, get_next) (record { more = omega arith; asleep = refl; awake = refl })
]

length-insert_multi :
    (k : ℕ) (v : Counted) (l : Entries) → length (insert_multi k v l) ≡ length l + 1
unfolding insert_multi
length-insert_multi k v [] = omega arith
length-insert_multi k v ((j, u) ∷ l) = ground (arith, length-insert_multi k v l)

retire-Grows : (k : ℕ) (v : Counted) (m : ObjectMap) → Grows m (retire k v m)
unfolding retire
retire-Grows k v m = elim (Bool-cases (v.refs == 0)) [
  | inl free ↦ rw free (record { more = omega arith; asleep = refl; awake = refl })
  | inr held ↦
      rw held (record {
        more = omega (arith, length-insert_multi k v m.drop);
        asleep = refl;
        awake = refl;
      })
]

retire_loop-Grows : (l : Entries) (m : ObjectMap) → Grows m (retire_loop l m)
unfolding retire_loop
retire_loop-Grows [] m = Grows-same m
retire_loop-Grows ((k, v) ∷ l) m =
    Grows-trans m (retire k v m) (retire_loop l (retire k v m)) (retire-Grows k v m)
      (retire_loop-Grows l (retire k v m))

pub erase_key-Grows : (k : ℕ) (m : ObjectMap) → Grows m (erase_key k m)
unfolding erase_key
erase_key-Grows k m = elim (Option-cases (find k m.live)) [
  | inl gone ↦ rw (gone, erase_key) (Grows-same m)
  | inr (v, found) ↦
      let g = retire-Grows k v m in
      rw (found, erase_key) (record { more = g.more; asleep = g.asleep; awake = g.awake })
]

pub erase_all-Grows : (m : ObjectMap) → Grows m (erase_all m)
unfolding erase_all
erase_all-Grows m =
    let g = retire_loop-Grows m.live m in
    record { more = g.more; asleep = g.asleep; awake = g.awake }

add_missing-Grows : (keys : List (ℕ × Option ℕ)) (m : ObjectMap) → Grows m (add_missing keys m)
unfolding add_missing
add_missing-Grows [] m = Grows-same m
add_missing-Grows ((k, c) ∷ keys) m = elim (Option-cases (find k m.live)) [
  | inl gone ↦
      rw (gone, add_missing)
        (Grows-trans m (do_add k 0 c m).1 _ (do_add-Grows k 0 c m)
          (add_missing-Grows keys (do_add k 0 c m).1))
  | inr (v, found) ↦ rw (found, add_missing) (add_missing-Grows keys m)
]

erase_keys-Grows : (keys : List ℕ) (m : ObjectMap) → Grows m (erase_keys keys m)
unfolding erase_keys
erase_keys-Grows [] m = Grows-same m
erase_keys-Grows (k ∷ keys) m =
    Grows-trans m (erase_key k m) _ (erase_key-Grows k m) (erase_keys-Grows keys (erase_key k m))

pub set_all-Grows : (keys : List (ℕ × Option ℕ)) (m : ObjectMap) → Grows m (set_all keys m)
unfolding set_all
set_all-Grows keys m =
    let m' = add_missing keys m in
    Grows-trans m m' _ (add_missing-Grows keys m) (erase_keys-Grows (gone_keys keys m'.live) m')

-- No thread sleeps where nothing is dropped, and the waiting threads sleep or are woken.
pub record IsAwake (waiters : ℕ) (m : ObjectMap) : Type 0 where
  pub woken_up : length m.drop ≡ 0 → m.sleeping ≡ 0
  pub all : waiters ≡ m.sleeping + m.woken

pub Grows-IsAwake : (w : ℕ) (m m' : ObjectMap) → Grows m m' → IsAwake w m → IsAwake w m'
Grows-IsAwake w m m' g a = record {
  woken_up = λ e. g.asleep ∙ a.woken_up (omega (arith, g.more, e));
  all = omega (arith, a.all, g.asleep, g.awake);
}

-- As long as no object goes, no entry does.
release_drop-stays :
    (k o : ℕ) (l : Entries)
    → (release_drop k o l).1 ≡ none
    → length (release_drop k o l).0 ≡ length l
unfolding release_drop
release_drop-stays k o [] e = refl
release_drop-stays k o ((j, v) ∷ l) e = ground (arith, e, release_drop-stays k o l)

release_dropped-IsAwake :
    (w k o : ℕ) (m : ObjectMap) → IsAwake w m → IsAwake w (release_dropped k o m)
unfolding release_dropped wake_all
release_dropped-IsAwake w k o m a = elim (Option-cases (release_drop k o m.drop).1) [
  | inl stays ↦
      rw (stays, wake_all)
        (record {
          woken_up = λ e. a.woken_up (omega (arith, e, release_drop-stays k o m.drop stays));
          all = a.all;
        })
  | inr (x, gone) ↦
      rw (gone, wake_all) (record { woken_up = λ e. refl; all = omega (arith, a.all) })
]

pub release-IsAwake : (w k o : ℕ) (m : ObjectMap) → IsAwake w m → IsAwake w (release k o m)
unfolding release
release-IsAwake w k o m a = elim (Option-cases (find k m.live)) [
  | inl gone ↦ rw (gone, release) (release_dropped-IsAwake w k o m a)
  | inr (v, found) ↦ elim (Bool-cases (v.object == o)) [
    | inl same ↦ rw (found, release, same) (record { woken_up = a.woken_up; all = a.all })
    | inr other ↦ rw (found, release, other) (release_dropped-IsAwake w k o m a)
  ]
]

-- The waiting threads, behind a call that leaves the wait or sleeps.
unfoldable pub waiters_after : Bool → ℕ → ℕ
waiters_after returns w = if returns then w else w + 1

wait_dropped-IsAwake :
    (b : Bool) (w : ℕ) (m : ObjectMap)
    → IsAwake w m
    → IsAwake (waiters_after (wait_dropped b m).0 w) (wait_dropped b m).1
unfolding wait_dropped waiters_after may_return
wait_dropped-IsAwake false w m a = a
wait_dropped-IsAwake true w m a = elim (Bool-cases (length m.drop == 0)) [
  | inl empty ↦ rw empty a
  | inr some_left ↦
      rw some_left (record {
        woken_up = λ e. absurd (ground (arith, some_left, e));
        all = omega (arith, a.all);
      })
]

pub erase_all_wait-IsAwake :
    (b : Bool) (w : ℕ) (m : ObjectMap)
    → IsAwake w m
    → IsAwake (waiters_after (erase_all_wait b m).0 w) (erase_all_wait b m).1
unfolding erase_all_wait
erase_all_wait-IsAwake b w m a =
    wait_dropped-IsAwake b w (erase_all m) (Grows-IsAwake w m (erase_all m) (erase_all-Grows m) a)

pub resume_wait-IsAwake :
    (w : ℕ) (m : ObjectMap)
    → 0 < m.woken
    → IsAwake w m
    → IsAwake (waiters_after (resume_wait m).0 (w - 1)) (resume_wait m).1
unfolding resume_wait
resume_wait-IsAwake w m h a =
    wait_dropped-IsAwake true (w - 1) (record m { woken = m.woken - 1 })
      (record { woken_up = a.woken_up; all = omega (arith, a.all, h) })
