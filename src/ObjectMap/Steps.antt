-- ===== src/ObjectMap/Steps.antt =====
-- What each operation of an ObjectMap does to the references and entries of a key and an object.
use flinter.Base.{
  ℕ, ◌+◌, ◌<◌, ◌≤◌, ◌≡◌, ◌≢◌, refl, ◌∙◌, ◌&&◌, ◌==◌, if◌then◌else◌, Option, none, some, List, [],
  ◌∷◌, arith, Bool-cases, Option-cases, inl, inr,
}
use flinter.Base.Map.{
  find, put, erase, IsSorted, IsSorted-put, IsSorted-erase, total, total-put_found, total-put_new,
  total-erase_found, find-erase_self,
}
use flinter.ObjectMap.{
  Counted, Entries, ObjectMap, size_mod, inc, dec, retire, erase_key, erase_all, release_dropped,
  release, erase_keys,
}
use flinter.ObjectMap.Totals.{
  one_if, refs_at, one_at, refs_of, entries_of, refs_at-inc, refs_at-dec, one_at-inc, one_at-dec,
  retire_loop-refs, retire_loop-entries, retire-refs, retire-entries, release_drop-refs,
  release_drop-entries, no_entries,
}

-- No reference is given or taken, and no entry is new.
abbrev pub Keeps : ObjectMap → ObjectMap → Type 0
Keeps m m' =
    (IsSorted m.live → IsSorted m'.live)
    × ((k x : ℕ) → refs_of k x m' ≡ refs_of k x m)
    × ((k x : ℕ) → entries_of k x m' ≤ entries_of k x m)

erased-Keeps :
    (key : ℕ) (v : Counted) (m : ObjectMap)
    → find key m.live ≡ some v
    → Keeps m (record (retire key v m) { live = erase key m.live; ptr = none })
unfolding refs_of entries_of
erased-Keeps key v m found = (
  IsSorted-erase key m.live,
  (λ k x. omega (arith, total-erase_found (refs_at k x) key m.live found, retire-refs k x key v m)),
  (λ k x.
      omega (arith, total-erase_found (one_at k x) key m.live found, retire-entries k x key v m)),
)

pub erase_key-Keeps : (key : ℕ) (m : ObjectMap) → Keeps m (erase_key key m)
unfolding erase_key
erase_key-Keeps key m = elim (Option-cases (find key m.live)) [
  | inl gone ↦ rw (gone, erase_key) (λ p. p, λ k x. refl, λ k x. omega arith)
  | inr (v, found) ↦ rw (found, erase_key) (erased-Keeps key v m found)
]

pub erase_all-Keeps : (m : ObjectMap) → Keeps m (erase_all m)
unfolding erase_all refs_of entries_of total
erase_all-Keeps m = (
  λ p. tt,
  λ k x. omega (arith, retire_loop-refs k x m.live m),
  λ k x. omega (arith, retire_loop-entries k x m.live m),
)

pub erase_keys-Keeps : (keys : List ℕ) (m : ObjectMap) → Keeps m (erase_keys keys m)
unfolding erase_keys
erase_keys-Keeps [] m = (λ p. p, λ k x. refl, λ k x. omega arith)
erase_keys-Keeps (key ∷ keys) m =
    let (a, b, c) = erase_key-Keeps key m in
    let (a', b', c') = erase_keys-Keeps keys (erase_key key m) in
    (λ p. a' (a p), λ k x. b' k x ∙ b k x, λ k x. omega (arith, c' k x, c k x))

-- A reference is given: one more for the key and the object.
pub taken :
    (key : ℕ) {v : Counted} (m : ObjectMap) (p : Option ℕ)
    → IsSorted m.live
    → find key m.live ≡ some v
    → v.refs + 1 < size_mod
    → (k x : ℕ)
    → (refs_of k x (record m { live = put key (inc v) m.live; ptr = p })
        ≡ one_if (key == k && v.object == x) + refs_of k x m)
      × (entries_of k x (record m { live = put key (inc v) m.live; ptr = p }) ≡ entries_of k x m)
unfolding refs_of entries_of
taken key {v = v} m p sorted found bound k x = (
  omega (
    arith,
    total-put_found (refs_at k x) key (inc v) m.live sorted found,
    refs_at-inc k x key v bound,
  ),
  omega (arith, total-put_found (one_at k x) key (inc v) m.live sorted found, one_at-inc k x key v),
)

-- A new object is put in.
pub created :
    (key o init : ℕ) (m : ObjectMap)
    → IsSorted m.live
    → find key m.live ≡ none
    → (k x : ℕ)
    → (refs_of k x
          (record m { live = put key (record { object = o; refs = init }) m.live; ptr = none })
        ≡ (if key == k && o == x then init else 0) + refs_of k x m)
      × (entries_of k x
            (record m { live = put key (record { object = o; refs = init }) m.live; ptr = none })
          ≡ one_if (key == k && o == x) + entries_of k x m)
unfolding refs_of entries_of refs_at one_at
created key o init m sorted gone k x = (
  omega (
    arith,
    total-put_new (refs_at k x) key (record { object = o; refs = init }) m.live sorted gone,
  ),
  omega (
    arith,
    total-put_new (one_at k x) key (record { object = o; refs = init }) m.live sorted gone,
  ),
)

-- The reference of a holder is given back.
release_dropped-totals :
    (k x key o : ℕ) (m : ObjectMap)
    → total (refs_at key o) m.live ≡ 0
    → 0 < refs_of key o m
    → entries_of key o m ≤ 1
    → refs_of key o m < size_mod
    → (refs_of k x (release_dropped key o m) + one_if (key == k && o == x) ≡ refs_of k x m)
      × (entries_of k x (release_dropped key o m) ≤ entries_of k x m)
unfolding release_dropped refs_of entries_of
release_dropped-totals k x key o m none_live h u b = (
  omega (arith, release_drop-refs k x key o m.drop (omega arith) (omega arith) (omega arith)),
  omega (arith, release_drop-entries k x key o m.drop),
)

release-found :
    (key o : ℕ) {v : Counted} (m : ObjectMap)
    → find key m.live ≡ some v
    → v.object ≡ o
    → release key o m ≡ record m { live = put key (dec v) m.live }
unfolding release
release-found key o m found same = rw (found, release) (ground (arith, same))

release-other :
    (key o : ℕ) {v : Counted} (m : ObjectMap)
    → find key m.live ≡ some v
    → v.object ≢ o
    → release key o m ≡ release_dropped key o m
unfolding release
release-other key o m found other = rw (found, release) (ground (arith, other))

release-gone :
    (key o : ℕ) (m : ObjectMap) → find key m.live ≡ none → release key o m ≡ release_dropped key o m
unfolding release
release-gone key o m gone = rw (gone, release)

-- A key that is not found has no references.
pub absent :
    (key o : ℕ) (l : Entries)
    → find key l ≡ none
    → (total (refs_at key o) l ≡ 0) × (total (one_at key o) l ≡ 0)
unfolding find total refs_at one_at
absent key o [] e = (refl, refl)
absent key o ((j, v) ∷ l) e = let ih = absent key o l in ground (arith, ih)

-- All the references of a key in the map are those of its one entry.
pub only :
    (key o : ℕ) {v : Counted} (l : Entries)
    → IsSorted l
    → find key l ≡ some v
    → (total (refs_at key o) l ≡ (if v.object == o then v.refs else 0))
      × (total (one_at key o) l ≡ one_if (v.object == o))
unfolding refs_at one_at
only key o l sorted found =
    let (a, b) = absent key o (erase key l) (find-erase_self key l sorted) in
    let c = total-erase_found (refs_at key o) key l found in
    let d = total-erase_found (one_at key o) key l found in
    (ground (arith, a, c), ground (arith, b, d))

release_dropped-IsSorted :
    (key o : ℕ) (m : ObjectMap) → IsSorted m.live → IsSorted (release_dropped key o m).live
unfolding release_dropped
release_dropped-IsSorted key o m sorted = sorted

released :
    (key o : ℕ) {v : Counted} (m : ObjectMap)
    → IsSorted m.live
    → find key m.live ≡ some v
    → v.object ≡ o
    → 0 < refs_of key o m
    → entries_of key o m ≤ 1
    → refs_of key o m < size_mod
    → IsSorted (put key (dec v) m.live)
      × ((k x : ℕ)
          → refs_of k x (record m { live = put key (dec v) m.live }) + one_if (key == k && o == x)
            ≡ refs_of k x m)
      × ((k x : ℕ) → entries_of k x (record m { live = put key (dec v) m.live }) ≤ entries_of k x m)
unfolding refs_of entries_of
released key o {v = v} m sorted found same h u b =
    let (a, c) = only key o m.live sorted found in
    let one : total (one_at key o) m.live ≡ 1 = ground (arith, c, same) in
    let all : total (refs_at key o) m.live ≡ v.refs = ground (arith, a, same) in
    let rest = no_entries key o m.drop (omega (arith, one)) in
    (
      IsSorted-put key (dec v) m.live sorted,
      (λ k x.
          let e = refs_at-dec k x key v (omega (arith, all, rest)) (omega (arith, all)) in
          let same_if : one_if (key == k && o == x) ≡ one_if (key == k && v.object == x) =
            rw same refl in
          omega (arith, total-put_found (refs_at k x) key (dec v) m.live sorted found, e, same_if)),
      (λ k x. omega (
        arith,
        total-put_found (one_at k x) key (dec v) m.live sorted found,
        one_at-dec k x key v,
      )),
    )

-- A release by a holder.
pub release-totals :
    (key o : ℕ) (m : ObjectMap)
    → IsSorted m.live
    → 0 < refs_of key o m
    → entries_of key o m ≤ 1
    → refs_of key o m < size_mod
    → IsSorted (release key o m).live
      × ((k x : ℕ) → refs_of k x (release key o m) + one_if (key == k && o == x) ≡ refs_of k x m)
      × ((k x : ℕ) → entries_of k x (release key o m) ≤ entries_of k x m)
release-totals key o m sorted h u b = elim (Option-cases (find key m.live)) [
  | inl gone ↦ rw (release-gone key o m gone) (
    release_dropped-IsSorted key o m sorted,
    (λ k x. (release_dropped-totals k x key o m (absent key o m.live gone).0 h u b).0),
    (λ k x. (release_dropped-totals k x key o m (absent key o m.live gone).0 h u b).1),
  )
  | inr (v, found) ↦ elim (Bool-cases (v.object == o)) [
    | inl same ↦
        rw (release-found key o m found (ground (arith, same)))
          (released key o m sorted found (ground (arith, same)) h u b)
    | inr other ↦
        let none_live : total (refs_at key o) m.live ≡ 0 =
          ground (arith, (only key o m.live sorted found).0, other) in
        rw (release-other key o m found (ground (arith, other))) (
          release_dropped-IsSorted key o m sorted,
          (λ k x. (release_dropped-totals k x key o m none_live h u b).0),
          (λ k x. (release_dropped-totals k x key o m none_live h u b).1),
        )
  ]
]
