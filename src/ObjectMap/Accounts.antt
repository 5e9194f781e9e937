-- ===== src/ObjectMap/Accounts.antt =====
-- Each object that Create() has given to an ObjectMap is in it, or has gone to Destroy().
use flinter.Base.{
  ℕ, ◌+◌, ◌<◌, ◌≤◌, ◌≡◌, refl, ap, ◌∙◌, ◌==◌, Option, none, some, List, [], ◌∷◌, arith, Bool-cases,
  Option-cases, inl, inr,
}
use flinter.Base.Map.{
  find, put, IsSorted, IsSorted-put, total, total-put_found, total-put_new, total-erase_found,
}
use flinter.ObjectMap.{
  Counted, Entries, ObjectMap, inc, dec, do_add, get, retire, erase_key, retire_loop, erase_all,
  release_drop, push_gone, release_dropped, release, next_entry, get_next, add_missing, gone_keys,
  erase_keys, set_all,
}
use flinter.ObjectMap.Taking.{next_entry-find}
use flinter.ObjectMap.Totals.{one_if, one_at, entries_of, total-insert_multi}

unfoldable pub times : ℕ → List ℕ → ℕ
times x [] = 0
times x (o ∷ os) = one_if (o == x) + times x os

-- The entries of an object, under any key.
abbrev pub object_at : ℕ → ℕ → Counted → ℕ
object_at x j v = one_if (v.object == x)

unfoldable pub entries_with : ℕ → ObjectMap → ℕ
entries_with x m = total (object_at x) m.live + total (object_at x) m.drop

-- Where the map is with an object, against what was made and what was destroyed.
abbrev pub IsAccounted : ObjectMap → Type 0
IsAccounted m = (x : ℕ) → times x m.made ≡ entries_with x m + times x m.destroyed

-- An entry is kept by a change of its count.
counted-IsAccounted :
    (key : ℕ) {v : Counted} (w : Counted) (p : Option ℕ) (m : ObjectMap)
    → find key m.live ≡ some v
    → w.object ≡ v.object
    → IsSorted m.live
    → IsAccounted m
    → IsAccounted (record m { live = put key w m.live; ptr = p })
unfolding entries_with
counted-IsAccounted key w p m found same s a x =
    ground (arith, a x, total-put_found (object_at x) key w m.live s found, same)

made-IsAccounted :
    (key o init : ℕ) (m : ObjectMap)
    → find key m.live ≡ none
    → IsSorted m.live
    → IsAccounted m
    → IsAccounted (record m {
      live = put key (record { object = o; refs = init }) m.live;
      ptr = none;
      made = o ∷ m.made;
    })
unfolding entries_with times
made-IsAccounted key o init m gone s a x =
    omega (
      arith,
      a x,
      total-put_new (object_at x) key (record { object = o; refs = init }) m.live s gone,
    )

pub do_add-IsAccounted :
    (key init : ℕ) (c : Option ℕ) (m : ObjectMap)
    → IsSorted m.live
    → IsAccounted m
    → IsAccounted (do_add key init c m).1
unfolding do_add inc
do_add-IsAccounted key init none m s a = elim (Option-cases (find key m.live)) [
  | inl gone ↦ rw (gone, do_add) a
  | inr (v, found) ↦ rw (found, do_add) (counted-IsAccounted key (inc v) m.ptr m found refl s a)
]
do_add-IsAccounted key init (some o) m s a = elim (Option-cases (find key m.live)) [
  | inl gone ↦ rw (gone, do_add) (made-IsAccounted key o init m gone s a)
  | inr (v, found) ↦ rw (found, do_add) (counted-IsAccounted key (inc v) m.ptr m found refl s a)
]

pub get-IsAccounted :
    (key : ℕ) (m : ObjectMap) → IsSorted m.live → IsAccounted m → IsAccounted (get key m).1
unfolding get inc
get-IsAccounted key m s a = elim (Option-cases (find key m.live)) [
  | inl gone ↦ rw (gone, get) a
  | inr (v, found) ↦ rw (found, get) (counted-IsAccounted key (inc v) m.ptr m found refl s a)
]

-- What leaves the table is dropped or destroyed, and not both.
retire-objects :
    (x key : ℕ) (v : Counted) (m : ObjectMap)
    → total (object_at x) (retire key v m).drop + times x (retire key v m).destroyed
      ≡ one_if (v.object == x) + (total (object_at x) m.drop + times x m.destroyed)
unfolding retire times
retire-objects x key v m = ground (arith, total-insert_multi (object_at x) key v m.drop)

retire-made : (key : ℕ) (v : Counted) (m : ObjectMap) → (retire key v m).made ≡ m.made
unfolding retire
retire-made key v m = ground arith

pub erase_key-IsAccounted :
    (key : ℕ) (m : ObjectMap) → IsAccounted m → IsAccounted (erase_key key m)
unfolding erase_key entries_with
erase_key-IsAccounted key m a = elim (Option-cases (find key m.live)) [
  | inl gone ↦ rw (gone, erase_key) a
  | inr (v, found) ↦
      rw (found, erase_key)
        (λ x. omega (
          arith,
          a x,
          retire-objects x key v m,
          ap (times x) (retire-made key v m),
          total-erase_found (object_at x) key m.live found,
        ))
]

retire_loop-objects :
    (x : ℕ) (l : Entries) (m : ObjectMap)
    → (total (object_at x) (retire_loop l m).drop + times x (retire_loop l m).destroyed
        ≡ total (object_at x) l + (total (object_at x) m.drop + times x m.destroyed))
      × ((retire_loop l m).made ≡ m.made)
unfolding retire_loop total
retire_loop-objects x [] m = (omega arith, refl)
retire_loop-objects x ((key, v) ∷ l) m =
    let (a, b) = retire_loop-objects x l (retire key v m) in
    (omega (arith, a, retire-objects x key v m), b ∙ retire-made key v m)

pub erase_all-IsAccounted : (m : ObjectMap) → IsAccounted m → IsAccounted (erase_all m)
unfolding erase_all entries_with total
erase_all-IsAccounted m a x =
    let (b, c) = retire_loop-objects x m.live m in omega (arith, a x, b, ap (times x) c)

-- Release() destroys the object of the entry that it takes out.
release_drop-objects :
    (x key o : ℕ) (l : Entries) (destroyed : List ℕ)
    → total (object_at x) (release_drop key o l).0
        + times x (push_gone (release_drop key o l).1 destroyed)
      ≡ total (object_at x) l + times x destroyed
unfolding release_drop push_gone times total dec
release_drop-objects x key o [] destroyed = refl
release_drop-objects x key o ((j, v) ∷ l) destroyed =
    ground (arith, release_drop-objects x key o l destroyed)

release_dropped-IsAccounted :
    (key o : ℕ) (m : ObjectMap) → IsAccounted m → IsAccounted (release_dropped key o m)
unfolding release_dropped entries_with
release_dropped-IsAccounted key o m a x =
    omega (arith, a x, release_drop-objects x key o m.drop m.destroyed)

pub release-IsAccounted :
    (key o : ℕ) (m : ObjectMap) → IsSorted m.live → IsAccounted m → IsAccounted (release key o m)
unfolding release dec
release-IsAccounted key o m s a = elim (Option-cases (find key m.live)) [
  | inl gone ↦ rw (gone, release) (release_dropped-IsAccounted key o m a)
  | inr (v, found) ↦ elim (Bool-cases (v.object == o)) [
    | inl same ↦ rw (found, release, same) (counted-IsAccounted key (dec v) m.ptr m found refl s a)
    | inr other ↦ rw (found, release, other) (release_dropped-IsAccounted key o m a)
  ]
]

pub get_next-IsAccounted :
    (m : ObjectMap) → IsSorted m.live → IsAccounted m → IsAccounted (get_next m).1
unfolding get_next inc
get_next-IsAccounted m s a = elim (Option-cases (next_entry m.ptr m.live)) [
  | inl gone ↦ rw (gone, get_next) a
  | inr ((key, v), found) ↦
      let f = next_entry-find m.ptr key m.live s found in
      rw (found, get_next) (counted-IsAccounted key (inc v) (some key) m f refl s a)
]

do_add-IsSorted :
    (key init : ℕ) (c : Option ℕ) (m : ObjectMap)
    → IsSorted m.live
    → IsSorted (do_add key init c m).1.live
unfolding do_add
do_add-IsSorted key init none m s = elim (Option-cases (find key m.live)) [
  | inl gone ↦ rw (gone, do_add) s
  | inr (v, found) ↦ rw (found, do_add) (IsSorted-put key (inc v) m.live s)
]
do_add-IsSorted key init (some o) m s = elim (Option-cases (find key m.live)) [
  | inl gone ↦ rw (gone, do_add) (IsSorted-put key _ m.live s)
  | inr (v, found) ↦ rw (found, do_add) (IsSorted-put key (inc v) m.live s)
]

add_missing-IsAccounted :
    (keys : List (ℕ × Option ℕ)) (m : ObjectMap)
    → IsSorted m.live
    → IsAccounted m
    → IsAccounted (add_missing keys m)
unfolding add_missing
add_missing-IsAccounted [] m s a = a
add_missing-IsAccounted ((key, c) ∷ keys) m s a = elim (Option-cases (find key m.live)) [
  | inl gone ↦
      rw (gone, add_missing)
        (add_missing-IsAccounted keys (do_add key 0 c m).1 (do_add-IsSorted key 0 c m s)
          (do_add-IsAccounted key 0 c m s a))
  | inr (v, found) ↦ rw (found, add_missing) (add_missing-IsAccounted keys m s a)
]

erase_keys-IsAccounted :
    (keys : List ℕ) (m : ObjectMap) → IsAccounted m → IsAccounted (erase_keys keys m)
unfolding erase_keys
erase_keys-IsAccounted [] m a = a
erase_keys-IsAccounted (key ∷ keys) m a =
    erase_keys-IsAccounted keys (erase_key key m) (erase_key-IsAccounted key m a)

pub set_all-IsAccounted :
    (keys : List (ℕ × Option ℕ)) (m : ObjectMap)
    → IsSorted m.live
    → IsAccounted m
    → IsAccounted (set_all keys m)
unfolding set_all
set_all-IsAccounted keys m s a =
    let m' = add_missing keys m in
    erase_keys-IsAccounted (gone_keys keys m'.live) m' (add_missing-IsAccounted keys m s a)

-- An entry of a key and an object is one of the object.
one_le_object : (k x : ℕ) (l : Entries) → total (one_at k x) l ≤ total (object_at x) l
unfolding total one_at
one_le_object k x [] = omega arith
one_le_object k x ((j, v) ∷ l) = ground (arith, one_le_object k x l)

-- An object that has an entry was made once more than it was destroyed, at least.
pub entries-made :
    (k x : ℕ) (m : ObjectMap)
    → IsAccounted m
    → 0 < entries_of k x m
    → times x m.destroyed < times x m.made
unfolding entries_of entries_with
entries-made k x m a h = omega (arith, a x, one_le_object k x m.live, one_le_object k x m.drop)
