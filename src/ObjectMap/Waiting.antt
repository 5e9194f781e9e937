-- ===== src/ObjectMap/Waiting.antt =====
-- The objects that an ObjectMap has dropped, and for which EraseAll() waits.
use flinter.Base.{
  ℕ, ◌<◌, ◌≡◌, refl, ◌∙◌, ◌==◌, Option, none, some, List, [], ◌∷◌, arith, Bool-cases, Option-cases,
  inl, inr,
}
use flinter.Base.Map.{find}
use flinter.ObjectMap.{
  Counted, Entries, ObjectMap, insert_multi, retire, retire_loop, do_add, get, erase_key, erase_all,
  release_drop, release_dropped, release, next_entry, get_next, add_missing, gone_keys, erase_keys,
  set_all,
}

-- Somebody has each entry.
abbrev pub IsUsed : Entries → Type 0
IsUsed [] = Unit {0}
IsUsed ((j, v) ∷ l) = (0 < v.refs) × IsUsed l

IsUsed-insert_multi :
    (k : ℕ) (v : Counted) (l : Entries) → 0 < v.refs → IsUsed l → IsUsed (insert_multi k v l)
unfolding insert_multi
IsUsed-insert_multi k v [] h p = (h, tt)
IsUsed-insert_multi k v ((j, u) ∷ l) h (q, p) = ground (arith, IsUsed-insert_multi k v l h p)

IsUsed-retire : (k : ℕ) (v : Counted) (m : ObjectMap) → IsUsed m.drop → IsUsed (retire k v m).drop
unfolding retire
IsUsed-retire k v m p = elim (Bool-cases (v.refs == 0)) [
  | inl free ↦ rw free p
  | inr held ↦ rw held (IsUsed-insert_multi k v m.drop (ground (arith, held)) p)
]

IsUsed-retire_loop : (l : Entries) (m : ObjectMap) → IsUsed m.drop → IsUsed (retire_loop l m).drop
unfolding retire_loop
IsUsed-retire_loop [] m p = p
IsUsed-retire_loop ((k, v) ∷ l) m p = IsUsed-retire_loop l (retire k v m) (IsUsed-retire k v m p)

pub erase_key-IsUsed : (k : ℕ) (m : ObjectMap) → IsUsed m.drop → IsUsed (erase_key k m).drop
unfolding erase_key
erase_key-IsUsed k m p = elim (Option-cases (find k m.live)) [
  | inl gone ↦ rw (gone, erase_key) p
  | inr (v, found) ↦ rw (found, erase_key) (IsUsed-retire k v m p)
]

pub erase_all-IsUsed : (m : ObjectMap) → IsUsed m.drop → IsUsed (erase_all m).drop
unfolding erase_all
erase_all-IsUsed m p = IsUsed-retire_loop m.live m p

IsUsed-release_drop : (k o : ℕ) (l : Entries) → IsUsed l → IsUsed (release_drop k o l).0
unfolding release_drop
IsUsed-release_drop k o [] p = tt
IsUsed-release_drop k o ((j, v) ∷ l) (q, p) = ground (arith, IsUsed-release_drop k o l p)

release_dropped-IsUsed :
    (k o : ℕ) (m : ObjectMap) → IsUsed m.drop → IsUsed (release_dropped k o m).drop
unfolding release_dropped
release_dropped-IsUsed k o m p = IsUsed-release_drop k o m.drop p

pub release-IsUsed : (k o : ℕ) (m : ObjectMap) → IsUsed m.drop → IsUsed (release k o m).drop
unfolding release
release-IsUsed k o m p = elim (Option-cases (find k m.live)) [
  | inl gone ↦ rw (gone, release) (release_dropped-IsUsed k o m p)
  | inr (v, found) ↦ elim (Bool-cases (v.object == o)) [
    | inl same ↦ rw (found, release, same) p
    | inr other ↦ rw (found, release, other) (release_dropped-IsUsed k o m p)
  ]
]

pub do_add-drop : (k init : ℕ) (c : Option ℕ) (m : ObjectMap) → (do_add k init c m).1.drop ≡ m.drop
unfolding do_add
do_add-drop k init none m = elim (Option-cases (find k m.live)) [
  | inl gone ↦ rw (gone, do_add)
  | inr (v, found) ↦ rw (found, do_add)
]
do_add-drop k init (some o) m = elim (Option-cases (find k m.live)) [
  | inl gone ↦ rw (gone, do_add)
  | inr (v, found) ↦ rw (found, do_add)
]

pub get-drop : (k : ℕ) (m : ObjectMap) → (get k m).1.drop ≡ m.drop
unfolding get
get-drop k m = elim (Option-cases (find k m.live)) [
  | inl gone ↦ rw (gone, get)
  | inr (v, found) ↦ rw (found, get)
]

pub get_next-drop : (m : ObjectMap) → (get_next m).1.drop ≡ m.drop
unfolding get_next
get_next-drop m = elim (Option-cases (next_entry m.ptr m.live)) [
  | inl gone ↦ rw (gone, get_next)
  | inr ((k, v), found) ↦ rw (found, get_next)
]

add_missing-drop : (keys : List (ℕ × Option ℕ)) (m : ObjectMap) → (add_missing keys m).drop ≡ m.drop
unfolding add_missing
add_missing-drop [] m = refl
add_missing-drop ((k, c) ∷ keys) m = elim (Option-cases (find k m.live)) [
  | inl gone ↦ rw (gone, add_missing) (add_missing-drop keys _ ∙ do_add-drop k 0 c m)
  | inr (v, found) ↦ rw (found, add_missing) (add_missing-drop keys m)
]

erase_keys-IsUsed :
    (keys : List ℕ) (m : ObjectMap) → IsUsed m.drop → IsUsed (erase_keys keys m).drop
unfolding erase_keys
erase_keys-IsUsed [] m p = p
erase_keys-IsUsed (k ∷ keys) m p = erase_keys-IsUsed keys (erase_key k m) (erase_key-IsUsed k m p)

pub set_all-IsUsed :
    (keys : List (ℕ × Option ℕ)) (m : ObjectMap) → IsUsed m.drop → IsUsed (set_all keys m).drop
unfolding set_all
set_all-IsUsed keys m p =
    erase_keys-IsUsed (gone_keys keys (add_missing keys m).live) (add_missing keys m)
      (rw (add_missing-drop keys m) p)
