-- ===== src/ObjectMap/Totals.antt =====
-- How the operations of an ObjectMap change the sums of its counts.
use flinter.Base.{
  ℕ, ◌+◌, ◌<◌, ◌≤◌, ◌≡◌, refl, Bool, true, false, ◌&&◌, ◌==◌, if◌then◌else◌, Option, none, some, [],
  ◌∷◌, arith, Bool-cases, inl, inr,
}
use flinter.Base.Map.{find, total, weight_of, total-erase}
use flinter.ObjectMap.{
  Counted, Entries, ObjectMap, size_mod, inc, dec, insert_multi, retire, retire_loop, release_drop,
}

abbrev pub one_if : Bool → ℕ
one_if true = 1
one_if false = 0

-- An entry's references, and the entry itself, if it has the key `k` and the object `x`.
unfoldable pub refs_at : ℕ → ℕ → ℕ → Counted → ℕ
refs_at k x j v = if j == k && v.object == x then v.refs else 0

unfoldable pub one_at : ℕ → ℕ → ℕ → Counted → ℕ
one_at k x j v = one_if (j == k && v.object == x)

-- The same over both lists of the map.
unfoldable pub refs_of : ℕ → ℕ → ObjectMap → ℕ
refs_of k x m = total (refs_at k x) m.live + total (refs_at k x) m.drop

unfoldable pub entries_of : ℕ → ℕ → ObjectMap → ℕ
entries_of k x m = total (one_at k x) m.live + total (one_at k x) m.drop

inc-refs : (v : Counted) → v.refs + 1 < size_mod → (inc v).refs ≡ v.refs + 1
unfolding inc
inc-refs v h = omega arith

dec-refs : (v : Counted) → 0 < v.refs → v.refs < size_mod → (dec v).refs + 1 ≡ v.refs
unfolding dec
dec-refs v h b = omega arith

inc-object : (v : Counted) → (inc v).object ≡ v.object
unfolding inc
inc-object v = refl

dec-object : (v : Counted) → (dec v).object ≡ v.object
unfolding dec
dec-object v = refl

pub refs_at-inc :
    (k x j : ℕ) (v : Counted)
    → v.refs + 1 < size_mod
    → refs_at k x j (inc v) ≡ refs_at k x j v + one_if (j == k && v.object == x)
unfolding refs_at
refs_at-inc k x j v h = ground (arith, inc-refs v h, inc-object v)

pub refs_at-dec :
    (k x j : ℕ) (v : Counted)
    → 0 < v.refs
    → v.refs < size_mod
    → refs_at k x j (dec v) + one_if (j == k && v.object == x) ≡ refs_at k x j v
unfolding refs_at
refs_at-dec k x j v h b = ground (arith, dec-refs v h b, dec-object v)

pub one_at-inc : (k x j : ℕ) (v : Counted) → one_at k x j (inc v) ≡ one_at k x j v
unfolding one_at inc
one_at-inc k x j v = refl

pub one_at-dec : (k x j : ℕ) (v : Counted) → one_at k x j (dec v) ≡ one_at k x j v
unfolding one_at dec
one_at-dec k x j v = refl

pub total-insert_multi :
    (w : ℕ → Counted → ℕ) (k : ℕ) (v : Counted) (l : Entries)
    → total w (insert_multi k v l) ≡ w k v + total w l
unfolding total insert_multi
total-insert_multi w k v [] = refl
total-insert_multi w k v ((j, u) ∷ l) = ground (arith, total-insert_multi w k v l)

-- Retiring an entry keeps its references, and keeps or destroys it.
pub retire-refs :
    (k x key : ℕ) (v : Counted) (m : ObjectMap)
    → total (refs_at k x) (retire key v m).drop ≡ refs_at k x key v + total (refs_at k x) m.drop
unfolding retire refs_at
retire-refs k x key v m = ground (arith, total-insert_multi (refs_at k x) key v m.drop)

pub retire-entries :
    (k x key : ℕ) (v : Counted) (m : ObjectMap)
    → total (one_at k x) (retire key v m).drop ≤ one_at k x key v + total (one_at k x) m.drop
unfolding retire one_at
retire-entries k x key v m = ground (arith, total-insert_multi (one_at k x) key v m.drop)

pub retire_loop-refs :
    (k x : ℕ) (l : Entries) (m : ObjectMap)
    → total (refs_at k x) (retire_loop l m).drop
      ≡ total (refs_at k x) l + total (refs_at k x) m.drop
unfolding retire_loop total
retire_loop-refs k x [] m = omega arith
retire_loop-refs k x ((key, v) ∷ l) m =
    omega (arith, retire_loop-refs k x l (retire key v m), retire-refs k x key v m)

pub retire_loop-entries :
    (k x : ℕ) (l : Entries) (m : ObjectMap)
    → total (one_at k x) (retire_loop l m).drop ≤ total (one_at k x) l + total (one_at k x) m.drop
unfolding retire_loop total
retire_loop-entries k x [] m = omega arith
retire_loop-entries k x ((key, v) ∷ l) m =
    omega (arith, retire_loop-entries k x l (retire key v m), retire-entries k x key v m)

-- The entry of a key is part of the sum.
pub weight_le :
    (w : ℕ → Counted → ℕ) (k : ℕ) {v : Counted} (l : Entries)
    → find k l ≡ some v
    → w k v ≤ total w l
unfolding weight_of
weight_le w k {v = v} l e = let sum = total-erase w k l in ground (arith, e)

pub no_entries : (k x : ℕ) (l : Entries) → total (one_at k x) l ≡ 0 → total (refs_at k x) l ≡ 0
unfolding total refs_at one_at
no_entries k x [] e = refl
no_entries k x ((j, v) ∷ l) e = ground (arith, no_entries k x l)

-- The entry that the loop of Release() stops at.
release_here :
    (k x key o : ℕ) (v : Counted) (l : Entries)
    → v.object ≡ o
    → 0 < v.refs
    → v.refs < size_mod
    → total
          (refs_at k x)
          (if◌then◌else◌ {A = Entries × Option ℕ}
            ((dec v).refs == 0)
            (l, some o)
            ((key, dec v) ∷ l, none)).0
        + one_if (key == k && o == x)
      ≡ refs_at k x key v + total (refs_at k x) l
unfolding total refs_at
release_here k x key o v l e h b = ground (arith, dec-refs v h b, dec-object v)

-- An entry that somebody has is found in `_drop`, and loses one reference.
pub release_drop-refs :
    (k x key o : ℕ) (l : Entries)
    → 0 < total (refs_at key o) l
    → total (one_at key o) l ≤ 1
    → total (refs_at key o) l < size_mod
    → total (refs_at k x) (release_drop key o l).0 + one_if (key == k && o == x)
      ≡ total (refs_at k x) l
unfolding release_drop total refs_at one_at
release_drop-refs k x key o [] h u b = absurd (omega arith)
release_drop-refs k x key o ((j, v) ∷ l) h u b = elim (Bool-cases (j == key && v.object == o)) [
  | inl hit ↦
      let here : j ≡ key = ground arith in
      let same : v.object ≡ o = ground arith in
      let bound = no_entries key o l (ground arith) in
      rw (hit, here) (release_here k x key o v l same (ground arith) (ground arith))
  | inr miss ↦
      rw miss
        (omega (arith, release_drop-refs k x key o l (ground arith) (ground arith) (ground arith)))
]

pub release_drop-entries :
    (k x key o : ℕ) (l : Entries)
    → total (one_at k x) (release_drop key o l).0 ≤ total (one_at k x) l
unfolding release_drop total
release_drop-entries k x key o [] = omega arith
release_drop-entries k x key o ((j, v) ∷ l) =
    ground (arith, release_drop-entries k x key o l, one_at-dec k x j v)
