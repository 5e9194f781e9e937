-- ===== src/ObjectMap/Taking.antt =====
-- Add(), Get(), GetNext() and SetAll(): a reference is given, or an object is put in.
use flinter.Base.{
  ℕ, ◌+◌, ◌<◌, ◌≤◌, ◌≡◌, refl, sym, ap, subst, ◌∙◌, ◌&&◌, ◌==◌, ltb, Option, none, some, List, [],
  ◌∷◌, arith, Bool-cases, Option-cases, inl, inr,
}
use flinter.Base.Map.{find, find_least, put, IsSorted, IsSorted-tail, IsSorted-put}
use flinter.ObjectMap.{
  Counted, Entries, ObjectMap, size_mod, inc, do_add, get, first, after_key, next_entry, get_next,
  add_missing, gone_keys, set_all,
}
use flinter.ObjectMap.Totals.{one_if, refs_of, entries_of}
use flinter.ObjectMap.Steps.{erase_keys-Keeps, created, taken, only}

-- One more reference of a key to an object; no key has an object twice.
abbrev pub Takes : ℕ → ℕ → ObjectMap → ObjectMap → Type 0
Takes key o m m' =
    IsSorted m'.live
    × ((k x : ℕ) → refs_of k x m' ≡ one_if (key == k && o == x) + refs_of k x m)
    × ((k x : ℕ) → entries_of k x m ≤ 1 → entries_of k x m' ≤ 1)

entry_room :
    (key : ℕ) {v : Counted} (m : ObjectMap)
    → IsSorted m.live
    → find key m.live ≡ some v
    → refs_of key v.object m + 1 < size_mod
    → v.refs + 1 < size_mod
unfolding refs_of
entry_room key {v = v} m sorted found bound =
    ground (arith, (only key v.object m.live sorted found).0)

new_one :
    (key o k x : ℕ) (m : ObjectMap) {n : ℕ}
    → entries_of key o m ≡ 0
    → entries_of k x m ≤ 1
    → n ≡ one_if (key == k && o == x) + entries_of k x m
    → n ≤ 1
new_one key o k x m new h e = ground arith

found-Takes :
    (key : ℕ) {v : Counted} (m : ObjectMap) (p : Option ℕ)
    → IsSorted m.live
    → find key m.live ≡ some v
    → refs_of key v.object m + 1 < size_mod
    → Takes key v.object m (record m { live = put key (inc v) m.live; ptr = p })
found-Takes key {v = v} m p sorted found bound =
    let room : v.refs + 1 < size_mod = entry_room key m sorted found bound in
    (
      IsSorted-put key (inc v) m.live sorted,
      (λ k x. (taken key m p sorted found room k x).0),
      (λ k x h. omega (arith, (taken key m p sorted found room k x).1)),
    )

-- The same of an object that is known to be the key's.
found_as-Takes :
    (key o : ℕ) {v : Counted} (m : ObjectMap) (p : Option ℕ)
    → IsSorted m.live
    → find key m.live ≡ some v
    → v.object ≡ o
    → refs_of key o m + 1 < size_mod
    → Takes key o m (record m { live = put key (inc v) m.live; ptr = p })
found_as-Takes key o {v = v} m p sorted found same bound =
    subst (λ o. Takes key o m (record m { live = put key (inc v) m.live; ptr = p })) same
      (found-Takes key m p sorted found (rw same bound))

new-Takes :
    (key o : ℕ) (m : ObjectMap)
    → IsSorted m.live
    → find key m.live ≡ none
    → entries_of key o m ≡ 0
    → Takes key o m
        (record m { live = put key (record { object = o; refs = 1 }) m.live; ptr = none })
new-Takes key o m sorted gone new = (
  IsSorted-put key _ m.live sorted,
  (λ k x. ground (arith, (created key o 1 m sorted gone k x).0)),
  (λ k x h. new_one key o k x m new h (created key o 1 m sorted gone k x).1),
)

none-some : {a : ℕ} → none ≡ some a → ⊥
none-some e = ground arith

some-injective : {a b : ℕ} → some a ≡ some b → a ≡ b
some-injective e = ground arith

get-found :
    (key : ℕ) {v : Counted} (m : ObjectMap)
    → find key m.live ≡ some v
    → get key m ≡ (some v.object, record m { live = put key (inc v) m.live })
unfolding get
get-found key m found = rw (found, get)

get-gone : (key : ℕ) (m : ObjectMap) → find key m.live ≡ none → get key m ≡ (none, m)
unfolding get
get-gone key m gone = rw (gone, get)

do_add-found :
    (key init : ℕ) (c : Option ℕ) {v : Counted} (m : ObjectMap)
    → find key m.live ≡ some v
    → do_add key init c m ≡ (some v.object, record m { live = put key (inc v) m.live })
unfolding do_add
do_add-found key init c m found = rw (found, do_add)

do_add-new :
    (key init o : ℕ) (m : ObjectMap)
    → find key m.live ≡ none
    → do_add key init (some o) m ≡ (
      some o,
      record m {
        live = put key (record { object = o; refs = init }) m.live;
        ptr = none;
        made = o ∷ m.made;
      },
    )
unfolding do_add
do_add-new key init o m gone = rw (gone, do_add)

do_add-none :
    (key init : ℕ) (m : ObjectMap) → find key m.live ≡ none → do_add key init none m ≡ (none, m)
unfolding do_add
do_add-none key init m gone = rw (gone, do_add)

-- What is got is the object of the key.
pub get-Takes :
    (key o : ℕ) (m : ObjectMap)
    → IsSorted m.live
    → (get key m).0 ≡ some o
    → refs_of key o m + 1 < size_mod
    → Takes key o m (get key m).1
get-Takes key o m sorted got bound = elim (Option-cases (find key m.live)) [
  | inl gone ↦ absurd (none-some (sym (ap (λ r. r.0) (get-gone key m gone)) ∙ got))
  | inr (v, found) ↦
      let same : v.object ≡ o =
        some-injective (sym (ap (λ r. r.0) (get-found key m found)) ∙ got) in
      rw (get-found key m found) (found_as-Takes key o m m.ptr sorted found same bound)
]

pub do_add-Takes :
    (key o : ℕ) (c : Option ℕ) (m : ObjectMap)
    → IsSorted m.live
    → (do_add key 1 c m).0 ≡ some o
    → refs_of key o m + 1 < size_mod
    → (find key m.live ≡ none → entries_of key o m ≡ 0)
    → Takes key o m (do_add key 1 c m).1
unfolding refs_of entries_of
do_add-Takes key o none m sorted got bound new = elim (Option-cases (find key m.live)) [
  | inl gone ↦ absurd (none-some (sym (ap (λ r. r.0) (do_add-none key 1 m gone)) ∙ got))
  | inr (v, found) ↦
      let same : v.object ≡ o =
        some-injective (sym (ap (λ r. r.0) (do_add-found key 1 none m found)) ∙ got) in
      rw (do_add-found key 1 none m found) (found_as-Takes key o m m.ptr sorted found same bound)
]
do_add-Takes key o (some c) m sorted got bound new = elim (Option-cases (find key m.live)) [
  | inl gone ↦
      let same : c ≡ o = some-injective (sym (ap (λ r. r.0) (do_add-new key 1 c m gone)) ∙ got) in
      rw (do_add-new key 1 c m gone, same) (new-Takes key o m sorted gone (new gone))
  | inr (v, found) ↦
      let same : v.object ≡ o =
        some-injective (sym (ap (λ r. r.0) (do_add-found key 1 (some c) m found)) ∙ got) in
      rw (do_add-found key 1 (some c) m found)
        (found_as-Takes key o m m.ptr sorted found same bound)
]

after_key-find :
    (k key : ℕ) {v : Counted} (l : Entries)
    → IsSorted l
    → after_key k l ≡ some (key, v)
    → find key l ≡ some v
unfolding after_key find
after_key-find k key [] sorted e = absurd (cc)
after_key-find k key {v = v} ((j, w) ∷ l) sorted e = elim (Bool-cases (ltb k j)) [
  | inl here ↦ ground (arith, e, here)
  | inr later ↦
      let found =
        after_key-find k key {v = v} l (IsSorted-tail j l sorted) (ground (arith, e, later)) in
      ground (arith, found, find_least j l sorted)
]

first-find : (key : ℕ) {v : Counted} (l : Entries) → first l ≡ some (key, v) → find key l ≡ some v
unfolding first find
first-find key [] e = absurd (cc)
first-find key ((j, w) ∷ l) e = ground (arith, e)

-- GetNext() stands on an entry of the map.
pub next_entry-find :
    (p : Option ℕ) (key : ℕ) {v : Counted} (l : Entries)
    → IsSorted l
    → next_entry p l ≡ some (key, v)
    → find key l ≡ some v
unfolding next_entry
next_entry-find none key l sorted e = first-find key l e
next_entry-find (some k) key l sorted e = elim (Option-cases (after_key k l)) [
  | inl gone ↦ first-find key l (rw (gone, next_entry) at e)
  | inr ((j, w), found) ↦ after_key-find k key l sorted (found ∙ (rw (found, next_entry) at e))
]

none_pair : {a : ℕ × ℕ} → none ≡ some a → ⊥
none_pair e = ground arith

some_pair : {a b c d : ℕ} → ◌≡◌ {A = Option (ℕ × ℕ)} (some (a, b)) (some (c, d)) → (a ≡ c) × (b ≡ d)
some_pair e = ground arith

get_next-gone : (m : ObjectMap) → next_entry m.ptr m.live ≡ none → get_next m ≡ (none, m)
unfolding get_next
get_next-gone m gone = rw (gone, get_next)

get_next-found :
    (m : ObjectMap) {key : ℕ} {v : Counted}
    → next_entry m.ptr m.live ≡ some (key, v)
    → get_next m
      ≡ (some (key, v.object), record m { live = put key (inc v) m.live; ptr = some key })
unfolding get_next
get_next-found m found = rw (found, get_next)

pub get_next-Takes :
    (key o : ℕ) (m : ObjectMap)
    → IsSorted m.live
    → (get_next m).0 ≡ some (key, o)
    → refs_of key o m + 1 < size_mod
    → Takes key o m (get_next m).1
get_next-Takes key o m sorted got bound = elim (Option-cases (next_entry m.ptr m.live)) [
  | inl gone ↦ absurd (none_pair (sym (ap (λ r. r.0) (get_next-gone m gone)) ∙ got))
  | inr ((j, w), found) ↦
      let (a, b) = some_pair (sym (ap (λ r. r.0) (get_next-found m found)) ∙ got) in
      rw (get_next-found m found, a)
        (found_as-Takes key o m (some key) sorted
          (next_entry-find m.ptr key m.live sorted (rw a at found)) b bound)
]

-- SetAll() puts new objects in, which nobody has.
abbrev pub AllNew : List (ℕ × Option ℕ) → ObjectMap → Type 0
AllNew [] m = Unit {0}
AllNew ((key, c) ∷ keys) m =
    ((o : ℕ) → find key m.live ≡ none → c ≡ some o → entries_of key o m ≡ 0)
    × AllNew keys (add_missing ((key, c) ∷ []) m)

-- No reference changes, and no key has an object twice.
abbrev pub Holds : ObjectMap → ObjectMap → Type 0
Holds m m' =
    IsSorted m'.live
    × ((k x : ℕ) → refs_of k x m' ≡ refs_of k x m)
    × (((k x : ℕ) → entries_of k x m ≤ 1) → (k x : ℕ) → entries_of k x m' ≤ 1)

add_one-Holds :
    (key : ℕ) (c : Option ℕ) (m : ObjectMap)
    → IsSorted m.live
    → ((o : ℕ) → find key m.live ≡ none → c ≡ some o → entries_of key o m ≡ 0)
    → Holds m (add_missing ((key, c) ∷ []) m)
unfolding add_missing refs_of entries_of
add_one-Holds key c m sorted new = elim (Option-cases (find key m.live)) [
  | inr (v, found) ↦ rw (found, add_missing) (sorted, (λ k x. refl), λ h. h)
  | inl gone ↦ elim (Option-cases c) [
    | inl none_made ↦
        rw (gone, add_missing, none_made, do_add-none key 0 m gone) (sorted, (λ k x. refl), λ h. h)
    | inr (o, made) ↦
        rw (gone, add_missing, made, do_add-new key 0 o m gone)
          (
            IsSorted-put key _ m.live sorted,
            (λ k x. ground (arith, (created key o 0 m sorted gone k x).0)),
            (λ h k x.
                new_one key o k x m (new o gone made) (h k x)
                  (created key o 0 m sorted gone k x).1),
          )
  ]
]

add_missing-Holds :
    (keys : List (ℕ × Option ℕ)) (m : ObjectMap)
    → IsSorted m.live
    → AllNew keys m
    → Holds m (add_missing keys m)
unfolding add_missing
add_missing-Holds [] m sorted new = (sorted, (λ k x. refl), λ h. h)
add_missing-Holds ((key, c) ∷ keys) m sorted (new, rest) =
    let (s, r, e) = add_one-Holds key c m sorted new in
    let (s', r', e') = add_missing-Holds keys (add_missing ((key, c) ∷ []) m) s rest in
    (s', (λ k x. r' k x ∙ r k x), λ h. e' (e h))

pub set_all-Holds :
    (keys : List (ℕ × Option ℕ)) (m : ObjectMap)
    → IsSorted m.live
    → AllNew keys m
    → Holds m (set_all keys m)
unfolding set_all
set_all-Holds keys m sorted new =
    let (s, r, e) = add_missing-Holds keys m sorted new in
    let (s', r', e') =
      erase_keys-Keeps (gone_keys keys (add_missing keys m).live) (add_missing keys m) in
    (s' s, (λ k x. r' k x ∙ r k x), λ h k x. omega (arith, e' k x, e h k x))

-- Where nothing is got, nothing is changed.
pub get_next-none : (m : ObjectMap) → (get_next m).0 ≡ none → (get_next m).1 ≡ m
get_next-none m e = elim (Option-cases (next_entry m.ptr m.live)) [
  | inl gone ↦ ap (λ r. r.1) (get_next-gone m gone)
  | inr ((k, v), found) ↦ absurd (none_pair (sym e ∙ ap (λ r. r.0) (get_next-found m found)))
]

pub do_add-nothing :
    (key : ℕ) (c : Option ℕ) (m : ObjectMap)
    → (do_add key 1 c m).0 ≡ none
    → (do_add key 1 c m).1 ≡ m
do_add-nothing key c m e = elim (Option-cases (find key m.live)) [
  | inr (v, found) ↦ absurd (none-some (sym e ∙ ap (λ r. r.0) (do_add-found key 1 c m found)))
  | inl gone ↦ by_created c e gone
]
  where
    by_created :
        (c : Option ℕ)
        → (do_add key 1 c m).0 ≡ none
        → find key m.live ≡ none
        → (do_add key 1 c m).1 ≡ m
    by_created none e gone = ap (λ r. r.1) (do_add-none key 1 m gone)
    by_created (some o) e gone =
        absurd (none-some (sym e ∙ ap (λ r. r.0) (do_add-new key 1 o m gone)))

-- What is added anew is what was created.
pub do_add_made :
    (key o : ℕ) (c : Option ℕ) (m : ObjectMap)
    → (do_add key 1 c m).0 ≡ some o
    → find key m.live ≡ none
    → c ≡ some o
do_add_made key o none m e gone =
    absurd (none-some (sym (ap (λ r. r.0) (do_add-none key 1 m gone)) ∙ e))
do_add_made key o (some x) m e gone = sym (ap (λ r. r.0) (do_add-new key 1 x m gone)) ∙ e
