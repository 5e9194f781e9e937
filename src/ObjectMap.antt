-- ===== src/ObjectMap.antt =====
-- class ObjectMap of flinter/object_map.h, one function for each method, which is under the map's
-- mutex as a whole but for the wait of EraseAll(). An object is its address. Create() is the
-- subclass's: what it would give is an argument. What Create() gave is in `made`, and what goes to Destroy() in
-- `destroyed`, the newest first. `sleeping` counts the threads that sleep in `_condition`, and `woken` those that it has
-- woken and that have not gone on yet.
-- The counts are of size_t. The iterator `_ptr` is the key that it stands on, and `none` at the end.
pub mod Totals
pub mod Steps
pub mod Taking
pub mod Waiting
pub mod Accounts
pub mod Waking
pub mod Sharing
mod Tests
use flinter.Base.{
  ℕ, ◌+◌, ◌-◌, ◌%◌, ◌^◌, Bool, true, false, not, ◌&&◌, ◌||◌, ◌==◌, ltb, if◌then◌else◌, Option, none,
  some, List, [], ◌∷◌, length,
}
use flinter.Base.Map.{find, put, erase}

-- The pair V.
pub record Counted : Type 0 where
  pub object : ℕ
  pub refs : ℕ

abbrev pub Entries : Type 0
Entries = List (ℕ × Counted)

pub record ObjectMap : Type 0 where
  pub live : Entries
  pub drop : Entries
  pub ptr : Option ℕ
  pub made : List ℕ
  pub destroyed : List ℕ
  pub sleeping : ℕ
  pub woken : ℕ

abbrev pub size_mod : ℕ
size_mod = 2 ^ 64

-- `++` and `--` of a count.
unfoldable pub inc : Counted → Counted
inc v = record v { refs = (v.refs + 1) % size_mod }

unfoldable pub dec : Counted → Counted
dec v = record v { refs = (v.refs + (size_mod - 1)) % size_mod }

-- std::multimap::insert(): behind the entries of the same key.
unfoldable pub insert_multi : ℕ → Counted → Entries → Entries
insert_multi k w [] = (k, w) ∷ []
insert_multi k w ((j, v) ∷ l) =
    let rest = insert_multi k w l in if ltb k j then (k, w) ∷ (j, v) ∷ l else (j, v) ∷ rest

unfoldable pub size : ObjectMap → ℕ
size m = length m.live + length m.drop

-- DoAdd().
unfoldable pub do_add : ℕ → ℕ → Option ℕ → ObjectMap → Option ℕ × ObjectMap
unfolding inc
do_add key init created m = elim (find key m.live) [
  | some v ↦ (some v.object, record m { live = put key (inc v) m.live })
  | none ↦ elim created [
    | none ↦ (none, m)
    | some o ↦ (
      some o,
      record m {
        live = put key (record { object = o; refs = init }) m.live;
        ptr = none;
        made = o ∷ m.made;
      },
    )
  ]
]

unfoldable pub add : ℕ → Option ℕ → ObjectMap → Option ℕ × ObjectMap
unfolding do_add
add key created m = do_add key 1 created m

unfoldable pub get : ℕ → ObjectMap → Option ℕ × ObjectMap
unfolding inc
get key m = elim (find key m.live) [
  | none ↦ (none, m)
  | some v ↦ (some v.object, record m { live = put key (inc v) m.live })
]

-- An entry that leaves the map goes to Destroy() if nobody has it, and waits in `_drop` if not.
unfoldable pub retire : ℕ → Counted → ObjectMap → ObjectMap
unfolding insert_multi
retire key v m =
    if v.refs == 0
    then record m { destroyed = v.object ∷ m.destroyed }
    else record m { drop = insert_multi key v m.drop }

-- DoErase(), which is Erase().
unfoldable pub erase_key : ℕ → ObjectMap → ObjectMap
unfolding retire
erase_key key m = elim (find key m.live) [
  | none ↦ m
  | some v ↦ record (retire key v m) { live = erase key m.live; ptr = none }
]

unfoldable pub retire_loop : Entries → ObjectMap → ObjectMap
retire_loop [] m = m
retire_loop ((key, v) ∷ l) m = retire_loop l (retire key v m)

-- EraseAll() up to its wait.
unfoldable pub erase_all : ObjectMap → ObjectMap
unfolding retire_loop
erase_all m = record (retire_loop m.live m) { live = []; ptr = none }

-- Whether a thread in EraseAll() may leave it.
unfoldable pub may_return : Bool → ObjectMap → Bool
may_return wait_until_empty m = not wait_until_empty || length m.drop == 0

-- The loop of EraseAll(), at its test: it is left, or the thread sleeps in `_condition`.
unfoldable pub wait_dropped : Bool → ObjectMap → Bool × ObjectMap
unfolding may_return
wait_dropped wait_until_empty m =
    if may_return wait_until_empty m
    then (true, m)
    else (false, record m { sleeping = m.sleeping + 1 })

-- EraseAll(), up to its return or its sleep.
unfoldable pub erase_all_wait : Bool → ObjectMap → Bool × ObjectMap
unfolding erase_all wait_dropped
erase_all_wait wait_until_empty m = wait_dropped wait_until_empty (erase_all m)

-- A thread that was woken is back at the test.
unfoldable pub resume_wait : ObjectMap → Bool × ObjectMap
unfolding wait_dropped
resume_wait m = wait_dropped true (record m { woken = m.woken - 1 })

-- _condition.WakeAll(), where an object has gone, on the threads that sleep and those that are woken.
unfoldable pub wake_all : Option ℕ → ℕ → ℕ → ℕ × ℕ
wake_all none asleep awake = (asleep, awake)
wake_all (some o) asleep awake = (0, awake + asleep)

-- The loop of Release() over `_drop`: what it leaves, and the object that goes to Destroy().
unfoldable pub release_drop : ℕ → ℕ → Entries → Entries × Option ℕ
unfolding dec
release_drop key o [] = ([], none)
release_drop key o ((j, v) ∷ l) =
    let (rest, gone) = release_drop key o l in
    if j == key && v.object == o
    then (if (dec v).refs == 0 then (l, some o) else ((j, dec v) ∷ l, none))
    else ((j, v) ∷ rest, gone)

unfoldable pub push_gone : Option ℕ → List ℕ → List ℕ
push_gone none l = l
push_gone (some o) l = o ∷ l

unfoldable pub release_dropped : ℕ → ℕ → ObjectMap → ObjectMap
unfolding release_drop push_gone wake_all
release_dropped key o m =
    let (left, gone) = release_drop key o m.drop in
    let (asleep, awake) = wake_all gone m.sleeping m.woken in
    record m {
      drop = left;
      destroyed = push_gone gone m.destroyed;
      sleeping = asleep;
      woken = awake;
    }

unfoldable pub release : ℕ → ℕ → ObjectMap → ObjectMap
unfolding release_dropped dec
release key o m = elim (find key m.live) [
  | none ↦ release_dropped key o m
  | some v ↦
      if v.object == o then record m { live = put key (dec v) m.live } else release_dropped key o m
]

-- The first entry, and the first behind a key.
unfoldable pub first : Entries → Option (ℕ × Counted)
first [] = none
first (e ∷ l) = some e

unfoldable pub after_key : ℕ → Entries → Option (ℕ × Counted)
after_key key [] = none
after_key key ((j, v) ∷ l) = let rest = after_key key l in if ltb key j then some (j, v) else rest

-- Where GetNext() stands afterwards.
unfoldable pub next_entry : Option ℕ → Entries → Option (ℕ × Counted)
unfolding first after_key
next_entry none l = first l
next_entry (some key) l = elim (after_key key l) [ none ↦ first l | some e ↦ some e ]

unfoldable pub get_next : ObjectMap → Option (ℕ × ℕ) × ObjectMap
unfolding next_entry inc
get_next m = elim (next_entry m.ptr m.live) [
  | none ↦ (none, m)
  | some (key, v) ↦
      (some (key, v.object), record m { live = put key (inc v) m.live; ptr = some key })
]

-- The first loop of SetAll(), over the keys, each with what Create() would give for it.
pub add_missing : List (ℕ × Option ℕ) → ObjectMap → ObjectMap
unfolding do_add
add_missing [] m = m
add_missing ((key, created) ∷ keys) m =
    add_missing keys (elim (find key m.live) [ some _ ↦ m | none ↦ (do_add key 0 created m).1 ])

unfoldable pub is_among : ℕ → List (ℕ × Option ℕ) → Bool
is_among key [] = false
is_among key ((k, _) ∷ keys) = k == key || is_among key keys

pub gone_keys : List (ℕ × Option ℕ) → Entries → List ℕ
unfolding is_among
gone_keys keys [] = []
gone_keys keys ((j, v) ∷ l) = if is_among j keys then gone_keys keys l else j ∷ gone_keys keys l

pub erase_keys : List ℕ → ObjectMap → ObjectMap
unfolding erase_key
erase_keys [] m = m
erase_keys (key ∷ keys) m = erase_keys keys (erase_key key m)

unfoldable pub set_all : List (ℕ × Option ℕ) → ObjectMap → ObjectMap
unfolding add_missing gone_keys erase_keys
set_all keys m = let m' = add_missing keys m in erase_keys (gone_keys keys m'.live) m'

pub destroy_all : Entries → List ℕ → List ℕ
destroy_all [] destroyed = destroyed
destroy_all ((j, v) ∷ l) destroyed = destroy_all l (v.object ∷ destroyed)

unfoldable pub clear : ObjectMap → ObjectMap
unfolding destroy_all
clear m = record m {
  live = [];
  drop = [];
  ptr = none;
  destroyed = destroy_all m.live (destroy_all m.drop m.destroyed);
}
