-- ===== src/ObjectPool.antt =====
-- class ObjectPool of flinter/object_pool.h. An object is its address; the pool is the list `_pool`.
-- Each function is one stretch under the pool's mutex; Grab() lets the mutex go before Create(), so
-- it is two of them. Create() and Destroy() are the subclass's: what Create() gave is an argument, and
-- what goes to Destroy() is a result.
pub mod Sharing
mod Tests
use flinter.Base.{
  ℕ, Bool, true, false, not, ◌&&◌, ◌||◌, ◌==◌, if◌then◌else◌, Option, none, some, List, [], ◌∷◌,
  ◌++◌,
}
use flinter.Base.Int.{ℤ, pos, negsuc, ◌-ℤ◌, ltb_ℤ}

-- The structure object_t.
pub record Entry : Type 0 where
  pub object : ℕ
  pub in_use : Bool
  pub timestamp : ℤ

-- Grab(), under the first lock: the first object that is not in use.
pub grab_idle : List Entry → Option (ℕ × List Entry)
grab_idle [] = none
grab_idle (e ∷ pool) =
    let rest = grab_idle pool in
    if not e.in_use
    then some (e.object, record e { in_use = true } ∷ pool)
    else elim rest [ none ↦ none | some (o, pool') ↦ some (o, e ∷ pool') ]

-- Grab(), under the second lock.
unfoldable pub grab_new : ℕ → List Entry → List Entry
grab_new o pool = pool ++ record { object = o; in_use = true; timestamp = negsuc 0 } ∷ []

-- Grab() that no other thread comes between: `created` is what Create() would give.
unfoldable pub grab : Option ℕ → List Entry → Option ℕ × List Entry
unfolding grab_idle grab_new
grab created pool = elim (grab_idle pool) [
  | some (o, pool') ↦ (some o, pool')
  | none ↦ elim created [ none ↦ (none, pool) | some o ↦ (some o, grab_new o pool) ]
]

-- Remove(), which calls Destroy() in any case.
pub remove : ℕ → List Entry → List Entry
remove o [] = []
remove o (e ∷ pool) = let rest = remove o pool in if e.object == o then pool else e ∷ rest

-- Exchange().
unfoldable pub exchange : ℕ → Option ℕ → List Entry → Option ℕ × List Entry
unfolding remove grab
exchange o created pool = grab created (remove o pool)

-- Release().
pub release : ℕ → ℤ → List Entry → List Entry
release o now [] = []
release o now (e ∷ pool) =
    let rest = release o now pool in
    if e.object == o then record e { in_use = false; timestamp = now } ∷ pool else e ∷ rest

-- The test of Clear().
unfoldable pub is_gone : Bool → ℤ → Entry → Bool
is_gone all deadline e = all || (not e.in_use && ltb_ℤ e.timestamp deadline)

-- The loop of Clear(): the objects that go to Destroy(), and what is left.
pub clear_loop : Bool → ℤ → List Entry → List ℕ × List Entry
unfolding is_gone
clear_loop all deadline [] = ([], [])
clear_loop all deadline (e ∷ pool) =
    let (gone, left) = clear_loop all deadline pool in
    if is_gone all deadline e then (e.object ∷ gone, left) else (gone, e ∷ left)

unfoldable pub clear : Bool → ℤ → ℤ → List Entry → List ℕ × List Entry
unfolding clear_loop
clear all now max_idle_time pool = clear_loop all (now -ℤ max_idle_time) pool

unfoldable pub shrink : ℤ → ℤ → List Entry → List ℕ × List Entry
unfolding clear
shrink now max_idle_time pool = clear false now max_idle_time pool
