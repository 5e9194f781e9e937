-- ===== src/ObjectPool/Sharing.antt =====
-- Whom the objects of an ObjectPool belong to, in any order of the threads' calls.
use flinter.Base.{
  ℕ, ◌+◌, ◌<◌, ◌≤◌, ◌≡◌, Bool, true, false, ◌&&◌, ◌==◌, if◌then◌else◌, some, List, [], ◌∷◌,
}
use flinter.Base.Int.{ℤ}
use flinter.ObjectPool.{Entry, grab_idle, grab_new, remove, release, shrink}

-- How often an object stands in a list.
abbrev pub one_if : Bool → ℕ
one_if true = 1
one_if false = 0

pub count : ℕ → List ℕ → ℕ
count x [] = 0
count x (o ∷ l) = one_if (o == x) + count x l

pub drop_one : ℕ → List ℕ → List ℕ
drop_one x [] = []
drop_one x (o ∷ l) = let rest = drop_one x l in if o == x then l else o ∷ rest

-- How many entries of the pool an object has, and how many that are in use.
unfoldable pub entries : ℕ → List Entry → ℕ
entries x [] = 0
entries x (e ∷ pool) = one_if (e.object == x) + entries x pool

pub uses : ℕ → List Entry → ℕ
uses x [] = 0
uses x (e ∷ pool) = one_if (e.object == x && e.in_use) + uses x pool

-- The pool and the objects that threads hold, in the order in which they took them.
pub record System : Type 0 where
  pub pool : List Entry
  pub held : List ℕ

-- A thread takes the mutex for one of the pool's steps. An object that is given back or removed is
-- held by the thread that does so; Create() gives no object that the pool has.
pub data Step (s : System) : System → Type 0 where
  reuse :
      {o : ℕ} {pool' : List Entry}
      → grab_idle s.pool ≡ some (o, pool')
      → Step s (record { pool = pool'; held = o ∷ s.held })
  create :
      (o : ℕ)
      → entries o s.pool ≡ 0
      → Step s (record { pool = grab_new o s.pool; held = o ∷ s.held })
  give_back :
      (o : ℕ) (now : ℤ)
      → 0 < count o s.held
      → Step s (record { pool = release o now s.pool; held = drop_one o s.held })
  discard :
      (o : ℕ)
      → 0 < count o s.held
      → Step s (record { pool = remove o s.pool; held = drop_one o s.held })
  trim :
      (now max_idle_time : ℤ)
      → Step s (record { pool = (shrink now max_idle_time s.pool).1; held = s.held })

pub data Reach : System → Type 0 where
  start : Reach (record { pool = []; held = [] })
  after : {s t : System} → Reach s → Step s t → Reach t

-- The entries in use are the objects that are held, and no object has two entries.
Owned : System → Type 0
Owned s = (x : ℕ) → (uses x s.pool ≡ count x s.held) × (entries x s.pool ≤ 1)
