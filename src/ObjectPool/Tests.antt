-- ===== src/ObjectPool/Tests.antt =====
-- Runs of the pool of flinter/object_pool.h.
use flinter.Base.{◌≡◌, refl, some, List, [], ◌∷◌}
use flinter.Base.Int.{pos}
use flinter.ObjectPool.{Entry, grab, grab_new, release}
use flinter.ObjectPool.Sharing.{System}

-- Object 7 is created, given back at time 5, and taken again.
abbrev one_object : List Entry
one_object = (grab (some 7) []).1

grab_again : (grab (some 8) (release 7 (pos 5) one_object)).0 ≡ some 7
unfolding grab grab_new release
grab_again = refl

abbrev held_once : System
held_once = record { pool = grab_new 7 []; held = 7 ∷ [] }
