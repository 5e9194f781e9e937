-- ===== src/ObjectMap/Tests.antt =====
-- Runs of the map of flinter/object_map.h.
use flinter.Base.{◌+◌, true, ◌<◌, ◌≡◌, refl, arith, none, some, [], ◌∷◌}
use flinter.Base.Map.{find, put, erase, total}
use flinter.ObjectMap.{
  wait_dropped, erase_all_wait, retire_loop, wake_all, push_gone, ObjectMap, inc, dec, add,
  erase_key, erase_all, may_return, release, release_drop, release_dropped, insert_multi, retire,
}
use flinter.ObjectMap.Totals.{refs_of, entries_of}
use flinter.ObjectMap.Accounts.{times, entries_with}
use flinter.ObjectMap.Sharing.{System, Step, Reach, count, drop_one, Reach-held}

abbrev empty : ObjectMap
empty = record {
  live = [];
  drop = [];
  ptr = none;
  made = [];
  destroyed = [];
  sleeping = 0;
  woken = 0;
}

-- Object 7 of key 1 is erased while it is held, and destroyed when it is given back.
erased_then_released : (release 1 7 (erase_key 1 (add 1 (some 7) empty).1)).destroyed ≡ 7 ∷ []
unfolding add erase_key release find put inc dec release_dropped release_drop insert_multi retire
    erase
erased_then_released = refl

abbrev one_held : System
one_held = record { map = (add 1 (some 7) empty).1; held = (1, 7) ∷ []; waiters = 0 }

one_held-Reach : Reach one_held
unfolding add entries_of count find total
one_held-Reach =
    Reach.after Reach.start (Step.add_step 1 7 (some 7) refl (ground arith) (λ gone. refl))

Reach-held_example :
    (refs_of 1 7 one_held.map ≡ count 1 7 one_held.held)
    × (0 < count 1 7 one_held.held
        → (entries_of 1 7 one_held.map ≡ 1)
          × (times 7 one_held.map.destroyed < times 7 one_held.map.made))
    × (times 7 one_held.map.made ≡ entries_with 7 one_held.map + times 7 one_held.map.destroyed)
Reach-held_example = Reach-held one_held-Reach 1 7

-- A thread waits in EraseAll() for object 7, which is given back: the thread is woken.
abbrev waiting : System
waiting = record { map = (erase_all_wait true one_held.map).1; held = one_held.held; waiters = 1 }

abbrev given_back : System
given_back = record { map = release 1 7 waiting.map; held = drop_one 1 7 waiting.held; waiters = 1 }

one_woken : (given_back.map.woken ≡ 1) × (given_back.map.destroyed ≡ 7 ∷ [])
unfolding release release_dropped release_drop wake_all push_gone dec erase_all_wait wait_dropped
    may_return erase_all retire retire_loop add find put insert_multi
one_woken = (refl, refl)
