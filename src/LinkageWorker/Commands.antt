-- ===== src/LinkageWorker/Commands.antt =====
-- What OnCommand() does to the commands that it takes.
use flinter.Base.{
  ℕ, ◌≡◌, refl, ap, ◌∙◌, append-nil, Bool, true, false, Option, none, some, List, [], ◌∷◌, ◌++◌,
}
use flinter.LinkageWorker.{LinkageWorker, Commanded, run_commands, pointers, on_command}

-- Commands as they stand in the queue.
unfoldable pub queued : List ℕ → List (Option ℕ)
queued [] = []
queued (c ∷ cs) = some c ∷ queued cs

abbrev pub AllRun : (ℕ → Bool) → List ℕ → Type 0
AllRun runs [] = Unit {0}
AllRun runs (c ∷ cs) = (runs c ≡ true) × AllRun runs cs

run_commands-queued :
    (runs : ℕ → Bool) (cs : List ℕ) (rest : List (Option ℕ))
    → AllRun runs cs
    → run_commands runs (queued cs ++ rest)
      ≡ record { ran = cs ++ (run_commands runs rest).ran; ends = (run_commands runs rest).ends }
unfolding run_commands queued
run_commands-queued runs [] rest h = refl
run_commands-queued runs (c ∷ cs) rest (e, h) = rw (e, run_commands-queued runs cs rest h) refl

on_command-goes :
    (runs : ℕ → Bool) (k : LinkageWorker)
    → (run_commands runs k.commands).ends ≡ false
    → on_command runs k ≡ (
      (run_commands runs k.commands).ran,
      record k { commands = []; deleted = pointers k.commands ++ k.deleted },
    )
unfolding on_command
on_command-goes runs k e = rw e refl

on_command-ends :
    (runs : ℕ → Bool) (k : LinkageWorker)
    → (run_commands runs k.commands).ends ≡ true
    → on_command runs k
      ≡ ((run_commands runs k.commands).ran, record k { commands = []; quit = true })
unfolding on_command
on_command-ends runs k e = rw e refl

pointers-queued :
    (cs : List ℕ) (rest : List (Option ℕ)) → pointers (queued cs ++ rest) ≡ cs ++ pointers rest
unfolding pointers queued
pointers-queued [] rest = refl
pointers-queued (c ∷ cs) rest = ap (λ q. c ∷ q) (pointers-queued cs rest)

-- Behind commands that succeed, the rest of the queue says how it ends.
module _ (runs : ℕ → Bool) (cs : List ℕ) (rest : List (Option ℕ)) (k : LinkageWorker)
    (h : AllRun runs cs) where
  queued-goes :
      (run_commands runs rest).ends ≡ false
      → on_command runs (record k { commands = queued cs ++ rest }) ≡ (
        cs ++ (run_commands runs rest).ran,
        record k { commands = []; deleted = (cs ++ pointers rest) ++ k.deleted },
      )
  queued-goes e =
      let same = run_commands-queued runs cs rest h in
      on_command-goes runs (record k { commands = queued cs ++ rest })
        (ap (λ (x : Commanded). x.ends) same ∙ e)
      ∙ rw (same, pointers-queued cs rest) refl

  queued-ends :
      (run_commands runs rest).ends ≡ true
      → on_command runs (record k { commands = queued cs ++ rest })
        ≡ (cs ++ (run_commands runs rest).ran, record k { commands = []; quit = true })
  queued-ends e =
      let same = run_commands-queued runs cs rest h in
      on_command-ends runs (record k { commands = queued cs ++ rest })
        (ap (λ (x : Commanded). x.ends) same ∙ e)
      ∙ rw same refl

fails-ran :
    (runs : ℕ → Bool) (c : ℕ) (rest : List (Option ℕ))
    → runs c ≡ false
    → run_commands runs (some c ∷ rest) ≡ record { ran = c ∷ []; ends = false }
unfolding run_commands
fails-ran runs c rest f = rw f refl

-- Where commands that succeed stand before a NULL, OnCommand() runs these, ends the loop, and deletes no command, be it
-- one of these or one behind. Where they stand before one that fails, it runs these and that one, deletes all that it has
-- taken, and lets the loop go on, even if a NULL stands behind. Where nothing else stands in the queue, it
-- runs and deletes them all.
pub on_command-cases :
    (runs : ℕ → Bool) (cs : List ℕ) (c : ℕ) (rest : List (Option ℕ)) (k : LinkageWorker)
    → AllRun runs cs
    → runs c ≡ false
    → (on_command runs (record k { commands = queued cs ++ none ∷ rest })
        ≡ (cs, record k { commands = []; quit = true }))
      × (on_command runs (record k { commands = queued cs ++ some c ∷ rest }) ≡ (
        cs ++ c ∷ [],
        record k { commands = []; deleted = (cs ++ c ∷ pointers rest) ++ k.deleted },
      ))
      × (on_command runs (record k { commands = queued cs })
          ≡ (cs, record k { commands = []; deleted = cs ++ k.deleted }))
unfolding run_commands pointers
on_command-cases runs cs c rest k h f =
    let fails = fails-ran runs c rest f in
    let ended = queued-ends runs cs (none ∷ rest) k h refl in
    let failed = queued-goes runs cs (some c ∷ rest) k h (ap (λ (x : Commanded). x.ends) fails) in
    let all = queued-goes runs cs [] k h refl in
    (
      (rw (append-nil cs) at ended),
      (rw fails at failed),
      (rw (append-nil (queued cs), append-nil cs) at all),
    )
