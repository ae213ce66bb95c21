-- ===== src/Process/Tests.antt =====
-- A table with a finished process and a ready one, and a processor on which every process adds another one, runs
-- those that are ready and ends.
use arwill.Prelude.{
  ℕ, ◌<◌, ◌≡◌, ◌⊎◌, refl, ap, ◌∙◌, false, Option, none, some, [], ◌∷◌, replicate, codes, is_none,
}
use arwill.Process.{
  Process, Manager, kernel, ready, finished, table_capacity, spawn_process, run_ready_kind,
  finish_out,
}
use arwill.Process.Spawn.{Spawned, spawn_process-Spawned}
use arwill.Process.Rounds.{Keeps, Started, IsIdle}
use arwill.Process.Turns.{
  Acts, nothing, spawns, runs, Turn, finishes, Acts-Keeps, run_ready_kind_lem,
}

abbrev cleared : Process ℕ
cleared = record {
  pid = 0;
  name = [];
  kind = kernel;
  state = finished;
  exit_code = 0;
  run_count = 0;
  entry = none;
  context = 0;
  saved_context = 0;
}

abbrev two_processes : Manager ℕ
two_processes = record {
  table =
      cleared ∷ record cleared { pid = 1; state = ready; entry = some 4096 } ∷ replicate 6 cleared;
  current = none;
  scheduler_context = none;
  next_pid = 2;
}

-- the manager that is given, or the one from before where there is none
abbrev given : Manager ℕ → Option (Manager ℕ) → Manager ℕ
given m none = m
given m (some m') = m'

-- the process ends
abbrev ending : ℕ → Manager ℕ → Manager ℕ
ending i m = given m (finish_out 0 i 7 m)

-- the process adds another one, runs those that are ready, and ends
abbrev nested : Manager ℕ → Manager ℕ
nested m =
    (run_ready_kind 0 ending 2 kernel
      ((spawn_process 0 (λ slot. some slot) m (codes "child") kernel 8192 0).1)).1

abbrev nesting : ℕ → Manager ℕ → Manager ℕ
nesting i m = ending i (nested m)

ends :
    (i : ℕ) (n : Manager ℕ)
    → is_none n.scheduler_context ≡ false
    → finish_out 0 i 7 n ≡ some (ending i n)
unfolding finish_out
ends i n framed = rw framed refl

ending-Turn : (i : ℕ) (n : Manager ℕ) → Started 0 n i → Turn 0 i n (ending i n)
ending-Turn i n started = finishes i n n (ending i n) 7 (nothing n) (ends i n started.has_frame)

nested-Acts : (n : Manager ℕ) → Acts 0 n (nested n)
nested-Acts n =
    spawns n (nested n) (λ slot. some slot) (codes "child") kernel 8192 0
      (runs ((spawn_process 0 (λ slot. some slot) n (codes "child") kernel 8192 0).1) (nested n)
        ending 2 kernel ending-Turn (nothing (nested n)))

nesting-Turn : (i : ℕ) (n : Manager ℕ) → Started 0 n i → Turn 0 i n (nesting i n)
nesting-Turn i n started =
    let acts = nested-Acts n in
    let kept = Acts-Keeps 0 acts started.whole in
    finishes i n (nested n) (nesting i n) 7 acts
      (ends i (nested n) (ap is_none kept.scheduler ∙ started.has_frame))

run_ready_kind_lem_example :
    let (count, after) = run_ready_kind 0 nesting 1 kernel two_processes in
    Keeps 0 two_processes after
    × ((IsIdle 0 kernel two_processes table_capacity 0 × (count ≡ 0) × (after ≡ two_processes))
        ⊎ (¬ (IsIdle 0 kernel two_processes table_capacity 0) × (0 < count)))
run_ready_kind_lem_example = run_ready_kind_lem 0 nesting 1 kernel two_processes refl nesting-Turn

spawn_process-Spawned_example :
    Spawned 0
      (λ slot. some slot)
      two_processes
      kernel
      (spawn_process 0 (λ slot. some slot) two_processes (codes "idle") kernel 8192 0)
spawn_process-Spawned_example =
    spawn_process-Spawned 0 (λ slot. some slot) two_processes (codes "idle") kernel 8192 0
