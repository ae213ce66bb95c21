-- ===== src/Process.antt =====
-- kernel/process.c and include/arwill/kernel/process.h: the table of processes, how one is added and how those
-- that are ready are run. What the processor does on a switch of contexts is a parameter: of the call from
-- the scheduler to a process it is what becomes of the manager until the process switches back.
pub mod Spawn
pub mod Rounds
pub mod Added
pub mod Turns
mod Tests
use arwill.Prelude.{
  is_none, ℕ, zero, suc, ◌+◌, Bool, true, false, not, ◌&&◌, ◌||◌, if◌then◌else◌, ◌==◌, u32, u64,
  Option, none, some, List, [], ◌∷◌, length, get_or, set, replicate,
}

-- `enum arwill_process_state`
pub data State : Type 0 where
  empty ready running finished : State

-- `enum arwill_process_kind`
pub data Kind : Type 0 where
  kernel system : Kind

unfoldable pub is_state : State → State → Bool
is_state empty empty = true
is_state ready ready = true
is_state running running = true
is_state finished finished = true
is_state _ _ = false

unfoldable pub is_kind : Kind → Kind → Bool
is_kind kernel kernel = true
is_kind system system = true
is_kind _ _ = false

abbrev pub table_capacity : ℕ
table_capacity = 8

-- `struct arwill_process`; the entry is the address of a function, and `C` is the type of saved contexts.
pub record Process (C : Type 0) : Type 0 where
  pub pid : ℕ
  pub name : List ℕ
  pub kind : Kind
  pub state : State
  pub exit_code : ℕ
  pub run_count : ℕ
  pub entry : Option ℕ
  pub context : ℕ
  pub saved_context : C

-- `struct arwill_process_manager`; the current process is the slot that it has in the table, and the
-- scheduler's context is the frame of the call that runs processes.
pub record Manager (C : Type 0) : Type 0 where
  pub table : List (Process C)
  pub current : Option ℕ
  pub scheduler_context : Option ℕ
  pub next_pid : ℕ

module _ {C : Type 0} (no_context : C) where
  -- `clear_process`
  unfoldable pub clear_process : Process C
  clear_process = record {
    pid = 0;
    name = [];
    kind = kernel;
    state = empty;
    exit_code = 0;
    run_count = 0;
    entry = none;
    context = 0;
    saved_context = no_context;
  }

  -- `arwill_process_manager_init`
  unfoldable pub init : Manager C
  init = record {
    table = replicate table_capacity clear_process;
    current = none;
    scheduler_context = none;
    next_pid = 1;
  }

  -- a loop of `find_spawn_slot`: the first slot in that state, from `index` on
  unfoldable pub find_state : State → List (Process C) → ℕ → Option ℕ
  find_state s [] index = none
  find_state s (p ∷ table) index =
      let later = find_state s table (index + 1) in if is_state p.state s then some index else later

  -- `find_spawn_slot`
  unfoldable pub find_spawn_slot : List (Process C) → Option ℕ
  find_spawn_slot table = elim (find_state empty table 0) [
    | none ↦ find_state finished table 0
    | some slot ↦ some slot
  ]

  -- `spawn_process`, where no pointer is null: the new pid, or `none` for failure. `initialize` gives the
  -- saved context of the process in a slot, or fails.
  unfoldable pub spawn_process :
      (ℕ → Option C) → Manager C → List ℕ → Kind → ℕ → ℕ → Option ℕ × Manager C
  spawn_process initialize m name kind entry context = elim (find_spawn_slot m.table) [
    | none ↦ (none, m)
    | some slot ↦
        (let advanced = u32 (m.next_pid + 1) in
          let next = if advanced == 0 then 1 else advanced in
          elim (initialize slot) [
            | none ↦ (none, record m { next_pid = next; table = set m.table slot clear_process })
            | some saved ↦ (
              some m.next_pid,
              record m {
                next_pid = next;
                table = set m.table slot (record {
                  pid = m.next_pid;
                  name = name;
                  kind = kind;
                  state = ready;
                  exit_code = 0;
                  run_count = 0;
                  entry = some entry;
                  context = context;
                  saved_context = saved;
                });
              },
            )
          ])
  ]

  -- `arwill_process_spawn` and `arwill_process_spawn_system`
  unfoldable pub spawn : (ℕ → Option C) → Manager C → List ℕ → ℕ → ℕ → Option ℕ × Manager C
  spawn initialize m name entry context = spawn_process initialize m name kernel entry context

  unfoldable pub spawn_system : (ℕ → Option C) → Manager C → List ℕ → ℕ → ℕ → Option ℕ × Manager C
  spawn_system initialize m name entry context =
      spawn_process initialize m name system entry context

  -- the entry of the table in a slot
  abbrev pub slot_of : Manager C → ℕ → Process C
  slot_of m i = get_or m.table i clear_process

  -- One round of the loop of `run_ready_kind`, in the call whose frame is given: whether a process ran.
  unfoldable pub run_slot :
      (ℕ → Manager C → Manager C) → ℕ → Kind → Manager C → ℕ → Bool × Manager C
  run_slot switch frame kind m i =
      let p = slot_of m i in
      let started = record m {
        table = set m.table i (record p { state = running; run_count = u64 (p.run_count + 1) });
        current = some i;
        scheduler_context = some frame;
      } in
      let returned = switch i started in
      if not (is_state p.state ready) || not (is_kind p.kind kind)
      then (false, m)
      else (true, record returned { current = m.current; scheduler_context = m.scheduler_context })

  -- The loop, with so many slots left, from a slot on: how many processes ran.
  unfoldable pub run_slots :
      (ℕ → Manager C → Manager C) → ℕ → Kind → ℕ → Manager C → ℕ → ℕ × Manager C
  run_slots switch frame kind zero m i = (0, m)
  run_slots switch frame kind (suc left) m i =
      let (ran, m') = run_slot switch frame kind m i in
      let (count, m'') = run_slots switch frame kind left m' (i + 1) in
      (if ran then count + 1 else count, m'')

  -- `run_ready_kind`
  unfoldable pub run_ready_kind : (ℕ → Manager C → Manager C) → ℕ → Kind → Manager C → ℕ × Manager C
  run_ready_kind switch frame kind m = run_slots switch frame kind table_capacity m 0

  -- `arwill_process_run_ready` and `arwill_process_run_system`
  unfoldable pub run_ready : (ℕ → Manager C → Manager C) → ℕ → Manager C → ℕ × Manager C
  run_ready switch frame m = run_ready_kind switch frame kernel m

  unfoldable pub run_system : (ℕ → Manager C → Manager C) → ℕ → Manager C → ℕ × Manager C
  run_system switch frame m = run_ready_kind switch frame system m

  -- `arwill_process_yield` of the process with that pid, up to its switch to the scheduler: the manager then,
  -- or `none` where it returns without one.
  unfoldable pub yield_out : ℕ → Manager C → Option (Manager C)
  yield_out pid m = elim (m.current) [
    | none ↦ none
    | some i ↦
        (if not ((slot_of m i).pid == pid) || is_none m.scheduler_context
          then none
          else some (record m {
            table = set m.table i (record (slot_of m i) { state = ready });
            current = none;
          }))
  ]

  -- `process_trampoline` behind the call of the process in a slot, with the code that it gave: the manager at
  -- its switch to the scheduler, or `none` where it never switches.
  unfoldable pub finish_out : ℕ → ℕ → Manager C → Option (Manager C)
  finish_out i exit_code m =
      if is_none m.scheduler_context
      then none
      else some (record m {
        table = set m.table i (record (slot_of m i) { state = finished; exit_code = exit_code });
        current = none;
      })
