-- ===== src/Process/Added.antt =====
-- What `spawn_process` of kernel/process.c leaves alone of the processes that run.
use arwill.Prelude.{
  ℕ, ◌+◌, ◌≡◌, ◌≢◌, refl, subst, ap, sym, ◌∙◌, inl, inr, false, not, ◌&&◌, if◌then◌else◌, ◌==◌, u32,
  Bool-cases, Option, none, some, List, length, set, arith,
}
use arwill.Prelude.Lists.{length-set}
use arwill.Process.{
  State, empty, ready, running, finished, Kind, is_state, Process, Manager, clear_process, slot_of,
  find_spawn_slot, spawn_process,
}
use arwill.Process.Spawn.{spawn_process-Spawned}
use arwill.Process.Rounds.{is_running, Keeps, Keeps-self}

not_busy :
    (s : State)
    → (not (is_state s empty) && not (is_state s finished)) ≡ false
    → is_state s running ≡ false
unfolding is_state
not_busy empty h = refl
not_busy ready h = refl
not_busy running h = absurd (ground arith)
not_busy finished h = refl

module _ {C : Type 0} (no_context : C) where
  -- Adding a process leaves the table's size, the current process and the scheduler's context.
  spawn_process-same :
      (initialize : ℕ → Option C) (m : Manager C) (name : List ℕ) (kind : Kind) (entry context : ℕ)
      → let m' = (spawn_process no_context initialize m name kind entry context).1 in
        (length m'.table ≡ length m.table)
        × (m'.current ≡ m.current)
        × (m'.scheduler_context ≡ m.scheduler_context)
  unfolding spawn_process
  spawn_process-same initialize m name kind entry context = go (find_spawn_slot no_context m.table)
    where
      Same : Manager C → Type 0
      Same m' =
          (length m'.table ≡ length m.table)
          × (m'.current ≡ m.current)
          × (m'.scheduler_context ≡ m.scheduler_context)

      next : ℕ
      next = if u32 (m.next_pid + 1) == 0 then 1 else u32 (m.next_pid + 1)

      new : C → Process C
      new saved = record {
        pid = m.next_pid;
        name = name;
        kind = kind;
        state = ready;
        exit_code = 0;
        run_count = 0;
        entry = some entry;
        context = context;
        saved_context = saved;
      }

      with_context : ℕ → Option C → Option ℕ × Manager C
      with_context slot o = elim o [
        | none ↦ (
          none,
          record m { next_pid = next; table = set m.table slot (clear_process no_context) },
        )
        | some saved ↦
            (some m.next_pid, record m { next_pid = next; table = set m.table slot (new saved) })
      ]

      put : (slot : ℕ) (o : Option C) → Same ((with_context slot o).1)
      put slot none = (length-set m.table slot (clear_process no_context), refl, refl)
      put slot (some saved) = (length-set m.table slot (new saved), refl, refl)

      found : Option ℕ → Option ℕ × Manager C
      found o = elim o [ none ↦ (none, m) | some slot ↦ with_context slot (initialize slot) ]

      go : (o : Option ℕ) → Same ((found o).1)
      go none = (refl, refl, refl)
      go (some slot) = put slot (initialize slot)

  cleared_waits : is_state ((clear_process no_context).state) running ≡ false
  unfolding clear_process is_state
  cleared_waits = refl

  ready_waits : is_state ready running ≡ false
  unfolding is_state
  ready_waits = refl

  -- Adding a process leaves those that run, and the new one does not run yet.
  pub spawn_process-Keeps :
      (initialize : ℕ → Option C) (m : Manager C) (name : List ℕ) (kind : Kind) (entry context : ℕ)
      → Keeps no_context m ((spawn_process no_context initialize m name kind entry context).1)
  spawn_process-Keeps initialize m name kind entry context =
      let m' = (spawn_process no_context initialize m name kind entry context).1 in
      let (size, current, scheduler) = spawn_process-same initialize m name kind entry context in
      elim (spawn_process-Spawned no_context initialize m name kind entry context) [
        | inl (_, _, same) ↦ subst (λ n. Keeps no_context m n) (sym same) (Keeps-self no_context m)
        | inr (slot, free, others, new) ↦
            let idle : is_running no_context m slot ≡ false =
              not_busy ((slot_of no_context m slot).state) free in
            let waits : is_running no_context m' slot ≡ false = elim new [
              | inl (_, _, cleared) ↦ rw cleared cleared_waits
              | inr (_, _, _, is_ready) ↦ rw is_ready ready_waits
            ] in
            record {
              size = size;
              runners = λ j h. others j (λ e. cc (h, idle, ap (is_running no_context m) e));
              no_more = λ j h. elim (Bool-cases (j == slot)) [
                | inl here ↦
                    let e : slot ≡ j = ground (arith, here) in
                    subst (λ k. is_running no_context m' k ≡ false) e waits
                | inr apart ↦
                    let ne : slot ≢ j = λ e. ground (arith, apart, e) in
                    ap (λ (p : Process C). is_state p.state running) (others j ne) ∙ h
              ];
              current = current;
              scheduler = scheduler;
            }
      ]
