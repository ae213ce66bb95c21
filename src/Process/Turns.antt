-- ===== src/Process/Turns.antt =====
-- The turn of a process in kernel/process.c and kernel/shell.c: it adds processes, runs the ready processes of
-- a kind inside its own turn, and then gives the processor back by `arwill_process_yield` or by its end.
use arwill.Prelude.{
  ℕ, ◌<◌, ◌≡◌, ◌≢◌, ◌⊎◌, refl, subst, ap, ◌∙◌, inl, inr, true, false, ◌||◌, ◌==◌, Option, none,
  some, List, length, set, is_none, arith,
}
use mathlib.Core.Option.{some-injective}
use arwill.Prelude.Lists.{length-set, get_or-set_self, get_or-set_ne}
use arwill.Process.{
  ready, running, finished, Kind, is_state, Process, Manager, table_capacity, clear_process,
  slot_of, spawn_process, run_ready_kind, yield_out, finish_out,
}
use arwill.Process.Added.{spawn_process-Keeps}
use arwill.Process.Rounds.{
  Keeps, Started, Back, Keeps-self, Keeps-then, run_ready_kind-Keeps, IsIdle, run_slots-IsIdle,
}

module _ {C : Type 0} (no_context : C) where
  mutual
    -- what a process does in its turn, until it gives the processor back
    pub data Acts : Manager C → Manager C → Type 0 where
      nothing : (m : Manager C) → Acts m m
      spawns :
          (m m' : Manager C) (initialize : ℕ → Option C) (name : List ℕ) (kind : Kind)
          (entry context : ℕ)
          → Acts ((spawn_process no_context initialize m name kind entry context).1) m'
          → Acts m m'
      runs :
          (m m' : Manager C) (switch : ℕ → Manager C → Manager C) (frame : ℕ) (kind : Kind)
          → ((i : ℕ) (n : Manager C) → Started no_context n i → Turn i n (switch i n))
          → Acts ((run_ready_kind no_context switch frame kind m).1) m'
          → Acts m m'

    -- the turn of the process in a slot, from the switch to it to its switch back
    pub data Turn : ℕ → Manager C → Manager C → Type 0 where
      yields :
          (i : ℕ) (m n m' : Manager C)
          → Acts m n
          → yield_out no_context ((slot_of no_context m i).pid) n ≡ some m'
          → Turn i m m'
      finishes :
          (i : ℕ) (m n m' : Manager C) (exit_code : ℕ)
          → Acts m n
          → finish_out no_context i exit_code n ≡ some m'
          → Turn i m m'

  -- A process gives the processor back from a manager that was kept.
  gives-Back :
      (m n : Manager C) (i : ℕ) (p : Process C)
      → Started no_context m i
      → Keeps no_context m n
      → (is_state p.state ready || is_state p.state finished) ≡ true
      → Back no_context m (record n { table = set n.table i p; current = none }) i
  gives-Back m n i p started kept done =
      let size = length-set n.table i p in
      let inside : i < length n.table = omega (arith, kept.size, started.whole, started.inside) in
      let here = get_or-set_self n.table i p (clear_process no_context) inside in
      let other : (j : ℕ)
          → i ≢ j
          → slot_of no_context (record n { table = set n.table i p; current = none }) j
            ≡ slot_of no_context n j =
        λ j ne. get_or-set_ne n.table i j p (clear_process no_context) ne in
      record {
        size = size ∙ kept.size;
        settled =
            ap (λ (q : Process C). is_state q.state ready || is_state q.state finished) here ∙ done;
        runners = λ j ne h. other j ne ∙ kept.runners j h;
        no_more = λ j ne h.
            ap (λ (q : Process C). is_state q.state running) (other j ne) ∙ kept.no_more j h;
      }

  yield_out-Back :
      (m n m' : Manager C) (i : ℕ)
      → Started no_context m i
      → Keeps no_context m n
      → yield_out no_context ((slot_of no_context m i).pid) n ≡ some m'
      → Back no_context m m' i
  unfolding yield_out is_state
  yield_out-Back m n m' i started kept out =
      let p : Process C = record (slot_of no_context n i) { state = ready } in
      let current : n.current ≡ some i = kept.current ∙ started.is_current in
      let same = ap (λ (q : Process C). q.pid) (kept.runners i started.runs) in
      let framed : is_none n.scheduler_context ≡ false =
        ap is_none kept.scheduler ∙ started.has_frame in
      let own : ((slot_of no_context n i).pid == (slot_of no_context m i).pid) ≡ true =
        ground (arith, same) in
      subst (λ o. Back no_context m o i)
        (some-injective (record n { table = set n.table i p; current = none }) m'
          (rw (current, own, framed) at out))
        (gives-Back m n i p started kept refl)

  finish_out-Back :
      (m n m' : Manager C) (i exit_code : ℕ)
      → Started no_context m i
      → Keeps no_context m n
      → finish_out no_context i exit_code n ≡ some m'
      → Back no_context m m' i
  unfolding finish_out is_state
  finish_out-Back m n m' i exit_code started kept out =
      let p : Process C = record (slot_of no_context n i) {
        state = finished;
        exit_code = exit_code;
      } in
      let framed : is_none n.scheduler_context ≡ false =
        ap is_none kept.scheduler ∙ started.has_frame in
      subst (λ o. Back no_context m o i)
        (some-injective (record n { table = set n.table i p; current = none }) m'
          (rw framed at out))
        (gives-Back m n i p started kept refl)

  mutual
    pub Acts-Keeps :
        {m m' : Manager C} → Acts m m' → length m.table ≡ table_capacity → Keeps no_context m m'
    Acts-Keeps (nothing m) whole = Keeps-self no_context m
    Acts-Keeps (spawns m m' initialize name kind entry context acts) whole =
        let first = spawn_process-Keeps no_context initialize m name kind entry context in
        Keeps-then no_context m _ m' first (Acts-Keeps acts (first.size ∙ whole))
    Acts-Keeps (runs m m' switch frame kind turns acts) whole =
        let first =
          run_ready_kind-Keeps no_context switch
            (λ i n started. Turn-Back (turns i n started) started) frame kind m whole in
        Keeps-then no_context m _ m' first (Acts-Keeps acts (first.size ∙ whole))

    Turn-Back :
        {i : ℕ} {m m' : Manager C} → Turn i m m' → Started no_context m i → Back no_context m m' i
    Turn-Back (yields i m n m' acts out) started =
        yield_out-Back m n m' i started (Acts-Keeps acts started.whole) out
    Turn-Back (finishes i m n m' exit_code acts out) started =
        finish_out-Back m n m' i exit_code started (Acts-Keeps acts started.whole) out

  -- Running the ready processes of a kind, in a table of full size and where each process that is switched to
  -- adds processes and runs the ready ones itself, as often as it likes and nested to any depth, and then
  -- yields or ends: the processes that were running before are as they were, the processes of the calls that
  -- wait for this one included, and no process is left running that was not; the current process and the
  -- scheduler's context are the ones from before. Either no process of the kind was ready, and nothing changes
  -- and none is counted, or at least one is counted.
  pub run_ready_kind_lem :
      (switch : ℕ → Manager C → Manager C) (frame : ℕ) (kind : Kind) (m : Manager C)
      → length m.table ≡ table_capacity
      → ((i : ℕ) (n : Manager C) → Started no_context n i → Turn i n (switch i n))
      → let (count, m') = run_ready_kind no_context switch frame kind m in
        Keeps no_context m m'
        × ((IsIdle no_context kind m table_capacity 0 × (count ≡ 0) × (m' ≡ m))
            ⊎ (¬ (IsIdle no_context kind m table_capacity 0) × (0 < count)))
  unfolding run_ready_kind
  run_ready_kind_lem switch frame kind m whole turns = (
    run_ready_kind-Keeps no_context switch (λ i n started. Turn-Back (turns i n started) started)
        frame kind m whole,
    elim (run_slots-IsIdle no_context switch frame kind table_capacity m 0) [
      | inl (idle, same) ↦ inl (idle, ap (λ r. r.0) same, ap (λ r. r.1) same)
      | inr busy ↦ inr busy
    ],
  )
