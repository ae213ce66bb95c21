-- ===== src/Process/Spawn.antt =====
-- What `spawn_process` of kernel/process.c does to the table of processes.
use arwill.Prelude.{
  ℕ, suc, ◌+◌, ◌-◌, ◌≤◌, ◌<◌, ◌≡◌, ◌≢◌, ◌⊎◌, refl, subst, ap, inl, inr, Bool, true, false, not,
  ◌&&◌, if◌then◌else◌, ◌==◌, u32, Bool-cases, Option, none, some, List, [], ◌∷◌, length, get_or,
  set, All, arith,
}
use arwill.Prelude.Lists.{get_or-set_self, get_or-set_ne}
use arwill.Process.{
  State, empty, ready, finished, Kind, is_state, Process, Manager, clear_process, slot_of,
  find_state, find_spawn_slot, spawn_process,
}

module _ {C : Type 0} (no_context : C) where
  -- what the search for a state gives
  abbrev FoundIn : State → List (Process C) → ℕ → Option ℕ → Type 0
  FoundIn s table index none = All (λ p. is_state p.state s ≡ false) table
  FoundIn s table index (some slot) =
      (index ≤ slot)
      × (slot < index + length table)
      × (is_state ((get_or table (slot - index) (clear_process no_context)).state) s ≡ true)

  find_state-FoundIn :
      (s : State) (table : List (Process C)) (index : ℕ)
      → FoundIn s table index (find_state no_context s table index)
  unfolding find_state
  find_state-FoundIn s [] index = tt
  find_state-FoundIn s (p ∷ table) index = elim (Bool-cases (is_state p.state s)) [
    | inl this ↦
        let here : index - index ≡ 0 = omega arith in
        rw (this, here) (omega arith, omega arith, this)
    | inr other ↦ rw other (
        go (find_state no_context s table (index + 1)) (find_state-FoundIn s table (index + 1))
          other)
  ]
    where
      go :
          (o : Option ℕ)
          → FoundIn s table (index + 1) o
          → is_state p.state s ≡ false
          → FoundIn s (p ∷ table) index o
      go none rest other = (other, rest)
      go (some slot) (low, high, h) other =
          let step : slot - index ≡ suc (slot - (index + 1)) = omega arith in
          rw step (omega arith, omega arith, h)

  -- a process that holds its slot
  abbrev pub is_busy : Process C → Bool
  is_busy p = not (is_state p.state empty) && not (is_state p.state finished)

  -- what the search for a slot gives
  abbrev Available : List (Process C) → Option ℕ → Type 0
  Available table none = All (λ p. is_busy p ≡ true) table
  Available table (some slot) =
      (slot < length table) × (is_busy (get_or table slot (clear_process no_context)) ≡ false)

  every_busy :
      (table : List (Process C))
      → All (λ p. is_state p.state empty ≡ false) table
      → All (λ p. is_state p.state finished ≡ false) table
      → All (λ p. is_busy p ≡ true) table
  every_busy [] a b = tt
  every_busy (p ∷ table) (a, rest_a) (b, rest_b) =
      (ground (arith, a, b), every_busy table rest_a rest_b)

  find_spawn_slot-Available :
      (table : List (Process C)) → Available table (find_spawn_slot no_context table)
  unfolding find_spawn_slot
  find_spawn_slot-Available table =
      go (find_state no_context empty table 0) (find_state-FoundIn empty table 0)
        (find_state no_context finished table 0) (find_state-FoundIn finished table 0)
    where
      at : (slot : ℕ) → slot - 0 ≡ slot
      at slot = omega arith

      go :
          (a : Option ℕ)
          → FoundIn empty table 0 a
          → (b : Option ℕ) → FoundIn finished table 0 b
          → Available table (elim a [ none ↦ b | some slot ↦ some slot ])
      go (some slot) (low, high, h) b hb = (
        omega arith,
        ground (
          arith,
          subst (λ i. is_state ((get_or table i (clear_process no_context)).state) empty ≡ true)
              (at slot) h,
        ),
      )
      go none h (some slot) (low, high, hb) = (
        omega arith,
        ground (
          arith,
          subst (λ i. is_state ((get_or table i (clear_process no_context)).state) finished ≡ true)
              (at slot) hb,
        ),
      )
      go none h none hb = every_busy table h hb

  -- What adding a process gives: nothing where every process is ready or running; otherwise a slot is taken
  -- that was empty or whose process had finished, and holds then a ready process with the next pid, or a
  -- cleared one where its context could not be made.
  abbrev pub Spawned : (ℕ → Option C) → Manager C → Kind → Option ℕ × Manager C → Type 0
  Spawned initialize m kind (pid, m') =
      (All (λ p. is_busy p ≡ true) m.table × (pid ≡ none) × (m' ≡ m))
      ⊎ ((slot : ℕ) × (is_busy (slot_of no_context m slot) ≡ false)
          × ((j : ℕ) → slot ≢ j → slot_of no_context m' j ≡ slot_of no_context m j)
          × (((initialize slot ≡ none)
                × (pid ≡ none)
                × (slot_of no_context m' slot ≡ clear_process no_context))
              ⊎ ((pid ≡ some m.next_pid)
                  × ((slot_of no_context m' slot).pid ≡ m.next_pid)
                  × ((slot_of no_context m' slot).kind ≡ kind)
                  × ((slot_of no_context m' slot).state ≡ ready))))

  -- Adding a process either takes a slot that is free and leaves the others, or every process is ready or
  -- running and nothing changes.
  pub spawn_process-Spawned :
      (initialize : ℕ → Option C) (m : Manager C) (name : List ℕ) (kind : Kind) (entry context : ℕ)
      → Spawned initialize m kind (spawn_process no_context initialize m name kind entry context)
  unfolding spawn_process
  spawn_process-Spawned initialize m name kind entry context =
      go (find_spawn_slot no_context m.table) (find_spawn_slot-Available m.table)
    where
      next : ℕ
      next = if u32 (m.next_pid + 1) == 0 then 1 else u32 (m.next_pid + 1)

      new : C → Process C
      new saved = record {
        pid = m.next_pid;
        name = name;
        kind = kind;
        state = ready;
        exit_code = 0;
        run_count = 0;
        entry = some entry;
        context = context;
        saved_context = saved;
      }

      with_context : ℕ → Option C → Option ℕ × Manager C
      with_context slot o = elim o [
        | none ↦ (
          none,
          record m { next_pid = next; table = set m.table slot (clear_process no_context) },
        )
        | some saved ↦
            (some m.next_pid, record m { next_pid = next; table = set m.table slot (new saved) })
      ]

      others :
          (slot : ℕ) (p : Process C) (j : ℕ)
          → slot ≢ j
          → get_or (set m.table slot p) j (clear_process no_context)
            ≡ get_or m.table j (clear_process no_context)
      others slot p j ne = get_or-set_ne m.table slot j p (clear_process no_context) ne

      settle :
          (slot : ℕ)
          → slot < length m.table
          → is_busy (slot_of no_context m slot) ≡ false
          → (o : Option C) → initialize slot ≡ o
          → Spawned initialize m kind (with_context slot o)
      settle slot inside free none e = inr (
        slot,
        free,
        others slot (clear_process no_context),
        inl (
          e,
          refl,
          get_or-set_self m.table slot (clear_process no_context) (clear_process no_context) inside,
        ),
      )
      settle slot inside free (some saved) e =
          let here = get_or-set_self m.table slot (new saved) (clear_process no_context) inside in
          inr (
            slot,
            free,
            others slot (new saved),
            inr (
              refl,
              ap (λ (p : Process C). p.pid) here,
              ap (λ (p : Process C). p.kind) here,
              ap (λ (p : Process C). p.state) here,
            ),
          )

      go :
          (o : Option ℕ)
          → Available m.table o
          → Spawned initialize m kind
              (elim o [ none ↦ (none, m) | some slot ↦ with_context slot (initialize slot) ])
      go none busy = inl (busy, refl, refl)
      go (some slot) (inside, free) = settle slot inside free (initialize slot) refl
