-- ===== src/Process/Rounds.antt =====
-- What a run of the ready processes of kernel/process.c does, where each process that is switched to comes
-- back.
use arwill.Prelude.{
  ℕ, zero, suc, ◌+◌, ◌≤◌, ◌<◌, ◌≡◌, ◌≢◌, ◌⊎◌, refl, subst, ap, ◌∙◌, inl, inr, Bool, true, false,
  not, ◌&&◌, ◌||◌, ◌==◌, u64, Bool-cases, some, length, set, is_none, arith,
}
use arwill.Prelude.Lists.{length-set, get_or-set_self, get_or-set_ne}
use arwill.Process.{
  State, empty, ready, running, finished, Kind, is_state, is_kind, Process, Manager, table_capacity,
  clear_process, slot_of, run_slot, run_slots, run_ready_kind,
}

-- a process that a round runs
abbrev pub runnable : {C : Type 0} → Kind → Process C → Bool
runnable kind p = is_state p.state ready && is_kind p.kind kind

not_ready : (s : State) → is_state s ready ≡ true → is_state s running ≡ false
unfolding is_state
not_ready empty h = refl
not_ready ready h = refl
not_ready running h = absurd (ground arith)
not_ready finished h = refl

not_settled :
    (s : State) → (is_state s ready || is_state s finished) ≡ true → is_state s running ≡ false
unfolding is_state
not_settled empty h = refl
not_settled ready h = refl
not_settled running h = absurd (ground arith)
not_settled finished h = refl

module _ {C : Type 0} (no_context : C) where
  abbrev pub is_running : Manager C → ℕ → Bool
  is_running m i = is_state ((slot_of no_context m i).state) running

  -- What is left alone: the processes that run are as they were, and no other has come to run; the current
  -- process and the scheduler's context are the same.
  pub record Keeps (m m' : Manager C) : Type 0 where
    pub size : length m'.table ≡ length m.table
    pub runners : (j : ℕ) → is_running m j ≡ true → slot_of no_context m' j ≡ slot_of no_context m j
    pub no_more : (j : ℕ) → is_running m j ≡ false → is_running m' j ≡ false
    pub current : m'.current ≡ m.current
    pub scheduler : m'.scheduler_context ≡ m.scheduler_context

  -- a process has just been switched to
  pub record Started (m : Manager C) (i : ℕ) : Type 0 where
    pub whole : length m.table ≡ table_capacity
    pub inside : i < table_capacity
    pub runs : is_running m i ≡ true
    pub is_current : m.current ≡ some i
    pub has_frame : is_none m.scheduler_context ≡ false

  -- What becomes of the manager until the process switches back: the process is ready or has finished, and
  -- the others are left as above.
  pub record Back (m m' : Manager C) (i : ℕ) : Type 0 where
    pub size : length m'.table ≡ length m.table
    pub settled :
        (is_state ((slot_of no_context m' i).state) ready
          || is_state ((slot_of no_context m' i).state) finished)
        ≡ true
    pub runners :
        (j : ℕ) → i ≢ j → is_running m j ≡ true → slot_of no_context m' j ≡ slot_of no_context m j
    pub no_more : (j : ℕ) → i ≢ j → is_running m j ≡ false → is_running m' j ≡ false

  pub Keeps-self : (m : Manager C) → Keeps m m
  Keeps-self m = record {
    size = refl;
    runners = λ j h. refl;
    no_more = λ j h. h;
    current = refl;
    scheduler = refl;
  }

  pub Keeps-then : (m n o : Manager C) → Keeps m n → Keeps n o → Keeps m o
  Keeps-then m n o a b = record {
    size = b.size ∙ a.size;
    runners = λ j h.
        let same = a.runners j h in
        b.runners j (ap (λ (p : Process C). is_state p.state running) same ∙ h) ∙ same;
    no_more = λ j h. b.no_more j (a.no_more j h);
    current = b.current ∙ a.current;
    scheduler = b.scheduler ∙ a.scheduler;
  }

  module _ (switch : ℕ → Manager C → Manager C)
      (back : (i : ℕ) (m : Manager C) → Started m i → Back m (switch i m) i) (frame : ℕ)
      (kind : Kind) where
    run_slot-Keeps :
        (m : Manager C) (i : ℕ)
        → length m.table ≡ table_capacity
        → i < table_capacity
        → Keeps m ((run_slot no_context switch frame kind m i).1)
    unfolding run_slot is_state
    run_slot-Keeps m i whole inside =
        let p = slot_of no_context m i in
        elim (Bool-cases (not (is_state p.state ready) || not (is_kind p.kind kind))) [
          | inl skipped ↦ rw skipped (Keeps-self m)
          | inr runs ↦
              let started_p = record p { state = running; run_count = u64 (p.run_count + 1) } in
              let started : Manager C = record m {
                table = set m.table i started_p;
                current = some i;
                scheduler_context = some frame;
              } in
              let size = length-set m.table i started_p in
              let here : slot_of no_context started i ≡ started_p =
                get_or-set_self m.table i started_p (clear_process no_context)
                  (omega (arith, whole, inside)) in
              let other : (j : ℕ) → i ≢ j → slot_of no_context started j ≡ slot_of no_context m j =
                λ j ne. get_or-set_ne m.table i j started_p (clear_process no_context) ne in
              let b : Back started (switch i started) i = back i started (record {
                whole = size ∙ whole;
                inside = inside;
                runs = ap (λ (q : Process C). is_state q.state running) here;
                is_current = refl;
                has_frame = refl;
              }) in
              let was_ready : is_running m i ≡ false = not_ready p.state (ground (arith, runs)) in
              rw runs (record {
                size = b.size ∙ size;
                runners = λ j h.
                    let ne : i ≢ j = λ e. cc (h, was_ready, ap (is_running m) e) in
                    b.runners j ne
                      (ap (λ (q : Process C). is_state q.state running) (other j ne) ∙ h)
                    ∙ other j ne;
                no_more = λ j h. elim (Bool-cases (j == i)) [
                  | inl same ↦
                      let e : i ≡ j = ground (arith, same) in
                      subst (λ k. is_running (switch i started) k ≡ false) e
                        (not_settled ((slot_of no_context (switch i started) i).state) b.settled)
                  | inr apart ↦
                      let ne : i ≢ j = λ e. ground (arith, apart, e) in
                      b.no_more j ne
                        (ap (λ (q : Process C). is_state q.state running) (other j ne) ∙ h)
                ];
                current = refl;
                scheduler = refl;
              })
        ]

    run_slots-Keeps :
        (left : ℕ) (m : Manager C) (i : ℕ)
        → length m.table ≡ table_capacity
        → i + left ≤ table_capacity
        → Keeps m ((run_slots no_context switch frame kind left m i).1)
    unfolding run_slots
    run_slots-Keeps zero m i whole inside = Keeps-self m
    run_slots-Keeps (suc left) m i whole inside =
        let m' = (run_slot no_context switch frame kind m i).1 in
        let here = run_slot-Keeps m i whole (omega arith) in
        let size = here.size in
        Keeps-then m m' _ here (run_slots-Keeps left m' (i + 1) (size ∙ whole) (omega arith))

    pub run_ready_kind-Keeps :
        (m : Manager C)
        → length m.table ≡ table_capacity
        → Keeps m ((run_ready_kind no_context switch frame kind m).1)
    unfolding run_ready_kind
    run_ready_kind-Keeps m whole = run_slots-Keeps table_capacity m 0 whole (omega arith)

  -- Whether a run of the slots from `i` on finds a process to run.
  abbrev pub IsIdle : Kind → Manager C → ℕ → ℕ → Type 0
  IsIdle kind m left i =
      (j : ℕ) → i ≤ j → j < i + left → runnable kind (slot_of no_context m j) ≡ false

  pub run_slots-IsIdle :
      (switch : ℕ → Manager C → Manager C) (frame : ℕ) (kind : Kind) (left : ℕ) (m : Manager C)
      (i : ℕ)
      → (IsIdle kind m left i × (run_slots no_context switch frame kind left m i ≡ (0, m)))
        ⊎ (¬ (IsIdle kind m left i) × (0 < (run_slots no_context switch frame kind left m i).0))
  unfolding run_slots run_slot
  run_slots-IsIdle switch frame kind zero m i = inl ((λ j low high. absurd (omega arith)), refl)
  run_slots-IsIdle switch frame kind (suc left) m i =
      let p = slot_of no_context m i in
      elim (Bool-cases (not (is_state p.state ready) || not (is_kind p.kind kind))) [
        | inl skipped ↦ rw skipped (elim (run_slots-IsIdle switch frame kind left m (i + 1)) [
          | inl (idle, same) ↦ inl (
            (λ j low high. elim (Bool-cases (j == i)) [
              | inl here ↦
                  let e : i ≡ j = ground (arith, here) in
                  subst (λ k. runnable kind (slot_of no_context m k) ≡ false) e
                    (ground (arith, skipped))
              | inr apart ↦
                  let ne : i ≢ j = λ e. ground (arith, apart, e) in
                  idle j (omega (arith, ne, low)) (omega arith)
            ]),
            same,
          )
          | inr (busy, ran) ↦
              inr ((λ idle. busy (λ j low high. idle j (omega arith) (omega arith))), ran)
        ])
        | inr runs ↦
            rw runs (
              inr ((λ idle. ground (arith, runs, idle i (omega arith) (omega arith))), omega arith))
      ]
