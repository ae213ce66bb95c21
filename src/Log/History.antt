-- ===== src/Log/History.antt =====
-- The event log against the history of all that was recorded.
use arwill.Prelude.{
  ℕ, suc, ◌+◌, ◌-◌, ◌%◌, ◌≤◌, ◌<◌, ◌≡◌, refl, ap, ◌∙◌, List, [], ◌∷◌, ◌++◌, length, drop, get_elem?,
  set, u64, ltb, lt→ltb, false, if◌then◌else◌, arith,
}
use native.Mathlib.Decide.{dec_lt}
use mathlib.Core.List.{append-nil, append_assoc}
use arwill.Prelude.Lists.{
  length-set, length-append, length-drop, drop-append, drop-drop_one, get_elem?-none,
}
use arwill.Prelude.Ring.{window, length-window, window-push, window-overwrite, get_elem?-window}
use arwill.Log.Ops.{capacity, Entry, blank, EventLog, init, write_entry, entry}

pub record IsValid (l : EventLog) : Type 0 where
  pub size : length l.entries ≡ capacity
  pub head_in : l.head < capacity
  pub count_in : l.count ≤ capacity

-- the entries that the log holds, oldest first
abbrev pub held : EventLog → List Entry
held l = window blank l.entries capacity l.head l.count

-- `write_entry` for each of the entries in turn
unfoldable pub write_all : List Entry → EventLog → EventLog
write_all [] l = l
write_all (e ∷ es) l = write_all es (write_entry l e)

-- the last `n` of a list
abbrev pub last : {A : Type 0} → ℕ → List A → List A
last n xs = drop (length xs - n) xs

write_entry-IsValid : (l : EventLog) (e : Entry) → IsValid l → IsValid (write_entry l e)
unfolding write_entry
write_entry-IsValid l e v =
    ground
      (arith, length-set l.entries l.head e, length-set l.entries ((l.head + l.count) % capacity) e)

held-write_entry_room :
    (l : EventLog) (e : Entry)
    → IsValid l
    → l.count < capacity
    → held (write_entry l e) ≡ held l ++ e ∷ []
unfolding write_entry
held-write_entry_room l e v lt = ground (
  arith,
  window-push blank l.entries capacity l.head l.count ((l.head + l.count) % capacity) e refl lt,
)

write_entry_full :
    (l : EventLog) (e : Entry)
    → l.count ≡ capacity
    → write_entry l e ≡ record {
      entries = set l.entries l.head e;
      head = (l.head + 1) % capacity;
      count = l.count;
      overwritten = u64 (l.overwritten + 1);
    }
unfolding write_entry
write_entry_full l e full = ground arith

held-write_entry_full :
    (l : EventLog) (e : Entry)
    → IsValid l
    → l.count ≡ capacity
    → held (write_entry l e) ≡ drop 1 (held l) ++ e ∷ []
held-write_entry_full l e v full =
    ap held (write_entry_full l e full)
    ∙ window-overwrite blank l.entries capacity l.head l.count e v.head_in full (omega arith)

last-append :
    {A : Type 0} (h : List A) (e : A)
    → last capacity (h ++ e ∷ [])
      ≡ (if ltb (length h) capacity then h ++ e ∷ [] else drop 1 (last capacity h) ++ e ∷ [])
last-append h e = elim (dec_lt (length h) capacity) [
  | yes lt ↦
      let few : length (h ++ e ∷ []) - capacity ≡ 0 = omega (arith, length-append h (e ∷ [])) in
      rw (few, lt→ltb _ _ lt) refl
  | no ge ↦
      let more : length (h ++ e ∷ []) - capacity ≡ suc (length h - capacity) =
        omega (arith, length-append h (e ∷ [])) in
      rw (more, drop-append (suc (length h - capacity)) h (e ∷ []) (omega arith), drop-drop_one)
        (ground arith)
]

-- The log is what a history `h` of recorded entries leaves.
pub record Tracks (l : EventLog) (h : List Entry) : Type 0 where
  pub valid : IsValid l
  pub kept : held l ≡ last capacity h
  pub lost : l.overwritten ≡ u64 (length h - capacity)

length-held : (l : EventLog) → length (held l) ≡ l.count
length-held l = length-window blank l.entries capacity l.head l.count

-- How many the log holds, of a history.
Tracks-count :
    (l : EventLog) (h : List Entry) → Tracks l h → l.count + (length h - capacity) ≡ length h
Tracks-count l h t =
    omega (
      arith,
      length-held l,
      ap length t.kept,
      length-drop (length h - capacity) h,
      t.valid.count_in,
    )

overwritten-write_entry :
    (l : EventLog) (e : Entry)
    → l.count ≤ capacity
    → (write_entry l e).overwritten
      ≡ (if ltb l.count capacity then l.overwritten else u64 (l.overwritten + 1))
unfolding write_entry
overwritten-write_entry l e h = ground arith

kept-write_entry :
    (l : EventLog) (h : List Entry) (e : Entry)
    → Tracks l h
    → held (write_entry l e) ≡ last capacity (h ++ e ∷ [])
kept-write_entry l h e t = elim (dec_lt l.count capacity) [
  | yes lt ↦
      let short : length h < capacity = omega (arith, Tracks-count l h t) in
      let all : length h - capacity ≡ 0 = omega arith in
      held-write_entry_room l e t.valid lt
      ∙ rw (t.kept, last-append h e, lt→ltb (length h) capacity short, all) refl
  | no ge ↦
      let full : l.count ≡ capacity = omega (arith, t.valid.count_in) in
      let long : ltb (length h) capacity ≡ false = ground (arith, Tracks-count l h t) in
      held-write_entry_full l e t.valid full ∙ rw (t.kept, last-append h e, long) refl
]

-- Recording an entry extends the history by it.
pub write_entry-Tracks :
    (l : EventLog) (h : List Entry) (e : Entry)
    → Tracks l h
    → Tracks (write_entry l e) (h ++ e ∷ [])
write_entry-Tracks l h e t = record {
  valid = write_entry-IsValid l e t.valid;
  kept = kept-write_entry l h e t;
  lost =
      overwritten-write_entry l e t.valid.count_in
      ∙ ground (arith, t.lost, Tracks-count l h t, length-append h (e ∷ []));
}

write_all-Tracks :
    (es : List Entry) (l : EventLog) (h : List Entry)
    → Tracks l h
    → Tracks (write_all es l) (h ++ es)
unfolding write_all
write_all-Tracks [] l h t = rw (append-nil h) t
write_all-Tracks (e ∷ es) l h t =
    rw (append_assoc h (e ∷ []) es) at
      (write_all-Tracks es (write_entry l e) (h ++ e ∷ []) (write_entry-Tracks l h e t))

init-Tracks : (l : EventLog) → length l.entries ≡ capacity → Tracks (init l) []
unfolding init
init-Tracks l size = record { valid = ground arith; kept = refl; lost = refl }

-- After any sequence of events from initialisation, of a log with its 64 places, the log holds the last
-- 64 of them, oldest first, and has counted, as a 64-bit word, those that it overwrote.
pub write_all_lem :
    (es : List Entry) (l : EventLog)
    → length l.entries ≡ capacity
    → let l' = write_all es (init l) in
      (held l' ≡ last capacity es) × (l'.overwritten ≡ u64 (length es - capacity))
write_all_lem es l size =
    let t = write_all-Tracks es (init l) [] (init-Tracks l size) in (t.kept, t.lost)

-- Entry `i` of a well-formed log is the `i`-th that it holds, and there is none beyond its count.
pub entry_lem : (l : EventLog) (i : ℕ) → IsValid l → entry l i ≡ get_elem? (held l) i
unfolding entry
entry_lem l i v = elim (dec_lt i l.count) [
  | yes lt ↦ ground (arith, get_elem?-window blank l.entries capacity l.head l.count i lt)
  | no ge ↦ ground (arith, get_elem?-none (held l) i, length-held l)
]
