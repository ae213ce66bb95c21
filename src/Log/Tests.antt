-- ===== src/Log/Tests.antt =====
-- The event log's theorems at concrete logs.
use arwill.Prelude.{◌≡◌, refl, some, none, List, ◌∷◌, replicate, u64, arith}
use arwill.Log.Ops.{
  capacity, warning, boot, system, service, service_started, Entry, blank, EventLog, init,
  record_event, entry,
}
use arwill.Log.History.{IsValid, held, last, write_all, write_all_lem}

abbrev fresh : EventLog
fresh = record { entries = replicate 64 blank; head = 9; count = 0; overwritten = 3 }

abbrev started : Entry
started = record blank { milliseconds = 20; subsystem = service; code = service_started }

-- 70 entries, of which the first six are lost
abbrev busy_day : List Entry
busy_day = blank ∷ replicate 69 started

write_all_lem_example :
    let l = write_all busy_day (init fresh) in
    (held l ≡ last capacity busy_day) × (l.overwritten ≡ u64 6)
write_all_lem_example = write_all_lem busy_day fresh refl

-- two entries, the second round the end of the array
abbrev wrapped : EventLog
wrapped = record { entries = started ∷ replicate 63 blank; head = 63; count = 2; overwritten = 0 }

wrapped-IsValid : IsValid wrapped
wrapped-IsValid = record { size = refl; head_in = omega arith; count_in = omega arith }

-- An event without a clock is recorded at time 0.
no_clock :
    entry (record_event (init fresh) none warning system boot 1 2) 0
    ≡ some (record blank { severity = warning; argument0 = 1; argument1 = 2 })
unfolding entry record_event init
no_clock = refl
