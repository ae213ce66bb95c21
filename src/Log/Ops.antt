-- ===== src/Log/Ops.antt =====
-- `struct arwill_event_log` and the functions of kernel/log.c. The clock is a pointer that may be
-- null, with a callback that may be null; a reading of it is an argument of the model.
use arwill.Prelude.{
  ℕ, ◌+◌, ◌%◌, if◌then◌else◌, ◌==◌, leb, u64, Option, none, some, List, set, get_or,
}

abbrev pub capacity : ℕ
capacity = 64

-- `enum arwill_log_severity`
pub data Severity : Type 0 where
  info warning error : Severity

-- `enum arwill_log_subsystem`
pub data Subsystem : Type 0 where
  system config service network auth awp filesystem : Subsystem

-- `enum arwill_log_code`
pub data Code : Type 0 where
  boot config_loaded config_changed config_error service_started service_stopped : Code
  service_restarted tcp_connected tcp_disconnected tcp_timeout auth_accepted auth_rejected : Code
  awp_started awp_exited awp_faulted file_written : Code

-- `struct arwill_log_entry`
pub record Entry : Type 0 where
  pub milliseconds : ℕ
  pub severity : Severity
  pub subsystem : Subsystem
  pub code : Code
  pub argument0 : ℕ
  pub argument1 : ℕ

-- what the cells of an array hold that was never written
abbrev pub blank : Entry
blank = record {
  milliseconds = 0;
  severity = info;
  subsystem = system;
  code = boot;
  argument0 = 0;
  argument1 = 0;
}

-- `struct arwill_clock`: a callback that may be null, as it reads at this moment
abbrev pub Clock : Type 0
Clock = Option (Option ℕ)

-- `arwill_clock_monotonic_milliseconds`
unfoldable pub monotonic_milliseconds : Clock → ℕ
monotonic_milliseconds none = 0
monotonic_milliseconds (some none) = 0
monotonic_milliseconds (some (some now)) = now

-- `struct arwill_event_log`, without the clock's pointer
pub record EventLog : Type 0 where
  pub entries : List Entry
  pub head : ℕ
  pub count : ℕ
  pub overwritten : ℕ

-- `arwill_event_log_init`: the array keeps what it holds.
unfoldable pub init : EventLog → EventLog
init l = record l { head = 0; count = 0; overwritten = 0 }

-- what `arwill_event_log_record` writes
unfoldable pub new_entry : Clock → Severity → Subsystem → Code → ℕ → ℕ → Entry
unfolding monotonic_milliseconds
new_entry clock severity subsystem code argument0 argument1 = record {
  milliseconds = monotonic_milliseconds clock;
  severity = severity;
  subsystem = subsystem;
  code = code;
  argument0 = argument0;
  argument1 = argument1;
}

-- `arwill_event_log_record`, with the entry that its last six statements write.
unfoldable pub write_entry : EventLog → Entry → EventLog
write_entry l entry =
    if l.count == capacity
    then record {
      entries = set l.entries l.head entry;
      head = (l.head + 1) % capacity;
      count = l.count;
      overwritten = u64 (l.overwritten + 1);
    }
    else record {
      entries = set l.entries ((l.head + l.count) % capacity) entry;
      head = l.head;
      count = l.count + 1;
      overwritten = l.overwritten;
    }

-- `arwill_event_log_record`
unfoldable pub record_event : EventLog → Clock → Severity → Subsystem → Code → ℕ → ℕ → EventLog
unfolding new_entry write_entry
record_event l clock severity subsystem code argument0 argument1 =
    write_entry l (new_entry clock severity subsystem code argument0 argument1)

-- `arwill_event_log_entry`; `none` is its result 0.
unfoldable pub entry : EventLog → ℕ → Option Entry
entry l index =
    if leb l.count index then none else some (get_or l.entries ((l.head + index) % capacity) blank)
