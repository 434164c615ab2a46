-- ===== src/Audit/Log.antt =====
-- The event log as the durable runtime uses it: what `transactionalAppend` asks of the audit trail.
use ogra.Prelude.{String, List}
use ogra.Audit.Event.{RunEvent, Platform}
use ogra.Audit.Chain.{EventMeta, Surroundings, draft_event, append_event}
use ogra.Audit.Chain.Roundtrip.{Parses, IsWhole, append_event-IsWhole}

pub record EventLog : Type 1 where
  pub Log : Type 0
  -- The log with one more event, and the id of that event.
  pub append : Surroundings → EventMeta → Log → Log
  pub next_id : Surroundings → EventMeta → Log → String
  -- The chain of a run is unbroken.
  pub IsUnbroken : String → Log → Type 0
  -- The event's payload is one that the log can hold.
  pub Holds : EventMeta → Type 0
  pub append-IsUnbroken :
      (run_id : String) (s : Surroundings) (m : EventMeta) (log : Log)
      → Holds m
      → IsUnbroken run_id log
      → IsUnbroken run_id (append s m log)

unfoldable pub next_event_id : Platform → Surroundings → EventMeta → List RunEvent → String
next_event_id P s m log = (draft_event P s m log).id

-- The hash chain of `run_events` is such a log.
abbrev pub chain_log : Platform → EventLog
chain_log P = record {
  Log = List RunEvent;
  append = append_event P;
  next_id = next_event_id P;
  IsUnbroken = IsWhole P;
  Holds = λ m. Parses P m.event_payload;
  append-IsUnbroken = append_event-IsWhole P;
}
