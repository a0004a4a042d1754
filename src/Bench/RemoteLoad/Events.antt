-- ===== src/Bench/RemoteLoad/Events.antt =====
-- The messages of bench/remote_load.py: what the agent emits, and what `read_events` puts in the queue.
use zhtps.Common.{ℕ, String}
use zhtps.Json.{Json}

-- One event, by its `kind`. `eof` is put behind the last one; `other` is an event of no known kind.
pub data Event : Type 0 where
  hello : Json → Event
  clock : ℕ → Event
  started : Json → Event
  sample : Json → Event
  result : Json → Event
  error : String → Event
  eof : Event
  other : String → Event
