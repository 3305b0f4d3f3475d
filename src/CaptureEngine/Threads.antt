-- ===== src/CaptureEngine/Threads.antt =====
-- The capture thread and the callers of src/capture/CaptureEngine.hpp as steps in any order. One
-- thread at a time calls the engine, and in `stopCapture` it waits until the capture thread has
-- left its loop; whoever consumes the queue pops at any time.
pub mod Reads
pub mod Calls
pub mod Safety
pub mod Stop
use netprobe_cpp.Base.{
  ℕ, ◌≡◌, Bool, true, false, Option, none, some, if◌then◌else◌, List, Bytes, Outcome, done, stuck,
  ◌>>=◌,
}
use netprobe_cpp.Packet.{PacketData}
use netprobe_cpp.PacketQueue
use netprobe_cpp.PacketQueue.{PacketQueue}
use netprobe_cpp.CaptureEngine.Backend.{Pcap, PcapNext}
use netprobe_cpp.CaptureEngine.Session.{
  Engine, Thread, absent, reading, polling, ended, is_joinable, make, poll, read_next, request_stop,
  finish_stop, launch, open_rest, replay_rest, set_filter,
}

-- What a caller does behind `stopCapture`: nothing, or the rest of `startCapture`, `openFile` or
-- `replayFile`.
pub data After : Type 0 where
  then_nothing : After
  then_start : Bytes → After
  then_open then_replay : Bytes → List PcapNext → After

-- The caller: free, or in `join`.
pub data Caller : Type 0 where
  free : Caller
  joining : After → Caller

pub record System : Type 0 where
  pub engine : Engine
  pub caller : Caller

unfoldable pub engine_of : Engine × Bool → Engine
engine_of (e, ok) = e

-- The call behind `stopCapture`.
unfoldable pub go_on : Pcap → After → Engine → Outcome Engine
go_on lib then_nothing e = done e
go_on lib (then_start name) e = done (launch lib name e)
go_on lib (then_open path answers) e = open_rest lib path answers e >>= λ r. done (engine_of r)
go_on lib (then_replay path answers) e = replay_rest lib path answers e >>= λ r. done (engine_of r)

-- What each call does before it waits: all of them begin with `stopCapture`.
unfoldable pub begin : After → Engine → Engine
begin then_nothing e = request_stop e
begin (then_start name) e = request_stop e
begin (then_open path answers) e = request_stop e
begin (then_replay path answers) e = request_stop e

unfoldable pub start : PacketQueue PacketData → System
start queue = record { engine = make queue; caller = free }

unfoldable pub take_popped : Engine → Option (PacketData × PacketQueue PacketData) → Engine
take_popped e none = e
take_popped e (some (packet, q)) = record e { queue = q }

-- The thread is in its loop, so that `join` waits.
unfoldable pub is_waiting : Thread → Bool
is_waiting absent = false
is_waiting polling = true
is_waiting reading = true
is_waiting ended = false

-- The capture thread alone, with what libpcap answers if it reads.
unfoldable pub thread_step : Thread → PcapNext → Engine → Outcome Engine
thread_step absent answer e = done e
thread_step polling answer e = done (poll e)
thread_step reading answer e = read_next answer e
thread_step ended answer e = done e

-- The rest of a call, which cannot go on before the thread has left its loop.
unfoldable pub join : Pcap → After → Engine → Outcome Engine
join lib after e = if is_waiting e.thread then stuck else go_on lib after (finish_stop e)

-- One step of the capture thread, of a caller, or of the consumer.
pub data Step (lib : Pcap) (s t : System) : Type 0 where
  polls : s.engine.thread ≡ polling → t ≡ record s { engine = poll s.engine } → Step lib s t
  reads :
      (answer : PcapNext) (e : Engine)
      → s.engine.thread ≡ reading
      → read_next answer s.engine ≡ done e
      → t ≡ record s { engine = e }
      → Step lib s t
  calls :
      (after : After)
      → s.caller ≡ free
      → t ≡ record { engine = begin after s.engine; caller = joining after }
      → Step lib s t
  joins :
      (after : After) (e : Engine)
      → s.caller ≡ joining after
      → is_waiting s.engine.thread ≡ false
      → go_on lib after (finish_stop s.engine) ≡ done e
      → t ≡ record { engine = e; caller = free }
      → Step lib s t
  filters :
      (filter : Bytes)
      → s.caller ≡ free
      → t ≡ record s { engine = engine_of (set_filter lib filter s.engine) }
      → Step lib s t
  pops :
      t ≡ record s { engine = take_popped s.engine (PacketQueue.try_pop s.engine.queue) }
      → Step lib s t

pub data Reach (lib : Pcap) (s : System) : System → Type 0 where
  here : Reach lib s s
  next : {t u : System} → Reach lib s t → Step lib t u → Reach lib s u
