-- ===== src/CaptureEngine/Threads/Safety.antt =====
-- What holds of src/capture/CaptureEngine.cpp in every order of the steps.
use netprobe_cpp.Base.{
  ◌≡◌, refl, arith, true, Bool-cases, inl, inr, Ensures-value, Option, none, some, ◌||◌, not, Bytes,
}
use netprobe_cpp.Packet.{PacketData}
use netprobe_cpp.PacketQueue
use netprobe_cpp.PacketQueue.{PacketQueue}
use netprobe_cpp.CaptureEngine.Backend
use netprobe_cpp.CaptureEngine.Backend.{
  Backend, Pcap, PcapNext, PacketRead, packet, timeout, end_of_file, error, closed, is_open,
  with_handle, next_packet, read_of, next_record, next_timeout, next_end, next_error,
}
use netprobe_cpp.CaptureEngine.Session.{
  Engine, polling, is_joinable, make, poll, read_next, request_stop, finish_stop, set_filter,
}
use netprobe_cpp.CaptureEngine.Threads.{
  After, then_nothing, then_start, then_open, then_replay, begin, joining, System, engine_of, go_on,
  start, take_popped, Step, polls, reads, calls, joins, filters, pops, Reach, here, next,
}
use netprobe_cpp.CaptureEngine.Threads.Reads.{
  IsSound, IsSafe, Waits-kept, Waits-equal, read_next-IsSafe,
}
use netprobe_cpp.CaptureEngine.Threads.Calls.{go_on-IsSound}

set_filter-IsSafe :
    (lib : Pcap) (filter : Bytes) (s : System)
    → IsSafe s
    → IsSafe (record s { engine = engine_of (set_filter lib filter s.engine) })
unfolding set_filter engine_of
set_filter-IsSafe lib filter s i =
    elim (Bool-cases (not (is_joinable s.engine.thread) || not (is_open s.engine.backend))) [
      | inl stopped ↦ rw stopped i
      | inr running ↦ elim (Bool-cases (not (Backend.set_filter lib filter s.engine.backend))) [
        | inl failed ↦ rw (running, failed) i
        | inr set ↦
            rw (running, set)
              (
                i.0,
                Waits-equal s.caller s.engine (record (s.engine) { active_filter = filter }) refl
                    refl i.1,
              )
      ]
    ]

pub poll-IsSafe :
    (s : System)
    → s.engine.thread ≡ polling
    → IsSafe s
    → IsSafe (record s { engine = poll s.engine })
unfolding poll is_joinable
poll-IsSafe s p ((sound, kept), w) =
    let j : is_joinable s.engine.thread ≡ true = rw p refl in
    ((ground (arith, j, sound), kept), Waits-kept s.caller s.engine (poll s.engine) j refl w)

request_stop-IsSafe :
    (e : Engine) (after : After)
    → IsSound e
    → IsSafe (record { engine = request_stop e; caller = joining after })
unfolding request_stop
request_stop-IsSafe e after (sound, kept) = elim (Bool-cases (is_joinable e.thread)) [
  | inl running ↦ rw running ((ground (arith, sound, running), kept), ground (arith, running))
  | inr stopped ↦ rw stopped ((ground (arith, sound, stopped), kept), ground (arith, stopped))
]

begin-IsSafe :
    (e : Engine) (after : After)
    → IsSound e
    → IsSafe (record { engine = begin after e; caller = joining after })
unfolding begin
begin-IsSafe e then_nothing i = request_stop-IsSafe e then_nothing i
begin-IsSafe e (then_start name) i = request_stop-IsSafe e (then_start name) i
begin-IsSafe e (then_open path answers) i = request_stop-IsSafe e (then_open path answers) i
begin-IsSafe e (then_replay path answers) i = request_stop-IsSafe e (then_replay path answers) i

take_popped-IsSafe :
    (s : System) (front : Option (PacketData × PacketQueue PacketData))
    → IsSafe s
    → IsSafe (record s { engine = take_popped s.engine front })
unfolding take_popped
take_popped-IsSafe s none i = i
take_popped-IsSafe s (some (p, q)) i =
    (i.0, Waits-equal s.caller s.engine (record (s.engine) { queue = q }) refl refl i.1)

Step-IsSafe : (lib : Pcap) (s t : System) → Step lib s t → IsSafe s → IsSafe t
unfolding finish_stop
Step-IsSafe lib s t (polls p e) i = rw e (poll-IsSafe s p i)
Step-IsSafe lib s t (reads answer f p r e) i = rw e (
    Ensures-value (λ g. IsSafe (record s { engine = g })) (read_next answer s.engine) f r
      (read_next-IsSafe answer s p i))
Step-IsSafe lib s t (calls after p e) i = rw e (begin-IsSafe s.engine after i.0)
Step-IsSafe lib s t (joins after f p w r e) i = rw e (
  Ensures-value IsSound (go_on lib after (finish_stop s.engine)) f r
      (go_on-IsSound lib after (finish_stop s.engine) refl i.0.1),
  tt,
)
Step-IsSafe lib s t (filters filter p e) i = rw e (set_filter-IsSafe lib filter s i)
Step-IsSafe lib s t (pops e) i = rw e (take_popped-IsSafe s (PacketQueue.try_pop s.engine.queue) i)

start-IsSafe : (queue : PacketQueue PacketData) → IsSafe (start queue)
unfolding start make closed is_joinable is_open
start-IsSafe queue = ((refl, omega arith), tt)

-- In every order of the steps of the capture thread, of the callers (`startCapture`, `openFile`,
-- `replayFile`, `stopCapture` and `setFilter`) and of the consumer: where there
-- is a capture thread, the backend is open, so that a read of the thread, whatever libpcap answers,
-- goes through a handle; at most 10,000 packets are retained; and a caller in `stopCapture` waits
-- for a thread that was asked to stop.
pub Reach-IsSafe :
    (lib : Pcap) (queue : PacketQueue PacketData) (s : System)
    → Reach lib (start queue) s
    → IsSafe s
Reach-IsSafe lib queue s here = start-IsSafe queue
Reach-IsSafe lib queue s (next {t} r st) = Step-IsSafe lib t s st (Reach-IsSafe lib queue t r)
