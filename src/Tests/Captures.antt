-- ===== src/Tests/Captures.antt =====
-- The capture engine and its thread at a concrete run.
use netprobe_cpp.Base.{
  ◌≡◌, ◌≢◌, refl, arith, true, some, is_empty, List, [], ◌∷◌, codes, pos, Ensures, ◌>>=◌,
}
use netprobe_cpp.LinkType.{ethernet, unsupported, link_type_from_dlt}
use netprobe_cpp.Packet.{PacketData}
use netprobe_cpp.PacketQueue.{PacketQueue}
use netprobe_cpp.CaptureEngine.Backend.{
  is_open, open_live, with_handle, Pcap, PcapNext, next_record, next_timeout, next_end,
}
use netprobe_cpp.CaptureEngine.Session.{
  is_joinable, Engine, make, request_stop, finish_stop, launch, poll, open_rest,
}
use netprobe_cpp.CaptureEngine.Loaded.{Loaded, packets_in, ends_well, open_rest-Loaded}
use netprobe_cpp.CaptureEngine.Export.{export_session, packets_of, packets_of-export_session}
use netprobe_cpp.CaptureEngine.Threads.{
  is_waiting, go_on, begin, join, thread_step, System, joining, free, then_nothing, then_start,
  start, Reach, here, next, calls, joins, polls,
}
use netprobe_cpp.CaptureEngine.Threads.Safety.{Reach-IsSafe}
use netprobe_cpp.CaptureEngine.Threads.Reads.{IsSafe}
use netprobe_cpp.CaptureEngine.Threads.Stop.{Reach-Frees}

-- Everything opens, as Ethernet.
abbrev ethernet_pcap : Pcap
ethernet_pcap = record {
  open_live = λ name. some 1;
  open_offline = λ path. some 1;
  sets_filter = λ filter. true;
}

abbrev empty_queue : PacketQueue PacketData
empty_queue = record { queue = []; max_size = 1; dropped_packets = 0 }

-- `startCapture` in `stopCapture`; behind it; the thread in its first read; and a `stopCapture`.
abbrev starting : System
starting = record {
  engine = request_stop (make empty_queue);
  caller = joining (then_start (codes "eth0"));
}

abbrev started : System
started = record {
  engine = launch ethernet_pcap (codes "eth0") (finish_stop starting.engine);
  caller = free;
}

abbrev in_read : System
in_read = record started { engine = poll started.engine }

abbrev stopping : System
stopping = record { engine = request_stop in_read.engine; caller = joining then_nothing }

Reach-in_read : Reach ethernet_pcap (start empty_queue) in_read
unfolding start begin is_waiting request_stop is_joinable make go_on launch is_open open_live
    with_handle is_empty finish_stop
Reach-in_read =
    next
      (next (next here (calls (then_start (codes "eth0")) refl refl))
        (joins (then_start (codes "eth0")) started.engine refl refl refl refl))
      (polls refl refl)

Reach-stopping : Reach ethernet_pcap (start empty_queue) stopping
unfolding start begin request_stop
Reach-stopping = next Reach-in_read (calls then_nothing refl refl)

Reach-IsSafe_example : IsSafe in_read
Reach-IsSafe_example = Reach-IsSafe ethernet_pcap empty_queue in_read Reach-in_read

-- A packet that is there when the stop is asked for.
abbrev last_record : PcapNext
last_record =
    next_record
      (record { seconds = pos 3; microseconds = pos 0; captured = 0; wire = 0; bytes = [] })

Reach-Frees_example :
    Ensures
      (λ e. Reach ethernet_pcap stopping (record { engine = e; caller = free }))
      (do
        e ← thread_step stopping.engine.thread last_record stopping.engine
        f ← thread_step e.thread next_timeout e
        join ethernet_pcap then_nothing f)
Reach-Frees_example =
    Reach-Frees ethernet_pcap empty_queue stopping then_nothing last_record next_timeout
      Reach-stopping refl

-- Two records and a timeout between them.
abbrev answers : List PcapNext
answers =
    next_record (record {
      seconds = pos 1;
      microseconds = pos 5;
      captured = 2;
      wire = 60;
      bytes = 7 ∷ 8 ∷ [];
    })
    ∷ next_timeout
    ∷ next_record
        (record { seconds = pos 2; microseconds = pos 0; captured = 0; wire = 0; bytes = [] })
    ∷ next_end
    ∷ []

open_rest-Loaded_example :
    Ensures
      (Loaded 1 (packets_in (link_type_from_dlt 1) answers) (ends_well answers))
      (open_rest ethernet_pcap (codes "a.pcap") answers (make empty_queue))
unfolding make
open_rest-Loaded_example =
    open_rest-Loaded ethernet_pcap (codes "a.pcap") answers (make empty_queue) 1 refl (omega arith)

abbrev kept : Engine
kept = record (make empty_queue) {
  session_packets =
      record {
        timestamp = pos 1_000_000;
        length = 60;
        captured_length = 2;
        link_type = ethernet;
        payload = 7 ∷ 8 ∷ [];
      }
      ∷ record {
        timestamp = pos 1_000_001;
        length = 0;
        captured_length = 0;
        link_type = ethernet;
        payload = [];
      }
      ∷ [];
}

ethernet-supported : ethernet ≢ unsupported
ethernet-supported e = cc

packets_of-export_session_example :
    packets_of (λ file. file.records) (export_session true true kept) ≡ some kept.session_packets
unfolding make
packets_of-export_session_example =
    packets_of-export_session (λ file. file.records) kept (λ file fit. refl) ethernet-supported
      (
        (refl, refl, omega arith, omega arith, 1_000_000, refl, omega arith),
        ((refl, refl, omega arith, omega arith, 1_000_001, refl, omega arith), tt),
      )
