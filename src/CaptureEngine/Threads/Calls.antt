-- ===== src/CaptureEngine/Threads/Calls.antt =====
-- What `startCapture`, `openFile` and `replayFile` of src/capture/CaptureEngine.cpp leave behind.
use netprobe_cpp.Base.{
  ◌≤◌, ◌≡◌, refl, arith, true, Bool-cases, inl, inr, List, [], ◌∷◌, length, Bytes, Ensures,
  >>=-Ensures,
}
use netprobe_cpp.Protocol.Parse.{is_unsupported}
use netprobe_cpp.CaptureEngine.Backend
use netprobe_cpp.CaptureEngine.Backend.{
  Backend, Pcap, PcapNext, PacketRead, packet, timeout, end_of_file, error, closed, is_open,
  with_handle, next_packet, read_of, next_record, next_timeout, next_end, next_error,
}
use netprobe_cpp.CaptureEngine.Session.{
  Engine, absent, is_joinable, max_session_packets, consume, clear_for, launch, load, open_rest,
  replay_loop, replay_rest,
}
use netprobe_cpp.CaptureEngine.Threads.{
  After, then_nothing, then_start, then_open, then_replay, engine_of, go_on,
}
use netprobe_cpp.CaptureEngine.Threads.Reads.{IsSound, consume-retains}

-- `load` ends with a closed backend and a session within its bound.
load-IsSound :
    (answers : List PcapNext) (e : Engine)
    → is_open e.backend ≡ true
    → e.thread ≡ absent
    → length e.session_packets ≤ max_session_packets
    → Ensures (λ r. IsSound (engine_of r)) (load answers e)
unfolding load engine_of is_joinable next_packet read_of consume
load-IsSound [] e o t k = (rw t refl, k)
load-IsSound (next_record r ∷ answers) e o t k = rw (o) (
    load-IsSound answers (consume (Backend.packet_of_record e.backend.link_type r) e) o t
      (consume-retains (Backend.packet_of_record e.backend.link_type r) e k))
load-IsSound (next_timeout ∷ answers) e o t k = rw (o) (load-IsSound answers e o t k)
load-IsSound (next_end ∷ answers) e o t k = rw (o, t) (refl, k)
load-IsSound (next_error ∷ answers) e o t k = rw (o, t) (refl, k)

launch-IsSound :
    (lib : Pcap) (name : Bytes) (e : Engine) → e.thread ≡ absent → IsSound (launch lib name e)
unfolding launch clear_for closed is_joinable is_open Backend.open_live with_handle
launch-IsSound lib name e t = ground (arith, t)

open_rest-IsSound :
    (lib : Pcap) (path : Bytes) (answers : List PcapNext) (e : Engine)
    → e.thread ≡ absent
    → Ensures (λ r. IsSound (engine_of r)) (open_rest lib path answers e)
unfolding open_rest clear_for engine_of is_joinable
open_rest-IsSound lib path answers e t = elim (Bool-cases (is_open (Backend.open_file lib path))) [
  | inl opened ↦ rw opened (load-IsSound answers _ opened t (omega arith))
  | inr failed ↦ rw failed (rw t refl, omega arith)
]

replay_loop-IsSound :
    (answers : List PcapNext) (e : Engine)
    → is_open e.backend ≡ true
    → e.thread ≡ absent
    → length e.session_packets ≤ max_session_packets
    → Ensures (λ r. IsSound (engine_of r)) (replay_loop answers e)
unfolding replay_loop engine_of is_joinable next_packet read_of
replay_loop-IsSound [] e o t k = (rw t refl, k)
replay_loop-IsSound (next_record r ∷ answers) e o t k = rw (o) (replay_loop-IsSound answers e o t k)
replay_loop-IsSound (next_timeout ∷ answers) e o t k = rw (o) (replay_loop-IsSound answers e o t k)
replay_loop-IsSound (next_end ∷ answers) e o t k = rw (o, t) (refl, k)
replay_loop-IsSound (next_error ∷ answers) e o t k = rw (o, t) (refl, k)

replay_rest-IsSound :
    (lib : Pcap) (path : Bytes) (answers : List PcapNext) (e : Engine)
    → e.thread ≡ absent
    → Ensures (λ r. IsSound (engine_of r)) (replay_rest lib path answers e)
unfolding replay_rest clear_for engine_of is_joinable
replay_rest-IsSound lib path answers e t =
    let b : Backend = Backend.open_file lib path in
    elim (Bool-cases (is_open b)) [
      | inl opened ↦ elim (Bool-cases (is_unsupported b.link_type)) [
        | inl other ↦ rw (opened, other) (rw t refl, omega arith)
        | inr known ↦ rw (opened, known) (replay_loop-IsSound answers _ opened t (omega arith))
      ]
      | inr failed ↦ rw failed (rw t refl, omega arith)
    ]

pub go_on-IsSound :
    (lib : Pcap) (after : After) (e : Engine)
    → e.thread ≡ absent
    → length e.session_packets ≤ max_session_packets
    → Ensures IsSound (go_on lib after e)
unfolding go_on is_joinable
go_on-IsSound lib then_nothing e t k = (rw t refl, k)
go_on-IsSound lib (then_start name) e t k = launch-IsSound lib name e t
go_on-IsSound lib (then_open path answers) e t k =
    >>=-Ensures (λ r. IsSound (engine_of r)) IsSound (open_rest lib path answers e) _
      (open_rest-IsSound lib path answers e t) (λ r i. i)
go_on-IsSound lib (then_replay path answers) e t k =
    >>=-Ensures (λ r. IsSound (engine_of r)) IsSound (replay_rest lib path answers e) _
      (replay_rest-IsSound lib path answers e t) (λ r i. i)
