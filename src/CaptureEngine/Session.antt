-- ===== src/CaptureEngine/Session.antt =====
-- The operations of src/capture/CaptureEngine.cpp on the engine's state. The capture thread is where
-- it stands in `captureLoop`.
use netprobe_cpp.Base.{
  ℕ, Bool, true, false, ◌&&◌, ◌||◌, not, if◌then◌else◌, List, [], ◌∷◌, Bytes, is_empty,
  push_bounded, Outcome, done, ◌>>=◌,
}
use netprobe_cpp.LinkType.{LinkType, ethernet}
use netprobe_cpp.Packet.{PacketData}
use netprobe_cpp.Protocol.Parse.{is_unsupported}
use netprobe_cpp.PacketQueue
use netprobe_cpp.PacketQueue.{PacketQueue}
use netprobe_cpp.CaptureEngine.Backend
use netprobe_cpp.CaptureEngine.Backend.{
  Backend, Pcap, PcapNext, PacketRead, packet, timeout, end_of_file, error, closed, is_open,
  next_packet,
}

-- `m_captureThread`: not joinable; before the test of `m_stopRequested`; before `nextPacket`; or
-- behind the loop.
pub data Thread : Type 0 where
  absent polling reading ended : Thread

unfoldable pub is_joinable : Thread → Bool
is_joinable absent = false
is_joinable polling = true
is_joinable reading = true
is_joinable ended = true

pub record Engine : Type 0 where
  pub queue : PacketQueue PacketData
  pub backend : Backend
  pub thread : Thread
  pub stop_requested : Bool
  pub current_device : Bytes
  pub active_filter : Bytes
  pub session_packets : List PacketData
  pub session_link_type : LinkType

unfoldable pub make : PacketQueue PacketData → Engine
make queue = record {
  queue = queue;
  backend = closed;
  thread = absent;
  stop_requested = false;
  current_device = [];
  active_filter = [];
  session_packets = [];
  session_link_type = ethernet;
}

abbrev pub max_session_packets : ℕ
max_session_packets = 10_000

-- `consumePacket` with `retainPacket`.
unfoldable pub consume : PacketData → Engine → Engine
consume p e = record e {
  session_packets = push_bounded max_session_packets e.session_packets p;
  queue = PacketQueue.push e.queue p;
}

unfoldable pub is_capturing : Engine → Bool
is_capturing e = is_joinable e.thread

-- The test at the head of `captureLoop`.
unfoldable pub poll : Engine → Engine
poll e = record e { thread = if e.stop_requested then ended else reading }

-- What the loop does with an answer of `nextPacket`.
unfoldable pub handle_read : Engine → PacketRead → Engine
handle_read e (packet p) = record (consume p e) { thread = polling }
handle_read e timeout = record e { thread = polling }
handle_read e end_of_file = record e { thread = ended }
handle_read e error = record e { thread = ended }

unfoldable pub read_next : PcapNext → Engine → Outcome Engine
read_next answer e = do r ← next_packet e.backend answer; done (handle_read e r)

-- `stopCapture` up to `join`.
unfoldable pub request_stop : Engine → Engine
request_stop e = if is_joinable e.thread then record e { stop_requested = true } else e

-- `stopCapture` behind it.
unfoldable pub finish_stop : Engine → Engine
finish_stop e = record e { thread = absent; backend = closed }

-- What `startCapture`, `openFile` and `replayFile` do first, behind `stopCapture`.
unfoldable pub clear_for : Bytes → Engine → Engine
clear_for device e = record e {
  queue = PacketQueue.clear e.queue;
  session_packets = [];
  current_device = device;
}

-- `startCapture` behind `stopCapture`.
unfoldable pub launch : Pcap → Bytes → Engine → Engine
launch lib name e =
    let b = Backend.open_live lib name in
    let opened = record (clear_for name e) { backend = b } in
    if not (is_open b)
    then opened
    else if not (is_empty e.active_filter) && not (Backend.set_filter lib e.active_filter b)
    then record (clear_for name e) { backend = closed }
    else record opened { session_link_type = b.link_type; stop_requested = false; thread = polling }

-- The loop of `openFile`, with its result. A list of answers that just ends is the end of the file.
unfoldable pub load : List PcapNext → Engine → Outcome (Engine × Bool)
load [] e = done (record e { backend = closed }, true)
load (answer ∷ answers) e = next_packet e.backend answer >>= elim [
  | packet p ↦ load answers (consume p e)
  | timeout ↦ load answers e
  | end_of_file ↦ done (record e { backend = closed }, true)
  | error ↦ done (record e { backend = closed }, false)
]

-- `openFile` behind `stopCapture`. A link type that is not supported is only reported.
unfoldable pub open_rest : Pcap → Bytes → List PcapNext → Engine → Outcome (Engine × Bool)
open_rest lib path answers e =
    let b = Backend.open_file lib path in
    let opened = record (clear_for [] e) { backend = b } in
    if not (is_open b)
    then done (opened, false)
    else load answers (record opened { session_link_type = b.link_type })

-- The loop of `replayFile`, with its result; what `onPacket` does is not the engine's. The answers
-- end where `shouldStop` holds.
unfoldable pub replay_loop : List PcapNext → Engine → Outcome (Engine × Bool)
replay_loop [] e = done (record e { backend = closed }, true)
replay_loop (answer ∷ answers) e = next_packet e.backend answer >>= elim [
  | packet p ↦ replay_loop answers e
  | timeout ↦ replay_loop answers e
  | end_of_file ↦ done (record e { backend = closed }, true)
  | error ↦ done (record e { backend = closed }, false)
]

-- `replayFile` behind `stopCapture`.
unfoldable pub replay_rest : Pcap → Bytes → List PcapNext → Engine → Outcome (Engine × Bool)
replay_rest lib path answers e =
    let b = Backend.open_file lib path in
    let opened = record (clear_for [] e) { backend = b } in
    let linked = record opened { session_link_type = b.link_type } in
    if not (is_open b)
    then done (opened, false)
    else if is_unsupported b.link_type
    then done (record linked { backend = closed }, false)
    else replay_loop answers linked

-- `setFilter`, with its result.
unfoldable pub set_filter : Pcap → Bytes → Engine → Engine × Bool
set_filter lib filter e =
    if not (is_joinable e.thread) || not (is_open e.backend)
    then (e, false)
    else if not (Backend.set_filter lib filter e.backend)
    then (e, false)
    else (record e { active_filter = filter }, true)
