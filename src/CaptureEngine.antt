-- ===== src/CaptureEngine.antt =====
-- src/capture/CaptureEngine.hpp and CaptureEngine.cpp: live captures, capture files and the retained
-- session. Session has the operations on the engine's state, `replayFile` among them; here are the
-- packets that `replayFile` hands out and its result, on the answers of the backend, one for each round
-- of the loop before a stop is requested. Threads has the interleavings of the capture thread and the
-- callers.
pub mod Backend
pub mod Session
pub mod Export
pub mod Loaded
pub mod Threads
use netprobe_cpp.Base.{Bool, true, false, ◌||◌, not, if◌then◌else◌, List, [], ◌∷◌}
use netprobe_cpp.Packet.{PacketData}
use netprobe_cpp.LinkType.{LinkType}
use netprobe_cpp.Protocol.Parse.{is_unsupported}
use netprobe_cpp.CaptureEngine.Backend.{PacketRead, packet, timeout, end_of_file, error}

-- What a capture file is to the backend.
pub record CaptureFile : Type 0 where
  pub opens : Bool
  pub link_type : LinkType
  pub reads : List PacketRead

-- The packets that `onPacket` is called with, in this order, and the result.
pub record Replay : Type 0 where
  pub packets : List PacketData
  pub ok : Bool

unfoldable pub deliver : PacketData → Replay → Replay
deliver p r = record r { packets = p ∷ r.packets }

-- The loop; the answers end where a stop is requested.
unfoldable pub replay_reads : List PacketRead → Replay
replay_reads [] = record { packets = []; ok = true }
replay_reads (packet p ∷ reads) = deliver p (replay_reads reads)
replay_reads (timeout ∷ reads) = replay_reads reads
replay_reads (end_of_file ∷ reads) = record { packets = []; ok = true }
replay_reads (error ∷ reads) = record { packets = []; ok = false }

unfoldable pub replay_file : CaptureFile → Replay
replay_file file =
    if not file.opens || is_unsupported file.link_type
    then record { packets = []; ok = false }
    else replay_reads file.reads
