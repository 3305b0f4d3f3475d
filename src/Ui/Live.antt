-- ===== src/Ui/Live.antt =====
-- src/ui/GuiLayer.cpp: `processQueue` up to its charts, `setPaused`, `clearCaptureView` and
-- `encryptedDnsDominates`.
pub mod Selection
pub mod History
use netprobe_cpp.Base.{
  ℕ, zero, suc, ◌+◌, ◌*◌, ◌%◌, ◌^◌, Bool, true, false, Option, none, some, ◌&&◌, ◌||◌, not, ltb,
  leb, if◌then◌else◌, List, [], ◌∷◌, length, Bytes, codes, text_eq, is_empty, find_entry, put_entry,
  push_bounded, Outcome, done, ◌>>=◌,
}
use netprobe_cpp.Packet.{PacketData, ParsedPacket}
use netprobe_cpp.PacketQueue
use netprobe_cpp.PacketQueue.{PacketQueue}
use netprobe_cpp.Protocol.Network.{Inet}
use netprobe_cpp.Quic.Keys.{CryptoLibrary}
use netprobe_cpp.AnalysisSession
use netprobe_cpp.AnalysisSession.{Session, Result}
use netprobe_cpp.Ui.View.{PacketRecord, View, no_version}

abbrev pub max_packet_history : ℕ
max_packet_history = 10000

abbrev pub max_packets_per_frame : ℕ
max_packets_per_frame = 1000

-- `if (m_selectedPacketIndex >= 0) --m_selectedPacketIndex;`
unfoldable pub shift_selection : Option ℕ → Option ℕ
shift_selection none = none
shift_selection (some zero) = none
shift_selection (some (suc i)) = some i

-- The record stands at the end of the history, and a full one has lost its first.
unfoldable pub remember : PacketRecord → View → View
remember r v = record v {
  packet_history = push_bounded max_packet_history v.packet_history r;
  selected_packet_index =
      if leb max_packet_history (length v.packet_history)
      then shift_selection v.selected_packet_index
      else v.selected_packet_index;
  packet_history_version = (v.packet_history_version + 1) % 2 ^ 64;
}

pub raise : Option ℕ → Bytes → ℕ → List (Bytes × ℕ) → List (Bytes × ℕ)
raise none name n counts = (name, n) ∷ counts
raise (some m) name n counts = put_entry text_eq name ((m + n) % 2 ^ 64) counts

-- `counts[name] += n`
pub add_to : List (Bytes × ℕ) → Bytes → ℕ → List (Bytes × ℕ)
add_to counts name n = raise (find_entry text_eq name counts) name n counts

-- The all-time counters and those of the charts. The services are counted in an `int`, whose
-- overflow is undefined and left out: it counts on here.
unfoldable pub count_packet : ParsedPacket → View → View
count_packet p v = record v {
  total_packets = (v.total_packets + 1) % 2 ^ 64;
  bytes_this_sec = (v.bytes_this_sec + p.length) % 2 ^ 64;
  tcp_bytes_this_sec =
      if text_eq p.protocol (codes "TCP")
      then (v.tcp_bytes_this_sec + p.length) % 2 ^ 64
      else v.tcp_bytes_this_sec;
  udp_bytes_this_sec =
      if not (text_eq p.protocol (codes "TCP")) && text_eq p.protocol (codes "UDP")
      then (v.udp_bytes_this_sec + p.length) % 2 ^ 64
      else v.udp_bytes_this_sec;
  protocol_counts = add_to v.protocol_counts p.protocol 1;
  protocol_bytes = add_to v.protocol_bytes p.protocol p.length;
  app_counts = if is_empty p.service then v.app_counts else add_to v.app_counts p.service 1;
}

-- What follows on the analysis of one packet.
unfoldable pub show : PacketData → Session × Result → View → View
show raw (session, analyzed) v = count_packet analyzed.parsed (
    remember (record { raw = raw; parsed = analyzed.parsed; process = analyzed.process })
      (record v { session = session }))

module _ (net : Inet) (lib : CryptoLibrary) (lookup : ParsedPacket → Bytes) where
  -- One round, and the rounds after it; an empty queue ends them.
  unfoldable pub next_round :
      Option (PacketData × PacketQueue PacketData) → View → (View → Outcome View) → Outcome View
  next_round none v go = done v
  next_round (some (raw, queue)) v go = do
    analyzed ← AnalysisSession.feed net lib lookup v.session raw
    go (show raw analyzed (record v { queue = queue }))

  unfoldable pub process_packets : ℕ → View → Outcome View
  process_packets zero v = done v
  process_packets (suc left) v =
      next_round (PacketQueue.try_pop v.queue) v (λ w. process_packets left w)

  -- `processQueue`, its loop
  unfoldable pub process_queue : View → Outcome View
  process_queue v = if v.capture_paused then done v else process_packets max_packets_per_frame v

-- `setPaused`. On resuming, what has piled up is dropped.
unfoldable pub set_paused : Bool → View → View
set_paused paused v =
    if (v.capture_paused && paused) || not (v.capture_paused || paused)
    then v
    else if paused
    then record v { capture_paused = true }
    else record v {
      capture_paused = false;
      queue = PacketQueue.clear v.queue;
      bytes_this_sec = 0;
      tcp_bytes_this_sec = 0;
      udp_bytes_this_sec = 0;
    }

-- `clearCaptureView`
unfoldable pub clear_capture_view : View → View
clear_capture_view v = record v {
  packet_history = [];
  packet_history_version = (v.packet_history_version + 1) % 2 ^ 64;
  filtered_packet_indexes = [];
  filter_cache_history_version = no_version;
  selected_packet_index = none;
  app_counts = [];
  protocol_counts = [];
  protocol_bytes = [];
  session = AnalysisSession.clear v.session;
  packet_flow_filter = none;
  bytes_this_sec = 0;
  tcp_bytes_this_sec = 0;
  udp_bytes_this_sec = 0;
  total_packets = 0;
}

-- `encryptedDnsDominates`
pub encrypted_dns_dominates : Session → Bool
encrypted_dns_dominates s =
    leb 3 s.encrypted_dns_packets
    && ltb (s.plaintext_dns_responses * 2 % 2 ^ 64) s.encrypted_dns_packets
