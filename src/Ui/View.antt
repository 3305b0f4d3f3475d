-- ===== src/Ui/View.antt =====
-- What `GuiLayer` of src/ui/GuiLayer.hpp keeps of the packets, apart from its charts. The index of
-- the selected row is `none` for -1.
use netprobe_cpp.Base.{ℕ, ◌-◌, ◌^◌, Bool, false, Option, none, List, [], Bytes}
use netprobe_cpp.Packet.{PacketData, ParsedPacket}
use netprobe_cpp.PacketQueue.{PacketQueue}
use netprobe_cpp.Flow.Key.{FlowKey}
use netprobe_cpp.AnalysisSession.{Session}

pub record PacketRecord : Type 0 where
  pub raw : PacketData
  pub parsed : ParsedPacket
  pub process : Bytes

pub record View : Type 0 where
  pub queue : PacketQueue PacketData
  pub session : Session
  pub packet_history : List PacketRecord
  pub packet_history_version : ℕ
  pub selected_packet_index : Option ℕ
  pub packet_flow_filter : Option FlowKey
  pub capture_paused : Bool
  pub display_filter : Bytes
  pub filtered_packet_indexes : List ℕ
  pub filter_cache_signature : Bytes
  pub filter_cache_history_version : ℕ
  pub app_counts : List (Bytes × ℕ)
  pub protocol_counts : List (Bytes × ℕ)
  pub protocol_bytes : List (Bytes × ℕ)
  pub total_packets : ℕ
  pub bytes_this_sec : ℕ
  pub tcp_bytes_this_sec : ℕ
  pub udp_bytes_this_sec : ℕ

-- `UINT64_MAX`
abbrev pub no_version : ℕ
no_version = 2 ^ 64 - 1

-- The members as they are initialised.
unfoldable pub make : PacketQueue PacketData → Session → View
make queue session = record {
  queue = queue;
  session = session;
  packet_history = [];
  packet_history_version = 0;
  selected_packet_index = none;
  packet_flow_filter = none;
  capture_paused = false;
  display_filter = [];
  filtered_packet_indexes = [];
  filter_cache_signature = [];
  filter_cache_history_version = no_version;
  app_counts = [];
  protocol_counts = [];
  protocol_bytes = [];
  total_packets = 0;
  bytes_this_sec = 0;
  tcp_bytes_this_sec = 0;
  udp_bytes_this_sec = 0;
}
