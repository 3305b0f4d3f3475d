-- ===== src/Flow/State.antt =====
-- src/core/FlowAggregator.cpp, `FlowAggregator::update` on the state of one flow.
pub mod Counts
use netprobe_cpp.Base.{
  ℕ, zero, suc, ◌+◌, ◌%◌, ◌^◌, Bool, false, true, ◌&&◌, ◌||◌, not, ltb, if◌then◌else◌, List, [],
  ◌∷◌, ◌++◌, Bytes, codes, text_eq, is_empty, ℤ, pos, negsuc, ltb_ℤ, ◌-ℤ◌,
}
use netprobe_cpp.Packet.{ParsedPacket}
use netprobe_cpp.Flow.Key.{FlowKey, is_downstream}
use netprobe_cpp.Flow.Sequence.{DirectionSequence, Delivery, no_sequence, track}

abbrev pub one_second : ℕ
one_second = 1_000_000

-- `rateBytesPerSecond` is written by `snapshot` only and stands there.
pub record Flow : Type 0 where
  pub key : FlowKey
  pub bytes_up : ℕ
  pub bytes_down : ℕ
  pub packets : ℕ
  pub first_seen : ℤ
  pub last_seen : ℤ
  pub hostname : Bytes
  pub service : Bytes
  pub process : Bytes
  pub initial_rtt_microseconds : ℤ
  pub encrypted_tunnel : Bool
  pub retransmissions_up : ℕ
  pub retransmissions_down : ℕ
  pub out_of_order_up : ℕ
  pub out_of_order_down : ℕ

pub record TrafficSample : Type 0 where
  pub timestamp : ℤ
  pub bytes : ℕ

pub record FlowState : Type 0 where
  pub flow : Flow
  pub recent_traffic : List TrafficSample
  pub up_sequence : DirectionSequence
  pub down_sequence : DirectionSequence
  pub syn_timestamp : ℤ
  pub syn_seen : Bool

unfoldable pub new_state : FlowKey → ℤ → FlowState
new_state key timestamp = record {
  flow = record {
    key = key;
    bytes_up = 0;
    bytes_down = 0;
    packets = 0;
    first_seen = timestamp;
    last_seen = pos 0;
    hostname = [];
    service = [];
    process = [];
    initial_rtt_microseconds = pos 0;
    encrypted_tunnel = false;
    retransmissions_up = 0;
    retransmissions_down = 0;
    out_of_order_up = 0;
    out_of_order_down = 0;
  };
  recent_traffic = [];
  up_sequence = no_sequence;
  down_sequence = no_sequence;
  syn_timestamp = pos 0;
  syn_seen = false;
}

-- Last seen, packets, bytes by direction, and the mark of an encrypted tunnel.
pub count_packet : ParsedPacket → Bool → FlowState → FlowState
count_packet p downstream s = record s {
  flow = record (s.flow) {
    last_seen = p.timestamp;
    packets = (s.flow.packets + 1) % 2 ^ 64;
    bytes_down = if downstream then (s.flow.bytes_down + p.length) % 2 ^ 64 else s.flow.bytes_down;
    bytes_up = if downstream then s.flow.bytes_up else (s.flow.bytes_up + p.length) % 2 ^ 64;
    encrypted_tunnel = p.encrypted_tunnel || s.flow.encrypted_tunnel;
  };
}

unfoldable pub is_zero : ℤ → Bool
is_zero (pos zero) = true
is_zero (pos (suc n)) = false
is_zero (negsuc n) = false

-- The round trip of the handshake: from the first SYN to a SYN-ACK, once for a flow.
pub track_rtt : ParsedPacket → Bool → FlowState → FlowState
track_rtt p downstream s =
    let delta = p.timestamp -ℤ s.syn_timestamp in
    if not (text_eq p.protocol (codes "TCP") && is_zero s.flow.initial_rtt_microseconds)
    then s
    else if p.tcp_syn && not p.tcp_ack && not downstream && not s.syn_seen
    then record s { syn_timestamp = p.timestamp; syn_seen = true }
    else if p.tcp_syn && p.tcp_ack && downstream && s.syn_seen && ltb_ℤ (pos 0) delta
    then record s { flow = record (s.flow) { initial_rtt_microseconds = delta } }
    else s

pub up_delivery : FlowState → Delivery
up_delivery s = record {
  sequence = s.up_sequence;
  retransmissions = s.flow.retransmissions_up;
  out_of_order = s.flow.out_of_order_up;
}

pub down_delivery : FlowState → Delivery
down_delivery s = record {
  sequence = s.down_sequence;
  retransmissions = s.flow.retransmissions_down;
  out_of_order = s.flow.out_of_order_down;
}

pub set_up_delivery : Delivery → FlowState → FlowState
set_up_delivery d s = record s {
  up_sequence = d.sequence;
  flow = record (s.flow) {
    retransmissions_up = d.retransmissions;
    out_of_order_up = d.out_of_order;
  };
}

pub set_down_delivery : Delivery → FlowState → FlowState
set_down_delivery d s = record s {
  down_sequence = d.sequence;
  flow = record (s.flow) {
    retransmissions_down = d.retransmissions;
    out_of_order_down = d.out_of_order;
  };
}

-- Segments with payload are tracked in their direction.
pub track_delivery : ParsedPacket → Bool → FlowState → FlowState
track_delivery p downstream s =
    if not (text_eq p.protocol (codes "TCP") && ltb 0 p.payload_length)
    then s
    else if downstream
    then set_down_delivery (track p.tcp_seq p.payload_length (down_delivery s)) s
    else set_up_delivery (track p.tcp_seq p.payload_length (up_delivery s)) s

pub reset_sequences : ParsedPacket → FlowState → FlowState
reset_sequences p s =
    if p.tcp_rst then record s { up_sequence = no_sequence; down_sequence = no_sequence } else s

-- The name that a packet carries, by precedence: SNI, HTTP host, the caller's.
pub hostname_of : ParsedPacket → Bytes → Bytes → Bytes
hostname_of p hostname old =
    if not (is_empty p.sni)
    then p.sni
    else if not (is_empty p.hostname)
    then p.hostname
    else if not (is_empty hostname)
    then hostname
    else old

pub name_flow : ParsedPacket → Bytes → Bytes → FlowState → FlowState
name_flow p hostname process s = record s {
  flow = record (s.flow) {
    hostname = hostname_of p hostname s.flow.hostname;
    service = if is_empty p.service then s.flow.service else p.service;
    process = if is_empty s.flow.process && not (is_empty process) then process else s.flow.process;
  };
}

-- The loop that drops samples from before the cutoff.
pub drop_old : ℤ → List TrafficSample → List TrafficSample
drop_old cutoff [] = []
drop_old cutoff (s ∷ samples) =
    if ltb_ℤ s.timestamp cutoff then drop_old cutoff samples else s ∷ samples

pub push_sample : ParsedPacket → FlowState → FlowState
push_sample p s = record s {
  recent_traffic =
      drop_old (p.timestamp -ℤ pos one_second)
        (s.recent_traffic ++ record { timestamp = p.timestamp; bytes = p.length } ∷ []);
}

pub update_state : ParsedPacket → Bytes → Bytes → FlowState → FlowState
update_state p hostname process s =
    let downstream = is_downstream p s.flow.key in
    push_sample p (
      name_flow p hostname process (
        reset_sequences p
          (track_delivery p downstream (track_rtt p downstream (count_packet p downstream s)))))
