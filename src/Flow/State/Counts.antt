-- ===== src/Flow/State/Counts.antt =====
-- What one packet adds to its flow (src/core/FlowAggregator.cpp, `update`).
use netprobe_cpp.Base.{◌+◌, ◌%◌, ◌^◌, ◌≡◌, arith, Bool, false, if◌then◌else◌, Bytes}
use netprobe_cpp.Packet.{ParsedPacket}
use netprobe_cpp.Flow.Key.{is_downstream}
use netprobe_cpp.Flow.State.{
  FlowState, count_packet, track_rtt, set_up_delivery, set_down_delivery, track_delivery,
  reset_sequences, name_flow, push_sample, update_state, is_zero,
}

-- What of a flow the steps after the counting leave as it is.
abbrev SameCounts : FlowState → FlowState → Type 0
SameCounts s t =
    (t.flow.packets ≡ s.flow.packets)
    × (t.flow.bytes_up ≡ s.flow.bytes_up)
    × (t.flow.bytes_down ≡ s.flow.bytes_down)
    × (t.flow.key ≡ s.flow.key)

track_rtt-SameCounts :
    (p : ParsedPacket) (d : Bool) (s : FlowState) → SameCounts s (track_rtt p d s)
unfolding track_rtt
track_rtt-SameCounts p d s = ground arith

track_delivery-SameCounts :
    (p : ParsedPacket) (d : Bool) (s : FlowState) → SameCounts s (track_delivery p d s)
unfolding track_delivery set_up_delivery set_down_delivery
track_delivery-SameCounts p d s = ground arith

reset_sequences-SameCounts : (p : ParsedPacket) (s : FlowState) → SameCounts s (reset_sequences p s)
unfolding reset_sequences
reset_sequences-SameCounts p s = ground arith

-- The packet and its bytes count once, the bytes in the direction that the flow's key gives them.
pub update_state-directions :
    (p : ParsedPacket) (hostname process : Bytes) (s : FlowState)
    → ((update_state p hostname process s).flow.packets ≡ (s.flow.packets + 1) % 2 ^ 64)
      × ((update_state p hostname process s).flow.key ≡ s.flow.key)
      × ((update_state p hostname process s).flow.bytes_up ≡ (
          if is_downstream p s.flow.key
          then s.flow.bytes_up
          else (s.flow.bytes_up + p.length) % 2 ^ 64))
      × ((update_state p hostname process s).flow.bytes_down ≡ (
          if is_downstream p s.flow.key
          then (s.flow.bytes_down + p.length) % 2 ^ 64
          else s.flow.bytes_down))
unfolding update_state push_sample name_flow count_packet
update_state-directions p hostname process s =
    let d = is_downstream p s.flow.key in
    let counted = count_packet p d s in
    let timed = track_rtt p d counted in
    let tracked = track_delivery p d timed in
    ground (
      arith,
      track_rtt-SameCounts p d counted,
      track_delivery-SameCounts p d timed,
      reset_sequences-SameCounts p tracked,
    )

-- The packet and its bytes count once, whatever the direction.
pub update_state-counts :
    (p : ParsedPacket) (hostname process : Bytes) (s : FlowState)
    → ((update_state p hostname process s).flow.packets ≡ (s.flow.packets + 1) % 2 ^ 64)
      × ((update_state p hostname process s).flow.key ≡ s.flow.key)
      × (((update_state p hostname process s).flow.bytes_up
              + (update_state p hostname process s).flow.bytes_down)
            % 2 ^ 64
          ≡ (s.flow.bytes_up + s.flow.bytes_down + p.length) % 2 ^ 64)
unfolding update_state push_sample name_flow count_packet
update_state-counts p hostname process s =
    let d = is_downstream p s.flow.key in
    let counted = count_packet p d s in
    let timed = track_rtt p d counted in
    let tracked = track_delivery p d timed in
    ground (
      arith,
      track_rtt-SameCounts p d counted,
      track_delivery-SameCounts p d timed,
      reset_sequences-SameCounts p tracked,
    )

-- The round trip of the handshake, once measured, is never measured again.
pub update_state-rtt :
    (p : ParsedPacket) (hostname process : Bytes) (s : FlowState)
    → is_zero s.flow.initial_rtt_microseconds ≡ false
    → (update_state p hostname process s).flow.initial_rtt_microseconds
      ≡ s.flow.initial_rtt_microseconds
unfolding update_state push_sample name_flow count_packet track_rtt reset_sequences track_delivery
    set_up_delivery set_down_delivery
update_state-rtt p hostname process s h = ground arith
