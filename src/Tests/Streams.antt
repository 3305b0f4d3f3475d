-- ===== src/Tests/Streams.antt =====
-- The queue, the flow table and the delivery counters at concrete inputs.
use netprobe_cpp.Base.{ℕ, ◌≡◌, refl, arith, true, false, not, List, [], ◌∷◌, codes, text_eq, pos}
use netprobe_cpp.PacketQueue.{Call, pushes, pops, pushed, run}
use netprobe_cpp.PacketQueue.Order.{IsFifo, start, run-make-IsFifo}
use netprobe_cpp.Flow.Key.{FlowKey, key_for, ordered_key, is_downstream}
use netprobe_cpp.Flow.Key.Canonical.{reply, key_for-reply, is_downstream-reply}
use netprobe_cpp.Flow.Sequence.{Delivery, no_sequence}
use netprobe_cpp.Flow.Sequence.Serial.{SameBlame, in_order, in_order-SameBlame}
use netprobe_cpp.Flow.State.{FlowState, new_state, update_state, is_zero}
use netprobe_cpp.Flow.State.Counts.{update_state-rtt}
use netprobe_cpp.Flow.{update, find}
use netprobe_cpp.Flow.Table.{found, counted, total_packets, find-update}
use netprobe_cpp.Flow.Table.Directions.{
  IsKeyed, total_up, total_down, goes, counted_one_way, update-Counted,
}
use netprobe_cpp.Tests.Data.{web_packet}

-- Three packets pushed and one popped on a queue of two.
abbrev calls : List (Call ℕ)
calls = pushes 1 ∷ pushes 2 ∷ pushes 3 ∷ pops ∷ []

run-make-IsFifo_example :
    IsFifo (pushed calls) (run (start 2) calls).popped (run (start 2) calls).state
run-make-IsFifo_example = run-make-IsFifo 2 calls

key_for-reply_example : key_for (reply web_packet) ≡ key_for web_packet
key_for-reply_example = key_for-reply web_packet

is_downstream-reply_example :
    is_downstream (reply web_packet) (ordered_key web_packet)
    ≡ not (is_downstream web_packet (ordered_key web_packet))
unfolding text_eq codes
is_downstream-reply_example = is_downstream-reply web_packet refl

abbrev web_key : FlowKey
web_key = record {
  src_ip = codes "10.0.0.1";
  dst_ip = codes "10.0.0.2";
  src_port = 49153;
  dst_port = 80;
  protocol = codes "TCP";
}

find-update_example :
    find web_key (update [] web_packet [] [])
    ≡ found (key_for web_packet) web_key web_packet [] [] []
find-update_example = find-update [] web_packet [] [] web_key

update-Counted_example :
    IsKeyed (update [] web_packet [] [])
    × (total_packets (update [] web_packet [] []) ≡ counted (key_for web_packet) 1 0)
    × (total_up (update [] web_packet [] [])
        ≡ counted_one_way (goes false web_packet (key_for web_packet)) 95 0)
    × (total_down (update [] web_packet [] [])
        ≡ counted_one_way (goes true web_packet (key_for web_packet)) 95 0)
update-Counted_example = update-Counted [] web_packet [] [] tt

-- A direction of which nothing was seen.
abbrev unseen : Delivery
unseen = record { sequence = no_sequence; retransmissions = 0; out_of_order = 0 }

-- Three segments, the second of which crosses the wrap-around.
in_order-SameBlame_example : SameBlame unseen (in_order 4294966000 (1000 ∷ 1000 ∷ 500 ∷ []) unseen)
in_order-SameBlame_example =
    in_order-SameBlame (1000 ∷ 1000 ∷ 500 ∷ []) 4294966000 unseen (omega arith) (ground arith)

-- A flow with a round trip of 42 microseconds.
abbrev timed : FlowState
timed = record (new_state web_key (pos 0)) {
  flow = record ((new_state web_key (pos 0)).flow) { initial_rtt_microseconds = pos 42 };
}

update_state-rtt_example :
    (update_state web_packet [] [] timed).flow.initial_rtt_microseconds ≡ pos 42
unfolding is_zero
update_state-rtt_example = update_state-rtt web_packet [] [] timed refl
