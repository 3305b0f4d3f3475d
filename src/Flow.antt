-- ===== src/Flow.antt =====
-- src/core/FlowAggregator.hpp and FlowAggregator.cpp: conversations and what is counted of them.
-- Key is the canonical key, Sequence the delivery counters, State one flow's record; here is the
-- table. The hash of a key decides nothing but the order of iteration and is left out: the table
-- is an association list with one entry for a key.
pub mod Key
pub mod Sequence
pub mod State
pub mod Table
use netprobe_cpp.Base.{
  ℕ, ◌+◌, ◌%◌, ◌^◌, Bool, Option, none, some, ◌&&◌, ◌||◌, not, if◌then◌else◌, List, [], ◌∷◌, map,
  Bytes, text_eq, is_empty, ℤ, pos, ltb_ℤ, ◌-ℤ◌,
}
use netprobe_cpp.Packet.{ParsedPacket}
use netprobe_cpp.Flow.Key.{FlowKey, key_eq, key_for}
use netprobe_cpp.Flow.State.{Flow, FlowState, TrafficSample, new_state, update_state, one_second}

abbrev pub Flows : Type 0
Flows = List (FlowKey × FlowState)

-- The entry of a key, a new one if there is none, updated in place.
pub upsert : ParsedPacket → Bytes → Bytes → FlowKey → Flows → Flows
upsert p hostname process key [] =
    (key, update_state p hostname process (new_state key p.timestamp)) ∷ []
upsert p hostname process key ((k, s) ∷ flows) =
    if key_eq k key
    then (k, update_state p hostname process s) ∷ flows
    else (k, s) ∷ upsert p hostname process key flows

pub update_keyed : Option FlowKey → Flows → ParsedPacket → Bytes → Bytes → Flows
update_keyed none flows p hostname process = flows
update_keyed (some key) flows p hostname process = upsert p hostname process key flows

pub update : Flows → ParsedPacket → Bytes → Bytes → Flows
update flows p hostname process = update_keyed (key_for p) flows p hostname process

pub find : FlowKey → Flows → Option FlowState
find key [] = none
find key ((k, s) ∷ flows) = if key_eq k key then some s else find key flows

pub name_entry : Bytes → Bytes → FlowKey × FlowState → FlowKey × FlowState
name_entry ip hostname (k, s) =
    if text_eq k.dst_ip ip || text_eq k.src_ip ip
    then (k, record s { flow = record (s.flow) { hostname = hostname } })
    else (k, s)

pub set_hostname_for_address : Bytes → Bytes → Flows → Flows
set_hostname_for_address ip hostname flows =
    if is_empty ip || is_empty hostname then flows else map (name_entry ip hostname) flows

-- The bytes of the last second before `now`.
pub bytes_in_window : ℤ → List TrafficSample → ℕ
bytes_in_window now [] = 0
bytes_in_window now (s ∷ samples) =
    let rest = bytes_in_window now samples in
    if not (ltb_ℤ s.timestamp (now -ℤ pos one_second)) && not (ltb_ℤ now s.timestamp)
    then (s.bytes + rest) % 2 ^ 64
    else rest

-- The rate is the number of bytes that the source converts to `double`.
pub snapshot : ℤ → Flows → List (Flow × ℕ)
snapshot now [] = []
snapshot now ((k, s) ∷ flows) = (s.flow, bytes_in_window now s.recent_traffic) ∷ snapshot now flows

unfoldable pub clear : Flows → Flows
clear flows = []
