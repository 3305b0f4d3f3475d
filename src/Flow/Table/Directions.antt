-- ===== src/Flow/Table/Directions.antt =====
-- The counters of src/core/FlowAggregator.cpp by direction.
use netprobe_cpp.Base.{
  ℕ, ◌+◌, ◌%◌, ◌^◌, ◌≡◌, refl, arith, Bool, true, false, Option, none, some, if◌then◌else◌, [], ◌∷◌,
  Bytes, Bool-cases, inl, inr,
}
use netprobe_cpp.Packet.{ParsedPacket}
use netprobe_cpp.Flow.Key.{FlowKey, key_eq, key_for, is_downstream}
use netprobe_cpp.Flow.State.{new_state}
use netprobe_cpp.Flow.State.Counts.{update_state-directions}
use netprobe_cpp.Flow.{Flows, upsert, update_keyed, update}
use netprobe_cpp.Flow.Table.{total_packets, counted, key_eq_sound}

-- Each flow stands under its own key.
abbrev pub IsKeyed : Flows → Type 0
IsKeyed [] = Unit
IsKeyed ((k, s) ∷ flows) = (s.flow.key ≡ k) × IsKeyed flows

-- The bytes of all flows in each direction, as 64-bit counters.
abbrev pub total_up : Flows → ℕ
total_up [] = 0
total_up ((k, s) ∷ flows) = (s.flow.bytes_up + total_up flows) % 2 ^ 64

abbrev pub total_down : Flows → ℕ
total_down [] = 0
total_down ((k, s) ∷ flows) = (s.flow.bytes_down + total_down flows) % 2 ^ 64

-- Whether a packet with this key counts downstream, or not.
abbrev pub goes : Bool → ParsedPacket → Option FlowKey → Bool
goes way p none = false
goes true p (some key) = is_downstream p key
goes false p (some key) = if is_downstream p key then false else true

-- A total of one direction after a packet.
abbrev pub counted_one_way : Bool → ℕ → ℕ → ℕ
counted_one_way this_way amount total = if this_way then (total + amount) % 2 ^ 64 else total

-- What is counted of a packet with this key, in a table from one to the next.
abbrev Counted : Option FlowKey → ParsedPacket → Flows → Flows → Type 0
Counted key p flows after =
    IsKeyed after
    × (total_packets after ≡ counted key 1 (total_packets flows))
    × (total_up after ≡ counted_one_way (goes false p key) p.length (total_up flows))
    × (total_down after ≡ counted_one_way (goes true p key) p.length (total_down flows))

upsert-Counted :
    (p : ParsedPacket) (hostname process : Bytes) (key : FlowKey) (flows : Flows)
    → IsKeyed flows
    → Counted (some key) p flows (upsert p hostname process key flows)
unfolding upsert
upsert-Counted p hostname process key [] i =
    let c = update_state-directions p hostname process (new_state key p.timestamp) in
    unfold new_state in ground (arith, c)
upsert-Counted p hostname process key ((k, s) ∷ flows) i = elim (Bool-cases (key_eq k key)) [
  | inl same ↦
      let c = update_state-directions p hostname process s in
      let e : k ≡ key = key_eq_sound k key same in
      let own : s.flow.key ≡ key = cc in rw same (ground (arith, rw own at c, own, e, i))
  | inr other ↦
      rw other (let c = upsert-Counted p hostname process key flows i.1 in ground (arith, c, i))
]

-- Where each flow stands under its own key, it does so after a packet too. A packet that has a flow
-- key adds one to the packets of all flows and its length to their bytes down, if its key tells that
-- it goes downstream, and else to their bytes up, the other ones being as before; a packet that has
-- no key adds nothing. The totals are 64-bit counters.
pub update-Counted :
    (flows : Flows) (p : ParsedPacket) (hostname process : Bytes)
    → IsKeyed flows
    → IsKeyed (update flows p hostname process)
      × (total_packets (update flows p hostname process)
          ≡ counted (key_for p) 1 (total_packets flows))
      × (total_up (update flows p hostname process)
          ≡ counted_one_way (goes false p (key_for p)) p.length (total_up flows))
      × (total_down (update flows p hostname process)
          ≡ counted_one_way (goes true p (key_for p)) p.length (total_down flows))
unfolding update update_keyed
update-Counted flows p hostname process i = go (key_for p)
  where
    go : (own : Option FlowKey) → Counted own p flows (update_keyed own flows p hostname process)
    go none = (i, refl, refl, refl)
    go (some key) = upsert-Counted p hostname process key flows i
