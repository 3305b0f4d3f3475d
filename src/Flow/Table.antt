-- ===== src/Flow/Table.antt =====
-- `update` on the table of src/core/FlowAggregator.cpp, and its totals.
pub mod Directions
use netprobe_cpp.Base.{
  ℕ, ◌+◌, ◌%◌, ◌^◌, ◌≡◌, refl, arith, true, false, Option, none, some, if◌then◌else◌, [], ◌∷◌,
  Bytes, text_eq_iff, ℤ, Bool-cases, inl, inr,
}
use netprobe_cpp.Base.{◌||◌, is_empty, map}
use netprobe_cpp.Packet.{ParsedPacket}
use netprobe_cpp.Flow.Key.{FlowKey, key_eq, key_for}
use netprobe_cpp.Flow.State.{FlowState, new_state, update_state}
use netprobe_cpp.Flow.State.Counts.{update_state-counts}
use netprobe_cpp.Flow.{
  Flows, upsert, update_keyed, update, find, name_entry, set_hostname_for_address,
}

key_eq_refl : (k : FlowKey) → key_eq k k ≡ true
unfolding key_eq
key_eq_refl k = ground (
  arith,
  text_eq_iff k.src_ip k.src_ip,
  text_eq_iff k.dst_ip k.dst_ip,
  text_eq_iff k.protocol k.protocol,
)

pub key_eq_sound : (a b : FlowKey) → key_eq a b ≡ true → a ≡ b
unfolding key_eq
key_eq_sound a b h = ground (
  arith,
  text_eq_iff a.src_ip b.src_ip,
  text_eq_iff a.dst_ip b.dst_ip,
  text_eq_iff a.protocol b.protocol,
)

-- The state of a flow before its next packet: a new one when there is none.
pub known : FlowKey → ℤ → Option FlowState → FlowState
known key timestamp none = new_state key timestamp
known key timestamp (some s) = s

find-upsert_same :
    (p : ParsedPacket) (hostname process : Bytes) (key : FlowKey) (flows : Flows)
    → find key (upsert p hostname process key flows)
      ≡ some (update_state p hostname process (known key p.timestamp (find key flows)))
unfolding find upsert known
find-upsert_same p hostname process key [] = ground (arith, key_eq_refl key)
find-upsert_same p hostname process key ((k, s) ∷ flows) = elim (Bool-cases (key_eq k key)) [
  | inl same ↦ ground arith
  | inr other ↦ rw (other, other) (find-upsert_same p hostname process key flows)
]

find-upsert_other :
    (p : ParsedPacket) (hostname process : Bytes) (key k : FlowKey) (flows : Flows)
    → key_eq key k ≡ false
    → find k (upsert p hostname process key flows) ≡ find k flows
unfolding find upsert
find-upsert_other p hostname process key k [] h = ground arith
find-upsert_other p hostname process key k ((j, s) ∷ flows) h = elim (Bool-cases (key_eq j key)) [
  | inl same ↦ ground (arith, key_eq_sound j key)
  | inr other ↦ rw other (ground (arith, find-upsert_other p hostname process key k flows h))
]

-- What the flow of `k` is after a packet: that of the packet's own key is updated, and created
-- where there was none; every other one is as before.
abbrev pub found :
    Option FlowKey → FlowKey → ParsedPacket → Bytes → Bytes → Flows → Option FlowState
found none k p hostname process flows = find k flows
found (some key) k p hostname process flows =
    if key_eq key k
    then some (update_state p hostname process (known key p.timestamp (find key flows)))
    else find k flows

-- The flow that is found for any key after `update`: where the packet has that very key, its
-- former state, or a new one, updated by the packet; else the one that was found before.
pub find-update :
    (flows : Flows) (p : ParsedPacket) (hostname process : Bytes) (k : FlowKey)
    → find k (update flows p hostname process) ≡ found (key_for p) k p hostname process flows
unfolding update update_keyed
find-update flows p hostname process k = go (key_for p)
  where
    go :
        (own : Option FlowKey)
        → find k (update_keyed own flows p hostname process) ≡ found own k p hostname process flows
    go none = refl
    go (some key) = elim (Bool-cases (key_eq key k)) [
      | inl same ↦
          ground (arith, key_eq_sound key k same, find-upsert_same p hostname process key flows)
      | inr other ↦ rw other (find-upsert_other p hostname process key k flows other)
    ]

-- The packets and the bytes of all flows, as 64-bit counters.
abbrev pub total_packets : Flows → ℕ
total_packets [] = 0
total_packets ((k, s) ∷ flows) = (s.flow.packets + total_packets flows) % 2 ^ 64

abbrev pub total_bytes : Flows → ℕ
total_bytes [] = 0
total_bytes ((k, s) ∷ flows) = (s.flow.bytes_up + s.flow.bytes_down + total_bytes flows) % 2 ^ 64

total-upsert :
    (p : ParsedPacket) (hostname process : Bytes) (key : FlowKey) (flows : Flows)
    → (total_packets (upsert p hostname process key flows) ≡ (total_packets flows + 1) % 2 ^ 64)
      × (total_bytes (upsert p hostname process key flows)
          ≡ (total_bytes flows + p.length) % 2 ^ 64)
unfolding upsert
total-upsert p hostname process key [] =
    let c = update_state-counts p hostname process (new_state key p.timestamp) in
    unfold new_state in (omega (arith, c), omega (arith, c))
total-upsert p hostname process key ((k, s) ∷ flows) = elim (Bool-cases (key_eq k key)) [
  | inl same ↦
      rw same
        (let c = update_state-counts p hostname process s in (omega (arith, c), omega (arith, c)))
  | inr other ↦
      rw other
        (let c = total-upsert p hostname process key flows in (omega (arith, c), omega (arith, c)))
]

-- A counter of 64 bits after a packet that has a key, and after one that has none.
abbrev pub counted : Option FlowKey → ℕ → ℕ → ℕ
counted none amount total = total
counted (some key) amount total = (total + amount) % 2 ^ 64

-- The totals of all flows after a packet.
pub totals-update :
    (flows : Flows) (p : ParsedPacket) (hostname process : Bytes)
    → (total_packets (update flows p hostname process)
        ≡ counted (key_for p) 1 (total_packets flows))
      × (total_bytes (update flows p hostname process)
          ≡ counted (key_for p) p.length (total_bytes flows))
unfolding update update_keyed
totals-update flows p hostname process = go (key_for p)
  where
    go :
        (own : Option FlowKey)
        → (total_packets (update_keyed own flows p hostname process)
            ≡ counted own 1 (total_packets flows))
          × (total_bytes (update_keyed own flows p hostname process)
              ≡ counted own p.length (total_bytes flows))
    go none = (refl, refl)
    go (some key) = total-upsert p hostname process key flows

-- Naming the flows of an address counts nothing.
pub set_hostname-totals :
    (ip hostname : Bytes) (flows : Flows)
    → (total_packets (set_hostname_for_address ip hostname flows) ≡ total_packets flows)
      × (total_bytes (set_hostname_for_address ip hostname flows) ≡ total_bytes flows)
unfolding set_hostname_for_address name_entry
set_hostname-totals ip hostname flows = elim (Bool-cases (is_empty ip || is_empty hostname)) [
  | inl nothing ↦ rw nothing (refl, refl)
  | inr named ↦ rw named (names flows)
]
  where
    names :
        (fs : Flows)
        → (total_packets (map (name_entry ip hostname) fs) ≡ total_packets fs)
          × (total_bytes (map (name_entry ip hostname) fs) ≡ total_bytes fs)
    names [] = (refl, refl)
    names ((k, s) ∷ fs) = ground (arith, names fs)
