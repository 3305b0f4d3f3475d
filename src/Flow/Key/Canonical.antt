-- ===== src/Flow/Key/Canonical.antt =====
-- The keys of the two directions of a conversation (src/core/FlowAggregator.cpp).
use netprobe_cpp.Base.{
  ℕ, ◌≡◌, refl, false, true, arith, ◌&&◌, not, ◌==◌, Bytes, text_eq, text_eq_iff, text_le_total,
  text_le_antisymm, Bool-cases, inl, inr,
}
use netprobe_cpp.Packet.{ParsedPacket}
use netprobe_cpp.Flow.Key.{forward, reversed, endpoint_le, ordered_key, key_for, is_downstream}

-- The packet that goes the other way, between the same endpoints.
abbrev pub reply : ParsedPacket → ParsedPacket
reply p = record p {
  src_ip = p.dst_ip;
  dst_ip = p.src_ip;
  src_port = p.dst_port;
  dst_port = p.src_port;
}

-- Of two different endpoints exactly one comes first.
endpoint_le-swap :
    (s t : Bytes) (a b : ℕ)
    → (text_eq s t && (a == b)) ≡ false
    → endpoint_le t b s a ≡ not (endpoint_le s a t b)
unfolding endpoint_le
endpoint_le-swap s t a b h = ground (
  arith,
  text_eq_iff s t,
  text_eq_iff t s,
  text_le_total s t,
  text_le_total t s,
  text_le_antisymm s t,
)

same_endpoint : (s t : Bytes) (a b : ℕ) → (text_eq s t && (a == b)) ≡ true → (s ≡ t) × (a ≡ b)
same_endpoint s t a b h = ground (arith, text_eq_iff s t)

ordered_key-reply_same :
    (p : ParsedPacket)
    → p.src_ip ≡ p.dst_ip
    → p.src_port ≡ p.dst_port
    → ordered_key (reply p) ≡ ordered_key p
unfolding ordered_key forward reversed
ordered_key-reply_same p e f = rw (e, f) refl

ordered_key-reply : (p : ParsedPacket) → ordered_key (reply p) ≡ ordered_key p
unfolding ordered_key forward reversed
ordered_key-reply p = elim (Bool-cases (text_eq p.src_ip p.dst_ip && (p.src_port == p.dst_port))) [
  | inl same ↦
      let e = same_endpoint p.src_ip p.dst_ip p.src_port p.dst_port same in
      ordered_key-reply_same p e.0 e.1
  | inr differ ↦ ground (arith, endpoint_le-swap p.src_ip p.dst_ip p.src_port p.dst_port differ)
]

-- Both directions of a conversation have the same flow key, or both have none.
pub key_for-reply : (p : ParsedPacket) → key_for (reply p) ≡ key_for p
unfolding key_for
key_for-reply p = ground (arith, ordered_key-reply p)

-- For different endpoints, the flow's key tells the two directions of the conversation apart.
pub is_downstream-reply :
    (p : ParsedPacket)
    → (text_eq p.src_ip p.dst_ip && (p.src_port == p.dst_port)) ≡ false
    → is_downstream (reply p) (ordered_key p) ≡ not (is_downstream p (ordered_key p))
unfolding ordered_key forward reversed is_downstream
is_downstream-reply p h = ground (
  arith,
  text_eq_iff p.src_ip p.dst_ip,
  text_eq_iff p.dst_ip p.src_ip,
  text_eq_iff p.src_ip p.src_ip,
  text_eq_iff p.dst_ip p.dst_ip,
)
