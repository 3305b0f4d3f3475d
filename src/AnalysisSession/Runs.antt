-- ===== src/AnalysisSession/Runs.antt =====
-- The whole pipeline of src/core/AnalysisSession.cpp, packet after packet.
use netprobe_cpp.Base.{
  ℕ, ◌+◌, ◌≤◌, ◌≡◌, refl, ap, ◌∙◌, arith, Bool, Option, none, some, ◌&&◌, ltb, List, [], ◌∷◌,
  length, Bytes, codes, text_eq, is_empty, Outcome, done, ◌>>=◌, Ensures, >>=-Ensures, if-Ensures,
}
use netprobe_cpp.Packet.{PacketData, ParsedPacket}
use netprobe_cpp.Protocol.Network.{Inet}
use netprobe_cpp.Protocol.Parse.Bounds.{parse_total}
use netprobe_cpp.Quic.Keys.{CryptoLibrary}
use netprobe_cpp.Quic.Initial.{looks_like_long_header}
use netprobe_cpp.Quic.Initial.Bounds.{Any, BlockSized, looks_like_long_header-Ensures}
use netprobe_cpp.Dns.Message.{parse_response}
use netprobe_cpp.Dns.Message.Bounds.{parse_response-Ensures}
use netprobe_cpp.TlsReassembler
use netprobe_cpp.TlsReassembler.Bounds as Tls
use netprobe_cpp.QuicTracker
use netprobe_cpp.HostnameCache
use netprobe_cpp.Flow
use netprobe_cpp.QuicTracker.Bounds as Tracker
use netprobe_cpp.Flow.Key.{FlowKey, key_for}
use netprobe_cpp.Flow.Table.{counted, total_packets, total_bytes, totals-update}
use netprobe_cpp.AnalysisSession.{
  Session, make, Result, with_streams, with_connections, feed_trackers, recover_sni, set_recovered,
  harvest, count_encrypted_dns, hostname_for, process_for, conclude, feed, clear,
}
use netprobe_cpp.AnalysisSession.Totals.{
  SameTotals-trans, harvest-SameTotals, count_encrypted_dns-SameTotals,
}

-- What the two trackers keep is bounded.
abbrev pub IsBounded : Session → Type 0
IsBounded s = Tls.IsBounded s.streams × Tracker.IsBounded s.connections

-- The trackers stay bounded, and the flows are as they were.
abbrev Recovered : Session → Session × Option Bytes → Type 0
Recovered s (t, sni) = IsBounded t × (t.flows ≡ s.flows)

feed_trackers-Ensures :
    (lib : CryptoLibrary) (s : Session) (p : ParsedPacket) (payload : Bytes)
    → BlockSized lib
    → IsBounded s
    → Ensures (Recovered s) (feed_trackers lib s p payload)
unfolding feed_trackers with_streams with_connections
feed_trackers-Ensures lib s p payload l b =
    if-Ensures (Recovered s) (text_eq p.protocol (codes "TCP")) _ _
      (λ _.
        >>=-Ensures Tls.Kept (Recovered s) (TlsReassembler.feed s.streams p payload) _
          (Tls.feed-Ensures s.streams p payload b.0) (λ r k. ((k, b.1), refl)))
      λ _.
        if-Ensures (Recovered s) (text_eq p.protocol (codes "UDP")) _ _
          (λ _.
            >>=-Ensures Any (Recovered s) (looks_like_long_header payload) _
              (looks_like_long_header-Ensures payload)
              λ is_quic _.
                if-Ensures (Recovered s) is_quic _ _
                  (λ _.
                    >>=-Ensures Tracker.Kept (Recovered s)
                      (QuicTracker.feed lib s.connections payload p.timestamp) _
                      (Tracker.feed-Kept lib s.connections payload p.timestamp l b.1)
                      (λ r k. ((b.0, k), refl)))
                  (λ _. (b, refl)))
          (λ _. (b, refl))

recover_sni-Ensures :
    (lib : CryptoLibrary) (s : Session) (raw : PacketData) (p : ParsedPacket)
    → BlockSized lib
    → IsBounded s
    → Ensures (Recovered s) (recover_sni lib s raw p)
unfolding recover_sni
recover_sni-Ensures lib s raw p l b =
    if-Ensures (Recovered s)
      (is_empty p.sni && ltb 0 p.payload_length && ltb p.payload_offset (length raw.payload)) _ _
      (λ _. feed_trackers-Ensures lib s p _ l b) (λ _. (b, refl))

-- After a packet the trackers are bounded, and the packet is counted in the totals of the flows.
abbrev pub Fed : Session → Session × Result → Type 0
Fed s (t, r) =
    IsBounded t
    × (total_packets t.flows ≡ counted (key_for r.parsed) 1 (total_packets s.flows))
    × (total_bytes t.flows ≡ counted (key_for r.parsed) r.parsed.length (total_bytes s.flows))

conclude-Fed :
    (lookup : ParsedPacket → Bytes) (s t : Session) (p : ParsedPacket)
    → IsBounded t
    → total_packets t.flows ≡ total_packets s.flows
    → total_bytes t.flows ≡ total_bytes s.flows
    → Fed s (conclude lookup t p)
unfolding conclude
conclude-Fed lookup s t p b packets bytes =
    let u = totals-update t.flows p (hostname_for t p) (process_for lookup t p) in
    (b, rw (← packets) u.0, rw (← bytes) u.1)

after_recovery-Ensures :
    (net : Inet) (lookup : ParsedPacket → Bytes) (s t : Session) (raw : PacketData)
    (p : ParsedPacket)
    → IsBounded t
    → t.flows ≡ s.flows
    → Ensures (Fed s) (
        parse_response net raw p >>= λ response.
        done (conclude lookup (count_encrypted_dns p (harvest net response t)) p))
after_recovery-Ensures net lookup s t raw p b f =
    >>=-Ensures Any (Fed s) (parse_response net raw p) _ (parse_response-Ensures net raw p)
      λ response _.
        let harvested = harvest net response t in
        let same =
          SameTotals-trans t harvested (count_encrypted_dns p harvested)
            (harvest-SameTotals net response t) (count_encrypted_dns-SameTotals p harvested) in
        conclude-Fed lookup s (count_encrypted_dns p harvested) p (rw (same.0, same.1) b)
          (same.2 ∙ ap total_packets f) (same.3 ∙ ap total_bytes f)

-- With an AES that gives blocks of 16 bytes: on every frame, `feed` of a session whose trackers are
-- bounded ends with no access outside of a buffer; the trackers are bounded again, and the packet,
-- if it has a flow key, is counted once and with all its bytes in the totals of the flows.
pub feed-Fed :
    (net : Inet) (lib : CryptoLibrary) (lookup : ParsedPacket → Bytes) (s : Session)
    (raw : PacketData)
    → BlockSized lib
    → IsBounded s
    → Ensures (Fed s) (feed net lib lookup s raw)
unfolding feed
feed-Fed net lib lookup s raw l b =
    let first = parse_total net lib raw l in
    rw first.1 (
      >>=-Ensures (Recovered s) (Fed s) (recover_sni lib s raw first.0) _
        (recover_sni-Ensures lib s raw first.0 l b)
        λ r k. after_recovery-Ensures net lookup s r.0 raw (set_recovered r.1 first.0) k.0 k.1)

-- One packet after the other.
abbrev pub feed_all :
    Inet → CryptoLibrary → (ParsedPacket → Bytes) → Session → List PacketData → Outcome Session
feed_all net lib lookup s [] = done s
feed_all net lib lookup s (raw ∷ packets) =
    feed net lib lookup s raw >>= λ r. feed_all net lib lookup r.0 packets

-- Bounded trackers, and no more packets counted than there were.
abbrev pub IsRun : ℕ → Session → Type 0
IsRun count s = IsBounded s × (total_packets s.flows ≤ count)

feed_all-Ensures :
    (packets : List PacketData) (net : Inet) (lib : CryptoLibrary) (lookup : ParsedPacket → Bytes)
    (s : Session) (before total : ℕ)
    → BlockSized lib
    → before + length packets ≡ total
    → IsRun before s
    → Ensures (IsRun total) (feed_all net lib lookup s packets)
feed_all-Ensures [] net lib lookup s before total l e r = (r.0, omega (arith, r.1))
feed_all-Ensures (raw ∷ packets) net lib lookup s before total l e r =
    >>=-Ensures (Fed s) (IsRun total) (feed net lib lookup s raw) _
      (feed-Fed net lib lookup s raw l r.0)
      λ q f. feed_all-Ensures packets net lib lookup q.0 (before + 1) total l (omega arith) (
        f.0,
        counted_le (key_for q.1.parsed) (total_packets s.flows) (total_packets q.0.flows) before f.1
            r.1,
      )
  where
    counted_le :
        (own : Option FlowKey) (old new before : ℕ)
        → new ≡ counted own 1 old
        → old ≤ before
        → new ≤ before + 1
    counted_le none old new before n o = omega (arith, n, o)
    counted_le (some key) old new before n o = omega (arith, n, o)

-- With an AES that gives blocks of 16 bytes: a new session takes any frames whatever, one after the
-- other, to the end with no access outside of a buffer; then its trackers are bounded, and the flows
-- count at most as many packets as there were frames.
pub feed_all-IsRun :
    (net : Inet) (lib : CryptoLibrary) (lookup : ParsedPacket → Bytes) (resolve : Bool)
    (packets : List PacketData)
    → BlockSized lib
    → Ensures (IsRun (length packets)) (feed_all net lib lookup (make resolve) packets)
unfolding make
feed_all-IsRun net lib lookup resolve packets l =
    feed_all-Ensures packets net lib lookup (make resolve) 0 (length packets) l (omega arith)
      (((omega arith, tt), (omega arith, tt)), omega arith)

-- After `clear` a session is as a new one with the same choice about processes.
pub clear-make : (s : Session) → clear s ≡ make s.resolve_processes
unfolding clear make Flow.clear HostnameCache.clear TlsReassembler.clear QuicTracker.clear
clear-make s = refl
