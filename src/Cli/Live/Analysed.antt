-- ===== src/Cli/Live/Analysed.antt =====
-- What `session.feed(packet); ++packetsAnalyzed;` of src/cli/main.cpp does to the analysis.
use netprobe_cpp.Base.{
  ◌+◌, ◌%◌, ◌^◌, ◌≡◌, refl, arith, List, [], ◌∷◌, ◌++◌, length, length-append, Bytes, done, Ensures,
  >>=-mono, Ensures-done,
}
use netprobe_cpp.Packet.{PacketData, ParsedPacket}
use netprobe_cpp.Protocol.Network.{Inet}
use netprobe_cpp.Quic.Keys.{CryptoLibrary}
use netprobe_cpp.Quic.Initial.Bounds.{BlockSized}
use netprobe_cpp.AnalysisSession
use netprobe_cpp.AnalysisSession.{Session}
use netprobe_cpp.AnalysisSession.Runs.{IsBounded, feed_all, feed-Fed, Fed}
use netprobe_cpp.Cli.Live.{Analysis, analyse}

module _ (net : Inet) (lib : CryptoLibrary) (lookup : ParsedPacket → Bytes) where
  -- The session is that of some packets, fed one after the other, and they are counted.
  abbrev pub IsAnalysisOf : Session → List PacketData → Analysis → Type 0
  IsAnalysisOf start packets a =
      Ensures (λ s. s ≡ a.session) (feed_all net lib lookup start packets)
      × (a.packets_analyzed ≡ length packets % 2 ^ 64)

  feed_all-append :
      (packets : List PacketData) (packet : PacketData) (start s t : Session)
      (r : AnalysisSession.Result)
      → Ensures (λ u. u ≡ s) (feed_all net lib lookup start packets)
      → AnalysisSession.feed net lib lookup s packet ≡ done (t, r)
      → Ensures (λ u. u ≡ t) (feed_all net lib lookup start (packets ++ packet ∷ []))
  feed_all-append [] packet start s t r h e = rw (h, e) refl
  feed_all-append (p ∷ packets) packet start s t r h e =
      >>=-mono (λ u. u ≡ s) (λ u. u ≡ t) (AnalysisSession.feed net lib lookup start p) _ _ h
        λ q k. feed_all-append packets packet q.0 s t r k e

  -- One more packet, and the queue as it was.
  abbrev pub Adds : Session → List PacketData → PacketData → Analysis → Analysis → Type 0
  Adds start before packet a b =
      IsBounded b.session
      × IsAnalysisOf start (before ++ packet ∷ []) b
      × (b.queue ≡ a.queue)
      × (b.packets_analyzed ≡ (a.packets_analyzed + 1) % 2 ^ 64)

  pub analyse-Adds :
      (start : Session) (before : List PacketData) (packet : PacketData) (a : Analysis)
      → BlockSized lib
      → IsBounded a.session
      → IsAnalysisOf start before a
      → Ensures (Adds start before packet a) (analyse net lib lookup packet a)
  unfolding analyse
  analyse-Adds start before packet a l b found =
      let (r, e, k) =
        Ensures-done (Fed a.session) (AnalysisSession.feed net lib lookup a.session packet)
          (feed-Fed net lib lookup a.session packet l b) in
      rw (e) (
        k.0,
        (
          feed_all-append before packet start a.session r.0 r.1 found.0 e,
          omega (arith, found.1, length-append before (packet ∷ [])),
        ),
        refl,
        refl,
      )
