-- ===== src/Cli/Live/Steps.antt =====
-- What a round of the loops in `runLive` of src/cli/main.cpp does to the analysis and the queue.
use mathlib.Core.List.{append_assoc, append-nil}
use netprobe_cpp.Base.{
  ℕ, ◌+◌, ◌%◌, ◌^◌, ◌≤◌, ◌≡◌, arith, false, Option, none, some, List, [], ◌∷◌, ◌++◌, Bytes, Ensures,
  Ensures-mono,
}
use netprobe_cpp.Packet.{PacketData, ParsedPacket}
use netprobe_cpp.Protocol.Network.{Inet}
use netprobe_cpp.Quic.Keys.{CryptoLibrary}
use netprobe_cpp.Quic.Initial.Bounds.{BlockSized}
use netprobe_cpp.PacketQueue
use netprobe_cpp.PacketQueue.{PacketQueue}
use netprobe_cpp.PacketQueue.Order.{IsFifo, push-IsFifo, try_pop-IsFifo}
use netprobe_cpp.AnalysisSession.{Session}
use netprobe_cpp.AnalysisSession.Runs.{IsBounded}
use netprobe_cpp.Cli.Live.{Analysis, limit_reached, push_all, arrive, analyse}
use netprobe_cpp.Cli.Live.Analysed.{IsAnalysisOf, Adds, analyse-Adds}

-- No more packets than the limit, where there is one.
abbrev pub Within : Option ℕ → ℕ → Type 0
Within none analyzed = Unit
Within (some limit) analyzed = analyzed ≤ limit

push_all-IsFifo :
    (packets before popped : List PacketData) (q : PacketQueue PacketData)
    → IsFifo before popped q
    → IsFifo (before ++ packets) popped (push_all q packets)
unfolding push_all
push_all-IsFifo [] before popped q f = rw append-nil f
push_all-IsFifo (p ∷ packets) before popped q f = rw (← append_assoc before (p ∷ []) packets) (
    push_all-IsFifo packets (before ++ p ∷ []) popped (PacketQueue.push q p)
      (push-IsFifo p before popped q f))

module _ (net : Inet) (lib : CryptoLibrary) (lookup : ParsedPacket → Bytes) where
  -- The invariant of both loops: the packets that were analysed are those that came out of the queue
  -- into which `arrived` was pushed.
  abbrev pub IsAnalysis : Session → Option ℕ → List PacketData → Analysis → Type 0
  IsAnalysis start limit arrived a =
      IsBounded a.session
      × Within limit a.packets_analyzed
      × (packets : List PacketData) × IsAnalysisOf net lib lookup start packets a
      × IsFifo arrived packets a.queue

  pub arrive-IsAnalysis :
      (start : Session) (limit : Option ℕ) (arrived packets : List PacketData) (a : Analysis)
      → IsAnalysis start limit arrived a
      → IsAnalysis start limit (arrived ++ packets) (arrive packets a)
  unfolding arrive
  arrive-IsAnalysis start limit arrived packets a (b, w, analysed, found, f) =
      (b, w, analysed, found, push_all-IsFifo packets arrived analysed a.queue f)

  pub analyse-IsAnalysis :
      (start : Session) (limit : Option ℕ) (arrived : List PacketData) (packet : PacketData)
      (q : PacketQueue PacketData) (a : Analysis)
      → BlockSized lib
      → IsAnalysis start limit arrived a
      → limit_reached limit a.packets_analyzed ≡ false
      → PacketQueue.try_pop a.queue ≡ some (packet, q)
      → Ensures
          (λ b. IsAnalysis start limit arrived b × (b.queue ≡ q))
          (analyse net lib lookup packet (record a { queue = q }))
  unfolding limit_reached
  analyse-IsAnalysis start limit arrived packet q a l (b, w, packets, found, fifo) f e =
      Ensures-mono (Adds net lib lookup start packets packet (record a { queue = q }))
        (λ c. IsAnalysis start limit arrived c × (c.queue ≡ q))
        (analyse net lib lookup packet (record a { queue = q }))
        (analyse-Adds net lib lookup start packets packet (record a { queue = q }) l b found)
        λ c k. (
          (
            k.0,
            rw (k.3) (within_next limit a.packets_analyzed w f),
            packets ++ packet ∷ [],
            k.1,
            rw (k.2) (try_pop-IsFifo arrived packets a.queue q packet fifo e),
          ),
          k.2,
        )
    where
      within_next :
          (limit : Option ℕ) (n : ℕ)
          → Within limit n
          → limit_reached limit n ≡ false
          → Within limit ((n + 1) % 2 ^ 64)
      within_next none n w f = tt
      within_next (some limit) n w f = ground arith
