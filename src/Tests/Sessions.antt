-- ===== src/Tests/Sessions.antt =====
-- The QUIC tracker and the whole pipeline at concrete packets.
use netprobe_cpp.Base.{arith, true, [], ◌∷◌, Bytes, pos, Ensures}
use netprobe_cpp.Packet.{ParsedPacket}
use netprobe_cpp.QuicTracker
use netprobe_cpp.QuicTracker.Bounds as Tracker
use netprobe_cpp.AnalysisSession.{make, feed}
use netprobe_cpp.AnalysisSession.Runs.{Fed, IsRun, feed_all, feed-Fed, feed_all-IsRun}
use netprobe_cpp.Tests.Data.{plain_inet, zero_crypto, zero_crypto-BlockSized, captured, initial}

quic_feed_example : Ensures Tracker.Kept (QuicTracker.feed zero_crypto [] initial (pos 0))
quic_feed_example =
    Tracker.feed-Kept zero_crypto [] initial (pos 0) zero_crypto-BlockSized (omega arith, tt)

-- No packet belongs to a process.
abbrev no_process : ParsedPacket → Bytes
no_process p = []

session_feed_example :
    Ensures (Fed (make true)) (feed plain_inet zero_crypto no_process (make true) captured)
unfolding make
session_feed_example =
    feed-Fed plain_inet zero_crypto no_process (make true) captured zero_crypto-BlockSized
      ((omega arith, tt), (omega arith, tt))

feed_all-IsRun_example :
    Ensures
      (IsRun 2)
      (feed_all plain_inet zero_crypto no_process (make true) (captured ∷ captured ∷ []))
feed_all-IsRun_example =
    feed_all-IsRun plain_inet zero_crypto no_process true (captured ∷ captured ∷ [])
      zero_crypto-BlockSized
