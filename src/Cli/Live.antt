-- ===== src/Cli/Live.antt =====
-- src/cli/main.cpp: `runLive` and `runOffline`, on the queue and the session. What the capture thread
-- does between two looks at the queue is the packets it pushes; what the clock says is a Boolean.
pub mod Analysed
pub mod Steps
pub mod Bounds
pub mod Offline
use netprobe_cpp.Base.{
  ℕ, zero, suc, ◌+◌, ◌%◌, ◌^◌, Bool, true, false, Option, none, some, ◌&&◌, ◌||◌, not, leb,
  if◌then◌else◌, List, [], ◌∷◌, Bytes, is_empty, Outcome, done, stuck, ◌>>=◌,
}
use netprobe_cpp.Packet.{PacketData, ParsedPacket}
use netprobe_cpp.Protocol.Network.{Inet}
use netprobe_cpp.Quic.Keys.{CryptoLibrary}
use netprobe_cpp.PacketQueue
use netprobe_cpp.PacketQueue.{PacketQueue}
use netprobe_cpp.AnalysisSession
use netprobe_cpp.AnalysisSession.{Session}
use netprobe_cpp.CaptureEngine.{Replay}
use netprobe_cpp.Cli.Options.{Options, is_set}

-- The queue, the session and `packetsAnalyzed` of `run`.
pub record Analysis : Type 0 where
  pub queue : PacketQueue PacketData
  pub session : Session
  pub packets_analyzed : ℕ

-- One round of the loop: whether a stop was requested, whether the deadline, if there is one, has
-- passed, and what arrives before the loop looks into the queue.
pub record Round : Type 0 where
  pub stopped : Bool
  pub expired : Bool
  pub arrivals : List PacketData

-- What the capture does: whether the adapter opens and the filter compiles, the rounds that the
-- loop may see, and what arrives between the end of the loop and that of the capture.
pub record Capture : Type 0 where
  pub opens : Bool
  pub accepts_filter : Bool
  pub rounds : List Round
  pub late : List PacketData

-- A stop is requested in some round, or the deadline passes, if there is one.
unfoldable pub is_ended : Options → List Round → Bool
is_ended o [] = false
is_ended o (r ∷ rounds) = r.stopped || (is_set o.duration_seconds && r.expired) || is_ended o rounds

unfoldable pub limit_reached : Option ℕ → ℕ → Bool
limit_reached none analyzed = false
limit_reached (some limit) analyzed = leb limit analyzed

pub push_all : PacketQueue PacketData → List PacketData → PacketQueue PacketData
push_all q [] = q
push_all q (packet ∷ packets) = push_all (PacketQueue.push q packet) packets

pub arrive : List PacketData → Analysis → Analysis
arrive packets a = record a { queue = push_all a.queue packets }

module _ (net : Inet) (lib : CryptoLibrary) (lookup : ParsedPacket → Bytes) where
  -- `session.feed(packet); ++packetsAnalyzed;`
  pub analyse : PacketData → Analysis → Outcome Analysis
  analyse packet a = do
    r ← AnalysisSession.feed net lib lookup a.session packet
    done (record a { session = r.0; packets_analyzed = (a.packets_analyzed + 1) % 2 ^ 64 })

  -- The rest of a round, with what `try_pop` returns.
  pub analyse_popped : Option (PacketData × PacketQueue PacketData) → Analysis → Outcome Analysis
  analyse_popped none a = done a
  analyse_popped (some (packet, q)) a = analyse packet (record a { queue = q })

  -- The loop; it is stuck where no round is left and none has ended it.
  pub live_loop : Options → List Round → Analysis → Outcome Analysis
  live_loop o [] a = stuck
  live_loop o (r ∷ rounds) a =
      let b = arrive r.arrivals a in
      let rest = analyse_popped (PacketQueue.try_pop b.queue) b >>= λ c. live_loop o rounds c in
      if r.stopped
      then done a
      else if is_set o.duration_seconds && r.expired
          || limit_reached o.packet_limit a.packets_analyzed
      then done b
      else rest

  -- The loop after the capture, on fuel: it pops a packet in each round.
  pub drain : ℕ → Options → Analysis → Outcome Analysis
  drain zero o a = stuck
  drain (suc fuel) o a = elim (PacketQueue.try_pop a.queue) [
    | none ↦ done a
    | some (packet, q) ↦
        let b = record a { queue = q } in
        let rest = analyse packet b >>= λ c. drain fuel o c in
        if limit_reached o.packet_limit a.packets_analyzed then done b else rest
  ]

  pub finish_live : Options → List PacketData → Analysis → Outcome Analysis
  finish_live o late a = let b = arrive late a in drain (PacketQueue.size b.queue + 1) o b

  -- `none` where `runLive` returns false.
  pub run_live : Options → Capture → Analysis → Outcome (Option Analysis)
  run_live o capture a =
      if not capture.opens || (not (is_empty o.bpf_filter) && not capture.accepts_filter)
      then done none
      else (do b ← live_loop o capture.rounds a; c ← finish_live o capture.late b; done (some c))

  pub analyse_all : List PacketData → Analysis → Outcome Analysis
  analyse_all [] a = done a
  analyse_all (packet ∷ packets) a = do b ← analyse packet a; analyse_all packets b

  -- `none` where `runOffline` returns false.
  pub run_offline : Replay → Analysis → Outcome (Option Analysis)
  run_offline replay a = do
    b ← analyse_all replay.packets a
    done (if replay.ok then some b else none)
