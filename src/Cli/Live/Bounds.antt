-- ===== src/Cli/Live/Bounds.antt =====
-- `runLive` of src/cli/main.cpp as a whole.
use mathlib.Core.List.{append_assoc, append-nil}
use netprobe_cpp.Base.{
  take, ℕ, zero, suc, ◌≤◌, ◌<◌, ◌≡◌, refl, arith, true, false, Option, none, some, ◌&&◌, ◌||◌, not,
  is_empty, List, [], ◌∷◌, ◌++◌, length, Bytes, Ensures, >>=-Ensures, if-Ensures, Ensures-mono,
  Option-cases, inl, inr, IfSome,
}
use netprobe_cpp.Packet.{PacketData, ParsedPacket}
use netprobe_cpp.Protocol.Network.{Inet}
use netprobe_cpp.Quic.Keys.{CryptoLibrary}
use netprobe_cpp.Quic.Initial.Bounds.{BlockSized}
use netprobe_cpp.PacketQueue
use netprobe_cpp.PacketQueue.{PacketQueue}
use netprobe_cpp.PacketQueue.Order.{IsFifo, make-IsFifo, try_pop-IsFifo, try_pop-none, try_pop-some}
use netprobe_cpp.AnalysisSession.{Session}
use netprobe_cpp.AnalysisSession.Runs.{IsBounded}
use netprobe_cpp.Cli.Options.{Options, is_set}
use netprobe_cpp.Cli.Live.{
  Analysis, Round, Capture, is_ended, limit_reached, arrive, analyse_popped, live_loop, drain,
  finish_live, run_live,
}
use netprobe_cpp.Cli.Live.Analysed.{IsAnalysisOf}
use netprobe_cpp.Cli.Live.Steps.{Within, IsAnalysis, arrive-IsAnalysis, analyse-IsAnalysis}

-- Nothing is left in the queue, or there is a limit.
abbrev pub IsDrained : Option ℕ → List PacketData → Type 0
IsDrained none left = left ≡ []
IsDrained (some limit) left = Unit

-- A packet that the last loop took out of the queue when the limit was reached.
abbrev pub IsUnread : Option ℕ → List PacketData → Type 0
IsUnread none unread = unread ≡ []
IsUnread (some limit) unread = length unread ≤ 1

-- What arrives in the rounds, in its order.
pub arrivals_of : List Round → List PacketData
arrivals_of [] = []
arrivals_of (r ∷ rounds) = r.arrivals ++ arrivals_of rounds

module _ (net : Inet) (lib : CryptoLibrary) (lookup : ParsedPacket → Bytes) where
  -- The analysis where the loop ends: behind some of the rounds.
  abbrev Behind : Session → Option ℕ → List PacketData → List Round → Analysis → Type 0
  Behind start limit arrived rounds a =
      (seen : ℕ) × IsAnalysis net lib lookup start limit (arrived ++ arrivals_of (take seen rounds))
        a

  Behind-suc :
      (start : Session) (limit : Option ℕ) (arrived : List PacketData) (r : Round)
      (rounds : List Round) (a : Analysis)
      → Behind start limit (arrived ++ r.arrivals) rounds a
      → Behind start limit arrived (r ∷ rounds) a
  unfolding arrivals_of
  Behind-suc start limit arrived r rounds a (seen, i) =
      (suc seen, rw (← append_assoc arrived r.arrivals (arrivals_of (take seen rounds))) i)

  live_loop-Behind :
      (start : Session) (o : Options) (rounds : List Round) (arrived : List PacketData)
      (a : Analysis)
      → BlockSized lib
      → is_ended o rounds ≡ true
      → IsAnalysis net lib lookup start o.packet_limit arrived a
      → Ensures (Behind start o.packet_limit arrived rounds) (live_loop net lib lookup o rounds a)
  unfolding live_loop analyse_popped is_ended arrivals_of
  live_loop-Behind start o [] arrived a l h i = absurd (ground (arith, h))
  live_loop-Behind start o (r ∷ rounds) arrived a l h i =
      if-Ensures (Behind start o.packet_limit arrived (r ∷ rounds)) r.stopped _ _
        (λ _. (0, rw (append-nil arrived) i))
        λ s.
          if-Ensures (Behind start o.packet_limit arrived (r ∷ rounds))
            (is_set o.duration_seconds && r.expired
              || limit_reached o.packet_limit a.packets_analyzed)
            _ _ (λ _. (1, rw (append-nil r.arrivals) now))
            λ e.
              >>=-Ensures (IsAnalysis net lib lookup start o.packet_limit (arrived ++ r.arrivals))
                (Behind start o.packet_limit arrived (r ∷ rounds)) _ _
                (popped (PacketQueue.try_pop (arrive r.arrivals a).queue) refl (ground (arith, e)))
                λ b j.
                  Ensures-mono (Behind start o.packet_limit (arrived ++ r.arrivals) rounds)
                    (Behind start o.packet_limit arrived (r ∷ rounds)) _
                    (live_loop-Behind start o rounds (arrived ++ r.arrivals) b l
                      (ground (arith, s, e, h)) j)
                    λ c k. Behind-suc start o.packet_limit arrived r rounds c k
    where
      now :
          IsAnalysis net lib lookup start o.packet_limit
            (arrived ++ r.arrivals)
            (arrive r.arrivals a)
      now = arrive-IsAnalysis net lib lookup start o.packet_limit arrived r.arrivals a i

      popped :
          (front : Option (PacketData × PacketQueue PacketData))
          → PacketQueue.try_pop (arrive r.arrivals a).queue ≡ front
          → limit_reached o.packet_limit a.packets_analyzed ≡ false
          → Ensures
              (IsAnalysis net lib lookup start o.packet_limit (arrived ++ r.arrivals))
              (analyse_popped net lib lookup front (arrive r.arrivals a))
      popped none q e = now
      popped (some (packet, rest)) q e =
          Ensures-mono _ (IsAnalysis net lib lookup start o.packet_limit (arrived ++ r.arrivals)) _
            (analyse-IsAnalysis net lib lookup start o.packet_limit (arrived ++ r.arrivals) packet
              rest (arrive r.arrivals a) l now (unfold arrive in e) q)
            λ b k. k.0

  -- The state where the run ends, after everything in `arrived`.
  abbrev pub IsFinished : Session → Option ℕ → List PacketData → Analysis → Type 0
  IsFinished start limit arrived a =
      IsBounded a.session
      × Within limit a.packets_analyzed
      × IsDrained limit a.queue.queue
      × (packets : List PacketData) × IsAnalysisOf net lib lookup start packets a
      × (unread : List PacketData) × IsUnread limit unread
      × IsFifo arrived (packets ++ unread) a.queue

  drain-IsFinished :
      (fuel : ℕ) (start : Session) (o : Options) (arrived : List PacketData) (a : Analysis)
      → BlockSized lib
      → length a.queue.queue < fuel
      → IsAnalysis net lib lookup start o.packet_limit arrived a
      → Ensures (IsFinished start o.packet_limit arrived) (drain net lib lookup fuel o a)
  unfolding drain limit_reached
  drain-IsFinished zero start o arrived a l m i = absurd (omega arith)
  drain-IsFinished (suc fuel) start o arrived a l m i =
      elim (Option-cases (PacketQueue.try_pop a.queue)) [
        | inl e ↦ rw (drain, e) (emptied o.packet_limit i (try_pop-none a.queue e))
        | inr ((packet, q), e) ↦
            rw (drain, e)
              (if-Ensures (IsFinished start o.packet_limit arrived)
                (limit_reached o.packet_limit a.packets_analyzed) _ _
                (λ r. cut o.packet_limit packet q i e r)
                λ r.
                  >>=-Ensures
                    (λ b. IsAnalysis net lib lookup start o.packet_limit arrived b × (b.queue ≡ q))
                    (IsFinished start o.packet_limit arrived) _ _
                    (analyse-IsAnalysis net lib lookup start o.packet_limit arrived packet q a l i r
                      e)
                    λ b j.
                      drain-IsFinished fuel start o arrived b l
                        (rw (j.1) (omega (arith, m, try_pop-some a.queue q packet e))) j.0)
      ]
    where
      emptied :
          (limit : Option ℕ)
          → IsAnalysis net lib lookup start limit arrived a
          → a.queue.queue ≡ []
          → IsFinished start limit arrived a
      emptied none (b, w, packets, found, f) e =
          (b, w, e, packets, found, [], refl, rw (append-nil packets) f)
      emptied (some limit) (b, w, packets, found, f) e =
          (b, w, tt, packets, found, [], omega arith, rw (append-nil packets) f)

      cut :
          (limit : Option ℕ) (packet : PacketData) (q : PacketQueue PacketData)
          → IsAnalysis net lib lookup start limit arrived a
          → PacketQueue.try_pop a.queue ≡ some (packet, q)
          → limit_reached limit a.packets_analyzed ≡ true
          → IsFinished start limit arrived (record a { queue = q })
      cut none packet q i e r = cc
      cut (some limit) packet q (b, w, packets, found, f) e r = (
        b,
        w,
        tt,
        packets,
        found,
        packet ∷ [],
        omega arith,
        try_pop-IsFifo arrived packets a.queue q packet f e,
      )

  run_live-begin :
      (start : Session) (limit : Option ℕ) (max_size : ℕ)
      → IsBounded start
      → IsAnalysis net lib lookup start limit []
          (record { queue = PacketQueue.make max_size; session = start; packets_analyzed = 0 })
  run_live-begin start none max_size b = (b, tt, [], (refl, omega arith), make-IsFifo max_size)
  run_live-begin start (some limit) max_size b =
      (b, omega arith, [], (refl, omega arith), make-IsFifo max_size)

  -- The end of the run: behind some of its rounds, and with what arrived late.
  abbrev pub IsRunOf : Session → Option ℕ → Capture → Analysis → Type 0
  IsRunOf start limit capture a =
      (seen : ℕ) × IsFinished start limit (arrivals_of (take seen capture.rounds) ++ capture.late) a

  -- With an AES that gives blocks of 16 bytes and bounded trackers at the start: where a stop is
  -- requested in some round, or the deadline passes in one, the run on a new queue ends, with no
  -- access outside of a buffer, whatever arrives and when. If the adapter opened and the filter
  -- compiled, there are rounds from the first one on such that, of what arrived in them and late, the
  -- packets that came out of the queue in order are those that the session was fed, one after the
  -- other, and at most one more that a limit left unread; as many as the queue counted are missing,
  -- and what is still queued are the last ones. `packetsAnalyzed` is the number of the packets as 64
  -- bits and does not exceed the limit; without a limit no packet is unread and none is left queued.
  pub run_live-IsRunOf :
      (start : Session) (o : Options) (capture : Capture) (max_size : ℕ)
      → BlockSized lib
      → IsBounded start
      → is_ended o capture.rounds ≡ true
      → Ensures (IfSome (IsRunOf start o.packet_limit capture)) (
          run_live net lib lookup o capture
            (record { queue = PacketQueue.make max_size; session = start; packets_analyzed = 0 }))
  unfolding run_live finish_live PacketQueue.size
  run_live-IsRunOf start o capture max_size l b h =
      if-Ensures (IfSome (IsRunOf start o.packet_limit capture))
        (not capture.opens || (not (is_empty o.bpf_filter) && not capture.accepts_filter)) _ _
        (λ _. tt)
        λ _.
          >>=-Ensures (Behind start o.packet_limit [] capture.rounds)
            (IfSome (IsRunOf start o.packet_limit capture))
            (live_loop net lib lookup o capture.rounds _) _
            (live_loop-Behind start o capture.rounds [] _ l h
              (run_live-begin start o.packet_limit max_size b))
            λ c i.
              >>=-Ensures
                (IsFinished start o.packet_limit
                  (arrivals_of (take i.0 capture.rounds) ++ capture.late))
                (IfSome (IsRunOf start o.packet_limit capture))
                (finish_live net lib lookup o capture.late c) _
                (drain-IsFinished _ start o _ (arrive capture.late c) l (omega arith)
                  (arrive-IsAnalysis net lib lookup start o.packet_limit _ capture.late c i.1))
                λ d k. (i.0, k)
