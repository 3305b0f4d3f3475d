-- ===== src/Cli/Live/Offline.antt =====
-- `runOffline` of src/cli/main.cpp as a whole.
use netprobe_cpp.Base.{
  refl, sym, arith, Bool, true, false, if◌then◌else◌, Option, none, some, ◌&&◌, ◌||◌, not, ◌≡◌,
  Bool-cases, inl, inr, Ensures-mono, map, List, [], ◌∷◌, ◌++◌, Bytes, Ensures, >>=-Ensures,
}
use netprobe_cpp.Packet.{PacketData, ParsedPacket}
use netprobe_cpp.Protocol.Network.{Inet}
use netprobe_cpp.Quic.Keys.{CryptoLibrary}
use netprobe_cpp.Quic.Initial.Bounds.{BlockSized}
use netprobe_cpp.PacketQueue.{PacketQueue}
use netprobe_cpp.AnalysisSession.{Session}
use netprobe_cpp.AnalysisSession.Runs.{IsBounded}
use netprobe_cpp.Cli.Live.{Analysis, analyse, analyse_all, run_offline}
use mathlib.Core.List.{append_assoc, append-nil}
use netprobe_cpp.LinkType.{LinkType}
use netprobe_cpp.Protocol.Parse.{is_unsupported}
use netprobe_cpp.CaptureEngine.Backend.{PacketRead, packet, timeout, end_of_file, error}
use netprobe_cpp.CaptureEngine.{Replay, deliver, replay_reads, replay_file}
use netprobe_cpp.Cli.Live.Analysed.{IsAnalysisOf, Adds, analyse-Adds}

-- How the reads of a file come to an end: a stop, the end of the file, or an error. What libpcap
-- would answer behind it is not asked for.
pub data Ending : Type 0 where
  is_stopped : Ending
  ends fails : List PacketRead → Ending

abbrev pub reads_of : Ending → List PacketRead
reads_of is_stopped = []
reads_of (ends rest) = end_of_file ∷ rest
reads_of (fails rest) = error ∷ rest

ends_well : Ending → Bool
ends_well is_stopped = true
ends_well (ends rest) = true
ends_well (fails rest) = false

-- A packet, or a timeout.
abbrev pub read_as : Option PacketData → PacketRead
read_as none = timeout
read_as (some p) = packet p

-- The packets without the timeouts.
abbrev pub somes : List (Option PacketData) → List PacketData
somes [] = []
somes (none ∷ front) = somes front
somes (some p ∷ front) = p ∷ somes front

replay_reads-append :
    (front : List (Option PacketData)) (ending : Ending)
    → replay_reads (map read_as front ++ reads_of ending)
      ≡ record { packets = somes front; ok = ends_well ending }
unfolding replay_reads ends_well deliver
replay_reads-append [] is_stopped = refl
replay_reads-append [] (ends rest) = refl
replay_reads-append [] (fails rest) = refl
replay_reads-append (none ∷ front) ending = replay_reads-append front ending
replay_reads-append (some p ∷ front) ending = rw (replay_reads-append front ending) refl

unreadable :
    (opens : Bool) (link_type : LinkType) (reads : List PacketRead)
    → (opens && not (is_unsupported link_type)) ≡ false
    → replay_file (record { opens = opens; link_type = link_type; reads = reads })
      ≡ record { packets = []; ok = false }
unfolding replay_file
unreadable opens link_type reads e =
    let closed : (not opens || is_unsupported link_type) ≡ true = ground (arith, e) in
    rw closed refl

readable :
    (opens : Bool) (link_type : LinkType) (front : List (Option PacketData)) (ending : Ending)
    → (opens && not (is_unsupported link_type)) ≡ true
    → replay_file (record {
      opens = opens;
      link_type = link_type;
      reads = map read_as front ++ reads_of ending;
    })
      ≡ record { packets = somes front; ok = ends_well ending }
unfolding replay_file
readable opens link_type front ending e =
    let supported : (not opens || is_unsupported link_type) ≡ false = ground (arith, e) in
    rw supported (replay_reads-append front ending)

module _ (net : Inet) (lib : CryptoLibrary) (lookup : ParsedPacket → Bytes) where
  analyse_all-IsAnalysisOf :
      (start : Session) (before packets : List PacketData) (a : Analysis)
      → BlockSized lib
      → IsBounded a.session
      → IsAnalysisOf net lib lookup start before a
      → Ensures
          (IsAnalysisOf net lib lookup start (before ++ packets))
          (analyse_all net lib lookup packets a)
  unfolding analyse_all
  analyse_all-IsAnalysisOf start before [] a l b found = rw (append-nil before) found
  analyse_all-IsAnalysisOf start before (p ∷ packets) a l b found =
      >>=-Ensures (Adds net lib lookup start before p a)
        (IsAnalysisOf net lib lookup start (before ++ p ∷ packets)) (analyse net lib lookup p a) _
        (analyse-Adds net lib lookup start before p a l b found)
        λ c k.
          rw (sym (append_assoc before (p ∷ []) packets))
            (analyse_all-IsAnalysisOf start (before ++ p ∷ []) packets c l k.0 k.1)

  pub run_offline-analysed :
      (start : Session) (replay : Replay) (q : PacketQueue PacketData)
      → BlockSized lib
      → IsBounded start
      → Ensures
          (λ r.
            (a : Analysis) × (r ≡ (if replay.ok then some a else none))
            × IsAnalysisOf net lib lookup start replay.packets a)
          (run_offline net lib lookup replay
            (record { queue = q; session = start; packets_analyzed = 0 }))
  unfolding run_offline
  run_offline-analysed start replay q l b =
      >>=-Ensures (IsAnalysisOf net lib lookup start replay.packets) _
        (analyse_all net lib lookup replay.packets _) _
        (analyse_all-IsAnalysisOf start [] replay.packets _ l b (refl, omega arith))
        λ c k. (c, refl, k)

  -- The result of the replay of a file that can be decoded or not.
  abbrev pub IsResult : Bool → Ending → Session → List PacketData → Option Analysis → Type 0
  IsResult false ending start packets r = r ≡ none
  IsResult true (fails rest) start packets r = r ≡ none
  IsResult true is_stopped start packets r =
      (a : Analysis) × (r ≡ some a) × IsAnalysisOf net lib lookup start packets a
  IsResult true (ends rest) start packets r =
      (a : Analysis) × (r ≡ some a) × IsAnalysisOf net lib lookup start packets a

  -- With an AES that gives blocks of 16 bytes and bounded trackers at the start: of a file whose reads
  -- give packets and timeouts, and then a stop, the end of the file or an error, the replay ends with
  -- no access outside of a buffer. If the file does not open, has an unsupported link type or ends in
  -- an error, the result is false. Else the session is that of exactly the packets that were read,
  -- fed in their order, and `packetsAnalyzed` is their number as 64 bits.
  pub run_offline-IsResult :
      (start : Session) (opens : Bool) (link_type : LinkType) (front : List (Option PacketData))
      (ending : Ending) (q : PacketQueue PacketData)
      → BlockSized lib
      → IsBounded start
      → Ensures (IsResult (opens && not (is_unsupported link_type)) ending start (somes front)) (
          run_offline net lib lookup
            (replay_file (record {
              opens = opens;
              link_type = link_type;
              reads = map read_as front ++ reads_of ending;
            }))
            (record { queue = q; session = start; packets_analyzed = 0 }))
  run_offline-IsResult start opens link_type front ending q l b =
      elim (Bool-cases (opens && not (is_unsupported link_type))) [
        | inr e ↦
            rw (e, unreadable opens link_type (map read_as front ++ reads_of ending) e)
              (Ensures-mono _ (λ r. r ≡ none) _
                (run_offline-analysed start (record { packets = []; ok = false }) q l b) λ r k. k.1)
        | inl e ↦
            rw (e, readable opens link_type front ending e)
              (Ensures-mono _ (IsResult true ending start (somes front)) _
                (run_offline-analysed start
                  (record { packets = somes front; ok = ends_well ending }) q l b)
                λ r k. result ending r k)
      ]
    where
      result :
          (ending : Ending) (r : Option Analysis)
          → (a : Analysis) × (r ≡ (if ends_well ending then some a else none))
            × IsAnalysisOf net lib lookup start (somes front) a
          → IsResult true ending start (somes front) r
      result (fails rest) r k = unfold ends_well in k.1
      result is_stopped r k = unfold ends_well in k
      result (ends rest) r k = unfold ends_well in k
