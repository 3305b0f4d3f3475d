-- ===== src/Ui/Live/History.antt =====
-- The packet history that `processQueue` of src/ui/GuiLayer.cpp keeps, and its selected row.
use mathlib.Core.List.{append_assoc, append-nil, map-append}
use netprobe_cpp.Base.{
  Bytes, min, ◌⊎◌, if-Ensures, Ensures-mono, ℕ, zero, suc, ◌+◌, ◌-◌, ◌≤◌, ◌≡◌, refl, sym, ap, ◌∙◌,
  arith, false, inl, inr, List, [], ◌∷◌, ◌++◌, map, length, length-append, keep_last,
  keep_last-short, push_bounded-keep_last, Outcome, Ensures, >>=-Ensures,
}
use netprobe_cpp.Packet.{PacketData, ParsedPacket}
use netprobe_cpp.PacketQueue
use netprobe_cpp.PacketQueue.{PacketQueue}
use netprobe_cpp.Protocol.Network.{Inet}
use netprobe_cpp.Quic.Keys.{CryptoLibrary}
use netprobe_cpp.Quic.Initial.Bounds.{BlockSized}
use netprobe_cpp.AnalysisSession.{Session, Result, feed}
use netprobe_cpp.AnalysisSession.Runs.{IsBounded, Fed, feed-Fed}
use netprobe_cpp.Ui.View.{PacketRecord, View}
use netprobe_cpp.Ui.Live.{
  max_packet_history, max_packets_per_frame, remember, count_packet, show, next_round,
  process_packets, process_queue,
}
use netprobe_cpp.Ui.Live.Selection.{
  selected_in, unless_dropped, shift_by, shift_by-zero, selected_in-drop, selection_moves,
}

pub raw_of : List PacketRecord → List PacketData
raw_of = map (λ r. r.raw)

-- How many records have fallen out in front.
abbrev pub dropped : View → List PacketRecord → ℕ
dropped v news = length (v.packet_history ++ news) - max_packet_history

-- What is taken from the queue stands in the history, which keeps its last records, and the
-- selection has moved along.
abbrev pub Shown : View → ℕ → List PacketRecord → View → Type 0
Shown v left news w =
    (length news + left ≡ max_packets_per_frame)
    × (raw_of news ++ w.queue.queue ≡ v.queue.queue)
    × (w.packet_history ≡ keep_last max_packet_history (v.packet_history ++ news))
    × (w.selected_packet_index ≡ shift_by (dropped v news) v.selected_packet_index)
    × IsBounded w.session

show-Shown :
    (v w : View) (left : ℕ) (news : List PacketRecord) (raw : PacketData) (rest : List PacketData)
    (t : Session) (a : Result)
    → Shown v (suc left) news w
    → w.queue.queue ≡ raw ∷ rest
    → IsBounded t
    → (r : PacketRecord) × Shown v left
        (news ++ r ∷ [])
        (show raw (t, a) (record w { queue = record w.queue { queue = rest } }))
unfolding show remember count_packet raw_of
show-Shown v w left news raw rest t a (count, taken, history, selected, _) next b =
    let r : PacketRecord = record { raw = raw; parsed = a.parsed; process = a.process } in
    (
      r,
      (
        omega (arith, count, length-append news (r ∷ [])),
        rw (map-append (λ q. q.raw) news (r ∷ [])) (
            append_assoc (raw_of news) (raw ∷ []) rest
            ∙ ap (λ all. raw_of news ++ all) (sym next)
            ∙ taken),
        rw history (
            push_bounded-keep_last max_packet_history (v.packet_history ++ news) r (omega arith)
            ∙ ap (keep_last max_packet_history) (append_assoc v.packet_history news (r ∷ []))),
        rw (history, selected)
            (selection_moves max_packet_history (v.packet_history ++ news) r v.selected_packet_index
              ∙ ap (λ all. shift_by (length all - max_packet_history) v.selected_packet_index)
                  (append_assoc v.packet_history news (r ∷ []))),
        b,
      ),
    )

-- Where the loop ends: all is taken, or as much as one frame takes.
abbrev Ended : View → View → Type 0
Ended v w =
    (news : List PacketRecord) × (left : ℕ) × Shown v left news w
    × ((left ≡ 0) ⊎ (w.queue.queue ≡ []))

next_round-Ended :
    (net : Inet) (lib : CryptoLibrary) (lookup : ParsedPacket → Bytes) (v : View) (left : ℕ)
    (w : View) (news : List PacketRecord) (go : View → Outcome View) (packets : List PacketData)
    → BlockSized lib
    → Shown v (suc left) news w
    → ((u : View) (more : List PacketRecord) → Shown v left more u → Ensures (Ended v) (go u))
    → w.queue.queue ≡ packets
    → Ensures (Ended v) (next_round net lib lookup (PacketQueue.take_front w.queue packets) w go)
unfolding next_round PacketQueue.take_front
next_round-Ended net lib lookup v left w news go [] l s rounds e = (news, suc left, s, inr e)
next_round-Ended net lib lookup v left w news go (raw ∷ rest) l s rounds e =
    >>=-Ensures (Fed w.session) (Ended v) (feed net lib lookup w.session raw) _
      (feed-Fed net lib lookup w.session raw l s.4)
      λ r fed.
        let (one_more, shown) = show-Shown v w left news raw rest r.0 r.1 s e fed.0 in
        rounds _ (news ++ one_more ∷ []) shown

process_packets-Ended :
    (net : Inet) (lib : CryptoLibrary) (lookup : ParsedPacket → Bytes) (v : View) (left : ℕ)
    (w : View) (news : List PacketRecord)
    → BlockSized lib
    → Shown v left news w
    → Ensures (Ended v) (process_packets net lib lookup left w)
unfolding process_packets PacketQueue.try_pop
process_packets-Ended net lib lookup v zero w news l s = (news, 0, s, inl refl)
process_packets-Ended net lib lookup v (suc left) w news l s =
    next_round-Ended net lib lookup v left w news _ w.queue.queue l s
      (λ u more shown. process_packets-Ended net lib lookup v left u more l shown) refl

length-raw_of : (news : List PacketRecord) → length (raw_of news) ≡ length news
unfolding raw_of
length-raw_of [] = refl
length-raw_of (r ∷ news) = ap suc (length-raw_of news)

-- What one frame comes to.
abbrev pub Processed : View → View → Type 0
Processed v w =
    (news : List PacketRecord) × (length news ≡ min max_packets_per_frame (length v.queue.queue))
    × (raw_of news ++ w.queue.queue ≡ v.queue.queue)
    × (w.packet_history ≡ keep_last max_packet_history (v.packet_history ++ news))
    × (selected_in w.selected_packet_index w.packet_history
        ≡ selected_in (unless_dropped (dropped v news) v.selected_packet_index)
            (v.packet_history ++ news))

Ended-Processed : (v w : View) → Ended v w → Processed v w
unfolding keep_last
Ended-Processed v w (news, left, (count, taken, history, selected, b), done_or_dry) =
    let lengths : length news + length w.queue.queue ≡ length v.queue.queue =
      omega
        (arith, length-append (raw_of news) w.queue.queue, length-raw_of news, ap length taken) in
    (
      news,
      elim done_or_dry [
        | inl e ↦ omega (arith, count, lengths, e)
        | inr e ↦ omega (arith, count, lengths, ap length e)
      ],
      taken,
      history,
      rw (selected, history)
          (selected_in-drop (dropped v news) v.selected_packet_index (v.packet_history ++ news)),
    )

-- With an AES that gives blocks of 16 bytes, bounded trackers and a history that is not too long: a
-- frame that is not paused ends without a fault, analyses the first 1000 packets of the queue or all
-- of fewer, and appends their records in order; the history is the last 10,000 records, and the
-- record that is selected is the one that was, or none if it has fallen out.
pub process_queue-Processed :
    (net : Inet) (lib : CryptoLibrary) (lookup : ParsedPacket → Bytes) (v : View)
    → BlockSized lib
    → IsBounded v.session
    → length v.packet_history ≤ max_packet_history
    → v.capture_paused ≡ false
    → Ensures (Processed v) (process_queue net lib lookup v)
unfolding process_queue raw_of
process_queue-Processed net lib lookup v l b h running =
    let none_out : length (v.packet_history ++ []) - max_packet_history ≡ 0 =
      omega (arith, h, length-append v.packet_history []) in
    let start : Shown v max_packets_per_frame [] v = (
      refl,
      refl,
      sym (
          ap (keep_last max_packet_history) (append-nil v.packet_history)
          ∙ keep_last-short max_packet_history v.packet_history h),
      rw none_out (sym (shift_by-zero v.selected_packet_index)),
      b,
    ) in
    if-Ensures (Processed v) v.capture_paused _ _ (λ paused. ground (arith, paused, running))
      λ _.
        Ensures-mono (Ended v) (Processed v) _
          (process_packets-Ended net lib lookup v max_packets_per_frame v [] l start)
          (Ended-Processed v)
