-- ===== src/Ui/PacketTable/Rows.antt =====
-- The rows of the table of src/ui/PacketView.cpp over what the other operations of the view do
-- between two frames.
use netprobe_cpp.Base.{
  ℕ, zero, suc, ◌+◌, ◌*◌, ◌%◌, ◌^◌, ◌≤◌, ◌<◌, ◌≡◌, refl, arith, Bool, true, false, Option, none,
  some, if◌then◌else◌, List, [], ◌∷◌, length, Bytes, Outcome, done, ◌>>=◌, Ensures, Ensures-mono,
  >>=-Ensures, if-Ensures,
}
use native.Mathlib.Nat.{mod-eq_of_lt}
use netprobe_cpp.Packet.{PacketData, ParsedPacket}
use netprobe_cpp.PacketQueue
use netprobe_cpp.PacketQueue.{PacketQueue}
use netprobe_cpp.Protocol.Network.{Inet}
use netprobe_cpp.Quic.Keys.{CryptoLibrary}
use netprobe_cpp.Quic.Initial.Bounds.{BlockSized}
use netprobe_cpp.Flow.Key.{FlowKey}
use netprobe_cpp.AnalysisSession
use netprobe_cpp.AnalysisSession.{Session, Result, feed}
use netprobe_cpp.AnalysisSession.Runs.{IsBounded, Fed, feed-Fed, clear-make}
use netprobe_cpp.Ui.View.{View, make, no_version}
use netprobe_cpp.Ui.Live.{
  max_packets_per_frame, remember, count_packet, show, next_round, process_packets, process_queue,
  set_paused, clear_capture_view,
}
use netprobe_cpp.Ui.PacketTable.{refresh, rows}
use netprobe_cpp.Ui.PacketTable.Cached.{
  InHistory, AreRows, AreRows-InHistory, Kept, next_version, refresh-Kept, refresh-rows, carried,
  weaker, never,
}

-- What a user or a frame does to the view.
pub data Input : Type 0 where
  arrives : PacketData → Input
  takes : Input
  pauses : Bool → Input
  clears : Input
  types : Bytes → Input
  follows : Option FlowKey → Input
  selects : ℕ → Input
  draws : Input

apply : Inet → CryptoLibrary → (ParsedPacket → Bytes) → Input → View → Outcome View
apply net lib lookup (arrives p) v = done (record v { queue = PacketQueue.push v.queue p })
apply net lib lookup takes v = process_queue net lib lookup v
apply net lib lookup (pauses paused) v = done (set_paused paused v)
apply net lib lookup clears v = done (clear_capture_view v)
apply net lib lookup (types text) v = done (record v { display_filter = text })
apply net lib lookup (follows key) v = done (record v { packet_flow_filter = key })
apply net lib lookup (selects row) v = done (record v { selected_packet_index = some row })
apply net lib lookup draws v = done (refresh v)

pub apply_all : Inet → CryptoLibrary → (ParsedPacket → Bytes) → List Input → View → Outcome View
apply_all net lib lookup [] v = done v
apply_all net lib lookup (input ∷ inputs) v = do
  w ← apply net lib lookup input v
  apply_all net lib lookup inputs w

show-Kept :
    (n : ℕ) (v : View) (raw : PacketData) (queue : PacketQueue PacketData) (t : Session)
    (a : Result)
    → n + 1 < no_version
    → Kept n v
    → IsBounded t
    → Kept (n + 1) (show raw (t, a) (record v { queue = queue }))
unfolding show remember count_packet
show-Kept n v raw queue t a l (c, h, _) b =
    let (later, next) =
      next_version v (show raw (t, a) (record v { queue = queue })) c (omega (arith, h, l)) refl
        refl in
    (later, omega (arith, next, h), b)

next_round-Kept :
    (net : Inet) (lib : CryptoLibrary) (lookup : ParsedPacket → Bytes) (n m : ℕ) (v : View)
    (popped : Option (PacketData × PacketQueue PacketData)) (go : View → Outcome View)
    → BlockSized lib
    → n + 1 ≤ m
    → m < no_version
    → Kept n v
    → ((w : View) → Kept (n + 1) w → Ensures (Kept m) (go w))
    → Ensures (Kept m) (next_round net lib lookup popped v go)
unfolding next_round
next_round-Kept net lib lookup n m v none go l h s (c, k, b) rounds = (c, omega (arith, h, k), b)
next_round-Kept net lib lookup n m v (some (raw, queue)) go l h s (c, k, b) rounds =
    >>=-Ensures (Fed v.session) (Kept m) (feed net lib lookup v.session raw) _
      (feed-Fed net lib lookup v.session raw l b)
      λ r fed. rounds _ (show-Kept n v raw queue r.0 r.1 (omega (arith, h, s)) (c, k, b) fed.0)

process_packets-Kept :
    (net : Inet) (lib : CryptoLibrary) (lookup : ParsedPacket → Bytes) (n left m : ℕ) (v : View)
    → BlockSized lib
    → n + left ≡ m
    → m < no_version
    → Kept n v
    → Ensures (Kept m) (process_packets net lib lookup left v)
unfolding process_packets
process_packets-Kept net lib lookup n zero m v l h s (c, k, b) = (c, omega (arith, h, k), b)
process_packets-Kept net lib lookup n (suc left) m v l h s k =
    next_round-Kept net lib lookup n m v (PacketQueue.try_pop v.queue) _ l (omega (arith, h)) s k
      λ w kept. process_packets-Kept net lib lookup (n + 1) left m w l (omega (arith, h)) s kept

if_holds : (P : View → Type 0) (b : Bool) (v w : View) → P v → P w → P (if b then v else w)
if_holds P true v w x y = x
if_holds P false v w x y = y

set_paused-Kept : (n : ℕ) (paused : Bool) (v : View) → Kept n v → Kept n (set_paused paused v)
unfolding set_paused
set_paused-Kept n paused v (c, k, b) =
    if_holds (Kept n) _ v _ (c, k, b)
      (if_holds (Kept n) paused _ _ (carried v _ refl refl refl refl refl c refl, k, b)
        (carried v _ refl refl refl refl refl c refl, k, b))

clear-Kept :
    (n : ℕ) (v : View) → n + 1 < no_version → Kept n v → Kept (n + 1) (clear_capture_view v)
unfolding clear_capture_view AnalysisSession.make
clear-Kept n v h (c, k, b) =
    let plain : (v.packet_history_version + 1) % 2 ^ 64 ≡ v.packet_history_version + 1 =
      mod-eq_of_lt (omega (arith, h, k)) in
    (
      never refl,
      omega (arith, plain, k),
      rw (clear-make v.session) ((omega arith, tt), (omega arith, tt)),
    )

apply-Kept :
    (net : Inet) (lib : CryptoLibrary) (lookup : ParsedPacket → Bytes) (n : ℕ) (input : Input)
    (v : View)
    → BlockSized lib
    → n + 1000 < no_version
    → Kept n v
    → Ensures (Kept (n + 1000)) (apply net lib lookup input v)
unfolding apply process_queue
apply-Kept net lib lookup n (arrives p) v l h (c, k, b) =
    (carried v _ refl refl refl refl refl c refl, omega (arith, k), b)
apply-Kept net lib lookup n takes v l h (c, k, b) =
    if-Ensures (Kept (n + 1000)) v.capture_paused _ _ (λ _. (c, omega (arith, k), b))
      λ _.
        process_packets-Kept net lib lookup n max_packets_per_frame (n + 1000) v l refl h (c, k, b)
apply-Kept net lib lookup n (pauses paused) v l h k =
    weaker n (n + 1000) (set_paused paused v) (omega arith) (set_paused-Kept n paused v k)
apply-Kept net lib lookup n clears v l h k =
    weaker (n + 1) (n + 1000) (clear_capture_view v) (omega arith)
      (clear-Kept n v (omega (arith, h)) k)
apply-Kept net lib lookup n (types text) v l h (c, k, b) =
    (carried v _ refl refl refl refl refl c refl, omega (arith, k), b)
apply-Kept net lib lookup n (follows key) v l h (c, k, b) =
    (carried v _ refl refl refl refl refl c refl, omega (arith, k), b)
apply-Kept net lib lookup n (selects row) v l h (c, k, b) =
    (carried v _ refl refl refl refl refl c refl, omega (arith, k), b)
apply-Kept net lib lookup n draws v l h (c, k, b) =
    refresh-Kept (n + 1000) v (c, omega (arith, k), b)

apply_all-Kept :
    (net : Inet) (lib : CryptoLibrary) (lookup : ParsedPacket → Bytes) (n : ℕ) (inputs : List Input)
    (v : View)
    → BlockSized lib
    → n + 1000 * length inputs < no_version
    → Kept n v
    → Ensures (Kept (n + 1000 * length inputs)) (apply_all net lib lookup inputs v)
unfolding apply_all
apply_all-Kept net lib lookup n [] v l h k = weaker n _ v (omega arith) k
apply_all-Kept net lib lookup n (input ∷ inputs) v l h k =
    let total : n + 1000 + 1000 * length inputs ≡ n + 1000 * suc (length inputs) = omega arith in
    >>=-Ensures (Kept (n + 1000)) (Kept (n + 1000 * suc (length inputs)))
      (apply net lib lookup input v) _ (apply-Kept net lib lookup n input v l (omega (arith, h)) k)
      λ w kept.
        Ensures-mono (Kept (n + 1000 + 1000 * length inputs)) _ _
          (apply_all-Kept net lib lookup (n + 1000) inputs w l (omega (arith, h)) kept)
          λ u last. weaker _ _ u (omega (arith, total)) last

-- With an AES that gives blocks of 16 bytes: whatever arrives and whatever a user and the frames do
-- to a new view, fewer than (2^64 - 1) / 1000 inputs in all, ends without a fault. The rows that the
-- packet table draws next are the positions of the whole history where there is no filter, and else
-- exactly those of its packets that pass the filter, or one with the same signature, also where the
-- matches of an earlier frame are shown again; and each row is of a record of the history.
pub apply_all-rows :
    (net : Inet) (lib : CryptoLibrary) (lookup : ParsedPacket → Bytes) (inputs : List Input)
    (queue : PacketQueue PacketData) (resolve : Bool)
    → BlockSized lib
    → 1000 * length inputs < no_version
    → Ensures
        (λ v. AreRows (refresh v) (rows (refresh v)) × InHistory (refresh v) (rows (refresh v)))
        (apply_all net lib lookup inputs (make queue (AnalysisSession.make resolve)))
unfolding make AnalysisSession.make
apply_all-rows net lib lookup inputs queue resolve l h =
    let few : 0 + 1000 * length inputs < no_version = omega (arith, h) in
    Ensures-mono (Kept (0 + 1000 * length inputs)) _ _
      (apply_all-Kept net lib lookup 0 inputs (make queue (AnalysisSession.make resolve)) l few
        (never refl, omega arith, ((omega arith, tt), (omega arith, tt))))
      λ v k.
        let drawn = refresh-rows (0 + 1000 * length inputs) v few k in
        (drawn, AreRows-InHistory (refresh v) (rows (refresh v)) drawn)
