-- ===== src/CaptureEngine/Loaded.antt =====
-- What `openFile` of src/capture/CaptureEngine.cpp leaves in the session and in the queue.
use netprobe_cpp.Base.{
  ℕ, ◌≤◌, ◌≡◌, refl, ap, ◌∙◌, arith, Bool, true, false, Bool-cases, inl, inr, some, leb, List, [],
  ◌∷◌, ◌++◌, length, Bytes, drop, keep_last, push_bounded, push_all_bounded, push_all_bounded-nil,
  Ensures, Ensures-mono,
}
use netprobe_cpp.LinkType.{LinkType, link_type_from_dlt}
use netprobe_cpp.Packet.{PacketData}
use netprobe_cpp.PacketQueue
use netprobe_cpp.PacketQueue.{PacketQueue}
use netprobe_cpp.CaptureEngine.Backend
use netprobe_cpp.CaptureEngine.Backend.{
  Pcap, PcapNext, next_record, next_timeout, next_end, next_error, packet_of_record, is_open,
  closed, with_handle, next_packet, read_of,
}
use netprobe_cpp.CaptureEngine.Session.{
  Engine, max_session_packets, consume, clear_for, load, open_rest,
}

-- The packets up to the end or an error, and whether it is the end.
pub packets_in : LinkType → List PcapNext → List PacketData
packets_in link [] = []
packets_in link (next_record r ∷ answers) = packet_of_record link r ∷ packets_in link answers
packets_in link (next_timeout ∷ answers) = packets_in link answers
packets_in link (next_end ∷ answers) = []
packets_in link (next_error ∷ answers) = []

pub ends_well : List PcapNext → Bool
ends_well [] = true
ends_well (next_record r ∷ answers) = ends_well answers
ends_well (next_timeout ∷ answers) = ends_well answers
ends_well (next_end ∷ answers) = true
ends_well (next_error ∷ answers) = false

-- The retained session and the queue have taken these packets, and libpcap is closed.
abbrev Loads : Engine → List PacketData → Bool → Engine × Bool → Type 0
Loads e packets ok (f, result) =
    (f.session_packets ≡ push_all_bounded max_session_packets e.session_packets packets)
    × (f.queue.queue ≡ push_all_bounded e.queue.max_size e.queue.queue packets)
    × (f.backend ≡ closed)
    × (result ≡ ok)

push-push_bounded :
    (q : PacketQueue PacketData) (p : PacketData)
    → ((PacketQueue.push q p).queue ≡ push_bounded q.max_size q.queue p)
      × ((PacketQueue.push q p).max_size ≡ q.max_size)
unfolding PacketQueue.push push_bounded PacketQueue.drop_front
push-push_bounded q p = elim (Bool-cases (leb q.max_size (length q.queue))) [
  | inl full ↦ rw full (ap (λ rest. rest ++ p ∷ []) (front q.queue), refl)
  | inr room ↦ rw room (refl, refl)
]
  where
    front : (rest : List PacketData) → PacketQueue.drop_front rest ≡ drop 1 rest
    front [] = refl
    front (r ∷ rest) = refl

load-Loads :
    (answers : List PcapNext) (e : Engine)
    → is_open e.backend ≡ true
    → Ensures
        (Loads e (packets_in e.backend.link_type answers) (ends_well answers))
        (load answers e)
unfolding load next_packet read_of packets_in ends_well push_all_bounded consume
load-Loads [] e o = (refl, refl, refl, refl)
load-Loads (next_record r ∷ answers) e o =
    let p = packet_of_record e.backend.link_type r in
    let pushed = push-push_bounded e.queue p in
    rw (o) (
      Ensures-mono
        (Loads (consume p e) (packets_in e.backend.link_type answers) (ends_well answers)) _
        (load answers (consume p e)) (load-Loads answers (consume p e) o)
        λ q l. (
          l.0,
          l.1
              ∙ ap
                  (λ n.
                    push_all_bounded n (PacketQueue.push e.queue p).queue
                      (packets_in e.backend.link_type answers))
                  pushed.1
              ∙ ap
                  (λ rest.
                    push_all_bounded e.queue.max_size rest (packets_in e.backend.link_type answers))
                  pushed.0,
          l.2,
          l.3,
        ))
load-Loads (next_timeout ∷ answers) e o = rw (o) (load-Loads answers e o)
load-Loads (next_end ∷ answers) e o = rw (o) (refl, refl, refl, refl)
load-Loads (next_error ∷ answers) e o = rw (o) (refl, refl, refl, refl)

-- The last packets of a file.
abbrev pub Loaded : ℕ → List PacketData → Bool → Engine × Bool → Type 0
Loaded max_size packets ok (e, result) =
    (e.session_packets ≡ keep_last max_session_packets packets)
    × (e.queue.queue ≡ keep_last max_size packets)
    × (e.backend ≡ closed)
    × (result ≡ ok)

-- A capture file that libpcap opens: behind `stopCapture`, `openFile` reads it to its end or to the
-- first error, through an open handle; then the last 10,000 of its packets are retained, the last
-- ones wait in the queue, as many as it holds, the backend is closed, and the result tells the end
-- from the error.
pub open_rest-Loaded :
    (lib : Pcap) (path : Bytes) (answers : List PcapNext) (e : Engine) (dlt : ℕ)
    → lib.open_offline path ≡ some dlt
    → 1 ≤ e.queue.max_size
    → Ensures
        (Loaded e.queue.max_size (packets_in (link_type_from_dlt dlt) answers) (ends_well answers))
        (open_rest lib path answers e)
unfolding open_rest clear_for PacketQueue.clear Backend.open_file with_handle is_open
open_rest-Loaded lib path answers e dlt o m =
    let packets = packets_in (link_type_from_dlt dlt) answers in
    rw (o) (
      Ensures-mono _ (Loaded e.queue.max_size packets (ends_well answers)) _
        (load-Loads answers _ refl)
        λ q l. (
          l.0 ∙ push_all_bounded-nil max_session_packets packets (omega arith),
          l.1 ∙ push_all_bounded-nil e.queue.max_size packets m,
          l.2,
          l.3,
        ))
