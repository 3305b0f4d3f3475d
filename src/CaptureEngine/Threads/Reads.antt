-- ===== src/CaptureEngine/Threads/Reads.antt =====
-- What a read of the capture thread of src/capture/CaptureEngine.cpp keeps.
use netprobe_cpp.Base.{
  ◌≤◌, ◌≡◌, refl, arith, true, ◌||◌, not, length, length-push_bounded-le, Ensures,
}
use netprobe_cpp.Packet.{PacketData}
use netprobe_cpp.CaptureEngine.Backend.{
  PcapNext, PacketRead, packet, timeout, end_of_file, error, is_open, next_packet, read_of,
}
use netprobe_cpp.CaptureEngine.Session.{
  Engine, reading, is_joinable, max_session_packets, consume, handle_read, read_next,
}
use netprobe_cpp.CaptureEngine.Threads.{Caller, free, joining, System}

-- A thread has an open backend, and what is retained is bounded.
abbrev pub IsSound : Engine → Type 0
IsSound e =
    ((not (is_joinable e.thread) || is_open e.backend) ≡ true)
    × (length e.session_packets ≤ max_session_packets)

-- A caller waits for a thread that was asked to stop.
abbrev pub Waits : Caller → Engine → Type 0
Waits free e = Unit {0}
Waits (joining after) e = (not (is_joinable e.thread) || e.stop_requested) ≡ true

abbrev pub IsSafe : System → Type 0
IsSafe s = IsSound s.engine × Waits s.caller s.engine

pub consume-retains :
    (p : PacketData) (e : Engine)
    → length e.session_packets ≤ max_session_packets
    → length (consume p e).session_packets ≤ max_session_packets
unfolding consume
consume-retains p e h =
    length-push_bounded-le max_session_packets e.session_packets p (omega arith) h

pub Waits-kept :
    (caller : Caller) (e f : Engine)
    → is_joinable e.thread ≡ true
    → f.stop_requested ≡ e.stop_requested
    → Waits caller e
    → Waits caller f
Waits-kept free e f j r w = tt
Waits-kept (joining after) e f j r w = ground (arith, w)

pub Waits-equal :
    (caller : Caller) (e f : Engine)
    → f.thread ≡ e.thread
    → f.stop_requested ≡ e.stop_requested
    → Waits caller e
    → Waits caller f
Waits-equal free e f t r w = tt
Waits-equal (joining after) e f t r w = rw (t, r) w

pub reading-is_open :
    (e : Engine)
    → e.thread ≡ reading
    → IsSound e
    → (is_joinable e.thread ≡ true) × (is_open e.backend ≡ true)
unfolding is_joinable
reading-is_open e t i =
    let j : is_joinable e.thread ≡ true = rw t refl in (j, ground (arith, j, i.0))

handle_read-IsSafe :
    (r : PacketRead) (s : System)
    → is_joinable s.engine.thread ≡ true
    → is_open s.engine.backend ≡ true
    → IsSafe s
    → IsSafe (record s { engine = handle_read s.engine r })
unfolding handle_read is_joinable consume
handle_read-IsSafe (packet p) s j o ((sound, kept), w) = (
  (o, consume-retains p s.engine kept),
  Waits-kept s.caller s.engine (handle_read s.engine (packet p)) j refl w,
)
handle_read-IsSafe timeout s j o ((sound, kept), w) =
    ((o, kept), Waits-kept s.caller s.engine (handle_read s.engine timeout) j refl w)
handle_read-IsSafe end_of_file s j o ((sound, kept), w) =
    ((o, kept), Waits-kept s.caller s.engine (handle_read s.engine end_of_file) j refl w)
handle_read-IsSafe error s j o ((sound, kept), w) =
    ((o, kept), Waits-kept s.caller s.engine (handle_read s.engine error) j refl w)

-- With an open backend the capture thread reads through a handle.
pub read_next-IsSafe :
    (answer : PcapNext) (s : System)
    → s.engine.thread ≡ reading
    → IsSafe s
    → Ensures (λ e. IsSafe (record s { engine = e })) (read_next answer s.engine)
unfolding read_next next_packet
read_next-IsSafe answer s t i =
    let o = reading-is_open s.engine t i.0 in
    rw (o.1) (handle_read-IsSafe (read_of s.engine.backend.link_type answer) s o.0 o.1 i)
