-- ===== src/CaptureEngine/Threads/Stop.antt =====
-- `stopCapture` of src/capture/CaptureEngine.cpp comes to its end.
use netprobe_cpp.Base.{
  ◌≡◌, refl, arith, true, false, inl, inr, Ensures-done, Ensures, Ensures-mono, >>=-Ensures, ◌⊎◌,
  done, ◌>>=◌,
}
use netprobe_cpp.Packet.{PacketData}
use netprobe_cpp.PacketQueue.{PacketQueue}
use netprobe_cpp.CaptureEngine.Backend.{
  Pcap, PcapNext, PacketRead, packet, timeout, end_of_file, error, is_open, next_packet, read_of,
}
use netprobe_cpp.CaptureEngine.Session.{
  Engine, Thread, absent, reading, polling, ended, is_joinable, poll, handle_read, read_next,
  finish_stop,
}
use netprobe_cpp.CaptureEngine.Threads.{
  After, Caller, free, joining, System, go_on, join, thread_step, start, is_waiting, polls, reads,
  joins, Reach, here, next,
}
use netprobe_cpp.CaptureEngine.Threads.Reads.{
  Waits, IsSafe, IsSound, reading-is_open, read_next-IsSafe,
}
use netprobe_cpp.CaptureEngine.Threads.Calls.{go_on-IsSound}
use netprobe_cpp.CaptureEngine.Threads.Safety.{poll-IsSafe, Reach-IsSafe}

Reach-trans : (lib : Pcap) (s t u : System) → Reach lib s t → Reach lib t u → Reach lib s u
Reach-trans lib s t u r here = r
Reach-trans lib s t u r (next {t = v} q st) = next (Reach-trans lib s t v r q) st

-- Where steps of the thread led from `s`.
abbrev Led : Pcap → System → Engine → Type 0
Led lib s e = IsSafe (record s { engine = e }) × Reach lib s (record s { engine = e })

poll-Leaves :
    (lib : Pcap) (s : System) (after : After)
    → IsSafe s
    → s.caller ≡ joining after
    → s.engine.thread ≡ polling
    → Led lib s (poll s.engine) × (is_waiting (poll s.engine).thread ≡ false)
unfolding is_waiting is_joinable
poll-Leaves lib s after i c p =
    let asked : s.engine.stop_requested ≡ true = stopped s.caller c i.1 in
    ((poll-IsSafe s p i, next here (polls p refl)), unfold poll in rw (asked) refl)
  where
    stopped :
        (caller : Caller)
        → caller ≡ joining after
        → Waits caller s.engine
        → s.engine.stop_requested ≡ true
    stopped free e w = cc
    stopped (joining other) e w = ground (arith, p, w)

handle_read-leaves :
    (e : Engine) (r : PacketRead)
    → ((handle_read e r).thread ≡ polling) ⊎ (is_waiting (handle_read e r).thread ≡ false)
unfolding handle_read is_waiting
handle_read-leaves e (packet p) = inl refl
handle_read-leaves e timeout = inl refl
handle_read-leaves e end_of_file = inr refl
handle_read-leaves e error = inr refl

read_next-leaves :
    (answer : PcapNext) (e f : Engine)
    → is_open e.backend ≡ true
    → read_next answer e ≡ done f
    → (f.thread ≡ polling) ⊎ (is_waiting f.thread ≡ false)
unfolding read_next next_packet
read_next-leaves answer e f opened r =
    let q : done (handle_read e (read_of e.backend.link_type answer)) ≡ done f = rw opened at r in
    let same : handle_read e (read_of e.backend.link_type answer) ≡ f = cc in
    rw (← same) (handle_read-leaves e (read_of e.backend.link_type answer))

-- What the thread does next, where a caller waits.
first-Leaves :
    (lib : Pcap) (s : System) (after : After) (answer : PcapNext)
    → IsSafe s
    → s.caller ≡ joining after
    → Ensures
        (λ e. Led lib s e × ((e.thread ≡ polling) ⊎ (is_waiting e.thread ≡ false)))
        (thread_step s.engine.thread answer s.engine)
first-Leaves lib s after answer i c = by_thread s.engine.thread refl
  where
    by_thread :
        (thread : Thread)
        → s.engine.thread ≡ thread
        → Ensures
            (λ e. Led lib s e × ((e.thread ≡ polling) ⊎ (is_waiting e.thread ≡ false)))
            (thread_step thread answer s.engine)
    by_thread absent p = unfold thread_step is_waiting in ((i, here), inr (rw p refl))
    by_thread ended p = unfold thread_step is_waiting in ((i, here), inr (rw p refl))
    by_thread polling p =
        let l = poll-Leaves lib s after i c p in unfold thread_step in (l.0, inr l.1)
    by_thread reading p =
        let (e, q, safe) =
          Ensures-done (λ g. IsSafe (record s { engine = g })) (read_next answer s.engine)
            (read_next-IsSafe answer s p i) in
        unfold thread_step in
        rw q (
          (safe, next here (reads answer e p q refl)),
          read_next-leaves answer s.engine e ((reading-is_open s.engine p i.0).1) q,
        )

-- What it does after that.
second-Leaves :
    (lib : Pcap) (s : System) (after : After) (answer : PcapNext)
    → IsSafe s
    → s.caller ≡ joining after
    → (s.engine.thread ≡ polling) ⊎ (is_waiting s.engine.thread ≡ false)
    → Ensures
        (λ e. Led lib s e × (is_waiting e.thread ≡ false))
        (thread_step s.engine.thread answer s.engine)
second-Leaves lib s after answer i c h = by_thread s.engine.thread refl
  where
    by_thread :
        (thread : Thread)
        → s.engine.thread ≡ thread
        → Ensures
            (λ e. Led lib s e × (is_waiting e.thread ≡ false))
            (thread_step thread answer s.engine)
    by_thread absent p = unfold thread_step is_waiting in ((i, here), rw p refl)
    by_thread ended p = unfold thread_step is_waiting in ((i, here), rw p refl)
    by_thread polling p = unfold thread_step in poll-Leaves lib s after i c p
    by_thread reading p = absurd (unfold is_waiting in ground (arith, p, h))

join-Frees :
    (lib : Pcap) (s : System) (after : After)
    → IsSafe s
    → s.caller ≡ joining after
    → is_waiting s.engine.thread ≡ false
    → Ensures (λ e. Reach lib s (record { engine = e; caller = free })) (join lib after s.engine)
unfolding join finish_stop
join-Frees lib s after i c w =
    let (e, q, sound) =
      Ensures-done IsSound (go_on lib after (finish_stop s.engine))
        (go_on-IsSound lib after (finish_stop s.engine) refl i.0.1) in
    rw (w, q) (next here (joins after e c w q refl))

-- In every order of the steps up to where a caller in `stopCapture`, `startCapture`, `openFile` or
-- `replayFile` waits for the capture thread: at most two steps of that thread, whatever libpcap
-- answers to a read in either, end its loop, and then the call goes on to its end. No fault occurs,
-- and these are steps of the system, which leave the caller free.
pub Reach-Frees :
    (lib : Pcap) (queue : PacketQueue PacketData) (s : System) (after : After)
    (answer second_answer : PcapNext)
    → Reach lib (start queue) s
    → s.caller ≡ joining after
    → Ensures
        (λ e. Reach lib s (record { engine = e; caller = free }))
        (do
          e ← thread_step s.engine.thread answer s.engine
          f ← thread_step e.thread second_answer e
          join lib after f)
Reach-Frees lib queue s after answer second_answer r c =
    >>=-Ensures (λ e. Led lib s e × ((e.thread ≡ polling) ⊎ (is_waiting e.thread ≡ false))) Freed _
      _ (first-Leaves lib s after answer (Reach-IsSafe lib queue s r) c)
      λ e l.
        >>=-Ensures (λ f. Led lib (record s { engine = e }) f × (is_waiting f.thread ≡ false)) Freed
          _ _ (second-Leaves lib (record s { engine = e }) after second_answer l.0.0 c l.1)
          λ f m.
            Ensures-mono
              (λ g. Reach lib (record s { engine = f }) (record { engine = g; caller = free }))
              Freed _ (join-Frees lib (record s { engine = f }) after m.0.0 c m.1)
              λ g q.
                Reach-trans lib s (record s { engine = e }) (record { engine = g; caller = free })
                  l.0.1
                  (Reach-trans lib (record s { engine = e }) (record s { engine = f })
                    (record { engine = g; caller = free }) m.0.1 q)
  where
    Freed : Engine → Type 0
    Freed e = Reach lib s (record { engine = e; caller = free })
