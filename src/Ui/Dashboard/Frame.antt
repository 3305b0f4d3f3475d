-- ===== src/Ui/Dashboard/Frame.antt =====
-- `processQueue` of src/ui/GuiLayer.cpp as a whole, from the queue to the charts.
use netprobe_cpp.Base.{
  Bytes, ℕ, ◌≤◌, ◌≡◌, arith, false, not, List, [], ◌∷◌, ◌++◌, length, Ensures, Ensures-mono,
  >>=-Ensures, if-Ensures,
}
use netprobe_cpp.Packet.{ParsedPacket}
use netprobe_cpp.Protocol.Network.{Inet}
use netprobe_cpp.Quic.Keys.{CryptoLibrary}
use netprobe_cpp.Quic.Initial.Bounds.{BlockSized}
use netprobe_cpp.AnalysisSession.Runs.{IsBounded}
use netprobe_cpp.Ui.ScrollingBuffer.{ScrollingBuffer, add_point}
use netprobe_cpp.Ui.ScrollingBuffer.Points.{Holds, add_point-Holds}
use netprobe_cpp.Ui.View.{View}
use netprobe_cpp.Ui.Live.{max_packet_history, process_queue}
use netprobe_cpp.Ui.Live.History.{Processed, process_queue-Processed}
use netprobe_cpp.Ui.Dashboard.{Clock, Dashboard, update_charts, refresh_top, process_frame}

module _ {F : Type 0} where
  -- A buffer for at least one point, as it is after some points.
  abbrev pub IsChart : ScrollingBuffer F → Type 0
  IsChart b = (size : ℕ) × (points : List (F × F)) × (1 ≤ size) × Holds size points b

  abbrev pub HasCharts : Dashboard F → Type 0
  HasCharts d = IsChart d.bandwidth_data × IsChart d.tcp_bandwidth × IsChart d.udp_bandwidth

  add_point-IsChart :
      (b : ScrollingBuffer F) (x y : F) → IsChart b → Ensures IsChart (add_point b x y)
  add_point-IsChart b x y (size, points, h, held) =
      Ensures-mono (Holds size (points ++ (x, y) ∷ [])) IsChart (add_point b x y)
        (add_point-Holds size points b (x, y) h held)
        (λ c more. (size, points ++ (x, y) ∷ [], h, more))

  -- What a frame comes to, in the history and in the charts.
  abbrev pub Framed : View → View × Dashboard F → Type 0
  Framed v (w, d) = Processed v w × HasCharts d

  update_charts-Framed :
      (clock : Clock F) (v w : View) (d : Dashboard F)
      → Processed v w
      → HasCharts d
      → Ensures (Framed v) (update_charts clock w d)
  unfolding update_charts
  update_charts-Framed clock v w d p (all, tcp, udp) =
      if-Ensures (Framed v) (not (clock.is_due d.last_update_time)) _ _ (λ _. (p, (all, tcp, udp)))
        λ _.
          >>=-Ensures IsChart (Framed v)
            (add_point d.bandwidth_data clock.now (clock.to_mbps w.bytes_this_sec)) _
            (add_point-IsChart d.bandwidth_data clock.now (clock.to_mbps w.bytes_this_sec) all)
            λ all' a.
              >>=-Ensures IsChart (Framed v)
                (add_point d.tcp_bandwidth clock.now (clock.to_mbps w.tcp_bytes_this_sec)) _
                (add_point-IsChart d.tcp_bandwidth clock.now (clock.to_mbps w.tcp_bytes_this_sec)
                  tcp)
                λ tcp' t.
                  >>=-Ensures IsChart (Framed v)
                    (add_point d.udp_bandwidth clock.now (clock.to_mbps w.udp_bytes_this_sec)) _
                    (add_point-IsChart d.udp_bandwidth clock.now
                      (clock.to_mbps w.udp_bytes_this_sec) udp)
                    λ udp' u. (p, (a, t, u))

  -- With an AES that gives blocks of 16 bytes, bounded trackers, a history of at most 10,000 records
  -- and rings in the charts: a frame that is not paused ends without a fault or an access out of
  -- range. It analyses the first 1000 packets of the queue or all of fewer, and appends their records
  -- in order; the history is the last 10,000 records, the record that is selected is the one that
  -- was, or none if it has fallen out, and the charts are rings again.
  pub process_frame-Framed :
      (net : Inet) (lib : CryptoLibrary) (lookup : ParsedPacket → Bytes) (clock : Clock F)
      (v : View) (d : Dashboard F)
      → BlockSized lib
      → IsBounded v.session
      → length v.packet_history ≤ max_packet_history
      → v.capture_paused ≡ false
      → HasCharts d
      → Ensures (Framed v) (process_frame net lib lookup clock v d)
  unfolding process_frame refresh_top
  process_frame-Framed net lib lookup clock v d l b h running charts =
      if-Ensures (Framed v) v.capture_paused _ _ (λ paused. ground (arith, paused, running))
        λ _.
          >>=-Ensures (Processed v) (Framed v) (process_queue net lib lookup v) _
            (process_queue-Processed net lib lookup v l b h running)
            λ w p.
              >>=-Ensures (Framed v) (Framed v) (update_charts clock w d) _
                (update_charts-Framed clock v w d p charts) (λ r f. f)
