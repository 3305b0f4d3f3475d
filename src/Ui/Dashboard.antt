-- ===== src/Ui/Dashboard.antt =====
-- src/ui/GuiLayer.cpp: `processQueue`, `setPaused` and `clearCaptureView` as a whole, with what they do
-- to the charts, the cached flows and the top service. The arithmetic of floating point numbers and
-- the time of the frame are arguments.
pub mod Frame
use netprobe_cpp.Base.{
  ℕ, ◌+◌, Bool, true, false, Option, none, some, ◌&&◌, ◌||◌, not, ltb, ◌==◌, if◌then◌else◌, List,
  [], ◌∷◌, Bytes, text_le, text_eq, Outcome, done, ◌>>=◌,
}
use netprobe_cpp.Packet.{ParsedPacket}
use netprobe_cpp.Protocol.Network.{Inet}
use netprobe_cpp.Quic.Keys.{CryptoLibrary}
use netprobe_cpp.Flow.Key.{FlowKey}
use netprobe_cpp.GeoIpResolver.{GeoInfo}
use netprobe_cpp.Ui.ScrollingBuffer
use netprobe_cpp.Ui.ScrollingBuffer.{ScrollingBuffer}
use netprobe_cpp.Ui.FlowTable.{Row}
use netprobe_cpp.Ui.View.{View}
use netprobe_cpp.Ui.Live.{process_queue, set_paused, clear_capture_view}

-- What is used of `double` and `float`, and the time of a frame: -1, 0, a rate of so many bytes in
-- half a second, `>`, and whether half a second has passed since a time.
pub record Clock (F : Type 0) : Type 0 where
  pub minus_one : F
  pub to_mbps : ℕ → F
  pub is_greater : F → F → Bool
  pub now : F
  pub is_due : F → Bool

pub record Dashboard (F : Type 0) : Type 0 where
  pub bandwidth_data : ScrollingBuffer F
  pub tcp_bandwidth : ScrollingBuffer F
  pub udp_bandwidth : ScrollingBuffer F
  pub current_mbps : F
  pub peak_mbps : F
  pub last_update_time : F
  pub flow_rate_history : ScrollingBuffer F
  pub flow_rate_key : Option FlowKey
  pub flows_cache : List Row
  pub flow_geo_cache : List (Bytes × GeoInfo)
  pub last_flows_refresh : F
  pub max_flow_bytes : ℕ
  pub active_flow_count : ℕ
  pub top_service : Bytes
  pub top_service_count : ℕ

-- The `std::map` goes through the services in their order, and the first of equal counts stays: the
-- greatest count, and the least name with it.
pub is_above : Bytes × ℕ → Bytes × ℕ → Bool
is_above (name, c) (top, count) =
    ltb count c || ((count == c) && ltb 0 c && text_le name top && not (text_eq name top))

pub top_of : List (Bytes × ℕ) → Bytes × ℕ
top_of [] = ([], 0)
top_of (entry ∷ counts) = let top = top_of counts in if is_above entry top then entry else top

module _ {F : Type 0} where
  -- A point in each chart, every half second.
  unfoldable pub update_charts : Clock F → View → Dashboard F → Outcome (View × Dashboard F)
  update_charts clock v d = if not (clock.is_due d.last_update_time) then done (v, d) else (do
    let mbps = clock.to_mbps v.bytes_this_sec
    all ← ScrollingBuffer.add_point d.bandwidth_data clock.now mbps
    tcp ← ScrollingBuffer.add_point d.tcp_bandwidth clock.now (clock.to_mbps v.tcp_bytes_this_sec)
    udp ← ScrollingBuffer.add_point d.udp_bandwidth clock.now (clock.to_mbps v.udp_bytes_this_sec)
    done (
      record v { bytes_this_sec = 0; tcp_bytes_this_sec = 0; udp_bytes_this_sec = 0 },
      record d {
        bandwidth_data = all;
        tcp_bandwidth = tcp;
        udp_bandwidth = udp;
        current_mbps = mbps;
        peak_mbps = if clock.is_greater mbps d.peak_mbps then mbps else d.peak_mbps;
        last_update_time = clock.now;
      },
    ))

  -- The end of `processQueue`.
  unfoldable pub refresh_top : View → Dashboard F → View × Dashboard F
  refresh_top v d =
      let top = top_of v.app_counts in
      (v, record d { top_service = top.0; top_service_count = top.1 })

  -- `processQueue`
  unfoldable pub process_frame :
      Inet
      → CryptoLibrary
      → (ParsedPacket → Bytes)
      → Clock F
      → View
      → Dashboard F
      → Outcome (View × Dashboard F)
  process_frame net lib lookup clock v d = if v.capture_paused then done (v, d) else (do
    w ← process_queue net lib lookup v
    r ← update_charts clock w d
    done (refresh_top r.0 r.1))

  -- `setPaused`
  unfoldable pub pause : Bool → Clock F → View → Dashboard F → View × Dashboard F
  pause paused clock v d = (
    set_paused paused v,
    if v.capture_paused && not paused then record d { last_update_time = clock.now } else d,
  )

  -- `clearCaptureView`
  unfoldable pub clear_all : Clock F → View → Dashboard F → View × Dashboard F
  clear_all clock v d = (
    clear_capture_view v,
    record d {
      flows_cache = [];
      flow_geo_cache = [];
      last_flows_refresh = clock.minus_one;
      max_flow_bytes = 0;
      active_flow_count = 0;
      flow_rate_history = ScrollingBuffer.erase d.flow_rate_history;
      flow_rate_key = none;
      bandwidth_data = ScrollingBuffer.erase d.bandwidth_data;
      tcp_bandwidth = ScrollingBuffer.erase d.tcp_bandwidth;
      udp_bandwidth = ScrollingBuffer.erase d.udp_bandwidth;
      last_update_time = clock.now;
    },
  )
