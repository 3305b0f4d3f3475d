-- ===== src/Tests/Views.antt =====
-- The user interface's state at concrete inputs.
use Prim.Native.Nat.{max}
use netprobe_cpp.Base.{
  ltb, ◌↔◌, ◌≡◌, refl, arith, false, true, none, some, List, [], ◌∷◌, Bytes, codes, Ensures,
  keep_last, done, ℕ, ◌*◌,
}
use netprobe_cpp.Packet.{PacketData, ParsedPacket}
use netprobe_cpp.PacketQueue.{PacketQueue}
use netprobe_cpp.AnalysisSession
use netprobe_cpp.Ui.ScrollingBuffer
use netprobe_cpp.Ui.ScrollingBuffer.Points.{
  make-Holds, add_points, times_of, values_of, linearize-add_points,
}
use netprobe_cpp.Ui.View.{View, make}
use netprobe_cpp.Ui.Dashboard.{Clock, Dashboard, process_frame}
use netprobe_cpp.Ui.Dashboard.Frame.{IsChart, Framed, process_frame-Framed}
use netprobe_cpp.Ui.PacketTable.{contains_ci, refresh, rows}
use netprobe_cpp.Ui.PacketTable.Rows.{
  Input, arrives, takes, clears, types, selects, draws, apply_all, apply_all-rows,
}
use netprobe_cpp.Ui.PacketTable.Cached.{InHistory, AreRows}
use netprobe_cpp.Ui.PacketTable.Filter.{Occurs, contains_ci_iff}
use netprobe_cpp.Ui.FlowTable.{compare_flows}
use netprobe_cpp.Ui.FlowTable.Order.{IsStrictWeak, compare_flows-IsStrictWeak}
use netprobe_cpp.GeoIpResolver
use netprobe_cpp.GeoIpResolver.{Database}
use netprobe_cpp.GeoIpResolver.Cached.{AnswersAll, lookup_all, lookup_all-AnswersAll}
use netprobe_cpp.Tests.Data.{plain_inet, zero_crypto, zero_crypto-BlockSized, captured}

make-IsChart : IsChart {F = ℕ} (ScrollingBuffer.make 2000)
make-IsChart = (2000, [], omega arith, make-Holds 2000 (omega arith))

abbrev no_owner : ParsedPacket → Bytes
no_owner p = []

abbrev waiting : PacketQueue PacketData
waiting = record { queue = captured ∷ captured ∷ []; max_size = 5; dropped_packets = 0 }

abbrev fresh : View
fresh = make waiting (AnalysisSession.make true)

-- Floats are numbers, and half a second has always passed.
abbrev clock : Clock ℕ
clock = record {
  minus_one = 0;
  to_mbps = λ bytes. bytes;
  is_greater = λ a b. ltb b a;
  now = 7;
  is_due = λ last. true;
}

abbrev dashboard : Dashboard ℕ
dashboard = record {
  bandwidth_data = ScrollingBuffer.make 2000;
  tcp_bandwidth = ScrollingBuffer.make 2000;
  udp_bandwidth = ScrollingBuffer.make 2000;
  current_mbps = 0;
  peak_mbps = 0;
  last_update_time = 0;
  flow_rate_history = ScrollingBuffer.make 240;
  flow_rate_key = none;
  flows_cache = [];
  flow_geo_cache = [];
  last_flows_refresh = 0;
  max_flow_bytes = 0;
  active_flow_count = 0;
  top_service = [];
  top_service_count = 0;
}

process_frame-Framed_example :
    Ensures (Framed fresh) (process_frame plain_inet zero_crypto no_owner clock fresh dashboard)
unfolding make AnalysisSession.make
process_frame-Framed_example =
    process_frame-Framed plain_inet zero_crypto no_owner clock fresh dashboard
      zero_crypto-BlockSized ((omega arith, tt), (omega arith, tt)) (omega arith) refl
      (make-IsChart, make-IsChart, make-IsChart)

-- The filter is drawn once, and once more behind another frame.
abbrev inputs : List Input
inputs =
    types (codes "tcp")
    ∷ takes
    ∷ draws
    ∷ selects 0
    ∷ arrives captured
    ∷ takes
    ∷ draws
    ∷ clears
    ∷ takes
    ∷ []

apply_all-rows_example :
    Ensures
      (λ v. AreRows (refresh v) (rows (refresh v)) × InHistory (refresh v) (rows (refresh v)))
      (apply_all plain_inet zero_crypto no_owner inputs fresh)
apply_all-rows_example =
    apply_all-rows plain_inet zero_crypto no_owner inputs waiting true zero_crypto-BlockSized
      (omega arith)

-- Three points in a buffer of two.
abbrev points : List (ℕ × ℕ)
points = (1, 10) ∷ (2, 20) ∷ (3, 30) ∷ []

linearize-add_points_example :
    Ensures
      (λ b.
        ScrollingBuffer.linearize b
        ≡ done (keep_last 2 (times_of points), keep_last 2 (values_of points)))
      (add_points (ScrollingBuffer.make 2) points)
linearize-add_points_example = linearize-add_points 2 points (omega arith)

contains_ci_iff_example :
    (contains_ci (codes "via TCP") (codes "tcp") ≡ true) ↔ Occurs (codes "tcp") (codes "via TCP")
contains_ci_iff_example = contains_ci_iff (codes "via TCP") (codes "tcp")

compare_flows-IsStrictWeak_example : IsStrictWeak (compare_flows [] (λ n m. n * 100) 9 false)
compare_flows-IsStrictWeak_example = compare_flows-IsStrictWeak [] (λ n m. n * 100) 9 false

-- A database that knows every address.
abbrev world : Database
world = record {
  country_open = true;
  asn_open = false;
  country_entry = λ ip. some (codes "DE");
  asn_entry = λ ip. none;
}

abbrev asked : List Bytes
asked = codes "1.1.1.1" ∷ codes "8.8.8.8" ∷ codes "1.1.1.1" ∷ []

lookup_all-AnswersAll_example :
    Ensures (AnswersAll world (max 1 1) asked) (lookup_all (GeoIpResolver.make world 1) asked)
lookup_all-AnswersAll_example = lookup_all-AnswersAll world 1 asked
