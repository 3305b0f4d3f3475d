-- ===== src/FlowExporter/Rows.antt =====
-- src/core/FlowExporter.cpp, `writeCsv`. The text of a
-- `double`, given as a quotient with a precision, and the lookup of an address are arguments.
pub mod Reader
use netprobe_cpp.Base.{
  ℕ, ◌/◌, Bool, if◌then◌else◌, ◌==◌, List, [], ◌∷◌, ◌++◌, Bytes, codes, is_empty, to_string,
  pos_part, ◌-ℤ◌,
}
use netprobe_cpp.GeoIpResolver.{GeoInfo, organization_label}
use netprobe_cpp.Flow.State.{Flow}
use netprobe_cpp.FlowExporter.{csv_escape, csv_line, newline}

-- `formatFloat(numerator / denominator, precision)`, and `lookupGeo`.
pub record Formats : Type 0 where
  pub format_float : ℕ → ℕ → ℕ → Bytes
  pub lookup_geo : Bytes → GeoInfo

-- `rttMillisecondsOf`, as text with two digits.
unfoldable pub rtt_milliseconds_of : Formats → Flow → Bytes
rtt_milliseconds_of f flow = f.format_float (pos_part flow.initial_rtt_microseconds) 1000 2

unfoldable pub duration_seconds_of : Flow → ℕ
duration_seconds_of flow = pos_part (flow.last_seen -ℤ flow.first_seen) / 1_000_000

unfoldable pub host_of : Flow → Bytes
host_of flow = if is_empty flow.hostname then flow.key.dst_ip else flow.hostname

-- The fields behind the first one, as they are written.
pub csv_fields : Formats → Flow → ℕ → List Bytes
csv_fields f flow rate =
    flow.key.src_ip
    ∷ to_string flow.key.src_port
    ∷ flow.key.dst_ip
    ∷ to_string flow.key.dst_port
    ∷ flow.key.protocol
    ∷ csv_escape flow.service
    ∷ csv_escape flow.process
    ∷ csv_escape (f.lookup_geo flow.key.dst_ip).country
    ∷ csv_escape (organization_label (f.lookup_geo flow.key.dst_ip))
    ∷ to_string flow.packets
    ∷ to_string flow.bytes_up
    ∷ to_string flow.bytes_down
    ∷ f.format_float rate 1 1
    ∷ rtt_milliseconds_of f flow
    ∷ to_string (duration_seconds_of flow)
    ∷ to_string flow.retransmissions_up
    ∷ to_string flow.retransmissions_down
    ∷ to_string flow.out_of_order_up
    ∷ to_string flow.out_of_order_down
    ∷ []

pub csv_row : Formats → Flow → ℕ → Bytes
csv_row f flow rate = csv_line (csv_escape (host_of flow)) (csv_fields f flow rate)

pub csv_rows : Formats → List (Flow × ℕ) → Bytes
csv_rows f [] = []
csv_rows f ((flow, rate) ∷ flows) = csv_row f flow rate ++ csv_rows f flows

pub csv_header : Bytes
csv_header =
    codes "host,src_ip,src_port,dst_ip,dst_port,protocol,service,process,country,organization,"
    ++ codes "packets,bytes_up,bytes_down,rate_bytes_per_sec,initial_rtt_ms,duration_sec,"
    ++ codes "retransmissions_up,retransmissions_down,out_of_order_up,out_of_order_down"
    ++ newline ∷ []

pub write_csv : Formats → List (Flow × ℕ) → Bytes
write_csv f flows = csv_header ++ csv_rows f flows
