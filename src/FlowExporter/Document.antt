-- ===== src/FlowExporter/Document.antt =====
-- src/core/FlowExporter.cpp, `writeJson`. The version of the program and the time are arguments.
use netprobe_cpp.Base.{
  ℕ, suc, Bool, true, false, if◌then◌else◌, List, [], ◌∷◌, ◌++◌, Bytes, codes, length, is_empty,
  to_string, ℤ, pos, negsuc,
}
use netprobe_cpp.Flow.State.{Flow}
use netprobe_cpp.FlowExporter.{comma, newline}
use netprobe_cpp.FlowExporter.Json.{quotation, append_json_string}
use netprobe_cpp.FlowExporter.Rows.{Formats, duration_seconds_of}

-- `std::to_string` of an `int64_t`.
pub signed_text : ℤ → Bytes
signed_text (pos n) = to_string n
signed_text (negsuc n) = codes "-" ++ to_string (suc n)

pub json_string : Bytes → Bytes
json_string value = append_json_string [] value

pub json_bool : Bool → Bytes
json_bool b = if b then codes "true" else codes "false"

-- A name and its value, on a line of its own.
pub member : Bytes → Bytes × Bytes → Bytes
member indent (name, value) =
    newline ∷ (indent ++ quotation ∷ (name ++ quotation ∷ (codes ": " ++ value)))

-- A first member and the others, with the commas between them.
pub members : Bytes → Bytes × Bytes → List (Bytes × Bytes) → Bytes
members indent first [] = member indent first
members indent first (next ∷ others) = member indent first ++ comma ∷ members indent next others

pub flow_members : Formats → Flow → ℕ → List (Bytes × Bytes)
flow_members f flow rate =
    let info = f.lookup_geo flow.key.dst_ip in
    (codes "src_port", to_string flow.key.src_port)
    ∷ (codes "dst_ip", json_string flow.key.dst_ip)
    ∷ (codes "dst_port", to_string flow.key.dst_port)
    ∷ (codes "protocol", json_string flow.key.protocol)
    ∷ (codes "service", json_string flow.service)
    ∷ (codes "hostname", json_string flow.hostname)
    ∷ (codes "process", json_string flow.process)
    ∷ (codes "country", json_string info.country)
    ∷ (codes "asn", to_string info.asn)
    ∷ (codes "organization", json_string info.organization)
    ∷ (codes "packets", to_string flow.packets)
    ∷ (codes "bytes_up", to_string flow.bytes_up)
    ∷ (codes "bytes_down", to_string flow.bytes_down)
    ∷ (codes "first_seen_us", signed_text flow.first_seen)
    ∷ (codes "last_seen_us", signed_text flow.last_seen)
    ∷ (codes "duration_sec", to_string (duration_seconds_of flow))
    ∷ (codes "rate_bytes_per_sec", f.format_float rate 1 1)
    ∷ (codes "initial_rtt_us", signed_text flow.initial_rtt_microseconds)
    ∷ (codes "retransmissions_up", to_string flow.retransmissions_up)
    ∷ (codes "retransmissions_down", to_string flow.retransmissions_down)
    ∷ (codes "out_of_order_up", to_string flow.out_of_order_up)
    ∷ (codes "out_of_order_down", to_string flow.out_of_order_down)
    ∷ (codes "encrypted_tunnel", json_bool flow.encrypted_tunnel)
    ∷ []

pub flow_object : Formats → Flow × ℕ → Bytes
flow_object f (flow, rate) =
    newline
    ∷ (codes "    {"
        ++ members (codes "      ") (codes "src_ip", json_string flow.key.src_ip)
            (flow_members f flow rate)
        ++ newline ∷ codes "    }")

-- The loop; the flag says that no flow has been written.
pub flow_objects : Formats → Bool → List (Flow × ℕ) → Bytes
flow_objects f first [] = []
flow_objects f first (row ∷ flows) =
    (if first then [] else comma ∷ []) ++ (flow_object f row ++ flow_objects f false flows)

pub write_json : Bytes → ℤ → Formats → List (Flow × ℕ) → Bytes
write_json version now f flows =
    codes "{"
    ++ members (codes "  ") (codes "netprobe_version", json_string version)
        ((codes "generated_unix_us", signed_text now)
          ∷ (codes "flow_count", to_string (length flows))
          ∷ (codes "flows", codes "[" ++ flow_objects f true flows)
          ∷ [])
    ++ (if is_empty flows then codes "]" else newline ∷ codes "  ]")
    ++ newline ∷ codes "}"
    ++ newline ∷ []
