-- ===== src/Tests/Texts.antt =====
-- Exported fields and cached names at concrete texts.
use netprobe_cpp.Base.{
  ℕ, ◌≡◌, refl, arith, pos, List, map, some, [], ◌∷◌, ◌++◌, Bytes, codes, is_empty, to_string, ◌-ℤ◌,
}
use netprobe_cpp.FlowExporter.{comma, needs_quotes}
use netprobe_cpp.Flow.State.{Flow, new_state}
use netprobe_cpp.FlowExporter.Rows.{
  Formats, write_csv, host_of, rtt_milliseconds_of, duration_seconds_of,
}
use netprobe_cpp.FlowExporter.Rows.Reader.{
  column_names, csv_values, row_values, read_lines, IsPlain, PlainFloats, read_lines-write_csv,
}
use netprobe_cpp.FlowExporter.Csv.{is_readable, all_readable, has_return}
use netprobe_cpp.GeoIpResolver.{organization_label}
use netprobe_cpp.FlowExporter.Json.{quotation, append_json_string}
use netprobe_cpp.FlowExporter.Json.Reader.{
  in_text, read_string, sanitized, read_string-append_json_string,
}

-- A comma and a quote.
abbrev organization : Bytes
organization = codes "Example, " ++ 34 ∷ codes "Inc"

-- A quote, a control byte, a valid sequence of two bytes, and a stray byte.
abbrev raw_name : Bytes
raw_name = 34 ∷ 1 ∷ 0xc3 ∷ 0xa9 ∷ 0xff ∷ []

read_string-append_json_string_example :
    (text : Bytes) × (append_json_string (codes "host: ") raw_name ++ (comma ∷ [])
      ≡ codes "host: " ++ quotation ∷ text)
    × (read_string in_text text ≡ some (sanitized 0 raw_name, comma ∷ []))
read_string-append_json_string_example =
    read_string-append_json_string (codes "host: ") raw_name (comma ∷ [])
      (omega arith, (omega arith, (omega arith, (omega arith, (omega arith, tt)))))

-- Two flows, one with a quoted host.
abbrev plain_formats : Formats
plain_formats = record {
  format_float = λ n d precision. codes "0.5";
  lookup_geo = λ ip. record { country = codes "US"; asn = 15169; organization = organization };
}

abbrev web_flow : Flow
web_flow =
    (new_state
      (record {
        src_ip = codes "10.0.0.1";
        dst_ip = codes "10.0.0.2";
        src_port = 49153;
        dst_port = 80;
        protocol = codes "TCP";
      })
      (pos 5)).flow

abbrev two_flows : List (Flow × ℕ)
two_flows = (web_flow, 0) ∷ (record web_flow { hostname = organization; packets = 3 }, 95) ∷ []

read_lines-write_csv_example :
    read_lines 3 (write_csv plain_formats two_flows)
    ≡ some ((codes "host" ∷ column_names) ∷ map (row_values plain_formats) two_flows, [])
unfolding needs_quotes new_state codes PlainFloats IsPlain all_readable is_readable has_return
    csv_values host_of organization_label rtt_milliseconds_of duration_seconds_of is_empty to_string
    ◌-ℤ◌
read_lines-write_csv_example =
    read_lines-write_csv plain_formats two_flows (λ n d precision. refl)
      ((refl, refl, refl), ((refl, refl, refl), tt)) (refl, (refl, tt))
