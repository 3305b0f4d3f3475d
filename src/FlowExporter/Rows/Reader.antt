-- ===== src/FlowExporter/Rows/Reader.antt =====
-- Reading the file of `writeCsv` of src/core/FlowExporter.cpp.
use netprobe_cpp.Base.{
  ℕ, zero, suc, ◌≡◌, refl, sym, arith, true, false, Option, none, some, List, [], ◌∷◌, map, length,
  All, Bytes, codes, to_string, all_digits, is_digit, to_string-digits,
}
use netprobe_cpp.Flow.State.{Flow}
use netprobe_cpp.FlowExporter.{needs_quotes, csv_escape, csv_line}
use netprobe_cpp.FlowExporter.Csv.{
  is_readable, all_readable, has_return, read_line, read_line-csv_line, csv_escape-plain,
}
use netprobe_cpp.GeoIpResolver.{organization_label}
use netprobe_cpp.FlowExporter.Rows.{
  Formats, rtt_milliseconds_of, duration_seconds_of, host_of, csv_fields, csv_row, csv_rows,
  csv_header, write_csv,
}

-- The values of a row behind the first one.
unfoldable pub csv_values : Formats → Flow → ℕ → List Bytes
csv_values f flow rate =
    flow.key.src_ip
    ∷ to_string flow.key.src_port
    ∷ flow.key.dst_ip
    ∷ to_string flow.key.dst_port
    ∷ flow.key.protocol
    ∷ flow.service
    ∷ flow.process
    ∷ (f.lookup_geo flow.key.dst_ip).country
    ∷ organization_label (f.lookup_geo flow.key.dst_ip)
    ∷ to_string flow.packets
    ∷ to_string flow.bytes_up
    ∷ to_string flow.bytes_down
    ∷ f.format_float rate 1 1
    ∷ rtt_milliseconds_of f flow
    ∷ to_string (duration_seconds_of flow)
    ∷ to_string flow.retransmissions_up
    ∷ to_string flow.retransmissions_down
    ∷ to_string flow.out_of_order_up
    ∷ to_string flow.out_of_order_down
    ∷ []

digits-plain : (text : Bytes) → all_digits text ≡ true → needs_quotes text ≡ false
unfolding all_digits is_digit needs_quotes
digits-plain [] d = refl
digits-plain (c ∷ text) d = ground (arith, digits-plain text)

number-plain : (n : ℕ) → csv_escape (to_string n) ≡ to_string n
number-plain n =
    csv_escape-plain (to_string n) (digits-plain (to_string n) ((to_string-digits n).0))

-- The texts that `writeCsv` does not escape hold no comma, quote or newline.
unfoldable pub IsPlain : Flow → Type 0
IsPlain flow =
    (needs_quotes flow.key.src_ip ≡ false)
    × (needs_quotes flow.key.dst_ip ≡ false)
    × (needs_quotes flow.key.protocol ≡ false)

-- Nor does the text of a number with a fraction.
unfoldable pub PlainFloats : Formats → Type 0
PlainFloats f = (n d precision : ℕ) → needs_quotes (f.format_float n d precision) ≡ false

csv_fields-map :
    (f : Formats) (flow : Flow) (rate : ℕ)
    → PlainFloats f
    → IsPlain flow
    → csv_fields f flow rate ≡ map csv_escape (csv_values f flow rate)
unfolding csv_fields csv_values rtt_milliseconds_of PlainFloats IsPlain
csv_fields-map f flow rate p (source, destination, protocol) = sym (
    rw
      (
        csv_escape-plain flow.key.src_ip source,
        csv_escape-plain flow.key.dst_ip destination,
        csv_escape-plain flow.key.protocol protocol,
        number-plain flow.key.src_port,
        number-plain flow.key.dst_port,
        number-plain flow.packets,
        number-plain flow.bytes_up,
        number-plain flow.bytes_down,
        number-plain (duration_seconds_of flow),
        number-plain flow.retransmissions_up,
        number-plain flow.retransmissions_down,
        number-plain flow.out_of_order_up,
        number-plain flow.out_of_order_down,
        csv_escape-plain (f.format_float rate 1 1) (p rate 1 1),
        csv_escape-plain (rtt_milliseconds_of f flow) (p _ 1000 2),
      )
      refl)

-- The names of the columns behind the first one.
pub column_names : List Bytes
column_names =
    codes "src_ip"
    ∷ codes "src_port"
    ∷ codes "dst_ip"
    ∷ codes "dst_port"
    ∷ codes "protocol"
    ∷ codes "service"
    ∷ codes "process"
    ∷ codes "country"
    ∷ codes "organization"
    ∷ codes "packets"
    ∷ codes "bytes_up"
    ∷ codes "bytes_down"
    ∷ codes "rate_bytes_per_sec"
    ∷ codes "initial_rtt_ms"
    ∷ codes "duration_sec"
    ∷ codes "retransmissions_up"
    ∷ codes "retransmissions_down"
    ∷ codes "out_of_order_up"
    ∷ codes "out_of_order_down"
    ∷ []

csv_header-names : csv_header ≡ csv_line (csv_escape (codes "host")) (map csv_escape column_names)
unfolding csv_header csv_line csv_escape column_names codes needs_quotes
csv_header-names = refl

abbrev pub row_values : Formats → Flow × ℕ → List Bytes
row_values f (flow, rate) = host_of flow ∷ csv_values f flow rate

cons_line : List Bytes → Option (List (List Bytes) × Bytes) → Option (List (List Bytes) × Bytes)
cons_line line none = none
cons_line line (some (lines, rest)) = some (line ∷ lines, rest)

-- So many lines of at most 20 fields, and the text behind them.
pub read_lines : ℕ → Bytes → Option (List (List Bytes) × Bytes)
read_lines zero text = some ([], text)
read_lines (suc n) text = elim (read_line 20 text) [
  | none ↦ none
  | some (line, rest) ↦ cons_line line (read_lines n rest)
]

read_lines-csv_rows :
    (f : Formats) (flows : List (Flow × ℕ))
    → PlainFloats f
    → All (λ row. IsPlain row.0) flows
    → All (λ row. all_readable (row_values f row) ≡ true) flows
    → read_lines (length flows) (csv_rows f flows) ≡ some (map (row_values f) flows, [])
unfolding read_lines csv_rows csv_row cons_line csv_values
read_lines-csv_rows f [] p a k = refl
read_lines-csv_rows f ((flow, rate) ∷ flows) p a k =
    rw
      (
        csv_fields-map f flow rate p a.0,
        read_lines,
        read_line-csv_line (csv_values f flow rate) (host_of flow) (csv_rows f flows) 20
            (omega arith) k.0,
        read_lines-csv_rows f flows p a.1 k.1,
      )
      refl

names-readable : all_readable (codes "host" ∷ column_names) ≡ true
unfolding column_names codes all_readable is_readable needs_quotes has_return
names-readable = refl

-- Where the texts of fractions hold no comma, quote or newline, neither do the addresses and protocols
-- of the flows, and no value that is written without quotes holds a carriage return: the file that is
-- written reads back, by the grammar of RFC 4180 but for the newline alone that ends a record, as the
-- line of the 20 column names and one line of 20 values for each flow, in their order, commas, quotes
-- and newlines in the host, service, process, country and organization included, and nothing is left
-- behind them.
pub read_lines-write_csv :
    (f : Formats) (flows : List (Flow × ℕ))
    → PlainFloats f
    → All (λ row. IsPlain row.0) flows
    → All (λ row. all_readable (row_values f row) ≡ true) flows
    → read_lines (suc (length flows)) (write_csv f flows)
      ≡ some ((codes "host" ∷ column_names) ∷ map (row_values f) flows, [])
unfolding read_lines write_csv cons_line column_names
read_lines-write_csv f flows p a k =
    rw
      (
        csv_header-names,
        read_lines,
        read_line-csv_line column_names (codes "host") (csv_rows f flows) 20 (omega arith)
            names-readable,
        read_lines-csv_rows f flows p a k,
      )
      refl
