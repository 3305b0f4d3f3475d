-- ===== src/Cli/Arguments.antt =====
-- src/cli/main.cpp: `parseArguments`. The arguments are those behind the program's name.
pub mod Values
pub mod RoundTrip
use netprobe_cpp.Base.{
  ℕ, zero, suc, ◌-◌, ◌^◌, Bool, true, false, Option, none, some, ◌||◌, not, ltb, if◌then◌else◌,
  List, [], ◌∷◌, Bytes, codes, text_eq, is_empty, all_digits, digits_value, ℤ, pos, negsuc,
}
use netprobe_cpp.Cli.Options.{OutputFormat, json, csv, Options, default_options}

-- The options that take one value.
pub data Flag : Type 0 where
  read_flag device_flag filter_flag output_flag format_flag duration_flag packet_count_flag : Flag

-- What one argument is.
pub data Kind : Type 0 where
  help version devices no_process unrecognized : Kind
  takes : Flag → Kind

-- The messages of `parseArguments`, with the text that each shows.
pub data Rejection : Type 0 where
  requires_value : Bytes → Rejection
  unknown_format : Bytes → Rejection
  bad_duration bad_packet_count : Rejection
  unrecognized_option : Bytes → Rejection

-- `std::nullopt` with its message, or the options.
pub data Parsed : Type 0 where
  rejected : Rejection → Parsed
  accepted : Options → Parsed

pub and_then : Parsed → (Options → Parsed) → Parsed
and_then (rejected r) next = rejected r
and_then (accepted o) next = next o

-- A run of digits that is the whole text and does not exceed `limit`.
pub digits_up_to : ℕ → Bytes → Option ℕ
digits_up_to limit text =
    if is_empty text || not (all_digits text) || ltb limit (digits_value 0 text)
    then none
    else some (digits_value 0 text)

-- `parseNonNegative<uint64_t>`: `std::from_chars` has read the whole text.
pub parse_unsigned : Bytes → Option ℕ
parse_unsigned text = digits_up_to (2 ^ 64 - 1) text

pub as_positive : Option ℕ → Option ℤ
as_positive none = none
as_positive (some n) = some (pos n)

pub as_negative : Option ℕ → Option ℤ
as_negative none = none
as_negative (some zero) = some (pos 0)
as_negative (some (suc n)) = some (negsuc n)

-- `parseNonNegative<int>`, which takes a minus sign as well.
pub parse_int : Bytes → Option ℤ
parse_int [] = none
parse_int (c ∷ text) =
    if text_eq (c ∷ []) (codes "-")
    then as_negative (digits_up_to (2 ^ 31) text)
    else as_positive (digits_up_to (2 ^ 31 - 1) (c ∷ text))

unfoldable pub kind_of : Bytes → Kind
kind_of argument =
    if text_eq argument (codes "-h") || text_eq argument (codes "--help")
    then help
    else if text_eq argument (codes "-V") || text_eq argument (codes "--version")
    then version
    else if text_eq argument (codes "--list-devices")
    then devices
    else if text_eq argument (codes "--no-process")
    then no_process
    else if text_eq argument (codes "-r") || text_eq argument (codes "--read")
    then takes read_flag
    else if text_eq argument (codes "-i") || text_eq argument (codes "--device")
    then takes device_flag
    else if text_eq argument (codes "-f") || text_eq argument (codes "--filter")
    then takes filter_flag
    else if text_eq argument (codes "-o") || text_eq argument (codes "--output")
    then takes output_flag
    else if text_eq argument (codes "--format")
    then takes format_flag
    else if text_eq argument (codes "--duration")
    then takes duration_flag
    else if text_eq argument (codes "--packet-count")
    then takes packet_count_flag
    else unrecognized

pub set_format : Bytes → Options → Parsed
set_format value o =
    if text_eq value (codes "json")
    then accepted (record o { format = some json })
    else if text_eq value (codes "csv")
    then accepted (record o { format = some csv })
    else rejected (unknown_format value)

pub set_duration : Option ℤ → Options → Parsed
set_duration (some (pos (suc n))) o = accepted (record o { duration_seconds = some (suc n) })
set_duration _ o = rejected bad_duration

pub set_packet_limit : Option ℕ → Options → Parsed
set_packet_limit (some (suc n)) o = accepted (record o { packet_limit = some (suc n) })
set_packet_limit _ o = rejected bad_packet_count

-- The value of an option.
pub set_value : Flag → Bytes → Options → Parsed
set_value read_flag value o = accepted (record o { read_path = value })
set_value device_flag value o = accepted (record o { device = value })
set_value filter_flag value o = accepted (record o { bpf_filter = value })
set_value output_flag value o = accepted (record o { output_path = value })
set_value format_flag value o = set_format value o
set_value duration_flag value o = set_duration (parse_int value) o
set_value packet_count_flag value o = set_packet_limit (parse_unsigned value) o

-- The loop over `argv`. The second argument is the option that waits for its value, and its text.
pub parse_loop : List Bytes → Option (Flag × Bytes) → Options → Parsed
parse_loop [] (some (flag, argument)) o = rejected (requires_value argument)
parse_loop (value ∷ rest) (some (flag, argument)) o =
    and_then (set_value flag value o) (λ p. parse_loop rest none p)
parse_loop [] none o = accepted o
parse_loop (argument ∷ rest) none o = elim (kind_of argument) [
  | help ↦ accepted (record o { show_help = true })
  | version ↦ accepted (record o { show_version = true })
  | devices ↦ parse_loop rest none (record o { list_devices = true })
  | no_process ↦ parse_loop rest none (record o { resolve_processes = false })
  | takes flag ↦ parse_loop rest (some (flag, argument)) o
  | unrecognized ↦ rejected (unrecognized_option argument)
]

pub parse_arguments : List Bytes → Parsed
parse_arguments argv = parse_loop argv none default_options
