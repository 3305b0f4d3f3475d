-- ===== src/Cli/Options.antt =====
-- src/cli/main.cpp: `Options`, `validate` and `resolveFormat`.
pub mod Valid
use netprobe_cpp.Base.{
  ℕ, ◌-◌, Bool, true, false, Option, none, some, ◌&&◌, ◌||◌, not, leb, if◌then◌else◌, [], Bytes,
  codes, text_eq, length, is_empty, drop,
}

pub data OutputFormat : Type 0 where
  json csv : OutputFormat

pub record Options : Type 0 where
  pub list_devices : Bool
  pub show_help : Bool
  pub show_version : Bool
  pub read_path : Bytes
  pub device : Bytes
  pub bpf_filter : Bytes
  pub output_path : Bytes
  pub format : Option OutputFormat
  pub duration_seconds : Option ℕ
  pub packet_limit : Option ℕ
  pub resolve_processes : Bool

unfoldable pub default_options : Options
default_options = record {
  list_devices = false;
  show_help = false;
  show_version = false;
  read_path = [];
  device = [];
  bpf_filter = [];
  output_path = [];
  format = none;
  duration_seconds = none;
  packet_limit = none;
  resolve_processes = true;
}

unfoldable pub is_set {ℓ} : {A : Type ℓ} → Option A → Bool
is_set none = false
is_set (some a) = true

-- The messages of `validate`.
pub data Complaint : Type 0 where
  nothing_to_do exclusive_sources no_destination limits_need_live filter_needs_live : Complaint

-- `none` where `validate` returns true.
pub validate : Options → Option Complaint
validate o =
    let has_file = not (is_empty o.read_path) in
    let has_device = not (is_empty o.device) in
    if o.list_devices
    then none
    else if not has_file && not has_device
    then some nothing_to_do
    else if has_file && has_device
    then some exclusive_sources
    else if is_empty o.output_path
    then some no_destination
    else if has_file && (is_set o.duration_seconds || is_set o.packet_limit)
    then some limits_need_live
    else if has_file && not (is_empty o.bpf_filter)
    then some filter_needs_live
    else none

pub ends_with : Bytes → Bytes → Bool
ends_with value suffix =
    leb (length suffix) (length value) && text_eq (drop (length value - length suffix) value) suffix

pub format_of_path : Option OutputFormat → Bytes → OutputFormat
format_of_path (some f) path = f
format_of_path none path = if ends_with path (codes ".csv") then csv else json

pub resolve_format : Options → OutputFormat
resolve_format o = format_of_path o.format o.output_path
