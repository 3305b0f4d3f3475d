-- ===== src/Cli/Arguments/Values.antt =====
-- The values of options as text, against `parseArguments` of src/cli/main.cpp.
use netprobe_cpp.Base.{
  ℕ, zero, suc, ◌-◌, ◌^◌, ◌≤◌, ◌<◌, ◌≡◌, refl, ap, arith, Bool, true, false, Option, none, some,
  pos, if◌then◌else◌, List, [], ◌∷◌, Bytes, codes, text_eq, is_empty, to_string, all_digits,
  is_digit, digits_value, to_string-digits,
}
use netprobe_cpp.Cli.Options.{OutputFormat, json, csv, Options}
use netprobe_cpp.Cli.Arguments.{
  Flag, read_flag, device_flag, filter_flag, output_flag, format_flag, duration_flag,
  packet_count_flag, takes, accepted, and_then, digits_up_to, parse_unsigned, as_positive,
  parse_int, kind_of, set_format, set_duration, set_packet_limit, set_value, parse_loop,
}

pub flag_text : Flag → Bytes
flag_text read_flag = codes "--read"
flag_text device_flag = codes "--device"
flag_text filter_flag = codes "--filter"
flag_text output_flag = codes "--output"
flag_text format_flag = codes "--format"
flag_text duration_flag = codes "--duration"
flag_text packet_count_flag = codes "--packet-count"

-- An option and its value, if there is one, in front of the other arguments.
pub with_flag : Flag → Bytes → List Bytes → List Bytes
with_flag flag value rest = if is_empty value then rest else flag_text flag ∷ value ∷ rest

pub with_switch : Bool → Bytes → List Bytes → List Bytes
with_switch given argument rest = if given then argument ∷ rest else rest

pub format_text : Option OutputFormat → Bytes
format_text none = []
format_text (some json) = codes "json"
format_text (some csv) = codes "csv"

pub number_text : Option ℕ → Bytes
number_text none = []
number_text (some n) = to_string n

-- The arguments that ask for these options, in front of `rest`.
unfoldable pub command_line : Options → List Bytes → List Bytes
command_line o rest = with_switch o.list_devices (codes "--list-devices") (
    with_switch (if o.resolve_processes then false else true) (codes "--no-process") (
      with_flag read_flag o.read_path (
        with_flag device_flag o.device (
          with_flag filter_flag o.bpf_filter (
            with_flag output_flag o.output_path (
              with_flag format_flag (format_text o.format) (
                with_flag duration_flag (number_text o.duration_seconds)
                  (with_flag packet_count_flag (number_text o.packet_limit) rest))))))))

-- A positive number below `bound`, if there is one.
abbrev pub IsLimit : ℕ → Option ℕ → Type 0
IsLimit bound none = Unit
IsLimit bound (some n) = (1 ≤ n) × (n < bound)

-- Options that a command line can ask for.
abbrev pub IsWritable : Options → Type 0
IsWritable o =
    (o.show_help ≡ false)
    × (o.show_version ≡ false)
    × IsLimit (2 ^ 31) o.duration_seconds
    × IsLimit (2 ^ 64) o.packet_limit

pub kind_of-flag_text : (flag : Flag) → kind_of (flag_text flag) ≡ takes flag
unfolding kind_of flag_text codes text_eq
kind_of-flag_text read_flag = refl
kind_of-flag_text device_flag = refl
kind_of-flag_text filter_flag = refl
kind_of-flag_text output_flag = refl
kind_of-flag_text format_flag = refl
kind_of-flag_text duration_flag = refl
kind_of-flag_text packet_count_flag = refl

pub parse_loop-flag :
    (flag : Flag) (value : Bytes) (rest : List Bytes) (o p : Options)
    → (is_empty value ≡ true → p ≡ o)
    → (is_empty value ≡ false → set_value flag value o ≡ accepted p)
    → parse_loop (with_flag flag value rest) none o ≡ parse_loop rest none p
unfolding parse_loop with_flag and_then is_empty
parse_loop-flag flag [] rest o p e s = rw (e refl) refl
parse_loop-flag flag (c ∷ cs) rest o p e s = rw (parse_loop, kind_of-flag_text flag, s refl) refl

-- A text of digits for a positive number has a first one, and is read back.
digits_up_to-digits :
    (bound n : ℕ) (text : Bytes)
    → 1 ≤ n
    → n ≤ bound
    → all_digits text ≡ true
    → digits_value 0 text ≡ n
    → (digits_up_to bound text ≡ some n) × (is_empty text ≡ false)
unfolding digits_up_to is_empty digits_value
digits_up_to-digits bound n [] l u d v = absurd (omega (arith, v))
digits_up_to-digits bound n (c ∷ text) l u d v = (ground arith, refl)

parse_int-digits :
    (n : ℕ) (text : Bytes)
    → 1 ≤ n
    → n < 2 ^ 31
    → all_digits text ≡ true
    → digits_value 0 text ≡ n
    → parse_int text ≡ some (pos n)
unfolding parse_int as_positive all_digits is_digit digits_value codes text_eq
parse_int-digits n [] l u d v = absurd (omega (arith, v))
parse_int-digits n (c ∷ text) l u d v =
    ground (arith, digits_up_to-digits (2 ^ 31 - 1) n (c ∷ text) l (omega arith) d v)

-- The values that are not plain texts are read back as well.
pub set_duration-number :
    (limit : Option ℕ) (o : Options)
    → IsLimit (2 ^ 31) limit
    → is_empty (number_text limit) ≡ false
    → set_value duration_flag (number_text limit) o
      ≡ accepted (record o { duration_seconds = limit })
unfolding set_value set_duration number_text is_empty
set_duration-number none o l e = absurd (ground arith)
set_duration-number (some zero) o l e = absurd (omega (arith, l.0))
set_duration-number (some (suc n)) o l e =
    let d = to_string-digits (suc n) in
    rw (parse_int-digits (suc n) (to_string (suc n)) l.0 l.1 d.0 d.1) refl

pub set_packet_limit-number :
    (limit : Option ℕ) (o : Options)
    → IsLimit (2 ^ 64) limit
    → is_empty (number_text limit) ≡ false
    → set_value packet_count_flag (number_text limit) o
      ≡ accepted (record o { packet_limit = limit })
unfolding set_value set_packet_limit number_text is_empty parse_unsigned
set_packet_limit-number none o l e = absurd (ground arith)
set_packet_limit-number (some zero) o l e = absurd (omega (arith, l.0))
set_packet_limit-number (some (suc n)) o l e =
    let d = to_string-digits (suc n) in
    rw
      ((digits_up_to-digits (2 ^ 64 - 1) (suc n) (to_string (suc n)) l.0 (omega (arith, l.1)) d.0
        d.1).0)
      refl

pub set_format-text :
    (format : Option OutputFormat) (o : Options)
    → is_empty (format_text format) ≡ false
    → set_value format_flag (format_text format) o ≡ accepted (record o { format = format })
unfolding set_value set_format format_text is_empty codes text_eq
set_format-text none o e = absurd (ground arith)
set_format-text (some json) o e = refl
set_format-text (some csv) o e = refl

-- Where there is nothing to write, there is no number.
pub number_text-none :
    (bound : ℕ) (limit : Option ℕ)
    → IsLimit bound limit
    → is_empty (number_text limit) ≡ true
    → limit ≡ none
unfolding number_text digits_value is_empty
number_text-none bound none l e = refl
number_text-none bound (some n) l e =
    let d = to_string-digits n in
    absurd (ground (arith, d, digits_up_to-digits n n (to_string n) l.0 (omega arith) d.0 d.1))

pub format_text-none :
    (format : Option OutputFormat) → is_empty (format_text format) ≡ true → format ≡ none
unfolding format_text is_empty codes
format_text-none none e = refl
format_text-none (some json) e = absurd (ground arith)
format_text-none (some csv) e = absurd (ground arith)

pub empty-nil : (text : Bytes) → is_empty text ≡ true → text ≡ []
unfolding is_empty
empty-nil [] e = refl
empty-nil (c ∷ cs) e = absurd (ground arith)

pub parse_loop-list_devices :
    (given : Bool) (rest : List Bytes) (o : Options)
    → o.list_devices ≡ false
    → parse_loop (with_switch given (codes "--list-devices") rest) none o
      ≡ parse_loop rest none (record o { list_devices = given })
unfolding parse_loop with_switch kind_of codes text_eq
parse_loop-list_devices true rest o e = refl
parse_loop-list_devices false rest o e =
    ap (λ given. parse_loop rest none (record o { list_devices = given })) e

pub parse_loop-no_process :
    (resolve : Bool) (rest : List Bytes) (o : Options)
    → o.resolve_processes ≡ true
    → parse_loop (with_switch (if resolve then false else true) (codes "--no-process") rest) none o
      ≡ parse_loop rest none (record o { resolve_processes = resolve })
unfolding parse_loop with_switch kind_of codes text_eq
parse_loop-no_process true rest o e =
    ap (λ given. parse_loop rest none (record o { resolve_processes = given })) e
parse_loop-no_process false rest o e = refl
