-- ===== src/Cli/Arguments/RoundTrip.antt =====
-- Command lines against `parseArguments` of src/cli/main.cpp.
use netprobe_cpp.Base.{◌^◌, ◌≡◌, refl, sym, ap, ◌∙◌, none, List, [], ◌∷◌, Bytes}
use netprobe_cpp.Cli.Options.{Options, default_options}
use netprobe_cpp.Cli.Arguments.{
  Flag, read_flag, device_flag, filter_flag, output_flag, format_flag, duration_flag,
  packet_count_flag, takes, unrecognized, accepted, rejected, requires_value, unrecognized_option,
  kind_of, set_value, parse_loop, parse_arguments,
}
use netprobe_cpp.Cli.Arguments.Values.{
  format_text, number_text, command_line, IsWritable, set_duration-number, set_packet_limit-number,
  set_format-text, number_text-none, format_text-none, empty-nil, parse_loop-list_devices,
  parse_loop-no_process, parse_loop-flag,
}

parse_loop-command_line :
    (o : Options) (rest : List Bytes)
    → IsWritable o
    → parse_loop (command_line o rest) none default_options ≡ parse_loop rest none o
unfolding command_line default_options set_value
parse_loop-command_line o rest (h, v, duration, limit) =
    let o1 = record default_options { list_devices = o.list_devices } in
    let o2 = record o1 { resolve_processes = o.resolve_processes } in
    let o3 = record o2 { read_path = o.read_path } in
    let o4 = record o3 { device = o.device } in
    let o5 = record o4 { bpf_filter = o.bpf_filter } in
    let o6 = record o5 { output_path = o.output_path } in
    let o7 = record o6 { format = o.format } in
    let o8 = record o7 { duration_seconds = o.duration_seconds } in
    let o9 = record o8 { packet_limit = o.packet_limit } in
    parse_loop-list_devices o.list_devices _ default_options refl
    ∙ parse_loop-no_process o.resolve_processes _ o1 refl
    ∙ parse_loop-flag read_flag o.read_path _ o2 o3
        (λ e. ap (λ t. record o2 { read_path = t }) (empty-nil o.read_path e)) (λ _. refl)
    ∙ parse_loop-flag device_flag o.device _ o3 o4
        (λ e. ap (λ t. record o3 { device = t }) (empty-nil o.device e)) (λ _. refl)
    ∙ parse_loop-flag filter_flag o.bpf_filter _ o4 o5
        (λ e. ap (λ t. record o4 { bpf_filter = t }) (empty-nil o.bpf_filter e)) (λ _. refl)
    ∙ parse_loop-flag output_flag o.output_path _ o5 o6
        (λ e. ap (λ t. record o5 { output_path = t }) (empty-nil o.output_path e)) (λ _. refl)
    ∙ parse_loop-flag format_flag (format_text o.format) _ o6 o7
        (λ e. ap (λ f. record o6 { format = f }) (format_text-none o.format e))
        (set_format-text o.format o6)
    ∙ parse_loop-flag duration_flag (number_text o.duration_seconds) _ o7 o8
        (λ e.
          ap (λ n. record o7 { duration_seconds = n })
            (number_text-none (2 ^ 31) o.duration_seconds duration e))
        (set_duration-number o.duration_seconds o7 duration)
    ∙ parse_loop-flag packet_count_flag (number_text o.packet_limit) rest o8 o9
        (λ e.
          ap (λ n. record o8 { packet_limit = n })
            (number_text-none (2 ^ 64) o.packet_limit limit e))
        (set_packet_limit-number o.packet_limit o8 limit)
    ∙ ap (λ s. parse_loop rest none (record o9 { show_help = s })) (sym h)
    ∙ ap (λ s. parse_loop rest none (record o { show_version = s })) (sym v)

-- Options whose duration and packet limit, where they are given, are positive and fit their types,
-- and that ask neither for help nor for the version: the arguments that stand for them are parsed
-- as exactly these options.
pub parse_arguments-command_line :
    (o : Options) → IsWritable o → parse_arguments (command_line o []) ≡ accepted o
unfolding parse_arguments parse_loop
parse_arguments-command_line o w = parse_loop-command_line o [] w

-- Behind the arguments that stand for such options, an argument that takes a value and is the last
-- one is refused for its missing value.
pub parse_arguments-missing_value :
    (o : Options) (argument : Bytes) (flag : Flag)
    → IsWritable o
    → kind_of argument ≡ takes flag
    → parse_arguments (command_line o (argument ∷ [])) ≡ rejected (requires_value argument)
unfolding parse_arguments parse_loop
parse_arguments-missing_value o argument flag w k =
    parse_loop-command_line o (argument ∷ []) w ∙ rw (parse_loop, k) refl

-- Behind the arguments that stand for such options, an argument that is no option is refused,
-- whatever follows it.
pub parse_arguments-unrecognized :
    (o : Options) (argument : Bytes) (rest : List Bytes)
    → IsWritable o
    → kind_of argument ≡ unrecognized
    → parse_arguments (command_line o (argument ∷ rest)) ≡ rejected (unrecognized_option argument)
unfolding parse_arguments parse_loop
parse_arguments-unrecognized o argument rest w k =
    parse_loop-command_line o (argument ∷ rest) w ∙ rw (parse_loop, k) refl
