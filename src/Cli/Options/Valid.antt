-- ===== src/Cli/Options/Valid.antt =====
-- The combinations of options that `validate` of src/cli/main.cpp lets through.
use netprobe_cpp.Base.{true, false, none, ◌≡◌, ◌⊎◌, ◌↔◌, arith, is_empty}
use netprobe_cpp.Cli.Options.{Options, is_set, validate}

-- One source and a destination, and with a file neither a limit nor a filter.
pub IsComplete : Options → Type 0
IsComplete o =
    (is_empty o.output_path ≡ false)
    × ((is_empty o.read_path ≡ true) × (is_empty o.device ≡ false)
        ⊎ (is_empty o.read_path ≡ false)
          × (is_empty o.device ≡ true)
          × (is_set o.duration_seconds ≡ false)
          × (is_set o.packet_limit ≡ false)
          × (is_empty o.bpf_filter ≡ true))

-- `validate` accepts the options exactly where they ask for the list of devices, or name one
-- source and a destination and have neither a limit nor a filter beside a file.
pub validate_iff : (o : Options) → (validate o ≡ none) ↔ ((o.list_devices ≡ true) ⊎ IsComplete o)
unfolding validate IsComplete
validate_iff o = (λ h. ground arith, λ h. ground arith)
