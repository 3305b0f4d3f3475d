-- ===== src/Tests/Commands.antt =====
-- The command line program at concrete arguments and captures.
use netprobe_cpp.Base.{
  ◌≡◌, ◌⊎◌, ◌↔◌, ◌&&◌, not, refl, arith, true, false, none, some, [], ◌∷◌, Bytes, codes, pos,
  Ensures, IfSome,
}
use netprobe_cpp.LinkType.{ethernet}
use netprobe_cpp.Packet.{ParsedPacket}
use netprobe_cpp.Protocol.Parse.{is_unsupported}
use netprobe_cpp.PacketQueue
use netprobe_cpp.AnalysisSession.{make}
use netprobe_cpp.CaptureEngine.Backend.{packet, timeout, end_of_file}
use netprobe_cpp.CaptureEngine.{CaptureFile, replay_file}
use netprobe_cpp.Cli.{System}
use netprobe_cpp.Cli.Options.{Options, is_set, default_options, validate, csv}
use netprobe_cpp.Cli.Options.Valid.{IsComplete, validate_iff}
use netprobe_cpp.Cli.Arguments.{accepted, parse_arguments}
use netprobe_cpp.Cli.Arguments.Values.{command_line}
use netprobe_cpp.Cli.Arguments.RoundTrip.{parse_arguments-command_line}
use netprobe_cpp.Cli.Live.{Capture, is_ended, run_live, run_offline}
use netprobe_cpp.Cli.Live.Bounds.{IsRunOf, run_live-IsRunOf}
use netprobe_cpp.Cli.Live.Offline.{IsResult, ends, somes, run_offline-IsResult}
use netprobe_cpp.Tests.Data.{plain_inet, zero_crypto, zero_crypto-BlockSized, captured}

-- A minute on an adapter, or a hundred packets, as CSV.
abbrev minute : Options
minute = record default_options {
  device = 101 ∷ 110 ∷ 48 ∷ [];
  output_path = 45 ∷ [];
  format = some csv;
  duration_seconds = some 60;
  packet_limit = some 100;
}

parse_arguments-command_line_example : parse_arguments (command_line minute []) ≡ accepted minute
unfolding default_options
parse_arguments-command_line_example =
    parse_arguments-command_line minute
      (refl, refl, (omega arith, omega arith), (omega arith, omega arith))

validate_iff_example : (validate minute ≡ none) ↔ ((minute.list_devices ≡ true) ⊎ IsComplete minute)
validate_iff_example = validate_iff minute

abbrev one_round : Capture
one_round = record {
  opens = true;
  accepts_filter = true;
  rounds =
      record { stopped = false; expired = false; arrivals = captured ∷ captured ∷ [] }
      ∷ record { stopped = true; expired = false; arrivals = [] }
      ∷ [];
  late = captured ∷ [];
}

-- No packet belongs to a process.
abbrev unowned : ParsedPacket → Bytes
unowned p = []

run_live-IsRunOf_example :
    Ensures (IfSome (IsRunOf plain_inet zero_crypto unowned (make true) (some 100) one_round)) (
      run_live plain_inet zero_crypto unowned minute one_round
        (record { queue = PacketQueue.make 2; session = make true; packets_analyzed = 0 }))
unfolding make default_options is_ended is_set
run_live-IsRunOf_example =
    run_live-IsRunOf plain_inet zero_crypto unowned (make true) minute one_round 2
      zero_crypto-BlockSized ((omega arith, tt), (omega arith, tt)) refl

abbrev recorded : CaptureFile
recorded = record {
  opens = true;
  link_type = ethernet;
  reads = packet captured ∷ timeout ∷ packet captured ∷ end_of_file ∷ [];
}

run_offline-IsResult_example :
    Ensures
      (IsResult plain_inet zero_crypto unowned
        (true && not (is_unsupported ethernet))
        (ends [])
        (make false)
        (somes (some captured ∷ none ∷ some captured ∷ [])))
      (run_offline plain_inet zero_crypto unowned
        (replay_file recorded)
        (record { queue = PacketQueue.make 2; session = make false; packets_analyzed = 0 }))
unfolding make
run_offline-IsResult_example =
    run_offline-IsResult plain_inet zero_crypto unowned (make false) true ethernet
      (some captured ∷ none ∷ some captured ∷ []) (ends []) (PacketQueue.make 2)
      zero_crypto-BlockSized ((omega arith, tt), (omega arith, tt))

abbrev one_adapter : System
one_adapter = record {
  devices = minute.device ∷ [];
  capture = λ name. one_round;
  file = λ path. recorded;
  now = pos 9;
  export_time = pos 10;
  format_float = λ n d precision. [];
  version = codes "1.0";
  writes = λ path text. true;
}
