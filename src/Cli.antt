-- ===== src/Cli.antt =====
-- src/cli/main.cpp: `run`, from the arguments to the exit code. The adapters of the system, the
-- capture, the clock and the writing of the output are a record of what they answer.
pub mod Options
pub mod Arguments
pub mod Live
pub mod ExitCode
use netprobe_cpp.Base.{
  ℕ, Bool, true, false, Option, none, some, ◌&&◌, if◌then◌else◌, List, [], Bytes, is_empty, ℤ,
  Outcome, done, ◌>>=◌,
}
use netprobe_cpp.Packet.{ParsedPacket}
use netprobe_cpp.Protocol.Network.{Inet}
use netprobe_cpp.Quic.Keys.{CryptoLibrary}
use netprobe_cpp.PacketQueue
use netprobe_cpp.Flow.State.{Flow}
use netprobe_cpp.AnalysisSession
use netprobe_cpp.FlowExporter.Rows.{write_csv}
use netprobe_cpp.GeoIpResolver.{GeoInfo}
use netprobe_cpp.FlowExporter.Document.{write_json}
use netprobe_cpp.CaptureEngine.{CaptureFile, replay_file}
use netprobe_cpp.Cli.Options.{OutputFormat, json, csv, Complaint, validate, resolve_format}
use netprobe_cpp.Cli.Arguments.{Parsed, rejected, accepted, parse_arguments}
use netprobe_cpp.Cli.Live.{Analysis, Capture, run_live, run_offline}

-- `kExitSuccess`, `kExitUsage` and `kExitRuntime`.
pub data ExitStatus : Type 0 where
  success usage runtime : ExitStatus

unfoldable pub exit_code : ExitStatus → ℕ
exit_code success = 0
exit_code usage = 1
exit_code runtime = 2

-- What the system answers: the names of its adapters, what a capture on one delivers, what a file
-- holds, the time at the end and at the export, the text of a `double`, and whether a text could be written to a path.
pub record System : Type 0 where
  pub devices : List Bytes
  pub capture : Bytes → Capture
  pub file : Bytes → CaptureFile
  pub now : ℤ
  pub export_time : ℤ
  pub format_float : ℕ → ℕ → ℕ → Bytes
  pub version : Bytes
  pub writes : Bytes → Bytes → Bool

pub list_devices : List Bytes → ExitStatus
list_devices devices = if is_empty devices then runtime else success

-- `PacketQueue` by default.
abbrev pub queue_capacity : ℕ
queue_capacity = 50000

pub new_analysis : Options.Options → Analysis
new_analysis o = record {
  queue = PacketQueue.make queue_capacity;
  session = AnalysisSession.make (o.resolve_processes && is_empty o.read_path);
  packets_analyzed = 0;
}

-- `run` passes no resolver of addresses to the exporter.
pub no_geo : Bytes → GeoInfo
no_geo ip = record { country = []; asn = 0; organization = [] }

-- The text that `writeOutput` writes.
pub output_text : System → OutputFormat → List (Flow × ℕ) → Bytes
output_text system csv flows =
    write_csv (record { format_float = system.format_float; lookup_geo = no_geo }) flows
output_text system json flows =
    write_json system.version system.export_time
      (record { format_float = system.format_float; lookup_geo = no_geo }) flows

-- What `run` does with the flows, or with the failure of the capture.
pub finish : System → Options.Options → Option Analysis → ExitStatus
finish system o none = runtime
finish system o (some a) =
    let flows = AnalysisSession.snapshot a.session system.now in
    if system.writes o.output_path (output_text system (resolve_format o) flows)
    then success
    else runtime

module _ (net : Inet) (lib : CryptoLibrary) (lookup : ParsedPacket → Bytes) where
  pub run_capture : System → Options.Options → Outcome ExitStatus
  run_capture system o = do
    captured ←
        (if is_empty o.read_path
          then run_live net lib lookup o (system.capture o.device) (new_analysis o)
          else run_offline net lib lookup (replay_file (system.file o.read_path)) (new_analysis o))
    done (finish system o captured)

  pub run_valid : System → Options.Options → Option Complaint → Outcome ExitStatus
  run_valid system o (some complaint) = done usage
  run_valid system o none =
      if o.list_devices then done (list_devices system.devices) else run_capture system o

  pub run_parsed : System → Parsed → Outcome ExitStatus
  run_parsed system (rejected r) = done usage
  run_parsed system (accepted o) =
      if o.show_help
      then done success
      else if o.show_version
      then done success
      else run_valid system o (validate o)

  pub run : System → List Bytes → Outcome ExitStatus
  run system argv = run_parsed system (parse_arguments argv)
