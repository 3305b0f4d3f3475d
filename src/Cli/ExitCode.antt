-- ===== src/Cli/ExitCode.antt =====
-- The exit code of `run` of src/cli/main.cpp.
use netprobe_cpp.Base.{◌≡◌, ◌↔◌, Bool, true, Option, ◌&&◌, not, Bytes}
use netprobe_cpp.Packet.{ParsedPacket}
use netprobe_cpp.Protocol.Network.{Inet}
use netprobe_cpp.Quic.Keys.{CryptoLibrary}
use netprobe_cpp.AnalysisSession
use netprobe_cpp.AnalysisSession.{Session}
use netprobe_cpp.Cli.{ExitStatus, exit_code, System}
use netprobe_cpp.Cli.Options.{Options, is_set, validate}
use netprobe_cpp.Cli.Arguments.{Parsed, rejected, accepted}
use netprobe_cpp.Cli.Live.{Analysis, is_ended}

-- The arguments were refused, or ask for a run with options that are refused.
pub is_misuse : Parsed → Bool
is_misuse (rejected r) = true
is_misuse (accepted o) = not o.show_help && not o.show_version && is_set (validate o)

-- On every adapter, and with all options, a stop is requested at some time.
abbrev pub Stops : System → Type 0
Stops system = (o : Options) (name : Bytes) → is_ended o (system.capture name).rounds ≡ true

module _ (net : Inet) (lib : CryptoLibrary) (lookup : ParsedPacket → Bytes) where
  abbrev AnyResult : Option Analysis → Type 0
  AnyResult r = Unit

  IsUsage : Bool → ExitStatus → Type 0
  IsUsage misuse status = (exit_code status ≡ 1) ↔ (misuse ≡ true)
