-- ===== src/Tests/Processes.antt =====
-- The socket tables of Linux at concrete lines.
use netprobe_cpp.Base.{
  ℕ, ◌≡◌, refl, arith, false, none, some, List, [], ◌∷◌, Bytes, codes, is_empty, find_entry,
}
use netprobe_cpp.ProcessResolver.{
  Endpoint, endpoint_eq, Files, make, inode_to_pid, sockets_of, refresh_tables,
}
use netprobe_cpp.ProcessResolver.ProcNet.{is_space, parse_line}
use netprobe_cpp.ProcessResolver.ProcNet.RoundTrip.{
  kernel_line, kernel_local, socket_at, parse_line-kernel_line,
}
use netprobe_cpp.ProcessResolver.ProcNet.Words.{is_word, has_no}
use netprobe_cpp.ProcessResolver.Owner.{last_owner, refresh_tables-last_owner}
use netprobe_cpp.Tests.Data.{plain_inet}

-- The columns between the local address and the inode, as in /proc/net/tcp.
abbrev columns : List (ℕ × Bytes)
columns =
    (0, codes "00000000:0000")
    ∷ (0, codes "0A")
    ∷ (0, codes "00000000:00000000")
    ∷ (0, codes "00:00000000")
    ∷ (0, codes "00000000")
    ∷ (2, codes "1000")
    ∷ (8, codes "0")
    ∷ []

parse_line-kernel_line_example :
    parse_line plain_inet false (codes "TCP") (
      kernel_line
        (3, codes "0:")
        (0, kernel_local 127 0 0 1 8080)
        columns
        (0, 12345)
        ((0, codes "1") ∷ [])
        21)
    ≡ socket_at (plain_inet.ntop4 (127 ∷ 0 ∷ 0 ∷ 1 ∷ [])) 8080 (codes "TCP") 12345
unfolding codes is_word has_no is_space is_empty
parse_line-kernel_line_example =
    parse_line-kernel_line plain_inet (codes "TCP") (codes "0:") 127 0 0 1 8080 12345 columns
      ((0, codes "1") ∷ []) 3 0 0 21 (omega arith) (omega arith) (omega arith) (omega arith)
      (omega arith) (omega arith) (omega arith) refl refl
      (refl, (refl, (refl, (refl, (refl, (refl, (refl, tt))))))) (refl, tt)

-- One TCP socket, which the process 7 holds.
abbrev files : Files
files = record {
  tcp =
      some
        (codes "header" ∷ codes "0: 0100007F:1F90 00000000:0000 0A 0:0 0:0 0 1000 0 12345 1" ∷ []);
  tcp6 = none;
  udp = none;
  udp6 = none;
  processes = (codes "7", codes "socket:[12345]" ∷ []) ∷ [];
  process_name = λ pid. codes "httpd";
  addresses = some [];
}

abbrev web_endpoint : Endpoint
web_endpoint = record { ip = 127 ∷ 0 ∷ 0 ∷ 1 ∷ []; port = 8080; protocol = codes "TCP" }

refresh_tables-last_owner_example :
    find_entry endpoint_eq web_endpoint
      (refresh_tables plain_inet files 9 (make plain_inet files 1)).endpoint_to_pid
    ≡ last_owner (inode_to_pid files.processes []) web_endpoint (sockets_of plain_inet files)
refresh_tables-last_owner_example =
    refresh_tables-last_owner plain_inet files 9 (make plain_inet files 1) web_endpoint
