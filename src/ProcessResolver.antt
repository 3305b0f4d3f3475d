-- ===== src/ProcessResolver.antt =====
-- src/core/ProcessResolver.cpp on Linux. What the files of /proc hold is an argument, and so are the
-- addresses of the interfaces and the clock, in milliseconds. The maps are association lists.
pub mod ProcNet
pub mod Owner
use netprobe_cpp.Base.{
  ℕ, ◌+◌, ◌^◌, ◌%◌, ◌-◌, Bool, true, false, Option, none, some, ◌&&◌, ◌||◌, not, ltb, leb, ◌==◌,
  if◌then◌else◌, List, [], ◌∷◌, ◌++◌, Bytes, codes, text_eq, is_empty, find_entry, put_entry,
  all_digits, drop, take,
}
use netprobe_cpp.Packet.{ParsedPacket}
use netprobe_cpp.Protocol.Network.{Inet}
use netprobe_cpp.ProcessResolver.ProcNet.{SocketEntry, strtoull_decimal, append_proc_net_table}

pub record Endpoint : Type 0 where
  pub ip : Bytes
  pub port : ℕ
  pub protocol : Bytes

-- The defaulted `operator==`.
unfoldable pub endpoint_eq : Endpoint → Endpoint → Bool
endpoint_eq a b = text_eq a.ip b.ip && (a.port == b.port) && text_eq a.protocol b.protocol

pub record ProcessResolver : Type 0 where
  pub endpoint_to_pid : List (Endpoint × ℕ)
  pub pid_to_name : List (ℕ × Bytes)
  pub local_ips : List Bytes
  pub last_refresh : ℕ
  pub locals_loaded : Bool

-- What a refresh finds: the four tables, each entry of /proc with the targets of its descriptors,
-- the names of processes, and the addresses of the interfaces, as `inet_ntop` and the cut of a zone
-- leave them; none where `getifaddrs` fails.
pub record Files : Type 0 where
  pub tcp : Option (List Bytes)
  pub tcp6 : Option (List Bytes)
  pub udp : Option (List Bytes)
  pub udp6 : Option (List Bytes)
  pub processes : List (Bytes × List Bytes)
  pub process_name : ℕ → Bytes
  pub addresses : Option (List Bytes)

-- `map[key] = value`
unfoldable pub set_entry {ℓ κ} :
    {K : Type ℓ} {V : Type κ} → (K → K → Bool) → K → V → List (K × V) → List (K × V)
set_entry eq key value table = elim (find_entry eq key table) [
  | none ↦ (key, value) ∷ table
  | some old ↦ put_entry eq key value table
]

-- The inode of `socket:[<inode>]`; 0 for another target.
pub socket_inode : Bytes → ℕ
socket_inode target =
    if text_eq (take 8 target) (codes "socket:[") then strtoull_decimal (drop 8 target) else 0

pub add_sockets : ℕ → List Bytes → List (ℕ × ℕ) → List (ℕ × ℕ)
add_sockets pid [] result = result
add_sockets pid (target ∷ targets) result =
    let inode = socket_inode target in
    add_sockets pid targets
      (if inode == 0 then result else set_entry (λ a b. a == b) inode pid result)

-- `buildInodeToPidMap`
pub inode_to_pid : List (Bytes × List Bytes) → List (ℕ × ℕ) → List (ℕ × ℕ)
inode_to_pid [] result = result
inode_to_pid ((name, targets) ∷ processes) result = inode_to_pid processes (
    if not (is_empty name) && all_digits name
    then add_sockets (strtoull_decimal name % 2 ^ 32) targets result
    else result)

-- `collectInterfaceAddresses`
pub collect_interface_addresses : Option (List Bytes) → List Bytes
collect_interface_addresses none = []
collect_interface_addresses (some addresses) = codes "::1" ∷ codes "127.0.0.1" ∷ addresses

-- `refreshLocalAddresses`
pub refresh_local_addresses : Files → ProcessResolver → ProcessResolver
refresh_local_addresses files r = record r {
  local_ips = collect_interface_addresses files.addresses;
  locals_loaded = true;
}

-- `findOrResolvePidName`: a name stays once it is known.
unfoldable pub find_or_resolve : (ℕ → Bytes) → ℕ → List (ℕ × Bytes) → List (ℕ × Bytes)
find_or_resolve name pid names = elim (find_entry (λ a b. a == b) pid names) [
  | none ↦ (pid, name pid) ∷ names
  | some old ↦ names
]

unfoldable pub own : (ℕ → Bytes) → SocketEntry → Option ℕ → ProcessResolver → ProcessResolver
own name s none r = r
own name s (some pid) r = record r {
  endpoint_to_pid =
      set_entry endpoint_eq (record { ip = s.ip; port = s.port; protocol = s.protocol }) pid
        r.endpoint_to_pid;
  pid_to_name = find_or_resolve name pid r.pid_to_name;
}

-- The loop of `refreshTables` over the sockets, with the names that it resolves behind it.
unfoldable pub own_sockets :
    (ℕ → Bytes) → List (ℕ × ℕ) → List SocketEntry → ProcessResolver → ProcessResolver
own_sockets name inodes [] r = r
own_sockets name inodes (s ∷ sockets) r =
    own_sockets name inodes sockets (own name s (find_entry (λ a b. a == b) s.inode inodes) r)

unfoldable pub sockets_of : Inet → Files → List SocketEntry
sockets_of net files =
    let tcp = append_proc_net_table net [] files.tcp (codes "TCP") false in
    let tcp6 = append_proc_net_table net tcp files.tcp6 (codes "TCP") true in
    let udp = append_proc_net_table net tcp6 files.udp (codes "UDP") false in
    append_proc_net_table net udp files.udp6 (codes "UDP") true

-- `refreshTables`. Without sockets the processes are not asked for.
unfoldable pub refresh_tables : Inet → Files → ℕ → ProcessResolver → ProcessResolver
refresh_tables net files now r =
    own_sockets files.process_name (inode_to_pid files.processes []) (sockets_of net files)
      (record r { endpoint_to_pid = []; last_refresh = now })

-- The constructor
pub make : Inet → Files → ℕ → ProcessResolver
make net files now = refresh_tables net files now (
    refresh_local_addresses files (record {
      endpoint_to_pid = [];
      pid_to_name = [];
      local_ips = [];
      last_refresh = 0;
      locals_loaded = false;
    }))

pub is_local : Bytes → List Bytes → Bool
is_local ip [] = false
is_local ip (a ∷ addresses) = text_eq a ip || is_local ip addresses

pub first_pid : Option ℕ → Option ℕ → Option ℕ → Option ℕ
first_pid (some pid) v4 v6 = some pid
first_pid none (some pid) v6 = some pid
first_pid none none v6 = v6

pub name_of : ProcessResolver → Option ℕ → Bytes
name_of r none = []
name_of r (some pid) = elim (find_entry (λ a b. a == b) pid r.pid_to_name) [
  | none ↦ []
  | some name ↦ name
]

pub pid_at : ProcessResolver → Bytes → Bytes → ℕ → Option ℕ
pid_at r protocol ip port =
    find_entry endpoint_eq (record { ip = ip; port = port; protocol = protocol }) r.endpoint_to_pid

-- `tryLookup`
pub try_lookup : ProcessResolver → Bytes → Bytes → ℕ → Bytes
try_lookup r protocol ip port =
    if not (is_local ip r.local_ips)
    then []
    else name_of r (
        first_pid (pid_at r protocol ip port) (pid_at r protocol (codes "0.0.0.0") port)
          (pid_at r protocol (codes "::") port))

-- The part of `lookup` that reads the tables.
pub find_name : ProcessResolver → ParsedPacket → Bytes
find_name r p =
    let name = try_lookup r p.protocol p.src_ip p.src_port in
    if is_empty name then try_lookup r p.protocol p.dst_ip p.dst_port else name

pub refresh_if_old : Inet → Files → ℕ → ProcessResolver → ProcessResolver
refresh_if_old net files now r =
    if ltb 1500 (now - r.last_refresh)
    then refresh_tables net files now
        (if r.locals_loaded then r else refresh_local_addresses files r)
    else r

-- `lookup`
pub lookup : Inet → Files → ℕ → ProcessResolver → ParsedPacket → ProcessResolver × Bytes
lookup net files now r p =
    if not (text_eq p.protocol (codes "TCP") || text_eq p.protocol (codes "UDP"))
      || (p.src_port == 0) && (p.dst_port == 0)
    then (r, [])
    else let fresh = refresh_if_old net files now r in (fresh, find_name fresh p)
