-- ===== src/HostnameCache.antt =====
-- src/core/HostnameCache.hpp: the hostname that was last stored for an address. Each operation
-- holds the mutex for its whole body.
pub mod Lookup
use netprobe_cpp.Base.{
  Option, none, some, ◌||◌, if◌then◌else◌, List, [], ◌∷◌, Bytes, text_eq, is_empty,
}

abbrev pub Hostnames : Type 0
Hostnames = List (Bytes × Bytes)

-- `m_hostnames[ip] = hostname`.
pub assign : Bytes → Bytes → Hostnames → Hostnames
assign ip hostname [] = (ip, hostname) ∷ []
assign ip hostname ((i, h) ∷ cache) =
    let rest = assign ip hostname cache in
    if text_eq i ip then (i, hostname) ∷ cache else (i, h) ∷ rest

pub store : Hostnames → Bytes → Bytes → Hostnames
store cache ip hostname =
    if is_empty ip || is_empty hostname then cache else assign ip hostname cache

pub lookup : Hostnames → Bytes → Option Bytes
lookup [] ip = none
lookup ((i, h) ∷ cache) ip = if text_eq i ip then some h else lookup cache ip

unfoldable pub clear : Hostnames → Hostnames
clear cache = []
