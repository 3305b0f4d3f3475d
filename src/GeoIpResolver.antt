-- ===== src/GeoIpResolver.antt =====
-- src/core/GeoIPResolver.hpp and GeoIPResolver.cpp: the lookup of an address in two databases, with
-- a cache of the latest answers. The databases, which libmaxminddb reads, are an argument.
pub mod Entries
pub mod Cached
use netprobe_cpp.Base.{
  ℕ, ◌+◌, Bool, true, false, Option, none, some, ◌&&◌, ◌||◌, not, ltb, ◌==◌, if◌then◌else◌, List,
  [], ◌∷◌, ◌++◌, Bytes, codes, length, text_eq, is_empty, to_string, find_entry, erase_entry,
  Outcome, done, fault,
}

-- `GeoIPInfo`
pub record GeoInfo : Type 0 where
  pub country : Bytes
  pub asn : ℕ
  pub organization : Bytes

unfoldable pub organization_label : GeoInfo → Bytes
organization_label info =
    if is_empty info.organization
    then codes "-"
    else if info.asn == 0
    then info.organization
    else codes "AS" ++ (to_string info.asn ++ (codes " " ++ info.organization))

-- What the two databases hold of an address: `none` where the lookup fails or finds no entry.
-- A value that an entry lacks is empty or 0.
pub record Database : Type 0 where
  pub country_open : Bool
  pub asn_open : Bool
  pub country_entry : Bytes → Option Bytes
  pub asn_entry : Bytes → Option (ℕ × Bytes)

abbrev pub no_info : GeoInfo
no_info = record { country = []; asn = 0; organization = [] }

pub add_country : Option Bytes → GeoInfo → GeoInfo
add_country none info = info
add_country (some code) info = record info { country = code }

pub add_asn : Option (ℕ × Bytes) → GeoInfo → GeoInfo
add_asn none info = info
add_asn (some (number, owner)) info = record info { asn = number; organization = owner }

-- The part of `lookup` that asks the databases.
pub query : Database → Bytes → GeoInfo
query d ip =
    let named = if d.country_open then add_country (d.country_entry ip) no_info else no_info in
    if d.asn_open then add_asn (d.asn_entry ip) named else named

-- The head of `cache` is the entry that was used last. `cache_index` tells which addresses have an
-- iterator, which is that of their entry.
pub record Resolver : Type 0 where
  pub database : Database
  pub cache_capacity : ℕ
  pub cache : List (Bytes × GeoInfo)
  pub cache_index : Bytes → Bool

pub make : Database → ℕ → Resolver
make d capacity = record {
  database = d;
  cache_capacity = if ltb 0 capacity then capacity else 1;
  cache = [];
  cache_index = λ ip. false;
}

-- The last entry of a list, by its first one and the others, and the list without it.
pub last_entry : Bytes × GeoInfo → List (Bytes × GeoInfo) → Bytes × GeoInfo
last_entry e [] = e
last_entry e (f ∷ rest) = last_entry f rest

pub drop_last : Bytes × GeoInfo → List (Bytes × GeoInfo) → List (Bytes × GeoInfo)
drop_last e [] = []
drop_last e (f ∷ rest) = e ∷ drop_last f rest

-- The entry of an address moves to the front. An iterator of no entry would be a fault.
pub hit : Resolver → Bytes → Option GeoInfo → Outcome (Resolver × GeoInfo)
hit r ip none = fault
hit r ip (some info) = done (record r { cache = (ip, info) ∷ erase_entry text_eq ip r.cache }, info)

-- A new entry at the front, and a cache that has grown too long loses its last one.
pub insert_front : Resolver → Bytes → GeoInfo → Resolver
insert_front r ip info =
    let index = λ (other : Bytes). text_eq other ip || r.cache_index other in
    let last = (last_entry (ip, info) r.cache).0 in
    if ltb r.cache_capacity (length r.cache + 1)
    then record r {
      cache = drop_last (ip, info) r.cache;
      cache_index = λ other. not (text_eq other last) && index other;
    }
    else record r { cache = (ip, info) ∷ r.cache; cache_index = index }

pub miss : Resolver → Bytes → Resolver × GeoInfo
miss r ip = let info = query r.database ip in (insert_front r ip info, info)

pub lookup : Resolver → Bytes → Outcome (Resolver × GeoInfo)
lookup r ip =
    if is_empty ip
    then done (r, no_info)
    else if r.cache_index ip
    then hit r ip (find_entry text_eq ip r.cache)
    else done (miss r ip)

pub is_available : Resolver → Bool
is_available r = r.database.country_open || r.database.asn_open
