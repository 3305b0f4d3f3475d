-- ===== src/Ui/FlowTable.antt =====
-- src/ui/FlowsView.cpp, `sortFlowsCache`: the order of the rows of the flow table. A row is a flow
-- with the bytes of its last second, to which its rate is proportional. A quotient of `double`s is
-- an argument, `percent`, which gives the rank of 100 * n / m among them.
pub mod Comparisons
pub mod Order
use netprobe_cpp.Base.{
  ℕ, ◌+◌, ◌-◌, ◌%◌, ◌^◌, Bool, true, false, Option, none, some, ◌&&◌, ◌||◌, not, ltb, ◌==◌,
  if◌then◌else◌, List, Bytes, codes, text_eq, text_le, is_empty, find_entry, ℤ, pos, ltb_ℤ, ◌-ℤ◌,
}
use netprobe_cpp.GeoIpResolver.{GeoInfo, no_info, organization_label}
use netprobe_cpp.Flow.Key.{FlowKey}
use netprobe_cpp.Flow.State.{Flow}

abbrev pub Row : Type 0
Row = Flow × ℕ

-- The sign of the `int` that compares.
pub data Comparison : Type 0 where
  less : Comparison
  same : Comparison
  greater : Comparison

-- `l < r ? -1 : l > r ? 1 : 0`
unfoldable pub three_way : Bool → Bool → Comparison
three_way l_first r_first = if l_first then less else if r_first then greater else same

unfoldable pub compare_ℕ : ℕ → ℕ → Comparison
compare_ℕ l r = three_way (ltb l r) (ltb r l)

unfoldable pub compare_ℤ : ℤ → ℤ → Comparison
compare_ℤ l r = three_way (ltb_ℤ l r) (ltb_ℤ r l)

-- `std::string::compare`
unfoldable pub compare_text : Bytes → Bytes → Comparison
compare_text l r = three_way (not (text_le r l)) (not (text_le l r))

-- `<` of `std::tie(protocol, dstPort)`
unfoldable pub service_first : FlowKey → FlowKey → Bool
service_first l r =
    not (text_le r.protocol l.protocol)
    || (text_le l.protocol r.protocol && ltb l.dst_port r.dst_port)

pub host_of : Row → Bytes
host_of row = if is_empty row.0.hostname then row.0.key.dst_ip else row.0.hostname

info_or : Option GeoInfo → GeoInfo
info_or none = no_info
info_or (some info) = info

-- `geoFor`
pub geo_for : List (Bytes × GeoInfo) → Row → GeoInfo
geo_for cache row = info_or (find_entry text_eq row.0.key.dst_ip cache)

pub country_of : GeoInfo → Bytes
country_of info = if is_empty info.country then codes "-" else info.country

pub bytes_of : Row → ℕ
bytes_of row = (row.0.bytes_up + row.0.bytes_down) % 2 ^ 64

pub retransmissions_of : Row → ℕ
retransmissions_of row = (row.0.retransmissions_up + row.0.retransmissions_down) % 2 ^ 64

pub retransmission_rate_of : (ℕ → ℕ → ℕ) → Row → ℕ
retransmission_rate_of percent row =
    if row.0.packets == 0 then 0 else percent (retransmissions_of row) row.0.packets

-- An unknown round trip, 0, counts as the longest.
pub known_rtt : Row → ℤ
known_rtt row =
    if not (ltb_ℤ row.0.initial_rtt_microseconds (pos 0))
      && not (ltb_ℤ (pos 0) row.0.initial_rtt_microseconds)
    then pos (2 ^ 63 - 1)
    else row.0.initial_rtt_microseconds

pub duration_of : Row → ℤ
duration_of row = row.0.last_seen -ℤ row.0.first_seen

-- The `switch` on the column.
unfoldable pub compare_column : List (Bytes × GeoInfo) → (ℕ → ℕ → ℕ) → ℕ → Row → Row → Comparison
compare_column geo percent column l r =
    if column == 0
    then compare_text (host_of l) (host_of r)
    else if column == 1
    then compare_text (country_of (geo_for geo l)) (country_of (geo_for geo r))
    else if column == 2
    then compare_text (organization_label (geo_for geo l)) (organization_label (geo_for geo r))
    else if column == 3
    then compare_text l.0.service r.0.service
    else if column == 4
    then three_way (service_first l.0.key r.0.key) (service_first r.0.key l.0.key)
    else if column == 5
    then compare_ℕ l.0.packets r.0.packets
    else if column == 6
    then compare_ℕ (bytes_of l) (bytes_of r)
    else if column == 7
    then compare_ℕ l.1 r.1
    else if column == 8
    then compare_ℤ (known_rtt l) (known_rtt r)
    else if column == 9
    then compare_ℕ (retransmission_rate_of percent l) (retransmission_rate_of percent r)
    else if column == 10
    then compare_ℤ (duration_of l) (duration_of r)
    else if column == 11
    then compare_text l.0.process r.0.process
    else same

-- `if (comparison == 0) comparison = ...`
unfoldable pub or_else : Comparison → Comparison → Comparison
or_else less d = less
or_else same d = d
or_else greater d = greater

unfoldable pub comes_first : Bool → Comparison → Bool
comes_first ascending less = ascending
comes_first ascending same = false
comes_first ascending greater = not ascending

-- `compareFlows`
unfoldable pub compare_flows : List (Bytes × GeoInfo) → (ℕ → ℕ → ℕ) → ℕ → Bool → Row → Row → Bool
compare_flows geo percent column ascending l r =
    comes_first ascending
      (or_else (compare_column geo percent column l r) (compare_text (host_of l) (host_of r)))
