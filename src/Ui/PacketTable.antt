-- ===== src/Ui/PacketTable.antt =====
-- src/ui/PacketView.cpp: the display filter and the rows of the table.
pub mod Filter
pub mod Cached
pub mod Rows
use netprobe_cpp.Base.{
  ℕ, zero, suc, ◌+◌, Bool, true, false, Option, none, some, ◌&&◌, ◌||◌, not, ltb, ◌==◌,
  if◌then◌else◌, List, [], ◌∷◌, ◌++◌, map, length, Bytes, codes, text_eq, is_empty, to_string,
  to_lower,
}
use netprobe_cpp.Packet.{ParsedPacket}
use netprobe_cpp.Flow.Key.{FlowKey, matches}
use netprobe_cpp.AnalysisSession.{Session, lookup_hostname}
use netprobe_cpp.Ui.View.{PacketRecord, View}

-- The inner loop of `containsCI`: the needle stands at the front.
unfoldable pub starts_ci : Bytes → Bytes → Bool
starts_ci haystack [] = true
starts_ci [] (n ∷ needle) = false
starts_ci (h ∷ haystack) (n ∷ needle) = (to_lower h == n) && starts_ci haystack needle

-- Its outer loop.
unfoldable pub search_ci : Bytes → Bytes → Bool
search_ci [] needle = starts_ci [] needle
search_ci (h ∷ haystack) needle = starts_ci (h ∷ haystack) needle || search_ci haystack needle

-- `containsCI`
unfoldable pub contains_ci : Bytes → Bytes → Bool
contains_ci haystack needle_lower =
    if is_empty needle_lower
    then true
    else if ltb (length haystack) (length needle_lower)
    then false
    else search_ci haystack needle_lower

unfoldable pub contains_in : Option Bytes → Bytes → Bool
contains_in none needle = false
contains_in (some hostname) needle = contains_ci hostname needle

-- `packetMatchesDisplayFilter`
unfoldable pub packet_matches_display_filter : Session → ParsedPacket → Bytes → Bool
packet_matches_display_filter s p needle =
    is_empty needle
    || contains_ci p.src_ip needle
    || contains_ci p.dst_ip needle
    || contains_ci p.protocol needle
    || contains_ci p.service needle
    || contains_ci p.sni needle
    || contains_ci p.hostname needle
    || contains_ci p.info needle
    || contains_ci p.tunnel needle
    || (not (p.src_port == 0) && contains_ci (to_string p.src_port) needle)
    || (not (p.dst_port == 0) && contains_ci (to_string p.dst_port) needle)
    || contains_in (lookup_hostname s p.dst_ip) needle

-- What tells one filter from another.
pub flow_signature : Option FlowKey → Bytes
flow_signature none = []
flow_signature (some key) =
    codes "\u{1f}"
    ++ key.src_ip
    ++ codes "|"
    ++ to_string key.src_port
    ++ codes "|"
    ++ key.dst_ip
    ++ codes "|"
    ++ to_string key.dst_port
    ++ codes "|"
    ++ key.protocol

pub signature : View → Bytes
signature v = v.display_filter ++ flow_signature v.packet_flow_filter

unfoldable pub matches_flow : Option FlowKey → ParsedPacket → Bool
matches_flow none p = true
matches_flow (some key) p = matches p key

-- The test of one packet in the loop of `renderPacketTable`.
unfoldable pub is_shown : View → ParsedPacket → Bool
is_shown v p =
    matches_flow v.packet_flow_filter p
    && (is_empty v.display_filter
        || packet_matches_display_filter v.session p (map to_lower v.display_filter))

-- The loop over the history from an index on.
unfoldable pub matching_from : View → ℕ → List PacketRecord → List ℕ
matching_from v index [] = []
matching_from v index (r ∷ records) =
    let rest = matching_from v (suc index) records in
    if is_shown v r.parsed then index ∷ rest else rest

unfoldable pub any_filter : View → Bool
any_filter v = not (is_empty v.display_filter) || not (is_none v.packet_flow_filter)
  where
    is_none : Option FlowKey → Bool
    is_none none = true
    is_none (some key) = false

-- The history or the filter has changed since the matches were found.
unfoldable pub is_stale : View → Bool
is_stale v =
    not (v.filter_cache_history_version == v.packet_history_version)
    || not (text_eq v.filter_cache_signature (signature v))

unfoldable pub find_matches : View → View
find_matches v = record v {
  filter_cache_history_version = v.packet_history_version;
  filter_cache_signature = signature v;
  filtered_packet_indexes = matching_from v 0 v.packet_history;
}

-- What `renderPacketTable` does before it draws.
unfoldable pub refresh : View → View
refresh v = if any_filter v && is_stale v then find_matches v else v

-- The indexes that a table without a filter shows.
unfoldable pub indexes_from : ℕ → List PacketRecord → List ℕ
indexes_from index [] = []
indexes_from index (r ∷ records) = index ∷ indexes_from (suc index) records

-- The index of the record of each row.
unfoldable pub rows : View → List ℕ
rows v = if any_filter v then v.filtered_packet_indexes else indexes_from 0 v.packet_history
