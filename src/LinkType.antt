-- ===== src/LinkType.antt =====
-- src/core/LinkType.hpp: the link-layer encapsulations and libpcap's DLT numbers for them.
use netprobe_cpp.Base.{ℕ, ◌≡◌, refl, ◌≢◌, arith, ◌==◌, if◌then◌else◌}
use netprobe_cpp.Base.{Bytes, codes}

pub data LinkType : Type 0 where
  ethernet raw_ip null_loopback loop linux_sll linux_sll2 ipv4 ipv6 unsupported : LinkType

abbrev pub dlt_null : ℕ
dlt_null = 0

abbrev pub dlt_en10_mb : ℕ
dlt_en10_mb = 1

abbrev pub dlt_raw : ℕ
dlt_raw = 12

abbrev pub dlt_raw_alt : ℕ
dlt_raw_alt = 14

abbrev pub dlt_loop : ℕ
dlt_loop = 108

abbrev pub dlt_linux_sll : ℕ
dlt_linux_sll = 113

abbrev pub dlt_ipv4 : ℕ
dlt_ipv4 = 228

abbrev pub dlt_ipv6 : ℕ
dlt_ipv6 = 229

abbrev pub dlt_linux_sll2 : ℕ
dlt_linux_sll2 = 276

-- A negative `int` falls to the default, as every number that is not listed does.
unfoldable pub link_type_from_dlt : ℕ → LinkType
link_type_from_dlt dlt =
    if dlt == dlt_en10_mb
    then ethernet
    else if dlt == dlt_null
    then null_loopback
    else if dlt == dlt_loop
    then loop
    else if dlt == dlt_raw
    then raw_ip
    else if dlt == dlt_raw_alt
    then raw_ip
    else if dlt == dlt_linux_sll
    then linux_sll
    else if dlt == dlt_linux_sll2
    then linux_sll2
    else if dlt == dlt_ipv4
    then ipv4
    else if dlt == dlt_ipv6
    then ipv6
    else unsupported

pub dlt_from_link_type : LinkType → ℕ
dlt_from_link_type ethernet = dlt_en10_mb
dlt_from_link_type null_loopback = dlt_null
dlt_from_link_type loop = dlt_loop
dlt_from_link_type raw_ip = dlt_raw
dlt_from_link_type linux_sll = dlt_linux_sll
dlt_from_link_type linux_sll2 = dlt_linux_sll2
dlt_from_link_type ipv4 = dlt_ipv4
dlt_from_link_type ipv6 = dlt_ipv6
dlt_from_link_type unsupported = dlt_en10_mb

pub link_type_name : LinkType → Bytes
link_type_name ethernet = codes "Ethernet"
link_type_name raw_ip = codes "Raw IP"
link_type_name null_loopback = codes "Loopback (BSD)"
link_type_name loop = codes "Loopback (OpenBSD)"
link_type_name linux_sll = codes "Linux cooked"
link_type_name linux_sll2 = codes "Linux cooked v2"
link_type_name ipv4 = codes "Raw IPv4"
link_type_name ipv6 = codes "Raw IPv6"
link_type_name unsupported = codes "Unsupported"

-- A session that was captured with a supported link type is exported under a DLT number that
-- reads back as the same link type.
pub link_type_from_dlt-dlt_from_link_type :
    (link : LinkType) → link ≢ unsupported → link_type_from_dlt (dlt_from_link_type link) ≡ link
unfolding link_type_from_dlt dlt_from_link_type
link_type_from_dlt-dlt_from_link_type ethernet h = refl
link_type_from_dlt-dlt_from_link_type unsupported h = absurd (h refl)
link_type_from_dlt-dlt_from_link_type _ h = refl

-- A DLT number that is read as a supported link type is written back as itself, but for the
-- alternative number of DLT_RAW, which is written back as 12.
pub dlt_from_link_type-link_type_from_dlt :
    (dlt : ℕ)
    → link_type_from_dlt dlt ≢ unsupported
    → dlt_from_link_type (link_type_from_dlt dlt) ≡ (if dlt == 14 then 12 else dlt)
unfolding link_type_from_dlt dlt_from_link_type
dlt_from_link_type-link_type_from_dlt dlt h = ground arith
