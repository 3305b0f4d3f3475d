-- ===== src/Dns/Records.antt =====
-- src/core/DNSParser.hpp, `DNSRecord`, and the data of each type of resource record in
-- src/core/DNSParser.cpp, `parseMessage`.
pub mod Loops
pub mod Bounds
use netprobe_cpp.Base.{
  ℕ, zero, suc, ◌+◌, ◌-◌, Bool, true, false, Option, none, some, ◌&&◌, ◌||◌, not, min, ltb, leb,
  ◌==◌, if◌then◌else◌, size_sub, List, [], ◌∷◌, ◌++◌, Bytes, length, is_empty, to_string, Outcome,
  done, stuck, ◌>>=◌, read, read_u16, read_bytes,
}
use netprobe_cpp.Protocol.Network.{Inet, ipv4_to_string, ipv6_to_string}
use netprobe_cpp.Dns.Name.{NameAt, read_name}

pub data DnsRecordType : Type 0 where
  record_a record_aaaa record_cname record_ptr record_srv record_txt record_https record_svcb :
      DnsRecordType

pub record DnsRecord : Type 0 where
  pub record_type : DnsRecordType
  pub name : Bytes
  pub value : Bytes
  pub priority : ℕ

abbrev pub rr_a : ℕ
rr_a = 1

abbrev pub rr_cname : ℕ
rr_cname = 5

abbrev pub rr_ptr : ℕ
rr_ptr = 12

abbrev pub rr_txt : ℕ
rr_txt = 16

abbrev pub rr_aaaa : ℕ
rr_aaaa = 28

abbrev pub rr_srv : ℕ
rr_srv = 33

abbrev pub rr_svcb : ℕ
rr_svcb = 64

abbrev pub rr_https : ℕ
rr_https = 65

abbrev pub svc_param_ech : ℕ
svc_param_ech = 5

abbrev pub max_txt_bytes : ℕ
max_txt_bytes = 255

-- What the data of one record adds to the response: the answer, if there is one, and whether it
-- advertises ECH.
pub record Finding : Type 0 where
  pub answers : List DnsRecord
  pub ech : Bool

unfoldable pub nothing : Finding
nothing = record { answers = []; ech = false }

pub one_answer : DnsRecordType → Bytes → Bytes → ℕ → Finding
one_answer type owner value priority = record {
  answers = record { record_type = type; name = owner; value = value; priority = priority } ∷ [];
  ech = false;
}

-- The target of a CNAME, where its name ends inside of the record.
pub cname_answer : Bytes → ℕ → Option NameAt → Finding
cname_answer owner record_end none = nothing
cname_answer owner record_end (some n) =
    if leb n.position record_end then one_answer record_cname owner n.name 0 else nothing

-- The same for PTR and SRV, which want a name that is not empty; SRV adds its port.
pub target_answer : DnsRecordType → Bytes → ℕ → Bytes → ℕ → Option NameAt → Finding
target_answer type owner record_end suffix priority none = nothing
target_answer type owner record_end suffix priority (some n) =
    if leb n.position record_end && not (is_empty n.name)
    then one_answer type owner (n.name ++ suffix) priority
    else nothing

pub srv_answer : Bytes → Bytes → ℕ → ℕ → ℕ → Outcome Finding
srv_answer message owner position count record_end = if ltb count 7 then done nothing else (do
  priority ← read_u16 message position
  port ← read_u16 message (position + 4)
  target ← read_name message (position + 6)
  done (target_answer record_srv owner record_end (b':' ∷ to_string port) priority target))

-- The loop over the character strings of a TXT record, on fuel.
pub txt_chunks : ℕ → Bytes → ℕ → ℕ → Bytes → Outcome Bytes
txt_chunks zero message cursor record_end text = stuck
txt_chunks (suc fuel) message cursor record_end text =
    if not (ltb cursor record_end && ltb (length text) max_txt_bytes) then done text else (do
      count ← read message cursor
      let spaced = if is_empty text then text else text ++ b' ' ∷ []
      if ltb (size_sub record_end (cursor + 1)) count then done text else (do
        chunk ← read_bytes message (cursor + 1) (min count (size_sub max_txt_bytes (length spaced)))
        txt_chunks fuel message (cursor + 1 + count) record_end (spaced ++ chunk)))

pub txt_answer : Bytes → Bytes → ℕ → ℕ → Outcome Finding
txt_answer message owner position record_end = do
  text ← txt_chunks (record_end + 1) message position record_end []
  done (if is_empty text then nothing else one_answer record_txt owner text 0)

-- The loop over the parameters of a SVCB record, on fuel.
pub svc_params : ℕ → Bytes → ℕ → ℕ → Outcome Bool
svc_params zero message position record_end = stuck
svc_params (suc fuel) message position record_end =
    if ltb record_end (position + 4) then done false else (do
      key ← read_u16 message position
      count ← read_u16 message (position + 2)
      let rest = svc_params fuel message (position + 4 + count) record_end
      if ltb (size_sub record_end (position + 4)) count
          then done false
          else if (key == svc_param_ech) && ltb 0 count
          then done true
          else rest)

pub params_behind : Bytes → ℕ → Option NameAt → Outcome Bool
params_behind message record_end none = done false
params_behind message record_end (some target) =
    svc_params (record_end + 1) message target.position record_end

pub svcb_advertises_ech : Bytes → ℕ → ℕ → Outcome Bool
svcb_advertises_ech message position record_end =
    if ltb (size_sub record_end position) 2
    then done false
    else (do target ← read_name message (position + 2); params_behind message record_end target)

pub target_or_owner : Bytes → Option NameAt → Bytes
target_or_owner owner none = owner
target_or_owner owner (some n) = if is_empty n.name then owner else n.name

pub svcb_answer : DnsRecordType → Bytes → Bytes → ℕ → ℕ → ℕ → Outcome Finding
svcb_answer type message owner position count record_end = if ltb count 2 then done nothing else (do
  priority ← read_u16 message position
  target ← read_name message (position + 2)
  ech ← svcb_advertises_ech message position record_end
  done (record (one_answer type owner (target_or_owner owner target) priority) { ech = ech }))

-- The data of `count` bytes from `position` on, by the type of the record.
pub read_rdata : Inet → Bytes → Bytes → ℕ → ℕ → ℕ → Outcome Finding
read_rdata net message owner type position count =
    let record_end = position + count in
    if type == rr_a
    then (if count == 4
        then (do
          text ← ipv4_to_string net message position
          done (one_answer record_a owner text 0))
        else done nothing)
    else if type == rr_aaaa
    then (if count == 16
        then (do
          text ← ipv6_to_string net message position
          done (one_answer record_aaaa owner text 0))
        else done nothing)
    else if type == rr_cname
    then (do target ← read_name message position; done (cname_answer owner record_end target))
    else if type == rr_ptr
    then (do
      target ← read_name message position
      done (target_answer record_ptr owner record_end [] 0 target))
    else if type == rr_srv
    then srv_answer message owner position count record_end
    else if type == rr_txt
    then txt_answer message owner position record_end
    else if type == rr_svcb
    then svcb_answer record_svcb message owner position count record_end
    else if type == rr_https
    then svcb_answer record_https message owner position count record_end
    else done nothing
