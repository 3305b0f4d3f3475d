-- ===== src/Protocol/Http.antt =====
-- src/core/ProtocolParser.cpp, `isHttpMethod` and `parseHTTP`: the head of a cleartext message.
pub mod Bounds
use netprobe_cpp.Base.{
  ℕ, zero, suc, ◌+◌, ◌-◌, Bool, true, false, Option, none, some, ◌&&◌, not, min, ltb, leb, ◌==◌,
  if◌then◌else◌, List, [], ◌∷◌, Bytes, codes, length, is_empty, text_eq, to_lower, map, Outcome,
  done, stuck, ◌>>=◌, read, read_bytes,
}
use netprobe_cpp.Packet.{ParsedPacket}
use netprobe_cpp.Protocol.Service.{identify_service}

pub http_methods : List Bytes
http_methods =
    codes "GET"
    ∷ codes "POST"
    ∷ codes "HEAD"
    ∷ codes "PUT"
    ∷ codes "DELETE"
    ∷ codes "OPTIONS"
    ∷ codes "PATCH"
    ∷ codes "TRACE"
    ∷ codes "CONNECT"
    ∷ []

-- One round of `isHttpMethod`: the method, and a space behind it.
pub is_method : Bytes → ℕ → Bytes → Outcome Bool
is_method payload len method = if not (ltb (length method + 1) len) then done false else (do
  head ← read_bytes payload 0 (length method)
  if not (text_eq head method)
      then done false
      else (do space ← read payload (length method); done (space == b' ')))

pub is_http_method : List Bytes → Bytes → ℕ → Outcome Bool
is_http_method [] payload len = done false
is_http_method (method ∷ methods) payload len =
    let rest = is_http_method methods payload len in
    do found ← is_method payload len method; if found then done true else rest

-- The lambda `lineEnd`: the first CR LF from `i` on. The first argument counts the rounds left.
pub find_line_end : ℕ → Bytes → ℕ → ℕ → Outcome ℕ
find_line_end zero payload scan_len i = done scan_len
find_line_end (suc rounds) payload scan_len i =
    let next = find_line_end rounds payload scan_len (i + 1) in
    if not (ltb (i + 1) scan_len) then done scan_len else (do
      a ← read payload i
      b ← read payload (i + 1)
      if (a == 13) && (b == 10) then done i else next)

pub line_end : Bytes → ℕ → ℕ → Outcome ℕ
line_end payload scan_len from = find_line_end scan_len payload scan_len from

-- Whether a line begins with `host:`, in any case.
pub is_host_line : Bytes → ℕ → ℕ → Outcome Bool
is_host_line payload pos end =
    if not (ltb 5 (end - pos))
    then done false
    else (do head ← read_bytes payload pos 5; done (text_eq (map to_lower head) (codes "host:")))

-- The loop over spaces in front of a header's value; the first argument counts the rounds left.
pub skip_spaces : ℕ → Bytes → ℕ → ℕ → Outcome ℕ
skip_spaces zero payload end at = done at
skip_spaces (suc rounds) payload end at =
    let next = skip_spaces rounds payload end (at + 1) in
    if leb end at then done at else (do b ← read payload at; if b == b' ' then next else done at)

pub set_host : Bytes → ParsedPacket → ParsedPacket
set_host host p =
    let named = identify_service host in
    if is_empty named
    then record p { hostname = host }
    else record p { hostname = host; service = named }

-- The value of a Host header between `pos` and `end`.
pub take_host : Bytes → ℕ → ℕ → ParsedPacket → Outcome ParsedPacket
take_host payload pos end p = do
  start ← skip_spaces (end - (pos + 5)) payload end (pos + 5)
  if ltb start end
      then (do host ← read_bytes payload start (end - start); done (set_host host p))
      else done p

-- The loop over header lines, on fuel.
pub header_lines : ℕ → Bytes → ℕ → ℕ → ParsedPacket → Outcome ParsedPacket
header_lines zero payload scan_len pos p = stuck
header_lines (suc fuel) payload scan_len pos p =
    let next = λ (at : ℕ). header_lines fuel payload scan_len at p in
    if leb scan_len pos then done p else (do
      end ← line_end payload scan_len pos
      if end == pos then done p else if end == scan_len then done p else (do
        is_host ← is_host_line payload pos end
        if is_host then take_host payload pos end p else next (end + 2)))

pub with_http : ℕ → Bytes → ParsedPacket → Outcome ParsedPacket
with_http n payload p = do
  text ← read_bytes payload 0 n
  done (record p { info = text; service = if is_empty p.service then codes "HTTP" else p.service })

-- Whether the payload is the head of a response.
pub is_http_response : Bytes → ℕ → Outcome Bool
is_http_response payload scan_len =
    if ltb scan_len 12
    then done false
    else (do head ← read_bytes payload 0 7; done (text_eq head (codes "HTTP/1.")))

pub parse_http : Bytes → ParsedPacket → Outcome ParsedPacket
parse_http payload p = do
  let scan_len = min (length payload) 2048
  response ← is_http_response payload scan_len
  if response then (do end ← line_end payload scan_len 0; with_http end payload p) else (do
    request ← is_http_method http_methods payload scan_len
    if not request then done p else (do
      end ← line_end payload scan_len 0
      q ← with_http (min end 120) payload p
      header_lines (scan_len + 1) payload scan_len (end + 2) q))
