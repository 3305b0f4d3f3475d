-- ===== src/ProcessResolver/Owner.antt =====
-- What the table of src/core/ProcessResolver.cpp says of an endpoint after a refresh.
use netprobe_cpp.Base.{
  ℕ, ◌≡◌, refl, sym, ap, ◌∙◌, arith, Bool, true, false, Bool-cases, inl, inr, Option, none, some,
  ◌==◌, if◌then◌else◌, List, [], ◌∷◌, Bytes, text_eq_iff, find_entry, put_entry,
}
use netprobe_cpp.Protocol.Network.{Inet}
use netprobe_cpp.ProcessResolver.ProcNet.{SocketEntry}
use netprobe_cpp.ProcessResolver.{
  Endpoint, endpoint_eq, ProcessResolver, Files, set_entry, inode_to_pid, own, own_sockets,
  sockets_of, refresh_tables,
}

pub endpoint_of : SocketEntry → Endpoint
endpoint_of s = record { ip = s.ip; port = s.port; protocol = s.protocol }

pub or_pid : Option ℕ → Option ℕ → Option ℕ
or_pid none later = later
or_pid (some pid) later = some pid

-- The process of the last socket at the endpoint whose inode a process holds.
pub last_owner : List (ℕ × ℕ) → Endpoint → List SocketEntry → Option ℕ
last_owner inodes e [] = none
last_owner inodes e (s ∷ sockets) =
    or_pid (last_owner inodes e sockets)
      (if endpoint_eq (endpoint_of s) e then find_entry (λ a b. a == b) s.inode inodes else none)

-- Equal endpoints are equal to the same others.
endpoint_eq-same : (a b c : Endpoint) → endpoint_eq a b ≡ true → endpoint_eq a c ≡ endpoint_eq b c
unfolding endpoint_eq
endpoint_eq-same a b c h =
    let ip : a.ip ≡ b.ip = (text_eq_iff a.ip b.ip).0 (ground (arith, h)) in
    let protocol : a.protocol ≡ b.protocol =
      (text_eq_iff a.protocol b.protocol).0 (ground (arith, h)) in
    let port : a.port ≡ b.port = ground (arith, h) in rw (ip, protocol, port) refl

endpoint_eq_sym : (a b : Endpoint) → endpoint_eq a b ≡ endpoint_eq b a
unfolding endpoint_eq
endpoint_eq_sym a b = ground (
  arith,
  text_eq_iff a.ip b.ip,
  text_eq_iff b.ip a.ip,
  text_eq_iff a.protocol b.protocol,
  text_eq_iff b.protocol a.protocol,
)

if_again :
    (b : Bool) (x y z : Option ℕ) → (if b then x else y) ≡ (if b then x else (if b then z else y))
if_again true x y z = refl
if_again false x y z = refl

find_entry-put_entry_any :
    (key e : Endpoint) (old pid : ℕ) (table : List (Endpoint × ℕ))
    → find_entry endpoint_eq key table ≡ some old
    → find_entry endpoint_eq e (put_entry endpoint_eq key pid table)
      ≡ (if endpoint_eq key e then some pid else find_entry endpoint_eq e table)
unfolding find_entry put_entry
find_entry-put_entry_any key e old pid [] h = absurd (ground (arith, h))
find_entry-put_entry_any key e old pid ((k, v) ∷ table) h = elim (Bool-cases (endpoint_eq k key)) [
  | inl same ↦
      rw (same, endpoint_eq-same k key e same)
        (if_again (endpoint_eq key e) (some pid) (find_entry endpoint_eq e table) (some v))
  | inr other ↦
      let later : find_entry endpoint_eq key table ≡ some old = ground (arith, h, other) in
      elim (Bool-cases (endpoint_eq k e)) [
        | inl at ↦
            let apart : endpoint_eq key e ≡ false =
              endpoint_eq_sym key e ∙ sym (endpoint_eq-same k e key at) ∙ other in
            rw (other, at, apart) refl
        | inr past ↦ rw (other, past) (find_entry-put_entry_any key e old pid table later)
      ]
]

by_found :
    (key e : Endpoint) (pid : ℕ) (table : List (Endpoint × ℕ)) (found : Option ℕ)
    → find_entry endpoint_eq key table ≡ found
    → find_entry endpoint_eq e
        (elim found [ none ↦ (key, pid) ∷ table | some old ↦ put_entry endpoint_eq key pid table ])
      ≡ (if endpoint_eq key e then some pid else find_entry endpoint_eq e table)
unfolding find_entry
by_found key e pid table none h = refl
by_found key e pid table (some old) h = find_entry-put_entry_any key e old pid table h

find_entry-set_entry :
    (key e : Endpoint) (pid : ℕ) (table : List (Endpoint × ℕ))
    → find_entry endpoint_eq e (set_entry endpoint_eq key pid table)
      ≡ (if endpoint_eq key e then some pid else find_entry endpoint_eq e table)
unfolding set_entry
find_entry-set_entry key e pid table =
    by_found key e pid table (find_entry endpoint_eq key table) refl

or_pid-if :
    (b : Bool) (pid : ℕ) (later : Option ℕ)
    → (if b then some pid else later) ≡ or_pid (if b then some pid else none) later
unfolding or_pid
or_pid-if true pid later = refl
or_pid-if false pid later = refl

find_entry-own :
    (name : ℕ → Bytes) (s : SocketEntry) (pid : Option ℕ) (r : ProcessResolver) (e : Endpoint)
    → find_entry endpoint_eq e (own name s pid r).endpoint_to_pid
      ≡ or_pid
          (if endpoint_eq (endpoint_of s) e then pid else none)
          (find_entry endpoint_eq e r.endpoint_to_pid)
unfolding own or_pid endpoint_of
find_entry-own name s none r e = elim (Bool-cases (endpoint_eq (endpoint_of s) e)) [
  | inl at ↦ rw at refl
  | inr other ↦ rw other refl
]
find_entry-own name s (some pid) r e =
    find_entry-set_entry (endpoint_of s) e pid r.endpoint_to_pid
    ∙ or_pid-if (endpoint_eq (endpoint_of s) e) pid (find_entry endpoint_eq e r.endpoint_to_pid)

or_pid-none : (found : Option ℕ) → or_pid found none ≡ found
unfolding or_pid
or_pid-none none = refl
or_pid-none (some pid) = refl

or_pid_assoc : (a b c : Option ℕ) → or_pid a (or_pid b c) ≡ or_pid (or_pid a b) c
unfolding or_pid
or_pid_assoc none b c = refl
or_pid_assoc (some pid) b c = refl

own_sockets-last_owner :
    (name : ℕ → Bytes) (inodes : List (ℕ × ℕ)) (sockets : List SocketEntry) (r : ProcessResolver)
    (e : Endpoint)
    → find_entry endpoint_eq e (own_sockets name inodes sockets r).endpoint_to_pid
      ≡ or_pid (last_owner inodes e sockets) (find_entry endpoint_eq e r.endpoint_to_pid)
unfolding own_sockets last_owner or_pid
own_sockets-last_owner name inodes [] r e = refl
own_sockets-last_owner name inodes (s ∷ sockets) r e =
    let pid = find_entry (λ a b. a == b) s.inode inodes in
    let mine = if endpoint_eq (endpoint_of s) e then pid else none in
    own_sockets-last_owner name inodes sockets (own name s pid r) e
    ∙ ap (or_pid (last_owner inodes e sockets)) (find_entry-own name s pid r e)
    ∙ or_pid_assoc (last_owner inodes e sockets) mine (find_entry endpoint_eq e r.endpoint_to_pid)

-- After a refresh an endpoint belongs to the process of the last socket that the tables list for it
-- and whose inode a process holds, and to none if there is no such socket, whatever was known
-- before.
pub refresh_tables-last_owner :
    (net : Inet) (files : Files) (now : ℕ) (r : ProcessResolver) (e : Endpoint)
    → find_entry endpoint_eq e (refresh_tables net files now r).endpoint_to_pid
      ≡ last_owner (inode_to_pid files.processes []) e (sockets_of net files)
unfolding refresh_tables find_entry
refresh_tables-last_owner net files now r e =
    own_sockets-last_owner files.process_name (inode_to_pid files.processes [])
      (sockets_of net files) (record r { endpoint_to_pid = []; last_refresh = now }) e
    ∙ or_pid-none (last_owner (inode_to_pid files.processes []) e (sockets_of net files))
