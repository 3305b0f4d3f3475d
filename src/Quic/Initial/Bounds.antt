-- ===== src/Quic/Initial/Bounds.antt =====
-- Bounds of `parseInitial` and `extractInitialSni` of src/core/QuicParser.cpp.
use Prim.Native.Nat.{bit_xor, max}
use netprobe_cpp.Base.{
  ℕ, ◌+◌, ◌%◌, ◌≤◌, ◌≡◌, Option, none, some, arith, not, ◌==◌, List, [], ◌∷◌, Bytes, length, get_or,
  slice, bit_and, All, take, length-take, read, write_bytes-Ensures, read_bytes, write_bytes,
  Ensures, Ensures-mono, IfSome, >>=-Ensures, >?=-Ensures, if-Ensures, is_empty,
}
use netprobe_cpp.Base.Lists.{replicate, length-replicate}
use netprobe_cpp.Quic.Frames.{CryptoFragment, collect_crypto_frames}
use netprobe_cpp.Quic.Frames.Bounds.{IsSane, collect_crypto_frames-Ensures}
use netprobe_cpp.Quic.Hello.{sni_from_client_hello}
use netprobe_cpp.Quic.Hello.Bounds.{sni_from_client_hello-Ensures}
use netprobe_cpp.Quic.Keys.{CryptoLibrary, InitialKeys, derive_client_initial_keys, xor_bytes}
pub use netprobe_cpp.Quic.Initial.HeaderBounds.{Any, looks_like_long_header-Ensures}
use netprobe_cpp.Quic.Initial.HeaderBounds.{HeaderWithin, read_header-Ensures}
use netprobe_cpp.Quic.Initial.{
  InitialPacket, Header, unmask, parse_with_keys, sni_of_fragments, read_header, Unprotected,
  remove_header_protection, open_payload, decrypt_initial, parse_initial, crypto_end, stitch,
  extract_initial_sni,
}

-- What Mbed TLS documents of one AES block: it is 16 bytes.
pub record BlockSized (lib : CryptoLibrary) : Type 0 where
  pub aes_block : (key block : Bytes) → IfSome (λ m. length m ≡ 16) (lib.aes_ecb key block)

-- An unmasked packet number has at most four bytes.
abbrev ShortNumber : Unprotected → Type 0
ShortNumber u = length u.pn_bytes ≤ 4

length-xor_bytes-le : (s t : Bytes) → length (xor_bytes s t) ≤ length s
unfolding xor_bytes
length-xor_bytes-le [] t = omega arith
length-xor_bytes-le (a ∷ s) [] = omega arith
length-xor_bytes-le (a ∷ s) (b ∷ t) = omega (arith, length-xor_bytes-le s t)

unmask-Ensures :
    (first_byte : ℕ) (pn_bytes : Bytes) (mask : Option Bytes)
    → IfSome (λ m. length m ≡ 16) mask
    → Ensures (IfSome ShortNumber) (unmask first_byte pn_bytes mask)
unfolding unmask read read_bytes
unmask-Ensures first_byte pn_bytes none h = tt
unmask-Ensures first_byte pn_bytes (some mask) h =
    let pn_len = bit_xor first_byte (bit_and (get_or mask 0 0) 0x0f) % 4 + 1 in
    ground (
      arith,
      length-xor_bytes-le (take pn_len pn_bytes) (slice mask 1 pn_len),
      length-take pn_len pn_bytes,
    )

open_payload-Ensures :
    (lib : CryptoLibrary) (keys : InitialKeys) (bytes : Bytes) (h : Header) (u : Unprotected)
    → HeaderWithin bytes h
    → ShortNumber u
    → Ensures Any (open_payload lib keys bytes h u)
unfolding open_payload read_bytes
open_payload-Ensures lib keys bytes h u w s = ground arith

decrypt_initial-Ensures :
    (lib : CryptoLibrary) (bytes : Bytes) (h : Header) (keys : InitialKeys)
    → BlockSized lib
    → HeaderWithin bytes h
    → Ensures Any (decrypt_initial lib bytes h keys)
unfolding decrypt_initial remove_header_protection
decrypt_initial-Ensures lib bytes h keys b w =
    >>=-Ensures Any Any (read_bytes bytes (h.pn_offset + 4) 16) _
      (unfold read_bytes in ground arith)
      λ sample _. >>=-Ensures Any Any (read bytes 0) _ (unfold read in ground arith) λ first _.
        >>=-Ensures Any Any (read_bytes bytes h.pn_offset 4) _ (unfold read_bytes in ground arith)
          λ pn_bytes _.
            >>=-Ensures (IfSome ShortNumber) Any
              (unmask first pn_bytes (lib.aes_ecb keys.hp sample)) _
              (unmask-Ensures first pn_bytes (lib.aes_ecb keys.hp sample)
                (b.aes_block keys.hp sample))
              (elim [
                | none ↦ λ _. tt
                | some u ↦ λ s.
                    if-Ensures Any (not (bit_and u.first_byte 0x30 == h.params.initial_type_bits)) _
                      _ (λ _. tt) (λ _. open_payload-Ensures lib keys bytes h u w s)
              ])

-- The fragments of a decrypted packet are sane.
abbrev pub SanePacket : Option InitialPacket → Type 0
SanePacket = IfSome (λ p. All IsSane p.crypto)

parse_with_keys-Ensures :
    (lib : CryptoLibrary) (bytes : Bytes) (h : Header) (keys : Option InitialKeys)
    → BlockSized lib
    → HeaderWithin bytes h
    → Ensures SanePacket (parse_with_keys lib bytes h keys)
unfolding parse_with_keys
parse_with_keys-Ensures lib bytes h none b w = tt
parse_with_keys-Ensures lib bytes h (some keys) b w =
    >>=-Ensures Any SanePacket (decrypt_initial lib bytes h keys) _
      (decrypt_initial-Ensures lib bytes h keys b w)
      (elim [
        | none ↦ λ _. tt
        | some plaintext ↦ λ _.
            >?=-Ensures (All IsSane) (λ p. All IsSane p.crypto) (collect_crypto_frames plaintext) _
              (collect_crypto_frames-Ensures plaintext) (λ crypto s. s)
      ])

pub parse_initial-Ensures :
    (lib : CryptoLibrary) (bytes : Bytes)
    → BlockSized lib
    → Ensures SanePacket (parse_initial lib bytes)
unfolding parse_initial
parse_initial-Ensures lib bytes b =
    >?=-Ensures (HeaderWithin bytes) (λ p. All IsSane p.crypto) (read_header bytes) _
      (read_header-Ensures bytes)
      (λ h w.
        parse_with_keys-Ensures lib bytes h (derive_client_initial_keys lib h.params h.dcid) b w)

-- Every fragment ends inside of a stream of this size.
abbrev Fits : ℕ → CryptoFragment → Type 0
Fits size f = f.offset + length f.content ≤ size

crypto_end-ge : (end : ℕ) (fs : List CryptoFragment) → end ≤ crypto_end end fs
unfolding crypto_end
crypto_end-ge end [] = omega arith
crypto_end-ge end (f ∷ fs) = omega (arith, crypto_end-ge (max end (f.offset + length f.content)) fs)

crypto_end-Fits : (end : ℕ) (fs : List CryptoFragment) → All (Fits (crypto_end end fs)) fs
unfolding crypto_end
crypto_end-Fits end [] = tt
crypto_end-Fits end (f ∷ fs) =
    let end' = max end (f.offset + length f.content) in
    (omega (arith, crypto_end-ge end' fs), crypto_end-Fits end' fs)

stitch-Ensures :
    (stream : Bytes) (fragments : List CryptoFragment) (size : ℕ)
    → length stream ≡ size
    → All (Fits size) fragments
    → Ensures (λ s. length s ≡ size) (stitch stream fragments)
unfolding stitch
stitch-Ensures stream [] size e h = e
stitch-Ensures stream (f ∷ fs) size e h =
    >>=-Ensures (λ s. length s ≡ size) _ (write_bytes stream f.offset f.content) _
      (write_bytes-Ensures stream f.offset f.content size e h.0)
      λ written e'. stitch-Ensures written fs size e' h.1

sni_of_fragments-Ensures : (crypto : List CryptoFragment) → Ensures Any (sni_of_fragments crypto)
unfolding sni_of_fragments
sni_of_fragments-Ensures crypto =
    if-Ensures Any (is_empty crypto) _ _ (λ _. tt)
      λ _.
        if-Ensures Any (crypto_end 0 crypto == 0) _ _ (λ _. tt)
          λ _.
            >>=-Ensures Any Any (stitch (replicate (crypto_end 0 crypto) 0) crypto) _
              (Ensures-mono _ Any (stitch (replicate (crypto_end 0 crypto) 0) crypto)
                (stitch-Ensures (replicate (crypto_end 0 crypto) 0) crypto (crypto_end 0 crypto)
                  (length-replicate (crypto_end 0 crypto) 0) (crypto_end-Fits 0 crypto))
                (λ _ _. tt))
              λ stream _.
                Ensures-mono _ Any (sni_from_client_hello stream)
                  (sni_from_client_hello-Ensures stream) (λ _ _. tt)

-- With any datagram and any AES that gives blocks of 16 bytes, the SNI of an Initial packet is
-- looked for with no read and no write outside of the buffers, and the search ends.
pub extract_initial_sni-Ensures :
    (lib : CryptoLibrary) (bytes : Bytes)
    → BlockSized lib
    → Ensures Any (extract_initial_sni lib bytes)
unfolding extract_initial_sni
extract_initial_sni-Ensures lib bytes b =
    >>=-Ensures Any Any (parse_initial lib bytes) _
      (Ensures-mono _ Any (parse_initial lib bytes) (parse_initial-Ensures lib bytes b) (λ _ _. tt))
      (elim [ none ↦ λ _. tt | some p ↦ λ _. sni_of_fragments-Ensures p.crypto ])
