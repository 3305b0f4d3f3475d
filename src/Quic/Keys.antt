-- ===== src/Quic/Keys.antt =====
-- src/core/QuicParser.cpp, the versions of QUIC, key derivation, header protection and payload
-- decryption. What Mbed TLS computes is the parameter `CryptoLibrary`.
use Prim.Native.Nat.{bit_xor}
use netprobe_cpp.Base.{
  ℕ, ◌+◌, ◌*◌, ◌/◌, ◌%◌, ◌^◌, Option, none, some, ltb, ◌==◌, if◌then◌else◌, [], ◌∷◌, ◌++◌, Bytes,
  codes, length,
}

-- The calls of Mbed TLS, over SHA-256 and AES-128; `none` is a return code other than 0.
pub record CryptoLibrary : Type 0 where
  -- `mbedtls_hkdf_extract` of a salt and a key
  pub hkdf_extract : Bytes → Bytes → Option Bytes
  -- `mbedtls_hkdf_expand` of a key and an info to a length
  pub hkdf_expand : Bytes → Bytes → ℕ → Option Bytes
  -- `mbedtls_aes_setkey_enc` and `mbedtls_aes_crypt_ecb` of a key and a block
  pub aes_ecb : Bytes → Bytes → Option Bytes
  -- `mbedtls_gcm_setkey` and `mbedtls_gcm_auth_decrypt`: key, nonce, aad, tag, ciphertext
  pub gcm_decrypt : Bytes → Bytes → Bytes → Bytes → Bytes → Option Bytes

abbrev pub quic_v1 : ℕ
quic_v1 = 0x00000001

abbrev pub quic_v2 : ℕ
quic_v2 = 0x6b3343cf

pub initial_salt_v1 : Bytes
initial_salt_v1 =
    0x38 ∷ 0x76 ∷ 0x2c ∷ 0xf7 ∷ 0xf5 ∷ 0x59 ∷ 0x34 ∷ 0xb3 ∷ 0x4d ∷ 0x17 ∷ 0x9a ∷ 0xe6 ∷ 0xa4 ∷ 0xc8
    ∷ 0x0c ∷ 0xad ∷ 0xcc ∷ 0xbb ∷ 0x7f ∷ 0x0a ∷ []

pub initial_salt_v2 : Bytes
initial_salt_v2 =
    0x0d ∷ 0xed ∷ 0xe3 ∷ 0xde ∷ 0xf7 ∷ 0x00 ∷ 0xa6 ∷ 0xdb ∷ 0x81 ∷ 0x93 ∷ 0x81 ∷ 0xbe ∷ 0x6e ∷ 0x26
    ∷ 0x9d ∷ 0xcb ∷ 0xf9 ∷ 0xbd ∷ 0x2e ∷ 0xd9 ∷ []

pub record VersionParams : Type 0 where
  pub salt : Bytes
  pub key_label : Bytes
  pub iv_label : Bytes
  pub hp_label : Bytes
  pub initial_type_bits : ℕ

pub version_params : ℕ → Option VersionParams
version_params version =
    if version == quic_v1
    then some (record {
      salt = initial_salt_v1;
      key_label = codes "quic key";
      iv_label = codes "quic iv";
      hp_label = codes "quic hp";
      initial_type_bits = 0x00;
    })
    else if version == quic_v2
    then some (record {
      salt = initial_salt_v2;
      key_label = codes "quicv2 key";
      iv_label = codes "quicv2 iv";
      hp_label = codes "quicv2 hp";
      initial_type_bits = 0x10;
    })
    else none

pub record InitialKeys : Type 0 where
  pub key : Bytes
  pub iv : Bytes
  pub hp : Bytes

abbrev ◌>?◌ {ℓ κ} : {A : Type ℓ} {B : Type κ} → Option A → (A → Option B) → Option B
none >? f = none
some a >? f = f a

infixl 5 ◌>?◌
-- The `info` of HKDF-Expand-Label: the length, the prefixed label, and an empty context.
pub expand_info : Bytes → ℕ → Bytes
expand_info label out_len =
    (out_len / 256 % 256)
    ∷ (out_len % 256)
    ∷ ((6 + length label) % 256)
    ∷ (codes "tls13 " ++ (label ++ (0 ∷ [])))

pub hkdf_expand_label : CryptoLibrary → Bytes → Bytes → ℕ → Option Bytes
hkdf_expand_label lib secret label out_len =
    if ltb 255 (6 + length label)
    then none
    else lib.hkdf_expand secret (expand_info label out_len) out_len

pub derive_client_initial_keys : CryptoLibrary → VersionParams → Bytes → Option InitialKeys
derive_client_initial_keys lib params dcid = lib.hkdf_extract params.salt dcid >? λ initial_secret.
    hkdf_expand_label lib initial_secret (codes "client in") 32 >? λ client_secret.
    hkdf_expand_label lib client_secret params.key_label 16 >? λ key.
    hkdf_expand_label lib client_secret params.iv_label 12 >? λ iv.
    hkdf_expand_label lib client_secret params.hp_label 16 >? λ hp.
    some (record { key = key; iv = iv; hp = hp })

-- Bytes combined by XOR, as far as both go.
unfoldable pub xor_bytes : Bytes → Bytes → Bytes
xor_bytes [] t = []
xor_bytes (a ∷ s) [] = []
xor_bytes (a ∷ s) (b ∷ t) = bit_xor a b ∷ xor_bytes s t

-- Big-endian bytes as a number.
pub packet_number_of : ℕ → Bytes → ℕ
packet_number_of acc [] = acc
packet_number_of acc (b ∷ bs) = packet_number_of (acc * 256 + b) bs

-- The nonce is the iv XOR the packet number, right-aligned to 12 bytes.
pub nonce_of : Bytes → ℕ → Bytes
nonce_of iv n = xor_bytes iv (
    0
    ∷ 0
    ∷ 0
    ∷ 0
    ∷ (n / 2 ^ 56 % 256)
    ∷ (n / 2 ^ 48 % 256)
    ∷ (n / 2 ^ 40 % 256)
    ∷ (n / 2 ^ 32 % 256)
    ∷ (n / 2 ^ 24 % 256)
    ∷ (n / 2 ^ 16 % 256)
    ∷ (n / 2 ^ 8 % 256)
    ∷ (n % 256)
    ∷ [])

pub decrypt_payload : CryptoLibrary → InitialKeys → ℕ → Bytes → Bytes → Bytes → Option Bytes
decrypt_payload lib keys packet_number aad ciphertext tag =
    if length ciphertext == 0
    then none
    else lib.gcm_decrypt keys.key (nonce_of keys.iv packet_number) aad tag ciphertext
