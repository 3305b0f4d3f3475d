-- ===== src/Base/Run.antt =====
-- What a run of C++ code that reads a byte buffer can come to. `fault` is a read outside of the
-- buffer, which is undefined behaviour; `stuck` is a loop that has used up its fuel.
use Prim.Native.Nat.{ℕ, ◌+◌, ◌*◌, ◌≤◌, ◌<◌}
use mathlib.Core.Path.{◌≡◌, refl}
use mathlib.Core.Bool.{Bool, true, false}
use mathlib.Core.Option.{Option, none, some}
use mathlib.Core.List.{◌++◌}
use native.Mathlib.Omega.{arith}
use netprobe_cpp.Base.Tests.{ltb, leb, if◌then◌else◌}
use netprobe_cpp.Base.Lists.{
  length, get_or, slice, take, drop, length-append, length-take, length-drop,
}
use netprobe_cpp.Base.Text.{Bytes}

pub data Outcome {ℓ} (A : Type ℓ) : Type ℓ where
  done : A → Outcome A
  fault : Outcome A
  stuck : Outcome A

infixl 5 ◌>>=◌
abbrev pub ◌>>=◌ {ℓ κ} : {A : Type ℓ} {B : Type κ} → Outcome A → (A → Outcome B) → Outcome B
done a >>= f = f a
fault >>= f = fault
stuck >>= f = stuck

-- `buffer[i]`.
unfoldable pub read : Bytes → ℕ → Outcome ℕ
read buffer i = if ltb i (length buffer) then done (get_or buffer i 0) else fault

-- `readU16(buffer + i)`, big-endian.
unfoldable pub read_u16 : Bytes → ℕ → Outcome ℕ
read_u16 buffer i = do hi ← read buffer i; lo ← read buffer (i + 1); done (hi * 256 + lo)

-- `readU32(buffer + i)`, big-endian.
unfoldable pub read_u32 : Bytes → ℕ → Outcome ℕ
read_u32 buffer i = do hi ← read_u16 buffer i; lo ← read_u16 buffer (i + 2); done (hi * 65536 + lo)

-- The run ends without a fault, and its result meets `P`.
abbrev pub Ensures {ℓ} : {A : Type ℓ} → (A → Type 0) → Outcome A → Type 0
Ensures P (done a) = P a
Ensures P fault = ⊥
Ensures P stuck = ⊥

pub >>=-Ensures {ℓ κ} :
    {A : Type ℓ} {B : Type κ} (P : A → Type 0) (Q : B → Type 0) (m : Outcome A) (f : A → Outcome B)
    → Ensures P m
    → ((a : A) → P a → Ensures Q (f a))
    → Ensures Q (m >>= f)
>>=-Ensures P Q (done a) f h k = k a h
>>=-Ensures P Q fault f h k = h
>>=-Ensures P Q stuck f h k = h

-- The two runs share their first step.
pub >>=-mono {ℓ κ μ} :
    {A : Type ℓ} {B : Type κ} {C : Type μ} (Q : B → Type 0) (R : C → Type 0) (m : Outcome A)
    (f : A → Outcome B) (g : A → Outcome C)
    → Ensures Q (m >>= f)
    → ((a : A) → Ensures Q (f a) → Ensures R (g a))
    → Ensures R (m >>= g)
>>=-mono Q R (done a) f g h k = k a h
>>=-mono Q R fault f g h k = h
>>=-mono Q R stuck f g h k = h

pub Ensures-mono {ℓ} :
    {A : Type ℓ} (P Q : A → Type 0) (m : Outcome A)
    → Ensures P m
    → ((a : A) → P a → Q a)
    → Ensures Q m
Ensures-mono P Q (done a) h k = k a h
Ensures-mono P Q fault h k = h
Ensures-mono P Q stuck h k = h

pub if-Ensures {ℓ} :
    {A : Type ℓ} (P : A → Type 0) (b : Bool) (x y : Outcome A)
    → (b ≡ true → Ensures P x)
    → (b ≡ false → Ensures P y)
    → Ensures P (if b then x else y)
if-Ensures P true x y h k = h refl
if-Ensures P false x y h k = k refl

-- In bounds, a read is the byte.
pub read_lem :
    (buffer : Bytes) (i : ℕ) → i < length buffer → read buffer i ≡ done (get_or buffer i 0)
unfolding read
read_lem buffer i h = ground arith

pub read_u16_lem :
    (buffer : Bytes) (i : ℕ)
    → i + 1 < length buffer
    → read_u16 buffer i ≡ done (get_or buffer i 0 * 256 + get_or buffer (i + 1) 0)
unfolding read_u16 read
read_u16_lem buffer i h = ground arith

-- `n` bytes from `buffer + i` on.
unfoldable pub read_bytes : Bytes → ℕ → ℕ → Outcome Bytes
read_bytes buffer i n = if leb (i + n) (length buffer) then done (slice buffer i n) else fault

-- A step whose C++ result says by `false` or `nullopt` that the function returns at once.
infixl 5 ◌>?=◌
abbrev pub ◌>?=◌ {ℓ κ} :
    {A : Type ℓ} {B : Type κ} → Outcome (Option A) → (A → Outcome (Option B)) → Outcome (Option B)
m >?= f = m >>= elim [ none ↦ done none | some a ↦ f a ]

-- A result, if there is one, meets `P`.
abbrev pub IfSome {ℓ} : {A : Type ℓ} → (A → Type 0) → Option A → Type 0
IfSome P none = Unit {0}
IfSome P (some a) = P a

pub >?=-Ensures {ℓ κ} :
    {A : Type ℓ} {B : Type κ} (P : A → Type 0) (Q : B → Type 0) (m : Outcome (Option A))
    (f : A → Outcome (Option B))
    → Ensures (IfSome P) m
    → ((a : A) → P a → Ensures (IfSome Q) (f a))
    → Ensures (IfSome Q) (m >?= f)
>?=-Ensures P Q (done none) f h k = tt
>?=-Ensures P Q (done (some a)) f h k = k a h
>?=-Ensures P Q fault f h k = h
>?=-Ensures P Q stuck f h k = h

-- `std::copy` or `memcpy` of `bytes` to `buffer + i`.
unfoldable pub write_bytes : Bytes → ℕ → Bytes → Outcome Bytes
write_bytes buffer i bytes =
    if leb (i + length bytes) (length buffer)
    then done (take i buffer ++ (bytes ++ drop (i + length bytes) buffer))
    else fault

-- A write inside of the buffer succeeds, and keeps its length.
pub write_bytes-Ensures :
    (buffer : Bytes) (i : ℕ) (bytes : Bytes) (size : ℕ)
    → length buffer ≡ size
    → i + length bytes ≤ size
    → Ensures (λ b. length b ≡ size) (write_bytes buffer i bytes)
unfolding write_bytes
write_bytes-Ensures buffer i bytes size e h = ground (
  arith,
  length-append (take i buffer) (bytes ++ drop (i + length bytes) buffer),
  length-append bytes (drop (i + length bytes) buffer),
  length-take i buffer,
  length-drop (i + length bytes) buffer,
)

-- A run that ends has its result.
pub Ensures-done {ℓ} :
    {A : Type ℓ} (P : A → Type 0) (m : Outcome A) → Ensures P m → (a : A) × (m ≡ done a) × P a
Ensures-done P (done a) h = (a, refl, h)
Ensures-done P fault h = absurd h
Ensures-done P stuck h = absurd h

-- What a run ensures holds of the value that it is done with.
pub Ensures-value {ℓ} :
    {A : Type ℓ} (P : A → Type 0) (m : Outcome A) (a : A) → m ≡ done a → Ensures P m → P a
Ensures-value P m a e h = rw e at h
