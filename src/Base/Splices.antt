-- ===== src/Base/Splices.antt =====
-- What stands behind a prefix of a buffer.
use Prim.Native.Nat.{ℕ, ◌+◌}
use mathlib.Core.Path.{◌≡◌, refl, ap}
use mathlib.Core.List.{[], ◌∷◌, ◌++◌}
use native.Mathlib.Nat.{zero-add, suc-add, add-zero}
use native.Mathlib.Omega.{arith}
use netprobe_cpp.Base.Lists.{length, get_or, take, drop, slice, length-append}
use netprobe_cpp.Base.Text.{Bytes}
use netprobe_cpp.Base.Run.{done, read, read_bytes}

get_or-append :
    (before after : Bytes) (i : ℕ)
    → get_or (before ++ after) (length before + i) 0 ≡ get_or after i 0
get_or-append [] after i = rw zero-add refl
get_or-append (b ∷ before) after i = rw suc-add (get_or-append before after i)

drop-append :
    (before after : Bytes) (n : ℕ) → drop (length before + n) (before ++ after) ≡ drop n after
drop-append [] after n = rw zero-add refl
drop-append (b ∷ before) after n = rw suc-add (drop-append before after n)

take-append : (bytes after : Bytes) → take (length bytes) (bytes ++ after) ≡ bytes
take-append [] after = refl
take-append (b ∷ bytes) after = ap (λ xs. b ∷ xs) (take-append bytes after)

-- The byte at an offset behind the prefix.
pub read-append :
    (before after : Bytes) (i : ℕ) → read (before ++ after) (length before + i) ≡ read after i
unfolding read
read-append before after i =
    ground (arith, length-append before after, get_or-append before after i)

-- The bytes from an offset behind the prefix.
pub read_bytes-append :
    (before after : Bytes) (i count : ℕ)
    → read_bytes (before ++ after) (length before + i) count ≡ read_bytes after i count
unfolding read_bytes slice
read_bytes-append before after i count =
    ground (arith, length-append before after, drop-append before after i)

-- The first bytes of a buffer.
pub read_bytes-front :
    (bytes after : Bytes) → read_bytes (bytes ++ after) 0 (length bytes) ≡ done bytes
unfolding read_bytes slice
read_bytes-front bytes after = ground (arith, length-append bytes after, take-append bytes after)

-- The byte behind the prefix.
pub read_behind :
    (before rest : Bytes) (b : ℕ) → read (before ++ (b ∷ rest)) (length before) ≡ done b
unfolding read
read_behind before rest b = ground (
  arith,
  length-append before (b ∷ rest),
  get_or-append before (b ∷ rest) 0,
  add-zero (length before),
)

-- The bytes one behind the prefix.
pub read_bytes_behind :
    (before bytes rest : Bytes) (b : ℕ)
    → read_bytes (before ++ (b ∷ (bytes ++ rest))) (length before + 1) (length bytes) ≡ done bytes
unfolding read_bytes slice
read_bytes_behind before bytes rest b = ground (
  arith,
  length-append before (b ∷ (bytes ++ rest)),
  length-append bytes rest,
  drop-append before (b ∷ (bytes ++ rest)) 1,
  take-append bytes rest,
)
