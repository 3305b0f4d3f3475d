-- ===== src/Base/Table.antt =====
-- `std::unordered_map` as an association list, by a test for equal keys. The hash decides nothing
-- but the order of iteration.
pub mod Laws
use Prim.Native.Nat.{ℕ}
use mathlib.Core.Bool.{Bool}
use mathlib.Core.Option.{Option, none, some}
use mathlib.Core.List.{List, [], ◌∷◌}
use netprobe_cpp.Base.Tests.{if◌then◌else◌}

module _ {ℓ κ} {K : Type ℓ} {V : Type κ} where
  -- `find`
  unfoldable pub find_entry : (K → K → Bool) → K → List (K × V) → Option V
  find_entry eq key [] = none
  find_entry eq key ((k, v) ∷ table) = if eq k key then some v else find_entry eq key table

  -- A change of the entry that `find` gives; where there is none, none is made.
  unfoldable pub put_entry : (K → K → Bool) → K → V → List (K × V) → List (K × V)
  put_entry eq key value [] = []
  put_entry eq key value ((k, v) ∷ table) =
      let rest = put_entry eq key value table in
      if eq k key then (k, value) ∷ table else (k, v) ∷ rest

  -- `erase`
  unfoldable pub erase_entry : (K → K → Bool) → K → List (K × V) → List (K × V)
  erase_entry eq key [] = []
  erase_entry eq key ((k, v) ∷ table) =
      let rest = erase_entry eq key table in if eq k key then table else (k, v) ∷ rest

  -- The loop that erases the entries that the test names.
  unfoldable pub erase_where : (V → Bool) → List (K × V) → List (K × V)
  erase_where gone [] = []
  erase_where gone ((k, v) ∷ table) =
      let rest = erase_where gone table in if gone v then rest else (k, v) ∷ rest
