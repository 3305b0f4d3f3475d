-- ===== src/Base/Table/Laws.antt =====
-- Sizes, entries and lookups of the tables.
use Prim.Native.Nat.{ℕ, ◌≤◌}
use mathlib.Core.Path.{◌≡◌, refl}
use mathlib.Core.Bool.{Bool}
use mathlib.Core.Logic.{inl, inr}
use mathlib.Core.Option.{some}
use mathlib.Core.List.{List, [], ◌∷◌}
use native.Mathlib.Omega.{arith}
use netprobe_cpp.Base.Tests.{Bool-cases}
use netprobe_cpp.Base.Lists.{length}
use netprobe_cpp.Base.Run.{IfSome}
use netprobe_cpp.Base.Table.{find_entry, put_entry, erase_entry, erase_where}

-- Every value of the table meets `P`.
abbrev pub AllValues {ℓ κ} : {K : Type ℓ} {V : Type κ} → (V → Type 0) → List (K × V) → Type 0
AllValues P [] = Unit {0}
AllValues P ((k, v) ∷ table) = P v × AllValues P table

-- At most `bound` entries, whose values all meet `P`.
abbrev pub IsBoundedTable {ℓ κ} :
    {K : Type ℓ} {V : Type κ} → ℕ → (V → Type 0) → List (K × V) → Type 0
IsBoundedTable bound P table = (length table ≤ bound) × AllValues P table

module _ {ℓ κ} {K : Type ℓ} {V : Type κ} (eq : K → K → Bool) (P : V → Type 0) where
  pub find_entry-AllValues :
      (key : K) (table : List (K × V)) → AllValues P table → IfSome P (find_entry eq key table)
  unfolding find_entry
  find_entry-AllValues key [] a = tt
  find_entry-AllValues key ((k, v) ∷ table) a = ground (arith, find_entry-AllValues key table a.1)

  put_entry-AllValues :
      (key : K) (value : V) (table : List (K × V))
      → P value
      → AllValues P table
      → (length (put_entry eq key value table) ≡ length table)
        × AllValues P (put_entry eq key value table)
  unfolding put_entry
  put_entry-AllValues key value [] p a = (refl, tt)
  put_entry-AllValues key value ((k, v) ∷ table) p a =
      ground (arith, put_entry-AllValues key value table p a.1)

  erase_entry-AllValues :
      (key : K) (table : List (K × V))
      → AllValues P table
      → (length (erase_entry eq key table) ≤ length table) × AllValues P (erase_entry eq key table)
  unfolding erase_entry
  erase_entry-AllValues key [] a = (omega arith, tt)
  erase_entry-AllValues key ((k, v) ∷ table) a = ground (arith, erase_entry-AllValues key table a.1)

  pub put_entry-IsBoundedTable :
      (bound : ℕ) (key : K) (value : V) (table : List (K × V))
      → P value
      → IsBoundedTable bound P table
      → IsBoundedTable bound P (put_entry eq key value table)
  put_entry-IsBoundedTable bound key value table p b =
      let e = put_entry-AllValues key value table p b.1 in (omega (arith, e.0, b.0), e.1)

  pub erase_entry-IsBoundedTable :
      (bound : ℕ) (key : K) (table : List (K × V))
      → IsBoundedTable bound P table
      → IsBoundedTable bound P (erase_entry eq key table)
  erase_entry-IsBoundedTable bound key table b =
      let e = erase_entry-AllValues key table b.1 in (omega (arith, e.0, b.0), e.1)

module _ {ℓ κ} {K : Type ℓ} {V : Type κ} (P : V → Type 0) (gone : V → Bool) where
  pub erase_where-AllValues :
      (table : List (K × V))
      → AllValues P table
      → (length (erase_where gone table) ≤ length table) × AllValues P (erase_where gone table)
  unfolding erase_where
  erase_where-AllValues [] a = (omega arith, tt)
  erase_where-AllValues ((k, v) ∷ table) a = ground (arith, erase_where-AllValues table a.1)

module _ {ℓ κ} {K : Type ℓ} {V : Type κ} (eq : K → K → Bool) where
  pub find_entry-put_entry :
      (key : K) (old value : V) (table : List (K × V))
      → find_entry eq key table ≡ some old
      → find_entry eq key (put_entry eq key value table) ≡ some value
  unfolding find_entry put_entry
  find_entry-put_entry key old value [] h = ground arith
  find_entry-put_entry key old value ((k, v) ∷ table) h = elim (Bool-cases (eq k key)) [
    | inl same ↦ ground arith
    | inr other ↦ ground (arith, find_entry-put_entry key old value table)
  ]
