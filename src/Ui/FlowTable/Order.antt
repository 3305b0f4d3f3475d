-- ===== src/Ui/FlowTable/Order.antt =====
-- `compareFlows` of src/ui/FlowsView.cpp is an order that `std::sort` may be given.
use netprobe_cpp.Base.{
  ℕ, ◌≡◌, refl, arith, Bool, true, false, ◌&&◌, not, ◌==◌, if◌then◌else◌, List, Bytes, ℤ,
}
use netprobe_cpp.GeoIpResolver.{GeoInfo, organization_label}
use netprobe_cpp.Ui.FlowTable.{
  Row, Comparison, three_way, compare_ℕ, compare_ℤ, compare_text, host_of, geo_for, country_of,
  bytes_of, retransmission_rate_of, known_rtt, duration_of, compare_column, comes_first,
  compare_flows,
}
use netprobe_cpp.Ui.FlowTable.Comparisons.{
  IsPreorder, IsComparison, text-IsComparison, numbers-IsComparison, integers-IsComparison,
  along-IsComparison, or_else-IsComparison, choice-IsComparison, services-IsComparison,
  all_same-IsComparison,
}

compare_column-IsComparison :
    (geo : List (Bytes × GeoInfo)) (percent : ℕ → ℕ → ℕ) (column : ℕ)
    → IsComparison (compare_column geo percent column)
unfolding compare_column
compare_column-IsComparison geo percent column = choose 0 (texts host_of) (
    choose 1 (texts (λ r. country_of (geo_for geo r))) (
      choose 2 (texts (λ r. organization_label (geo_for geo r))) (
        choose 3 (texts (λ r. r.0.service)) (
          choose 4 (along-IsComparison (λ r. r.0.key) _ services-IsComparison) (
            choose 5 (numbers (λ r. r.0.packets)) (
              choose 6 (numbers bytes_of) (
                choose 7 (numbers (λ r. r.1)) (
                  choose 8 (integers known_rtt) (
                    choose 9 (numbers (retransmission_rate_of percent)) (
                      choose 10 (integers duration_of)
                        (choose 11 (texts (λ r. r.0.process)) all_same-IsComparison)))))))))))
  where
    texts : (f : Row → Bytes) → IsComparison (λ l r. compare_text (f l) (f r))
    texts f = along-IsComparison f compare_text text-IsComparison

    numbers : (f : Row → ℕ) → IsComparison (λ l r. compare_ℕ (f l) (f r))
    numbers f = along-IsComparison f compare_ℕ numbers-IsComparison

    integers : (f : Row → ℤ) → IsComparison (λ l r. compare_ℤ (f l) (f r))
    integers f = along-IsComparison f compare_ℤ integers-IsComparison

    choose :
        (n : ℕ) {c d : Row → Row → Comparison}
        → IsComparison c
        → IsComparison d
        → IsComparison (λ l r. if column == n then c l r else d l r)
    choose n {c} {d} = choice-IsComparison (column == n) c d

-- What `std::sort` asks of its test: nothing comes before itself, the test is transitive, and so is
-- that neither of two comes before the other.
abbrev pub IsStrictWeak : (Row → Row → Bool) → Type 0
IsStrictWeak first =
    ((x : Row) → first x x ≡ false)
    × ((x y z : Row) → (first x y && first y z && not (first x z)) ≡ false)
    × ((x y z : Row) → (not (first x y) && not (first y z) && first x z) ≡ false)

comes_first-three_way :
    (ascending l_le r_le : Bool)
    → comes_first ascending (three_way (not r_le) (not l_le))
      ≡ (if ascending then not r_le else (r_le && not l_le))
unfolding comes_first three_way
comes_first-three_way true true true = refl
comes_first-three_way true true false = refl
comes_first-three_way true false true = refl
comes_first-three_way true false false = refl
comes_first-three_way false true true = refl
comes_first-three_way false true false = refl
comes_first-three_way false false true = refl
comes_first-three_way false false false = refl

-- The tests of a preorder that goes up, and of one that goes down.
strict-IsStrictWeak :
    (ascending : Bool) (le first : Row → Row → Bool)
    → IsPreorder le
    → ((x y : Row) → first x y ≡ (if ascending then not (le y x) else (le y x && not (le x y))))
    → IsStrictWeak first
strict-IsStrictWeak true le first (total, trans) e = (
  λ x. ground (arith, e x x, total x x),
  λ x y z.
      ground
        (arith, e x y, e y z, e x z, trans z x y, trans y z x, total x y, total y z, total x z),
  λ x y z. ground (arith, e x y, e y z, e x z, trans z y x, total x y, total y z, total x z),
)
strict-IsStrictWeak false le first (total, trans) e = (
  λ x. ground (arith, e x x, total x x),
  λ x y z.
      ground
        (arith, e x y, e y z, e x z, trans z y x, trans x z y, total x y, total y z, total x z),
  λ x y z. ground (
    arith,
    e x y,
    e y z,
    e x z,
    trans x y z,
    trans z x y,
    trans y z x,
    total x y,
    total y z,
    total x z,
  ),
)

comes_first-IsStrictWeak :
    (ascending : Bool) (c : Row → Row → Comparison)
    → IsComparison c
    → IsStrictWeak (λ x y. comes_first ascending (c x y))
comes_first-IsStrictWeak ascending c (le, p, e) =
    strict-IsStrictWeak ascending le (λ x y. comes_first ascending (c x y)) p
      λ x y. rw (e x y) (comes_first-three_way ascending (le x y) (le y x))

-- In each column and direction, the test that sorts the flow table is a strict weak order, as
-- `std::sort` demands.
pub compare_flows-IsStrictWeak :
    (geo : List (Bytes × GeoInfo)) (percent : ℕ → ℕ → ℕ) (column : ℕ) (ascending : Bool)
    → IsStrictWeak (compare_flows geo percent column ascending)
unfolding compare_flows
compare_flows-IsStrictWeak geo percent column ascending = comes_first-IsStrictWeak ascending _ (
    or_else-IsComparison _ _ (compare_column-IsComparison geo percent column)
      (along-IsComparison host_of compare_text text-IsComparison))
