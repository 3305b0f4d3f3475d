-- ===== src/Ui/PacketTable/Filter.antt =====
-- The display filter of src/ui/PacketView.cpp finds exactly the packets that hold its text.
use netprobe_cpp.Base.{
  suc, ◌≡◌, refl, ap, arith, Bool, true, false, Bool-cases, inl, inr, ◌↔◌, ltb, if◌then◌else◌, [],
  ◌∷◌, ◌++◌, map, length, length-append, Bytes, is_empty, to_lower,
}
use netprobe_cpp.Ui.PacketTable.{starts_ci, search_ci, contains_ci}

-- A stretch of the text whose small letters are the needle.
abbrev pub Occurs : Bytes → Bytes → Type 0
Occurs needle text =
    (before : Bytes) × (found : Bytes) × (after : Bytes) × (text ≡ before ++ (found ++ after))
    × (map to_lower found ≡ needle)

abbrev Starts : Bytes → Bytes → Type 0
Starts needle text =
    (found : Bytes) × (after : Bytes) × (text ≡ found ++ after) × (map to_lower found ≡ needle)

starts_ci-Starts : (text needle : Bytes) → starts_ci text needle ≡ true → Starts needle text
unfolding starts_ci
starts_ci-Starts text [] h = ([], text, refl, refl)
starts_ci-Starts [] (n ∷ needle) h = absurd (ground (arith, h))
starts_ci-Starts (c ∷ text) (n ∷ needle) h =
    let (found, after, e, f) = starts_ci-Starts text needle (ground (arith, h)) in
    let same : to_lower c ≡ n = ground (arith, h) in
    (c ∷ found, after, rw (← e) refl, rw (same, f) refl)

starts_ci-append : (found after : Bytes) → starts_ci (found ++ after) (map to_lower found) ≡ true
unfolding starts_ci
starts_ci-append [] after = refl
starts_ci-append (c ∷ found) after = ground (arith, starts_ci-append found after)

search_ci-Occurs : (text needle : Bytes) → search_ci text needle ≡ true → Occurs needle text
unfolding search_ci
search_ci-Occurs [] needle h =
    let (found, after, e, f) = starts_ci-Starts [] needle h in ([], found, after, e, f)
search_ci-Occurs (c ∷ text) needle h = elim (Bool-cases (starts_ci (c ∷ text) needle)) [
  | inl e ↦
      let (found, after, at, f) = starts_ci-Starts (c ∷ text) needle e in ([], found, after, at, f)
  | inr e ↦
      let (before, found, after, at, f) = search_ci-Occurs text needle (ground (arith, h, e)) in
      (c ∷ before, found, after, ap (λ rest. c ∷ rest) at, f)
]

search_ci-front :
    (text needle : Bytes) → starts_ci text needle ≡ true → search_ci text needle ≡ true
unfolding search_ci
search_ci-front [] needle h = h
search_ci-front (c ∷ text) needle h = ground (arith, h)

search_ci-append :
    (before found after : Bytes)
    → search_ci (before ++ (found ++ after)) (map to_lower found) ≡ true
unfolding search_ci
search_ci-append [] found after =
    search_ci-front (found ++ after) (map to_lower found) (starts_ci-append found after)
search_ci-append (c ∷ before) found after = ground (arith, search_ci-append before found after)

length-lower : (found : Bytes) → length (map to_lower found) ≡ length found
length-lower [] = refl
length-lower (c ∷ found) = ap suc (length-lower found)

contains_ci-Occurs : (text needle : Bytes) → contains_ci text needle ≡ true → Occurs needle text
unfolding contains_ci is_empty
contains_ci-Occurs text [] h = ([], [], text, refl, refl)
contains_ci-Occurs text (n ∷ needle) h =
    search_ci-Occurs text (n ∷ needle)
      (unless (ltb (length text) (length (n ∷ needle))) (search_ci text (n ∷ needle)) h)
  where
    unless : (b c : Bool) → (if b then false else c) ≡ true → c ≡ true
    unless true c h = absurd (ground (arith, h))
    unless false c h = h

occurs-contains_ci :
    (before found after : Bytes)
    → contains_ci (before ++ (found ++ after)) (map to_lower found) ≡ true
unfolding contains_ci is_empty
occurs-contains_ci before found after =
    let fits : ltb (length (before ++ (found ++ after))) (length (map to_lower found)) ≡ false =
      ground (
        arith,
        length-lower found,
        length-append before (found ++ after),
        length-append found after,
      ) in
    ground (arith, fits, search_ci-append before found after)

-- `containsCI` says yes exactly where a stretch of the text has the needle as its small letters.
pub contains_ci_iff : (text needle : Bytes) → (contains_ci text needle ≡ true) ↔ Occurs needle text
contains_ci_iff text needle = (
  contains_ci-Occurs text needle,
  λ (before, found, after, e, f). rw (e, ← f) (occurs-contains_ci before found after),
)
