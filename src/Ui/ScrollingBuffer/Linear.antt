-- ===== src/Ui/ScrollingBuffer/Linear.antt =====
-- `linearizeBuffer` of src/ui/GuiLayer.cpp on what `AddPoint` has stored.
use native.Mathlib.Nat.{mod-eq_of_lt, add-mod_left}
use netprobe_cpp.Base.{
  ℕ, zero, suc, ◌+◌, ◌-◌, ◌%◌, ◌≤◌, ◌<◌, ◌≡◌, refl, sym, ap, ◌∙◌, arith, Bool-cases, inl, inr, ltb,
  List, [], ◌∷◌, ◌++◌, length, length-append, drop, done,
}
use netprobe_cpp.Ui.ScrollingBuffer.{item, linear_items}

module _ {A : Type 0} where
  item-front : (xs ys : List A) (i : ℕ) → i < length xs → item (xs ++ ys) i ≡ item xs i
  unfolding item
  item-front [] ys i h = absurd (omega arith)
  item-front (x ∷ xs) ys zero h = refl
  item-front (x ∷ xs) ys (suc i) h = item-front xs ys i (omega arith)

  item-behind : (xs ys : List A) (i j : ℕ) → i ≡ length xs + j → item (xs ++ ys) i ≡ item ys j
  unfolding item
  item-behind [] ys i j h = ap (item ys) (omega (arith, h))
  item-behind (x ∷ xs) ys zero j h = absurd (omega (arith, h))
  item-behind (x ∷ xs) ys (suc i) j h = item-behind xs ys i j (omega (arith, h))

  item-drop :
      (xs : List A) (i : ℕ)
      → i < length xs
      → (x : A) × (item xs i ≡ done x) × (drop i xs ≡ x ∷ drop (suc i) xs)
  unfolding item
  item-drop [] i h = absurd (omega arith)
  item-drop (x ∷ xs) zero h = (x, refl, refl)
  item-drop (x ∷ xs) (suc i) h = item-drop xs i (omega arith)

  -- Counted from the offset and around the end, the items are the older ones and then the newer.
  item-turned :
      (newer older : List A) (i : ℕ)
      → i < length newer + length older
      → item (newer ++ older) ((length newer + i) % length (newer ++ older))
        ≡ item (older ++ newer) i
  item-turned newer older i h = elim (Bool-cases (ltb i (length older))) [
    | inl early ↦
        let k : (length newer + i) % length (newer ++ older) ≡ length newer + i =
          mod-eq_of_lt (ground (arith, early, length-append newer older)) in
        rw (k) (
          item-behind newer older (length newer + i) i refl
          ∙ sym (item-front older newer i (ground (arith, early))))
    | inr late ↦
        let j : length older ≤ i = ground (arith, late) in
        let k : (length newer + i) % length (newer ++ older) ≡ i - length older =
          around (length newer + i) (length (newer ++ older)) (i - length older)
            (omega (arith, j, length-append newer older))
            (omega (arith, j, h, length-append newer older)) in
        rw (k) (
          item-front newer older (i - length older) (omega (arith, j, h))
          ∙ sym (item-behind older newer i (i - length older) (omega (arith, j))))
  ]
    where
      around : (a n b : ℕ) → a ≡ n + b → b < n → a % n ≡ b
      around a n b e l = rw (e, add-mod_left n b) (mod-eq_of_lt l)

  pub linear_items-turned :
      (newer older : List A) (left i : ℕ)
      → left + i ≡ length newer + length older
      → linear_items (newer ++ older) (length newer) left i ≡ done (drop i (older ++ newer))
  unfolding linear_items
  linear_items-turned newer older zero i h =
      rw (drop_all (older ++ newer) i (omega (arith, h, length-append older newer))) refl
    where
      drop_all : (xs : List A) (i : ℕ) → length xs ≤ i → drop i xs ≡ []
      drop_all [] zero l = refl
      drop_all [] (suc i) l = refl
      drop_all (x ∷ xs) zero l = absurd (omega arith)
      drop_all (x ∷ xs) (suc i) l = drop_all xs i (omega arith)
  linear_items-turned newer older (suc left) i h =
      let (x, found, rest) =
        item-drop (older ++ newer) i (omega (arith, h, length-append older newer)) in
      let next : i + 1 ≡ suc i = omega arith in
      rw
        (
          item-turned newer older i (omega (arith, h)),
          found,
          next,
          linear_items-turned newer older left (suc i) (omega (arith, h)),
        )
        (ap done (sym rest))
