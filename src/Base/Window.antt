-- ===== src/Base/Window.antt =====
-- The last elements of a sequence, which a bounded deque or a ring holds.
use Prim.Native.Nat.{ℕ, zero, suc, ◌-◌, ◌≤◌}
use mathlib.Core.Path.{◌≡◌, refl, sym, ap, ◌∙◌}
use mathlib.Core.Logic.{inl, inr}
use mathlib.Core.Bool.{true}
use mathlib.Core.List.{List, [], ◌∷◌, ◌++◌, append_assoc, append-nil}
use native.Mathlib.Omega.{arith}
use netprobe_cpp.Base.Tests.{leb, if◌then◌else◌, Bool-cases}
use netprobe_cpp.Base.Lists.{length, drop, length-append, length-drop}

module _ {ℓ} {A : Type ℓ} where
  -- The last `n` elements, or all of fewer.
  unfoldable pub keep_last : ℕ → List A → List A
  keep_last n xs = drop (length xs - n) xs

  -- `if (size >= n) pop_front(); push_back(x);`
  unfoldable pub push_bounded : ℕ → List A → A → List A
  push_bounded n xs x = (if leb n (length xs) then drop 1 xs else xs) ++ x ∷ []

  unfoldable pub push_all_bounded : ℕ → List A → List A → List A
  push_all_bounded n xs [] = xs
  push_all_bounded n xs (p ∷ ps) = push_all_bounded n (push_bounded n xs p) ps

  pub drop-append : (k : ℕ) (xs ys : List A) → k ≤ length xs → drop k (xs ++ ys) ≡ drop k xs ++ ys
  drop-append zero xs ys h = refl
  drop-append (suc k) [] ys h = absurd (omega arith)
  drop-append (suc k) (x ∷ xs) ys h = drop-append k xs ys (omega arith)

  pub drop_one-drop : (k : ℕ) (xs : List A) → drop 1 (drop k xs) ≡ drop (suc k) xs
  drop_one-drop zero xs = refl
  drop_one-drop (suc k) [] = refl
  drop_one-drop (suc k) (x ∷ xs) = drop_one-drop k xs

  pub keep_last-short : (n : ℕ) (xs : List A) → length xs ≤ n → keep_last n xs ≡ xs
  unfolding keep_last
  keep_last-short n xs h = let e : length xs - n ≡ 0 = omega arith in rw e refl

  pub length-keep_last-le : (n : ℕ) (xs : List A) → length (keep_last n xs) ≤ n
  unfolding keep_last
  length-keep_last-le n xs = omega (arith, length-drop (length xs - n) xs)

  pub length-push_bounded-le :
      (n : ℕ) (xs : List A) (x : A) → 1 ≤ n → length xs ≤ n → length (push_bounded n xs x) ≤ n
  unfolding push_bounded
  length-push_bounded-le n xs x p h = elim (Bool-cases (leb n (length xs))) [
    | inl full ↦ rw full (omega (arith, length-append (drop 1 xs) (x ∷ []), length-drop 1 xs))
    | inr room ↦ rw room (ground (arith, room, length-append xs (x ∷ [])))
  ]

  pub push_bounded-keep_last :
      (n : ℕ) (xs : List A) (x : A)
      → 1 ≤ n
      → push_bounded n (keep_last n xs) x ≡ keep_last n (xs ++ x ∷ [])
  unfolding push_bounded keep_last
  push_bounded-keep_last n xs x h = elim (Bool-cases (leb n (length xs))) [
    | inl full ↦
        let all : length (drop (length xs - n) xs) ≡ n =
          ground (arith, full, length-drop (length xs - n) xs) in
        let one_more : suc (length xs - n) ≡ length (xs ++ x ∷ []) - n =
          ground (arith, full, length-append xs (x ∷ [])) in
        let again : leb n (length (drop (length xs - n) xs)) ≡ true = ground (arith, all) in
        rw again (
          ap (λ ys. ys ++ x ∷ []) (drop_one-drop (length xs - n) xs)
          ∙ sym (drop-append (suc (length xs - n)) xs (x ∷ []) (ground (arith, full)))
          ∙ ap (λ k. drop k (xs ++ x ∷ [])) one_more)
    | inr room ↦
        let none_dropped : length xs - n ≡ 0 = ground (arith, room) in
        let none_later : length (xs ++ x ∷ []) - n ≡ 0 =
          ground (arith, room, length-append xs (x ∷ [])) in
        rw (none_dropped, none_later, room) refl
  ]

  -- Pushed one after the other, the last ones stay.
  pub push_all_bounded-keep_last :
      (n : ℕ) (xs ps : List A)
      → 1 ≤ n
      → push_all_bounded n (keep_last n xs) ps ≡ keep_last n (xs ++ ps)
  unfolding push_all_bounded
  push_all_bounded-keep_last n xs [] h = ap (keep_last n) (sym (append-nil xs))
  push_all_bounded-keep_last n xs (p ∷ ps) h = rw (push_bounded-keep_last n xs p h) (
      push_all_bounded-keep_last n (xs ++ p ∷ []) ps h
      ∙ ap (keep_last n) (append_assoc xs (p ∷ []) ps))

  pub push_all_bounded-nil :
      (n : ℕ) (ps : List A) → 1 ≤ n → push_all_bounded n [] ps ≡ keep_last n ps
  push_all_bounded-nil n ps h =
      ap (λ xs. push_all_bounded n xs ps) (sym (keep_last-short n [] (omega arith)))
      ∙ push_all_bounded-keep_last n [] ps h
