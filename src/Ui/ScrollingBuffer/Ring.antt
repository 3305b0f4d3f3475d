-- ===== src/Ui/ScrollingBuffer/Ring.antt =====
-- One list of a `ScrollingBuffer` of src/ui/GuiLayer.hpp as a ring: it holds the last of what was
-- put into it.
use mathlib.Core.List.{append_assoc, append-nil}
use native.Mathlib.Nat.{mod-eq_of_lt, mod_self}
use netprobe_cpp.Base.{
  ℕ, ◌+◌, ◌%◌, ◌≤◌, ◌<◌, ◌≡◌, refl, sym, ap, ◌∙◌, arith, true, false, Bool-cases, inl, inr, ltb,
  leb, List, [], ◌∷◌, ◌++◌, length, length-append, keep_last, keep_last-short, push_bounded,
  push_bounded-keep_last, done, Ensures,
}
use netprobe_cpp.Ui.ScrollingBuffer.{set_item, put_item, next_offset}

module _ {A : Type 0} where
  -- With room: the items are all there were. Without: the newer ones stand before the offset, and
  -- the older ones behind it.
  pub data IsRing (size offset : ℕ) (items all : List A) : Type 0 where
    filling : length all < size → offset ≡ 0 → items ≡ all → IsRing size offset items all
    full :
        (newer older : List A)
        → length newer ≡ offset
        → offset < size
        → length newer + length older ≡ size
        → items ≡ newer ++ older
        → keep_last size all ≡ older ++ newer
        → IsRing size offset items all

  set_item-append :
      (before : List A) (a : A) (after : List A) (x : A)
      → set_item (before ++ (a ∷ after)) (length before) x ≡ done (before ++ (x ∷ after))
  unfolding set_item
  set_item-append [] a after x = refl
  set_item-append (b ∷ before) a after x = rw (set_item-append before a after x) refl

  put_filling :
      (size : ℕ) (all : List A) (x : A)
      → length all < size
      → IsRing size 0 (all ++ x ∷ []) (all ++ x ∷ [])
  put_filling size all x l = elim (Bool-cases (ltb (length all + 1) size)) [
    | inl room ↦ filling (ground (arith, room, length-append all (x ∷ []))) refl refl
    | inr last ↦
        full [] (all ++ x ∷ []) refl (omega arith)
          (ground (arith, l, last, length-append all (x ∷ []))) refl
          (keep_last-short size (all ++ x ∷ []) (omega (arith, l, length-append all (x ∷ [])))
            ∙ sym (append-nil (all ++ x ∷ [])))
  ]

  -- The oldest item makes place for the next one.
  keep_last-turn :
      (size : ℕ) (all newer older : List A) (oldest x : A)
      → 1 ≤ size
      → length newer + length (oldest ∷ older) ≡ size
      → keep_last size all ≡ (oldest ∷ older) ++ newer
      → keep_last size (all ++ x ∷ []) ≡ older ++ (newer ++ x ∷ [])
  unfolding push_bounded
  keep_last-turn size all newer older oldest x p n k =
      let count : leb size (length ((oldest ∷ older) ++ newer)) ≡ true =
        ground (arith, n, length-append (oldest ∷ older) newer) in
      sym (push_bounded-keep_last size all x p)
      ∙ ap (λ ys. push_bounded size ys x) k
      ∙ (let e : push_bounded size ((oldest ∷ older) ++ newer) x ≡ (older ++ newer) ++ x ∷ [] =
            rw count refl in
          e)
      ∙ append_assoc older newer (x ∷ [])

  put_full :
      (size : ℕ) (all newer older : List A) (x : A)
      → length newer < size
      → length newer + length older ≡ size
      → keep_last size all ≡ older ++ newer
      → Ensures
          (λ r. IsRing size ((length newer + 1) % size) r (all ++ x ∷ []))
          (set_item (newer ++ older) (length newer) x)
  put_full size all newer [] x l n k = absurd (omega (arith, l, n))
  put_full size all newer (oldest ∷ []) x l n k =
      let turned = keep_last-turn size all newer [] oldest x (omega arith) n k in
      let around : (length newer + 1) % size ≡ 0 =
        wraps (length newer + 1) size (omega (arith, n)) in
      rw (set_item-append newer oldest [] x, around)
        (full [] (newer ++ x ∷ []) refl (omega arith)
          (omega (arith, n, length-append newer (x ∷ []))) refl
          (turned ∙ sym (append-nil (newer ++ x ∷ []))))
    where
      wraps : (a b : ℕ) → a ≡ b → a % b ≡ 0
      wraps a b e = rw e (mod_self b)
  put_full size all newer (oldest ∷ second ∷ older) x l n k =
      let turned = keep_last-turn size all newer (second ∷ older) oldest x (omega arith) n k in
      let along : (length newer + 1) % size ≡ length newer + 1 = mod-eq_of_lt (omega (arith, n)) in
      rw (set_item-append newer oldest (second ∷ older) x, along)
        (full (newer ++ x ∷ []) (second ∷ older) (length-append newer (x ∷ [])) (omega (arith, n))
          (omega (arith, n, length-append newer (x ∷ [])))
          (sym (append_assoc newer (x ∷ []) (second ∷ older))) turned)

  -- A full ring overwrites its oldest item, and one with room takes the item at its end.
  pub put_item-IsRing :
      (size offset : ℕ) (items all : List A) (x : A)
      → 1 ≤ size
      → IsRing size offset items all
      → Ensures
          (λ r. IsRing size (next_offset (ltb (length items) size) size offset) r (all ++ x ∷ []))
          (put_item (ltb (length items) size) offset items x)
  unfolding put_item next_offset
  put_item-IsRing size offset items all x p (filling l o e) =
      let room : ltb (length all) size ≡ true = ground (arith, l) in
      rw (e, o, room) (put_filling size all x l)
  put_item-IsRing size offset items all x p (full newer older o l n e k) =
      let room : ltb (length (newer ++ older)) size ≡ false =
        ground (arith, n, length-append newer older) in
      rw (e, room, sym o) (put_full size all newer older x (omega (arith, o, l)) n k)
