-- ===== src/Ui/Live/Selection.antt =====
-- The selected row of src/ui/GuiLayer.cpp while records fall out of the history in front.
use netprobe_cpp.Base.{
  ℕ, zero, suc, ◌-◌, ◌≤◌, ◌≡◌, refl, arith, true, false, Bool-cases, inl, inr, Option, none, some,
  leb, ltb, if◌then◌else◌, List, [], ◌∷◌, ◌++◌, length, length-append, drop, keep_last, length-drop,
}
use netprobe_cpp.Ui.View.{PacketRecord}
use netprobe_cpp.Ui.Live.{shift_selection}

-- The record that is selected.
unfoldable pub selected_in : Option ℕ → List PacketRecord → Option PacketRecord
selected_in none records = none
selected_in (some i) [] = none
selected_in (some zero) (r ∷ records) = some r
selected_in (some (suc i)) (r ∷ records) = selected_in (some i) records

-- The selection that is left when the first `n` records fall out.
unfoldable pub unless_dropped : ℕ → Option ℕ → Option ℕ
unless_dropped n none = none
unless_dropped n (some i) = if ltb i n then none else some i

unfoldable pub shift_by : ℕ → Option ℕ → Option ℕ
shift_by n none = none
shift_by n (some i) = if ltb i n then none else some (i - n)

pub shift_by-zero : (s : Option ℕ) → shift_by 0 s ≡ s
unfolding shift_by
shift_by-zero none = refl
shift_by-zero (some i) =
    let kept : ltb i 0 ≡ false = ground arith in
    let same : i - 0 ≡ i = omega arith in rw (kept, same) refl

shift_selection-shift_by :
    (n : ℕ) (s : Option ℕ) → shift_selection (shift_by n s) ≡ shift_by (suc n) s
unfolding shift_by shift_selection
shift_selection-shift_by n none = refl
shift_selection-shift_by n (some i) = elim (Bool-cases (ltb i n)) [
  | inl gone ↦ let gone' : ltb i (suc n) ≡ true = ground (arith, gone) in rw (gone, gone') refl
  | inr kept ↦ rw kept (falls (i - n) refl)
]
  where
    falls :
        (k : ℕ)
        → i - n ≡ k
        → shift_selection (some (i - n)) ≡ (if ltb i (suc n) then none else some (i - suc n))
    falls zero e = let out : ltb i (suc n) ≡ true = ground (arith, e) in rw (e, out) refl
    falls (suc k) e =
        let stays : ltb i (suc n) ≡ false = ground (arith, e) in
        let one_less : i - suc n ≡ k = omega (arith, e) in rw (e, stays, one_less) refl

pub selected_in-drop :
    (n : ℕ) (s : Option ℕ) (records : List PacketRecord)
    → selected_in (shift_by n s) (drop n records) ≡ selected_in (unless_dropped n s) records
unfolding shift_by unless_dropped selected_in
selected_in-drop n none records = refl
selected_in-drop n (some i) records = elim (Bool-cases (ltb i n)) [
  | inl gone ↦ rw gone refl
  | inr kept ↦ rw kept (at n i records (ground (arith, kept)))
]
  where
    at :
        (n i : ℕ) (records : List PacketRecord)
        → n ≤ i
        → selected_in (some (i - n)) (drop n records) ≡ selected_in (some i) records
    at zero i records h = let e : i - 0 ≡ i = omega arith in rw e refl
    at (suc n) zero records h = absurd (omega arith)
    at (suc n) (suc i) [] h = refl
    at (suc n) (suc i) (r ∷ records) h =
        let e : suc i - suc n ≡ i - n = omega arith in rw e (at n i records (omega arith))

-- One more record moves the selection where it makes the first fall out.
pub selection_moves :
    (n : ℕ) (records : List PacketRecord) (r : PacketRecord) (s : Option ℕ)
    → (if leb n (length (keep_last n records))
        then shift_selection (shift_by (length records - n) s)
        else shift_by (length records - n) s)
      ≡ shift_by (length (records ++ r ∷ []) - n) s
unfolding keep_last
selection_moves n records r s = elim (Bool-cases (leb n (length records))) [
  | inl full ↦
      let all : leb n (length (drop (length records - n) records)) ≡ true =
        ground (arith, full, length-drop (length records - n) records) in
      let one_more : length (records ++ r ∷ []) - n ≡ suc (length records - n) =
        ground (arith, full, length-append records (r ∷ [])) in
      rw (all, one_more) (shift_selection-shift_by (length records - n) s)
  | inr room ↦
      let some_room : leb n (length (drop (length records - n) records)) ≡ false =
        ground (arith, room, length-drop (length records - n) records) in
      let none_out : length (records ++ r ∷ []) - n ≡ length records - n =
        ground (arith, room, length-append records (r ∷ [])) in
      rw (some_room, none_out) refl
]
