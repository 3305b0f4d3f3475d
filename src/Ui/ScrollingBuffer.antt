-- ===== src/Ui/ScrollingBuffer.antt =====
-- src/ui/GuiLayer.hpp, `ScrollingBuffer`, and `linearizeBuffer` of GuiLayer.cpp. A `float` is only
-- moved here, so it is of any type.
pub mod Ring
pub mod Linear
pub mod Points
use netprobe_cpp.Base.{
  ℕ, zero, suc, ◌+◌, ◌%◌, Bool, not, ltb, ◌==◌, if◌then◌else◌, List, [], ◌∷◌, ◌++◌, length, Outcome,
  done, fault, ◌>>=◌,
}

pub record ScrollingBuffer (A : Type 0) : Type 0 where
  pub max_size : ℕ
  pub offset : ℕ
  pub values : List A
  pub times : List A

unfoldable pub next_offset : Bool → ℕ → ℕ → ℕ
next_offset room max_size offset = if room then offset else (offset + 1) % max_size

module _ {A : Type 0} where
  -- `items[i] = x`; out of range it is undefined.
  unfoldable pub set_item : List A → ℕ → A → Outcome (List A)
  set_item [] i x = fault
  set_item (a ∷ items) zero x = done (x ∷ items)
  set_item (a ∷ items) (suc i) x = do rest ← set_item items i x; done (a ∷ rest)

  -- `items[i]`
  unfoldable pub item : List A → ℕ → Outcome A
  item [] i = fault
  item (a ∷ items) zero = done a
  item (a ∷ items) (suc i) = item items i

  pub make : ℕ → ScrollingBuffer A
  make max_size = record { max_size = max_size; offset = 0; values = []; times = [] }

  -- One list of the two, which has room or not.
  unfoldable pub put_item : Bool → ℕ → List A → A → Outcome (List A)
  put_item room offset items x = if room then done (items ++ x ∷ []) else set_item items offset x

  -- `AddPoint`
  pub add_point : ScrollingBuffer A → A → A → Outcome (ScrollingBuffer A)
  add_point b x y =
      let room = ltb (length b.values) b.max_size in
      (do
        values ← put_item room b.offset b.values y
        times ← put_item room b.offset b.times x
        done (record {
          max_size = b.max_size;
          offset = next_offset room b.max_size b.offset;
          values = values;
          times = times;
        }))

  -- `Erase`
  pub erase : ScrollingBuffer A → ScrollingBuffer A
  erase b = if ltb 0 (length b.values) then record b { values = []; times = []; offset = 0 } else b

  -- The loop of `linearizeBuffer` over one list; `left` rounds are to come.
  pub linear_items : List A → ℕ → ℕ → ℕ → Outcome (List A)
  linear_items items start zero i = done []
  linear_items items start (suc left) i = do
    x ← item items ((start + i) % length items)
    rest ← linear_items items start left (i + 1)
    done (x ∷ rest)

  -- `linearizeBuffer`: times and values, oldest first.
  pub linearize : ScrollingBuffer A → Outcome (List A × List A)
  linearize b =
      let count = length b.values in
      let start = if count == b.max_size then b.offset else 0 in
      if count == 0 then done ([], []) else (do
        times ← linear_items b.times start count 0
        values ← linear_items b.values start count 0
        done (times, values))
