-- ===== src/FlowExporter/Csv.antt =====
-- A reader for the CSV fields that src/core/FlowExporter.cpp writes.
use mathlib.Core.List.{append_assoc}
use netprobe_cpp.Base.{
  ℕ, zero, suc, ◌<◌, List, map, length, ◌≡◌, refl, ap, arith, Bool, true, false, Option, none, some,
  ◌||◌, ◌&&◌, not, ◌==◌, if◌then◌else◌, [], ◌∷◌, ◌++◌, Bytes, Bool-cases, inl, inr,
}
use netprobe_cpp.FlowExporter.{
  comma, quote, newline, needs_quotes, double_quotes, csv_escape, csv_line,
}

-- A reader of the grammar of RFC 4180, with a newline alone between records: a field's value, and the
-- text behind it. A field without quotes holds no quote and no carriage return.
abbrev carriage_return : ℕ
carriage_return = 13

unfoldable pub has_return : Bytes → Bool
has_return [] = false
has_return (c ∷ text) = (c == carriage_return) || has_return text

-- The value is quoted, or holds no carriage return.
unfoldable pub is_readable : Bytes → Bool
is_readable value = needs_quotes value || not (has_return value)

unfoldable pub all_readable : List Bytes → Bool
all_readable [] = true
all_readable (value ∷ values) = is_readable value && all_readable values

push_code : ℕ → Option (Bytes × Bytes) → Option (Bytes × Bytes)
push_code c none = none
push_code c (some (value, rest)) = some (c ∷ value, rest)

-- Behind the opening quote; the flag says that the code before was a quote.
read_quoted : Bool → Bytes → Option (Bytes × Bytes)
read_quoted false [] = none
read_quoted false (c ∷ cs) =
    let closing = read_quoted true cs in
    let inside = read_quoted false cs in if c == quote then closing else push_code c inside
read_quoted true [] = some ([], [])
read_quoted true (c ∷ cs) =
    let inside = read_quoted false cs in
    if c == quote then push_code quote inside else some ([], c ∷ cs)

read_plain : Bytes → Option (Bytes × Bytes)
read_plain [] = some ([], [])
read_plain (c ∷ cs) =
    let rest = read_plain cs in
    if (c == comma) || (c == newline)
    then some ([], c ∷ cs)
    else if (c == quote) || (c == carriage_return)
    then none
    else push_code c rest

pub read_field : Bytes → Option (Bytes × Bytes)
read_field [] = some ([], [])
read_field (c ∷ cs) = if c == quote then read_quoted false cs else read_plain (c ∷ cs)

is_quote : (c : ℕ) → (c == quote) ≡ true → c ≡ quote
is_quote c h = ground arith

-- What may follow a field.
abbrev pub ends_field : ℕ → Bool
ends_field c = (c == comma) || (c == newline)

read_quoted-double_quotes :
    (value rest : Bytes) (end : ℕ)
    → ends_field end ≡ true
    → read_quoted false (double_quotes value ++ (quote ∷ end ∷ rest)) ≡ some (value, end ∷ rest)
unfolding read_quoted double_quotes push_code
read_quoted-double_quotes [] rest end e = ground (arith, e)
read_quoted-double_quotes (c ∷ cs) rest end e = elim (Bool-cases (c == quote)) [
  | inl same ↦ rw (is_quote c same) (ap (push_code quote) (read_quoted-double_quotes cs rest end e))
  | inr other ↦ rw (other, other) (ap (push_code c) (read_quoted-double_quotes cs rest end e))
]

read_plain_lem :
    (value rest : Bytes) (end : ℕ)
    → ends_field end ≡ true
    → needs_quotes value ≡ false
    → has_return value ≡ false
    → read_plain (value ++ (end ∷ rest)) ≡ some (value, end ∷ rest)
unfolding read_plain needs_quotes push_code has_return
read_plain_lem [] rest end e h r = ground (arith, e)
read_plain_lem (c ∷ cs) rest end e h r =
    let inside : ((c == comma) || (c == newline)) ≡ false = ground (arith, h) in
    let plain : ((c == quote) || (c == carriage_return)) ≡ false = ground (arith, h, r) in
    rw (inside, plain, read_plain_lem cs rest end e (ground (arith, h)) (ground (arith, r))) refl

read_field-plain :
    (value rest : Bytes) (end : ℕ)
    → ends_field end ≡ true
    → needs_quotes value ≡ false
    → has_return value ≡ false
    → read_field (value ++ (end ∷ rest)) ≡ some (value, end ∷ rest)
unfolding read_field needs_quotes
read_field-plain [] rest end e h r = unfold read_plain in ground (arith, e)
read_field-plain (c ∷ cs) rest end e h r =
    let unquoted : (c == quote) ≡ false = ground (arith, h) in
    rw unquoted (read_plain_lem (c ∷ cs) rest end e h r)

-- The text that is written for a readable value, followed by a comma or a newline, reads back as this
-- value, and the reader stops behind it.
pub read_field-csv_escape :
    (value rest : Bytes) (end : ℕ)
    → ends_field end ≡ true
    → is_readable value ≡ true
    → read_field (csv_escape value ++ (end ∷ rest)) ≡ some (value, end ∷ rest)
unfolding csv_escape is_readable
read_field-csv_escape value rest end e k = elim (Bool-cases (needs_quotes value)) [
  | inl quoted ↦
      rw (quoted, append_assoc (double_quotes value) (quote ∷ []) (end ∷ rest))
        (unfold read_field in read_quoted-double_quotes value rest end e)
  | inr plain ↦ rw plain (read_field-plain value rest end e plain (ground (arith, k, plain)))
]

cons_value : Bytes → Option (List Bytes × Bytes) → Option (List Bytes × Bytes)
cons_value value none = none
cons_value value (some (values, rest)) = some (value ∷ values, rest)

-- The fields of a line, and the text behind its newline; on fuel.
pub read_line : ℕ → Bytes → Option (List Bytes × Bytes)
read_line zero text = none
read_line (suc fuel) text = elim (read_field text) [
  | none ↦ none
  | some (value, []) ↦ some (value ∷ [], [])
  | some (value, end ∷ rest) ↦
      let others = cons_value value (read_line fuel rest) in
      if end == comma then others else some (value ∷ [], rest)
]

-- Fields that are written as `csv_escape` writes them read back as the values.
pub read_line-csv_line :
    (values : List Bytes) (value rest : Bytes) (fuel : ℕ)
    → length values < fuel
    → all_readable (value ∷ values) ≡ true
    → read_line fuel (csv_line (csv_escape value) (map csv_escape values) ++ rest)
      ≡ some (value ∷ values, rest)
unfolding read_line csv_line cons_value all_readable
read_line-csv_line values value rest zero l k = absurd (omega arith)
read_line-csv_line [] value rest (suc fuel) l k =
    rw
      (
        append_assoc (csv_escape value) (newline ∷ []) rest,
        read_line,
        read_field-csv_escape value rest newline refl (ground (arith, k)),
      )
      refl
read_line-csv_line (next ∷ values) value rest (suc fuel) l k =
    let line = csv_line (csv_escape next) (map csv_escape values) in
    rw
      (
        append_assoc (csv_escape value) (comma ∷ line) rest,
        read_line,
        read_field-csv_escape value (line ++ rest) comma refl (ground (arith, k)),
        read_line-csv_line values next rest fuel (omega arith) (ground (arith, k)),
      )
      refl

-- A field that needs no quotes is written as it is.
pub csv_escape-plain : (value : Bytes) → needs_quotes value ≡ false → csv_escape value ≡ value
unfolding csv_escape
csv_escape-plain value h = rw h refl
