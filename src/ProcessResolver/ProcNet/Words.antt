-- ===== src/ProcessResolver/ProcNet/Words.antt =====
-- The words of a line, as src/core/ProcessResolver.cpp reads them, and decimal numbers in them.
use mathlib.Core.List.{append-nil}
use netprobe_cpp.Base.{
  ℕ, zero, suc, ◌+◌, ◌-◌, ◌*◌, ◌^◌, ◌<◌, ◌≡◌, refl, ◌∙◌, arith, Bool, true, false, some, ◌&&◌, not,
  ◌==◌, List, [], ◌∷◌, ◌++◌, All, length, get_or, Bytes, is_empty, is_digit, all_digits,
  digits_value, to_string, to_string-digits,
}
use netprobe_cpp.ProcessResolver.ProcNet.{
  is_space, decimal_prefix, strtoull_decimal, close_word, split_words, words, split_colon,
}

pub spaces : ℕ → Bytes
spaces zero = []
spaces (suc n) = 32 ∷ spaces n

-- Words with any number of spaces before each but the first one, of which there is one at least, and
-- with spaces behind the last one.
pub spaced : List (ℕ × Bytes) → ℕ → Bytes
spaced [] behind = spaces behind
spaced ((more, w) ∷ ws) behind = 32 ∷ (spaces more ++ (w ++ spaced ws behind))

-- The words without the spaces.
abbrev pub words_of : List (ℕ × Bytes) → List Bytes
words_of [] = []
words_of ((more, w) ∷ ws) = w ∷ words_of ws

unfoldable pub has_no : (ℕ → Bool) → Bytes → Bool
has_no p [] = true
has_no p (c ∷ text) = not (p c) && has_no p text

-- Not empty, and without a space.
unfoldable pub is_word : Bytes → Bool
is_word w = not (is_empty w) && has_no is_space w

pub has_no-append :
    (p : ℕ → Bool) (s t : Bytes) → has_no p s ≡ true → has_no p t ≡ true → has_no p (s ++ t) ≡ true
unfolding has_no
has_no-append p [] t h k = k
has_no-append p (c ∷ s) t h k = ground (arith, has_no-append p s t, h, k)

split_words-append :
    (w text : Bytes)
    → has_no is_space w ≡ true
    → split_words (w ++ text) ≡ (w ++ (split_words text).0, (split_words text).1)
unfolding split_words has_no
split_words-append [] text h = refl
split_words-append (c ∷ w) text h =
    let plain : is_space c ≡ false = ground (arith, h) in
    rw (plain, split_words-append w text (ground (arith, h))) refl

close_word-word : (w : Bytes) (ws : List Bytes) → is_word w ≡ true → close_word w ws ≡ w ∷ ws
unfolding close_word is_word is_empty
close_word-word [] ws h = absurd (ground (arith, h))
close_word-word (c ∷ w) ws h = refl

is_word-no_space : (w : Bytes) → is_word w ≡ true → has_no is_space w ≡ true
unfolding is_word
is_word-no_space w h = ground (arith, h)

words-spaces : (n : ℕ) (text : Bytes) → words (spaces n ++ text) ≡ words text
unfolding words split_words spaces is_space close_word
words-spaces zero text = refl
words-spaces (suc n) text = words-spaces n text

-- A word and the words behind it, where the rest begins with no word.
words-append :
    (w text : Bytes) (ws : List Bytes)
    → is_word w ≡ true
    → split_words text ≡ ([], ws)
    → words (w ++ text) ≡ w ∷ ws
unfolding words
words-append w text ws h e =
    rw (split_words-append w text (is_word-no_space w h), e, append-nil w, close_word-word w ws h)
      refl

split_words-space : (text : Bytes) → split_words (32 ∷ text) ≡ ([], words text)
unfolding split_words is_space words
split_words-space text = refl

split_words-spaces : (n : ℕ) → split_words (spaces n) ≡ ([], [])
unfolding split_words spaces is_space close_word
split_words-spaces zero = refl
split_words-spaces (suc n) = rw (split_words-spaces n) refl

split_words-spaced :
    (ws : List (ℕ × Bytes)) (behind : ℕ)
    → All (λ w. is_word w ≡ true) (words_of ws)
    → split_words (spaced ws behind) ≡ ([], words_of ws)
unfolding spaced
split_words-spaced [] behind a = split_words-spaces behind
split_words-spaced ((more, w) ∷ ws) behind a =
    rw
      (
        split_words-space (spaces more ++ (w ++ spaced ws behind)),
        words-spaces more (w ++ spaced ws behind),
        words-append w (spaced ws behind) (words_of ws) a.0 (split_words-spaced ws behind a.1),
      )
      refl

-- The words of a line with spaces before its first word.
pub words-spaced :
    (before : ℕ) (w : Bytes) (ws : List (ℕ × Bytes)) (behind : ℕ)
    → is_word w ≡ true
    → All (λ w. is_word w ≡ true) (words_of ws)
    → words (spaces before ++ (w ++ spaced ws behind)) ≡ w ∷ words_of ws
words-spaced before w ws behind h a =
    words-spaces before (w ++ spaced ws behind)
    ∙ words-append w (spaced ws behind) (words_of ws) h (split_words-spaced ws behind a)

pub words_of-append :
    (front behind : List (ℕ × Bytes))
    → words_of (front ++ behind) ≡ words_of front ++ words_of behind
words_of-append [] behind = refl
words_of-append ((n, w) ∷ front) behind = rw (words_of-append front behind) refl

pub split_colon-append :
    (before behind : Bytes)
    → has_no (λ c. c == b':') before ≡ true
    → split_colon (before ++ (b':' ∷ behind)) ≡ some (before, behind)
unfolding split_colon has_no
split_colon-append [] behind h = refl
split_colon-append (c ∷ before) behind h =
    let other : (c == b':') ≡ false = ground (arith, h) in
    rw (other, split_colon-append before behind (ground (arith, h))) refl

decimal_prefix-digits_value :
    (text : Bytes) (value : ℕ)
    → all_digits text ≡ true
    → decimal_prefix value text ≡ digits_value value text
unfolding decimal_prefix digits_value all_digits
decimal_prefix-digits_value [] value h = refl
decimal_prefix-digits_value (c ∷ text) value h =
    let digit : is_digit c ≡ true = ground (arith, h) in
    rw (decimal_prefix, digit)
      (decimal_prefix-digits_value text (value * 10 + (c - b'0')) (ground (arith, h)))

pub strtoull_decimal-to_string : (n : ℕ) → n < 2 ^ 64 → strtoull_decimal (to_string n) ≡ n
unfolding strtoull_decimal
strtoull_decimal-to_string n h =
    let value : decimal_prefix 0 (to_string n) ≡ n =
      decimal_prefix-digits_value (to_string n) 0 (to_string-digits n).0 ∙ (to_string-digits n).1 in
    rw value (omega (arith, h))

pub get_or-append :
    (front : List Bytes) (w : Bytes) (behind : List Bytes)
    → get_or (front ++ (w ∷ behind)) (length front) [] ≡ w
get_or-append [] w behind = refl
get_or-append (f ∷ front) w behind = get_or-append front w behind

digits-no_space : (text : Bytes) → all_digits text ≡ true → has_no is_space text ≡ true
unfolding all_digits has_no is_digit is_space
digits-no_space [] h = refl
digits-no_space (c ∷ text) h = ground (arith, h, digits-no_space text)

digits-not_empty : (text : Bytes) (n : ℕ) → digits_value 0 text ≡ n → 0 < n → is_empty text ≡ false
unfolding digits_value is_empty
digits-not_empty [] n e h = absurd (omega (arith, e, h))
digits-not_empty (c ∷ text) n e h = refl

pub to_string-IsWord : (n : ℕ) → 0 < n → is_word (to_string n) ≡ true
unfolding is_word
to_string-IsWord n h =
    let plain = digits-no_space (to_string n) (to_string-digits n).0 in
    let some_digit = digits-not_empty (to_string n) n (to_string-digits n).1 h in
    rw (some_digit, plain) refl
