-- ===== src/FlowExporter/Json/Utf8/Valid.antt =====
-- The validation in `appendJsonString` of src/core/FlowExporter.cpp takes the sequences of RFC 3629,
-- and no others.
use netprobe_cpp.Base.{
  ℕ, suc, ◌+◌, ◌-◌, ◌*◌, ◌%◌, ◌<◌, ◌≡◌, refl, ◌∙◌, arith, Bool, true, false, some, ◌&&◌, not, none,
  leb, ◌==◌, if◌then◌else◌, [], ◌∷◌, Bytes, length, Bool-cases, inl, inr, ◌⊎◌,
}
use netprobe_cpp.FlowExporter.Json.{
  sequence_length, first_bits, continuations, is_overlong, is_surrogate, is_scalar, is_valid,
}
use netprobe_cpp.FlowExporter.Json.Utf8.{
  more_bytes, lowest, highest, has_tails, is_utf8, length_of, bits_of, sequence_length-ranges,
  first_bits-ranges, tail_bits, tail_test, tail_test-bits, AreBytes,
}

-- A code point in the order of its bits, as the loop computes it, where the bytes are tails.
step :
    (left codepoint b : ℕ) (bytes : Bytes)
    → b < 256
    → continuations (suc left) codepoint (b ∷ bytes)
      ≡ (if not (tail_test b) then none else continuations left (codepoint * 64 + b % 64) bytes)
unfolding continuations
step left codepoint b bytes h = rw ((tail_bits b h).1, tail_test-bits b h) refl

last_step :
    (codepoint b : ℕ) (bytes : Bytes)
    → b < 256
    → continuations 1 codepoint (b ∷ bytes)
      ≡ (if not (tail_test b) then none else some (codepoint * 64 + b % 64))
unfolding continuations
last_step codepoint b bytes h = step 0 codepoint b bytes h

no_scalar : (n : ℕ) → is_scalar n none ≡ false
unfolding is_scalar
no_scalar n = refl

two :
    (c b : ℕ) (bytes : Bytes)
    → c < 256
    → b < 256
    → sequence_length c ≡ 2
    → length_of c ≡ 2
    → first_bits c ≡ bits_of c
    → is_valid c (b ∷ bytes) ≡ is_utf8 c (b ∷ bytes)
unfolding is_valid is_utf8 has_tails more_bytes lowest highest length_of bits_of continuations
    is_scalar is_overlong is_surrogate tail_test
two c b bytes h k s l f = rw (s, f, step 0 (bits_of c) b bytes k) (ground (arith, l))

three :
    (c b d : ℕ) (bytes : Bytes)
    → c < 256
    → b < 256
    → d < 256
    → sequence_length c ≡ 3
    → length_of c ≡ 3
    → first_bits c ≡ bits_of c
    → is_valid c (b ∷ d ∷ bytes) ≡ is_utf8 c (b ∷ d ∷ bytes)
unfolding is_valid is_utf8 has_tails more_bytes lowest highest length_of bits_of continuations
    is_scalar is_overlong is_surrogate tail_test
three c b d bytes h k k' s l f =
    rw (s, f, step 1 (bits_of c) b (d ∷ bytes) k, step 0 (bits_of c * 64 + b % 64) d bytes k')
      (ground (arith, l))

four_scalar :
    (c b z w : ℕ)
    → length_of c ≡ 4
    → tail_test b ≡ true
    → z < 64
    → w < 64
    → is_scalar 4 (some (((bits_of c * 64 + b % 64) * 64 + z) * 64 + w))
      ≡ (not (more_bytes c == 0) && leb (lowest c) b && leb b (highest c))
unfolding more_bytes lowest highest length_of bits_of is_scalar is_overlong is_surrogate tail_test
four_scalar c b z w l t hz hw = ground arith

-- The second byte of four.
abbrev second : ℕ → ℕ → Bool
second c b = not (more_bytes c == 0) && leb (lowest c) b && leb b (highest c)

second-tail : (c b : ℕ) → tail_test b ≡ false → second c b ≡ false
unfolding lowest highest tail_test
second-tail c b t = ground arith

is_utf8-four :
    (c b d e : ℕ) (bytes : Bytes)
    → length_of c ≡ 4
    → is_utf8 c (b ∷ d ∷ e ∷ bytes) ≡ (second c b && (tail_test d && tail_test e))
unfolding is_utf8 more_bytes has_tails length_of tail_test
is_utf8-four c b d e bytes l = ground (arith, l)

four :
    (c b d e : ℕ) (bytes : Bytes)
    → b < 256
    → d < 256
    → e < 256
    → sequence_length c ≡ 4
    → length_of c ≡ 4
    → first_bits c ≡ bits_of c
    → is_valid c (b ∷ d ∷ e ∷ bytes) ≡ is_utf8 c (b ∷ d ∷ e ∷ bytes)
unfolding is_valid is_utf8
four c b d e bytes k k' k'' s l f =
    rw
      (
        s,
        f,
        step 2 (bits_of c) b (d ∷ e ∷ bytes) k,
        step 1 (bits_of c * 64 + b % 64) d (e ∷ bytes) k',
        last_step ((bits_of c * 64 + b % 64) * 64 + d % 64) e bytes k'',
        is_utf8-four c b d e bytes l,
      )
      (elim (Bool-cases (tail_test b)) [
        | inr other ↦ rw (other, second-tail c b other, no_scalar 4) (ground arith)
        | inl first ↦ elim (Bool-cases (tail_test d)) [
          | inr other ↦ rw (first, other, no_scalar 4) (ground arith)
          | inl next ↦ elim (Bool-cases (tail_test e)) [
            | inr other ↦ rw (first, next, other, no_scalar 4) (ground arith)
            | inl last ↦
                rw
                  (
                    first,
                    next,
                    last,
                    four_scalar c b (d % 64) (e % 64) l first (omega arith) (omega arith),
                  )
                  (ground arith)
          ]
        ]
      ])

-- Where too few bytes are left.
few :
    (c n : ℕ) (bytes : Bytes)
    → sequence_length c ≡ suc n
    → length_of c ≡ suc n
    → length bytes < n
    → is_valid c bytes ≡ is_utf8 c bytes
unfolding is_valid is_utf8 more_bytes length_of has_tails
few c n [] s l h = rw s (ground (arith, h))
few c n (b ∷ []) s l h = rw s (ground (arith, l, h))
few c n (b ∷ d ∷ []) s l h = rw s (ground (arith, l, h))
few c n (b ∷ d ∷ e ∷ bytes) s l h = absurd (ground (arith, l, h))

-- No first byte of several.
other_byte :
    (c : ℕ) (bytes : Bytes)
    → sequence_length c ≡ 0
    → length_of c ≡ 0
    → is_valid c bytes ≡ is_utf8 c bytes
unfolding is_valid is_utf8 more_bytes length_of
other_byte c [] s l = rw s refl
other_byte c (b ∷ bytes) s l = rw s (ground (arith, l))

length_of-cases :
    (c : ℕ) → (length_of c ≡ 0) ⊎ (length_of c ≡ 2) ⊎ (length_of c ≡ 3) ⊎ (length_of c ≡ 4)
unfolding length_of
length_of-cases c = ground arith

-- The validation of the loop and the sequences of RFC 3629 are the same on bytes.
pub is_valid-is_utf8 :
    (c : ℕ) (bytes : Bytes) → c < 256 → AreBytes bytes → is_valid c bytes ≡ is_utf8 c bytes
is_valid-is_utf8 c bytes h a = go bytes a (length_of-cases c)
  where
    s : sequence_length c ≡ length_of c
    s = sequence_length-ranges c h

    f : first_bits c ≡ bits_of c
    f = first_bits-ranges c h

    go :
        (bytes : Bytes)
        → AreBytes bytes
        → (length_of c ≡ 0) ⊎ (length_of c ≡ 2) ⊎ (length_of c ≡ 3) ⊎ (length_of c ≡ 4)
        → is_valid c bytes ≡ is_utf8 c bytes
    go bytes a (inl l) = other_byte c bytes (s ∙ l) l
    go [] a (inr (inl l)) = few c 1 [] (s ∙ l) l (omega arith)
    go (b ∷ bytes) a (inr (inl l)) = two c b bytes h (a.0) (s ∙ l) l f
    go [] a (inr (inr (inl l))) = few c 2 [] (s ∙ l) l (omega arith)
    go (b ∷ []) a (inr (inr (inl l))) = few c 2 (b ∷ []) (s ∙ l) l (omega arith)
    go (b ∷ d ∷ bytes) a (inr (inr (inl l))) = three c b d bytes h (a.0) (a.1.0) (s ∙ l) l f
    go [] a (inr (inr (inr l))) = few c 3 [] (s ∙ l) l (omega arith)
    go (b ∷ []) a (inr (inr (inr l))) = few c 3 (b ∷ []) (s ∙ l) l (omega arith)
    go (b ∷ d ∷ []) a (inr (inr (inr l))) = few c 3 (b ∷ d ∷ []) (s ∙ l) l (omega arith)
    go (b ∷ d ∷ e ∷ bytes) a (inr (inr (inr l))) = four c b d e bytes a.0 a.1.0 a.1.1.0 (s ∙ l) l f

-- And then so are the numbers of bytes that follow.
pub is_utf8-more_bytes :
    (c : ℕ) (bytes : Bytes)
    → c < 256
    → is_utf8 c bytes ≡ true
    → sequence_length c - 1 ≡ more_bytes c
is_utf8-more_bytes c bytes h v = rw (sequence_length-ranges c h) (by_first bytes v)
  where
    several : (more_bytes c == 0) ≡ false → length_of c - 1 ≡ more_bytes c
    several v = unfold more_bytes length_of in ground (arith, v)

    by_first : (bytes : Bytes) → is_utf8 c bytes ≡ true → length_of c - 1 ≡ more_bytes c
    by_first [] v = absurd (unfold is_utf8 in ground (arith, v))
    by_first (b ∷ bytes) v = several (unfold is_utf8 in ground (arith, v))
