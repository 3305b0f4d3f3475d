-- ===== src/Protocol/Service/Order.antt =====
-- What the order of the catalog of `identifyService` (src/core/ProtocolParser.cpp) decides.
use netprobe_cpp.Base.{
  ◌≡◌, refl, Bool, true, false, ◌||◌, arith, if◌then◌else◌, List, [], ◌∷◌, Bytes, text_eq,
  text_eq_iff, map, to_lower,
}
use netprobe_cpp.Protocol.Service.Catalog.{Pattern, catalog}
use netprobe_cpp.Protocol.Service.{starts_with, contains, first_match, identify_service}

starts_with_trans :
    (n w t : Bytes) → starts_with n w ≡ true → starts_with w t ≡ true → starts_with n t ≡ true
unfolding starts_with
starts_with_trans [] w t h k = refl
starts_with_trans (a ∷ n) [] t h k = cc
starts_with_trans (a ∷ n) (b ∷ w) [] h k = cc
starts_with_trans (a ∷ n) (b ∷ w) (c ∷ t) h k = ground (arith, starts_with_trans n w t)

contains-starts_with :
    (n w t : Bytes) → contains n w ≡ true → starts_with w t ≡ true → contains n t ≡ true
unfolding contains
contains-starts_with n [] [] h k = h
contains-starts_with n [] (c ∷ t) h k = ground (arith, starts_with_trans n [] (c ∷ t))
contains-starts_with n (b ∷ w) [] h k = unfold starts_with in cc
contains-starts_with n (b ∷ w) (c ∷ t) h k =
    ground (arith, starts_with_trans n (b ∷ w) (c ∷ t), contains-starts_with n w t, tails)
  where
    tails : starts_with w t ≡ true
    tails = unfold starts_with in ground arith

contains_trans : (n w t : Bytes) → contains n w ≡ true → contains w t ≡ true → contains n t ≡ true
unfolding contains
contains_trans n w [] h k = contains-starts_with n w [] h k
contains_trans n w (c ∷ t) h k =
    ground (arith, contains-starts_with n w (c ∷ t) h, contains_trans n w t h)

-- The labels of the patterns up to the first whose needle stands in the word.
pub labels_until : Bytes → List Pattern → List Bytes
labels_until word [] = []
labels_until word (p ∷ ps) = p.label ∷ (if contains p.needle word then [] else labels_until word ps)

pub is_one_of : Bytes → List Bytes → Bool
is_one_of l [] = false
is_one_of l (k ∷ ks) = text_eq l k || is_one_of l ks

-- Whether some needle of the list stands in the word.
unfoldable pub is_covered : Bytes → List Pattern → Bool
is_covered word [] = false
is_covered word (p ∷ ps) = contains p.needle word || is_covered word ps

first_match_until :
    (word text : Bytes) (ps : List Pattern)
    → is_covered word ps ≡ true
    → contains word text ≡ true
    → is_one_of (first_match ps text) (labels_until word ps) ≡ true
unfolding first_match labels_until is_one_of is_covered
first_match_until word text [] c h = cc
first_match_until word text (p ∷ ps) c h = ground (
  arith,
  contains_trans p.needle word text,
  (text_eq_iff p.label p.label).1 refl,
  first_match_until word text ps,
)

-- For a word in which some needle of the catalog stands: a hostname that contains the word, in any
-- case of its letters, is given one of the labels that stand in the catalog up to the first pattern
-- whose needle stands in the word.
pub identify_service_until :
    (word hostname : Bytes)
    → is_covered word catalog ≡ true
    → contains word (map to_lower hostname) ≡ true
    → is_one_of (identify_service hostname) (labels_until word catalog) ≡ true
unfolding identify_service
identify_service_until word hostname c h =
    first_match_until word (map to_lower hostname) catalog c h
