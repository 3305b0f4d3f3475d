-- ===== src/Ui/FlowTable/Comparisons.antt =====
-- The comparisons of src/ui/FlowsView.cpp are those of total preorders.
use netprobe_cpp.Base.{
  ◌≡◌, refl, arith, Bool, true, false, ◌&&◌, ◌||◌, not, leb, if◌then◌else◌, Bytes, [], ◌∷◌, text_le,
  text_le_total, ltb_ℤ,
}
use netprobe_cpp.Flow.Key.{FlowKey}
use netprobe_cpp.Ui.FlowTable.{
  Comparison, same, three_way, compare_ℕ, compare_ℤ, compare_text, service_first, or_else,
}

-- A total preorder, by its test.
abbrev pub IsPreorder {ℓ} : {A : Type ℓ} → (A → A → Bool) → Type ℓ
IsPreorder {A = A} le =
    ((x y : A) → (le x y || le y x) ≡ true)
    × ((x y z : A) → le x y ≡ true → le y z ≡ true → le x z ≡ true)

-- The comparison is that of a total preorder.
abbrev pub IsComparison {ℓ} : {A : Type ℓ} → (A → A → Comparison) → Type ℓ
IsComparison {A = A} c =
    (le : A → A → Bool) × IsPreorder le
    × ((x y : A) → c x y ≡ three_way (not (le y x)) (not (le x y)))

text_le_trans : (s t u : Bytes) → text_le s t ≡ true → text_le t u ≡ true → text_le s u ≡ true
unfolding text_le
text_le_trans [] t u h k = refl
text_le_trans (a ∷ s) [] u h k = absurd (ground (arith, h))
text_le_trans (a ∷ s) (b ∷ t) [] h k = absurd (ground (arith, k))
text_le_trans (a ∷ s) (b ∷ t) (c ∷ u) h k = ground (arith, h, k, text_le_trans s t u)

text-IsPreorder : IsPreorder text_le
text-IsPreorder = (λ s t. ground (arith, text_le_total s t), text_le_trans)

pub text-IsComparison : IsComparison compare_text
unfolding compare_text
text-IsComparison = (text_le, text-IsPreorder, λ s t. refl)

pub numbers-IsComparison : IsComparison compare_ℕ
unfolding compare_ℕ
numbers-IsComparison =
    (leb, (λ a b. ground arith, λ a b c h k. ground (arith, h, k)), λ a b. ground arith)

pub integers-IsComparison : IsComparison compare_ℤ
unfolding compare_ℤ
integers-IsComparison = (
  (λ a b. not (ltb_ℤ b a)),
  (λ a b. ground arith, λ a b c h k. ground (arith, h, k)),
  λ a b. ground arith,
)

-- A comparison by a value is a comparison.
pub along-IsComparison {ℓ κ} :
    {A : Type ℓ} {B : Type κ} (f : A → B) (c : B → B → Comparison)
    → IsComparison c
    → IsComparison (λ x y. c (f x) (f y))
along-IsComparison f c (le, (total, trans), e) = (
  (λ x y. le (f x) (f y)),
  (λ x y. total (f x) (f y), λ x y z. trans (f x) (f y) (f z)),
  λ x y. e (f x) (f y),
)

-- The second test decides among what the first finds alike.
by_both {ℓ} : {A : Type ℓ} → (A → A → Bool) → (A → A → Bool) → A → A → Bool
by_both le le' x y = le x y && (not (le y x) || le' x y)

by_both-IsPreorder {ℓ} :
    {A : Type ℓ} (le le' : A → A → Bool)
    → IsPreorder le
    → IsPreorder le'
    → IsPreorder (by_both le le')
unfolding by_both
by_both-IsPreorder le le' (total, trans) (total', trans') = (
  λ x y. ground (arith, total x y, total' x y),
  λ x y z h k. ground (arith, h, k, trans x y z, trans' x y z, trans z x y, trans y z x, total x y),
)

pub or_else-IsComparison {ℓ} :
    {A : Type ℓ} (c d : A → A → Comparison)
    → IsComparison c
    → IsComparison d
    → IsComparison (λ x y. or_else (c x y) (d x y))
unfolding by_both or_else three_way
or_else-IsComparison c d (le, p, e) (le', p', e') = (
  by_both le le',
  by_both-IsPreorder le le' p p',
  λ x y. rw (e x y, e' x y) (tests (le x y) (le y x) (le' x y) (le' y x) (p.0 x y)),
)
  where
    tests :
        (a b a' b' : Bool)
        → (a || b) ≡ true
        → or_else (three_way (not b) (not a)) (three_way (not b') (not a'))
          ≡ three_way (not (b && (not a || b'))) (not (a && (not b || a')))
    tests true true a' b' h = refl
    tests true false a' b' h = refl
    tests false true a' b' h = refl
    tests false false a' b' h = absurd (ground (arith, h))

pub choice-IsComparison {ℓ} :
    {A : Type ℓ} (b : Bool) (c d : A → A → Comparison)
    → IsComparison c
    → IsComparison d
    → IsComparison (λ x y. if b then c x y else d x y)
choice-IsComparison true c d p q = p
choice-IsComparison false c d p q = q

service_le : FlowKey → FlowKey → Bool
service_le = by_both (λ l r. text_le l.protocol r.protocol) (λ l r. leb l.dst_port r.dst_port)

service_first-service_le : (l r : FlowKey) → service_first l r ≡ not (service_le r l)
unfolding service_first service_le by_both
service_first-service_le l r =
    ground (arith, text_le_total l.protocol r.protocol, text_le_total r.protocol l.protocol)

pub services-IsComparison : IsComparison (λ l r. three_way (service_first l r) (service_first r l))
unfolding service_le
services-IsComparison = (
  service_le,
  by_both-IsPreorder (λ l r. text_le l.protocol r.protocol) (λ l r. leb l.dst_port r.dst_port)
      (
        λ l r. ground (arith, text_le_total l.protocol r.protocol),
        λ l r s. text_le_trans l.protocol r.protocol s.protocol,
      )
      (λ l r. ground arith, λ l r s h k. ground (arith, h, k)),
  λ l r. rw (service_first-service_le l r, service_first-service_le r l) refl,
)

pub all_same-IsComparison {ℓ} : {A : Type ℓ} → IsComparison {A = A} (λ x y. same)
unfolding three_way
all_same-IsComparison = (λ x y. true, (λ x y. refl, λ x y z h k. refl), λ x y. refl)
