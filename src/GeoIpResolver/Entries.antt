-- ===== src/GeoIpResolver/Entries.antt =====
-- Entries of the cache of src/core/GeoIPResolver.cpp that are found, moved and dropped.
use netprobe_cpp.Base.{
  suc, ◌+◌, ◌≡◌, refl, ap, ◌∙◌, arith, Bool, true, false, Bool-cases, some, ◌&&◌, ◌||◌, not, inl,
  inr, List, [], ◌∷◌, length, Bytes, text_eq, text_eq_iff, find_entry, erase_entry,
}
use netprobe_cpp.GeoIpResolver.{GeoInfo, Database, query, last_entry, drop_last}

unfoldable pub has_entry : Bytes → List (Bytes × GeoInfo) → Bool
has_entry ip [] = false
has_entry ip ((k, info) ∷ cache) = text_eq k ip || has_entry ip cache

-- No address has two entries.
abbrev pub IsUnique : List (Bytes × GeoInfo) → Type 0
IsUnique [] = Unit {0}
IsUnique ((k, info) ∷ cache) = (has_entry k cache ≡ false) × IsUnique cache

-- Every entry holds what the databases say.
abbrev pub IsRight : Database → List (Bytes × GeoInfo) → Type 0
IsRight d [] = Unit {0}
IsRight d ((k, info) ∷ cache) = (info ≡ query d k) × IsRight d cache

pub text_eq_refl : (s : Bytes) → text_eq s s ≡ true
text_eq_refl s = (text_eq_iff s s).1 refl

pub find_entry-right :
    (d : Database) (ip : Bytes) (cache : List (Bytes × GeoInfo))
    → IsRight d cache
    → has_entry ip cache ≡ true
    → find_entry text_eq ip cache ≡ some (query d ip)
unfolding find_entry has_entry
find_entry-right d ip [] r h = ground arith
find_entry-right d ip ((k, info) ∷ cache) r h = elim (Bool-cases (text_eq k ip)) [
  | inl same ↦ rw same (ap some (r.0 ∙ ap (query d) ((text_eq_iff k ip).0 same)))
  | inr other ↦ rw other (find_entry-right d ip cache r.1 (ground (arith, h, other)))
]

pub erase_entry-IsRight :
    (d : Database) (ip : Bytes) (cache : List (Bytes × GeoInfo))
    → IsRight d cache
    → IsRight d (erase_entry text_eq ip cache)
unfolding erase_entry
erase_entry-IsRight d ip [] r = tt
erase_entry-IsRight d ip ((k, info) ∷ cache) r = ground (arith, erase_entry-IsRight d ip cache r.1)

pub has_entry-erase_entry :
    (ip other : Bytes) (cache : List (Bytes × GeoInfo))
    → IsUnique cache
    → has_entry other (erase_entry text_eq ip cache)
      ≡ (has_entry other cache && not (text_eq other ip))
unfolding erase_entry has_entry
has_entry-erase_entry ip other [] u = refl
has_entry-erase_entry ip other ((k, info) ∷ cache) u = elim (Bool-cases (text_eq k ip)) [
  | inl same ↦ ground (arith, text_eq_iff k ip, text_eq_iff other ip, text_eq_iff k other, u.0)
  | inr differ ↦ ground (
    arith,
    has_entry-erase_entry ip other cache u.1,
    text_eq_iff k ip,
    text_eq_iff other ip,
    text_eq_iff k other,
  )
]

pub erase_entry-IsUnique :
    (ip : Bytes) (cache : List (Bytes × GeoInfo))
    → IsUnique cache
    → IsUnique (erase_entry text_eq ip cache)
unfolding erase_entry
erase_entry-IsUnique ip [] u = tt
erase_entry-IsUnique ip ((k, info) ∷ cache) u = elim (Bool-cases (text_eq k ip)) [
  | inl same ↦ rw same u.1
  | inr differ ↦
      rw differ (
        ground (arith, has_entry-erase_entry ip k cache u.1, u.0),
        erase_entry-IsUnique ip cache u.1,
      )
]

pub length-erase_entry :
    (ip : Bytes) (cache : List (Bytes × GeoInfo))
    → has_entry ip cache ≡ true
    → length (erase_entry text_eq ip cache) + 1 ≡ length cache
unfolding erase_entry has_entry
length-erase_entry ip [] h = ground arith
length-erase_entry ip ((k, info) ∷ cache) h = ground (arith, length-erase_entry ip cache)

pub length-drop_last :
    (e : Bytes × GeoInfo) (cache : List (Bytes × GeoInfo))
    → length (drop_last e cache) ≡ length cache
unfolding drop_last
length-drop_last e [] = refl
length-drop_last e (f ∷ cache) = ap suc (length-drop_last f cache)

pub drop_last-IsRight :
    (d : Database) (e : Bytes × GeoInfo) (cache : List (Bytes × GeoInfo))
    → IsRight d (e ∷ cache)
    → IsRight d (drop_last e cache)
unfolding drop_last
drop_last-IsRight d e [] r = tt
drop_last-IsRight d (k, info) (f ∷ cache) r = (r.0, drop_last-IsRight d f cache r.1)

-- Of addresses that differ, the last one stands nowhere else.
pub has_entry-drop_last :
    (other : Bytes) (e : Bytes × GeoInfo) (cache : List (Bytes × GeoInfo))
    → IsUnique (e ∷ cache)
    → has_entry other (drop_last e cache)
      ≡ (not (text_eq other (last_entry e cache).0) && has_entry other (e ∷ cache))
unfolding drop_last last_entry has_entry
has_entry-drop_last other (k, info) [] u = ground (arith, text_eq_iff other k, text_eq_iff k other)
has_entry-drop_last other (k, info) ((l, next) ∷ cache) u = ground (
  arith,
  has_entry-drop_last other (l, next) cache u.1,
  last_is_entry (l, next) cache,
  text_eq_iff k other,
  text_eq_iff other (last_entry (l, next) cache).0,
  u.0,
)
  where
    last_is_entry :
        (e : Bytes × GeoInfo) (rest : List (Bytes × GeoInfo))
        → has_entry (last_entry e rest).0 (e ∷ rest) ≡ true
    last_is_entry (m, i) [] = ground (arith, text_eq_refl m)
    last_is_entry (m, i) (f ∷ rest) = ground (arith, last_is_entry f rest)

pub drop_last-IsUnique :
    (e : Bytes × GeoInfo) (cache : List (Bytes × GeoInfo))
    → IsUnique (e ∷ cache)
    → IsUnique (drop_last e cache)
unfolding drop_last
drop_last-IsUnique e [] u = tt
drop_last-IsUnique (k, info) (f ∷ cache) u =
    (ground (arith, has_entry-drop_last k f cache u.1, u.0), drop_last-IsUnique f cache u.1)
