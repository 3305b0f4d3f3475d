-- ===== src/GeoIpResolver/Cached.antt =====
-- The cache of src/core/GeoIPResolver.cpp: its answers are those of the databases, and it is bounded.
use Prim.Native.Nat.{max}
use netprobe_cpp.Base.{
  ℕ, ◌+◌, ◌≤◌, ◌≡◌, refl, sym, ap, ◌∙◌, arith, true, false, Bool-cases, inl, inr, List, [], ◌∷◌,
  map, length, Bytes, text_eq, text_eq_iff, is_empty, ltb, if◌then◌else◌, find_entry, Outcome, done,
  ◌>>=◌, Ensures, >>=-Ensures, if-Ensures,
}
use netprobe_cpp.GeoIpResolver.{
  GeoInfo, Database, Resolver, make, query, no_info, hit, insert_front, miss, lookup,
}
use netprobe_cpp.GeoIpResolver.Entries.{
  has_entry, IsUnique, IsRight, text_eq_refl, find_entry-right, erase_entry-IsRight,
  has_entry-erase_entry, erase_entry-IsUnique, length-erase_entry, length-drop_last,
  drop_last-IsRight, has_entry-drop_last, drop_last-IsUnique,
}

-- What `lookup` says where nothing is kept.
pub answer : Database → Bytes → GeoInfo
answer d ip = if is_empty ip then no_info else query d ip

-- The index tells of exactly the entries, which are right and fit.
abbrev pub IsCached : Database → ℕ → Resolver → Type 0
IsCached d capacity r =
    (r.database ≡ d)
    × (r.cache_capacity ≡ capacity)
    × ((ip : Bytes) → r.cache_index ip ≡ has_entry ip r.cache)
    × IsUnique r.cache
    × IsRight d r.cache
    × (length r.cache ≤ capacity)

-- The invariant again, and the answer.
abbrev pub Answers : Database → ℕ → Bytes → Resolver × GeoInfo → Type 0
Answers d capacity ip (r, info) = IsCached d capacity r × (info ≡ answer d ip)

hit-Answers :
    (d : Database) (capacity : ℕ) (r : Resolver) (ip : Bytes)
    → IsCached d capacity r
    → is_empty ip ≡ false
    → r.cache_index ip ≡ true
    → Ensures (Answers d capacity ip) (hit r ip (find_entry text_eq ip r.cache))
unfolding hit has_entry answer
hit-Answers d capacity r ip (base, size, index, unique, right, fits) e h =
    let there : has_entry ip r.cache ≡ true = sym (index ip) ∙ h in
    rw (find_entry-right d ip r.cache right there) (
      (
        base,
        size,
        (λ other. ground (
          arith,
          index other,
          there,
          has_entry-erase_entry ip other r.cache unique,
          text_eq_iff ip other,
          text_eq_iff other ip,
        )),
        (
          ground (arith, has_entry-erase_entry ip ip r.cache unique, text_eq_refl ip),
          erase_entry-IsUnique ip r.cache unique,
        ),
        (refl, erase_entry-IsRight d ip r.cache right),
        omega (arith, fits, length-erase_entry ip r.cache there),
      ),
      ground (arith, e),
    )

insert_front-IsCached :
    (d : Database) (capacity : ℕ) (r : Resolver) (ip : Bytes) (info : GeoInfo)
    → IsCached d capacity r
    → r.cache_index ip ≡ false
    → info ≡ query d ip
    → IsCached d capacity (insert_front r ip info)
unfolding insert_front has_entry
insert_front-IsCached d capacity r ip info (base, size, index, unique, right, fits) h q =
    let e : Bytes × GeoInfo = (ip, info) in
    let new : IsUnique (e ∷ r.cache) = (sym (index ip) ∙ h, unique) in
    elim (Bool-cases (ltb r.cache_capacity (length r.cache + 1))) [
      | inl full ↦ rw full (
        base,
        size,
        (λ other. ground (
          arith,
          index other,
          has_entry-drop_last other e r.cache new,
          text_eq_iff ip other,
          text_eq_iff other ip,
        )),
        drop_last-IsUnique e r.cache new,
        drop_last-IsRight d e r.cache (q, right),
        omega (arith, fits, length-drop_last e r.cache),
      )
      | inr room ↦ rw room (
        base,
        size,
        (λ other. ground (arith, index other, text_eq_iff ip other, text_eq_iff other ip)),
        new,
        (q, right),
        ground (arith, room, size),
      )
    ]

lookup-Answers :
    (d : Database) (capacity : ℕ) (r : Resolver) (ip : Bytes)
    → IsCached d capacity r
    → Ensures (Answers d capacity ip) (lookup r ip)
unfolding lookup miss answer
lookup-Answers d capacity r ip c =
    if-Ensures (Answers d capacity ip) (is_empty ip) _ _ (λ e. (c, ground (arith, e)))
      λ e.
        if-Ensures (Answers d capacity ip) (r.cache_index ip) _ _
          (λ h. hit-Answers d capacity r ip c e h)
          λ h. (
            insert_front-IsCached d capacity r ip (query r.database ip) c h
                (ap (λ b. query b ip) c.0),
            rw e (ap (λ b. query b ip) c.0),
          )

-- One lookup after the other: the resolver at the end, and the answers.
pub lookup_all : Resolver → List Bytes → Outcome (Resolver × List GeoInfo)
lookup_all r [] = done (r, [])
lookup_all r (ip ∷ ips) = do q ← lookup r ip; rest ← lookup_all q.0 ips; done (rest.0, q.1 ∷ rest.1)

abbrev pub AnswersAll : Database → ℕ → List Bytes → Resolver × List GeoInfo → Type 0
AnswersAll d capacity ips (r, infos) = (length r.cache ≤ capacity) × (infos ≡ map (answer d) ips)

lookup_all-Ensures :
    (d : Database) (capacity : ℕ) (r : Resolver) (ips : List Bytes)
    → IsCached d capacity r
    → Ensures (AnswersAll d capacity ips) (lookup_all r ips)
unfolding lookup_all
lookup_all-Ensures d capacity r [] c = (c.5, refl)
lookup_all-Ensures d capacity r (ip ∷ ips) c =
    >>=-Ensures (Answers d capacity ip) (AnswersAll d capacity (ip ∷ ips)) (lookup r ip) _
      (lookup-Answers d capacity r ip c)
      λ q a.
        >>=-Ensures (AnswersAll d capacity ips) (AnswersAll d capacity (ip ∷ ips))
          (lookup_all q.0 ips) _ (lookup_all-Ensures d capacity q.0 ips a.0)
          λ rest b. (b.0, rw (a.1, b.1) refl)

-- A new resolver, asked for any addresses one after the other, says of each what the databases say
-- of it, whether it is kept from before or not, follows no stale iterator, and keeps at most as many
-- answers as its capacity, or one for a capacity of 0.
pub lookup_all-AnswersAll :
    (d : Database) (capacity : ℕ) (ips : List Bytes)
    → Ensures (AnswersAll d (max capacity 1) ips) (lookup_all (make d capacity) ips)
unfolding make has_entry
lookup_all-AnswersAll d capacity ips =
    lookup_all-Ensures d (max capacity 1) (make d capacity) ips
      (refl, ground arith, λ ip. refl, tt, tt, omega arith)
