-- ===== src/Ui/PacketTable/Cached.antt =====
-- The matches that the packet table of src/ui/PacketView.cpp keeps, and the version they are for.
use netprobe_cpp.Base.{
  ℕ, suc, ◌+◌, ◌%◌, ◌^◌, ◌≤◌, ◌<◌, ◌≡◌, refl, sym, ap, ◌∙◌, arith, true, false, Bool-cases, inl,
  inr, ◌&&◌, List, [], ◌∷◌, length, All, Bytes, Option, text_eq, text_eq_iff,
}
use native.Mathlib.Nat.{mod-eq_of_lt}
use netprobe_cpp.Flow.Key.{FlowKey}
use netprobe_cpp.AnalysisSession.Runs.{IsBounded}
use netprobe_cpp.Ui.View.{PacketRecord, View, no_version}
use netprobe_cpp.Ui.PacketTable.{
  signature, is_shown, matching_from, any_filter, is_stale, find_matches, refresh, indexes_from,
  rows,
}

abbrev pub InHistory : View → List ℕ → Type 0
InHistory v = All (λ i. i < length v.packet_history)

-- The view with another filter.
abbrev pub with_filter : View → Bytes → Option FlowKey → View
with_filter v text key = record v { display_filter = text; packet_flow_filter = key }

-- The cached matches are none, or of an older history, or those of this one under a filter with the
-- signature that is kept with them.
pub data IsCached (v : View) : Type 0 where
  never : v.filter_cache_history_version ≡ no_version → IsCached v
  before : v.filter_cache_history_version < v.packet_history_version → IsCached v
  now :
      (text : Bytes) (key : Option FlowKey)
      → v.filter_cache_history_version ≡ v.packet_history_version
      → v.filter_cache_signature ≡ signature (with_filter v text key)
      → v.filtered_packet_indexes ≡ matching_from (with_filter v text key) 0 v.packet_history
      → IsCached v

-- The version has been raised at most `n` times.
abbrev pub Kept : ℕ → View → Type 0
Kept n v = IsCached v × (v.packet_history_version ≤ n) × IsBounded v.session

-- The matches are those of the filter and the session.
same_matches :
    (v w : View) (text : Bytes) (key : Option FlowKey)
    → w.session ≡ v.session
    → (index : ℕ) (records : List PacketRecord)
    → matching_from (with_filter w text key) index records
      ≡ matching_from (with_filter v text key) index records
unfolding matching_from is_shown
same_matches v w text key e index [] = refl
same_matches v w text key e index (r ∷ records) =
    rw (e, same_matches v w text key e (suc index) records) refl

matching_from-InHistory :
    (v : View) (index n : ℕ) (records : List PacketRecord)
    → index + length records ≡ n
    → All (λ i. i < n) (matching_from v index records)
unfolding matching_from
matching_from-InHistory v index n [] h = tt
matching_from-InHistory v index n (r ∷ records) h =
    let rest = matching_from-InHistory v (suc index) n records (omega (arith, h)) in
    elim (Bool-cases (is_shown v r.parsed)) [
      | inl e ↦ rw e (omega (arith, h), rest)
      | inr e ↦ rw e rest
    ]

indexes_from-InHistory :
    (index n : ℕ) (records : List PacketRecord)
    → index + length records ≡ n
    → All (λ i. i < n) (indexes_from index records)
unfolding indexes_from
indexes_from-InHistory index n [] h = tt
indexes_from-InHistory index n (r ∷ records) h =
    (omega (arith, h), indexes_from-InHistory (suc index) n records (omega (arith, h)))

-- One change of the history makes the cached matches old.
pub next_version :
    (v w : View)
    → IsCached v
    → v.packet_history_version + 1 < no_version
    → w.packet_history_version ≡ (v.packet_history_version + 1) % 2 ^ 64
    → w.filter_cache_history_version ≡ v.filter_cache_history_version
    → IsCached w × (w.packet_history_version ≡ v.packet_history_version + 1)
next_version v w c l e f =
    let plain : (v.packet_history_version + 1) % 2 ^ 64 ≡ v.packet_history_version + 1 =
      mod-eq_of_lt (omega (arith, l)) in
    (old (e ∙ plain) c, e ∙ plain)
  where
    old : w.packet_history_version ≡ v.packet_history_version + 1 → IsCached v → IsCached w
    old next (never g) = never (f ∙ g)
    old next (before g) = before (omega (arith, next, f, g))
    old next (now text key g h i) = before (omega (arith, next, f, g))

pub refresh-Kept : (n : ℕ) (v : View) → Kept n v → Kept n (refresh v)
unfolding refresh find_matches signature
refresh-Kept n v (c, l, b) = elim (Bool-cases (any_filter v && is_stale v)) [
  | inl e ↦
      let found : Kept n (find_matches v) = (
        now v.display_filter v.packet_flow_filter refl refl (
            sym (
              same_matches v (find_matches v) v.display_filter v.packet_flow_filter refl 0
                v.packet_history)),
        l,
        b,
      ) in
      rw e found
  | inr e ↦ let same : Kept n v = (c, l, b) in rw e same
]

any_filter-find_matches : (v : View) → any_filter (find_matches v) ≡ any_filter v
unfolding any_filter find_matches
any_filter-find_matches v = refl

-- The rows of a view with a filter or without: the positions of the history, all of them or those of
-- the packets that the filter shows, or one with the same signature.
pub data AreRows (v : View) (shown : List ℕ) : Type 0 where
  unfiltered : any_filter v ≡ false → shown ≡ indexes_from 0 v.packet_history → AreRows v shown
  filtered :
      (text : Bytes) (key : Option FlowKey)
      → any_filter v ≡ true
      → signature (with_filter v text key) ≡ signature v
      → shown ≡ matching_from (with_filter v text key) 0 v.packet_history
      → AreRows v shown

pub AreRows-InHistory : (v : View) (shown : List ℕ) → AreRows v shown → InHistory v shown
AreRows-InHistory v shown (unfiltered plain e) =
    rw e (indexes_from-InHistory 0 (length v.packet_history) v.packet_history (omega arith))
AreRows-InHistory v shown (filtered text key any same e) = rw e (
    matching_from-InHistory (with_filter v text key) 0 (length v.packet_history) v.packet_history
      (omega arith))

rows-found : (v : View) → any_filter v ≡ true → AreRows (find_matches v) (rows (find_matches v))
unfolding rows find_matches signature
rows-found v e =
    filtered v.display_filter v.packet_flow_filter (any_filter-find_matches v ∙ e) refl (
      rw (any_filter-find_matches v, e)
        (sym (
          same_matches v (find_matches v) v.display_filter v.packet_flow_filter refl 0
            v.packet_history)))

-- What is cached under the present version and signature is shown again.
rows-cached :
    (v : View)
    → v.packet_history_version < no_version
    → IsCached v
    → any_filter v ≡ true
    → is_stale v ≡ false
    → AreRows v (rows v)
unfolding is_stale rows
rows-cached v l (never g) any e = absurd (ground (arith, l, g, e))
rows-cached v l (before g) any e = absurd (ground (arith, l, g, e))
rows-cached v l (now text key g h i) any e =
    let same : text_eq v.filter_cache_signature (signature v) ≡ true = ground (arith, e) in
    filtered text key any (sym h ∙ (text_eq_iff v.filter_cache_signature (signature v)).0 same)
      (rw any i)

rows-same :
    (n : ℕ) (v : View)
    → n < no_version
    → Kept n v
    → (any_filter v && is_stale v) ≡ false
    → AreRows v (rows v)
unfolding rows
rows-same n v l (c, h, b) e = elim (Bool-cases (any_filter v)) [
  | inl any ↦ rows-cached v (omega (arith, h, l)) c any (ground (arith, e, any))
  | inr plain ↦ unfiltered plain (rw plain refl)
]

-- The rows that are drawn.
pub refresh-rows :
    (n : ℕ) (v : View) → n < no_version → Kept n v → AreRows (refresh v) (rows (refresh v))
unfolding refresh
refresh-rows n v l (c, h, b) = elim (Bool-cases (any_filter v && is_stale v)) [
  | inl e ↦
      let found : AreRows (find_matches v) (rows (find_matches v)) =
        rows-found v (ground (arith, e)) in
      rw e found
  | inr e ↦ let same : AreRows v (rows v) = rows-same n v l (c, h, b) e in rw e same
]

-- The cache does not depend on what is typed, selected or paused.
pub carried :
    (v w : View)
    → w.filter_cache_history_version ≡ v.filter_cache_history_version
    → w.packet_history_version ≡ v.packet_history_version
    → w.filtered_packet_indexes ≡ v.filtered_packet_indexes
    → w.packet_history ≡ v.packet_history
    → w.session ≡ v.session
    → IsCached v
    → w.filter_cache_signature ≡ v.filter_cache_signature
    → IsCached w
unfolding signature
carried v w e f g h k (never c) j = never (e ∙ c)
carried v w e f g h k (before c) j = before (omega (arith, e, f, c))
carried v w e f g h k (now text key c d i) j = now text key (e ∙ c ∙ sym f) (j ∙ d) (
    g
    ∙ i
    ∙ sym (
        ap (matching_from (with_filter w text key) 0) h
        ∙ same_matches v w text key k 0 v.packet_history))

pub weaker : (n m : ℕ) (v : View) → n ≤ m → Kept n v → Kept m v
weaker n m v h (c, k, b) = (c, omega (arith, h, k), b)
