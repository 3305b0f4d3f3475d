-- ===== src/HostnameCache/Lookup.antt =====
-- `store` and `lookup` of src/core/HostnameCache.hpp together.
use netprobe_cpp.Base.{
  ◌≡◌, arith, some, ◌||◌, ◌&&◌, not, if◌then◌else◌, [], ◌∷◌, Bytes, text_eq, is_empty, text_eq_iff,
  Bool-cases, inl, inr,
}
use netprobe_cpp.HostnameCache.{Hostnames, assign, store, lookup}

lookup-assign :
    (cache : Hostnames) (ip hostname other : Bytes)
    → lookup (assign ip hostname cache) other
      ≡ (if text_eq ip other then some hostname else lookup cache other)
unfolding lookup assign
lookup-assign [] ip hostname other = ground arith
lookup-assign ((i, h) ∷ cache) ip hostname other = elim (Bool-cases (text_eq i ip)) [
  | inl same ↦ ground (arith, text_eq_iff i ip)
  | inr differ ↦ ground (
    arith,
    lookup-assign cache ip hostname other,
    text_eq_iff i ip,
    text_eq_iff i other,
    text_eq_iff ip other,
  )
]

-- After `store` the address has the hostname that was stored, unless one of the two was empty, and
-- any other address has the one it had before.
pub lookup-store :
    (cache : Hostnames) (ip hostname other : Bytes)
    → lookup (store cache ip hostname) other ≡ (
        if text_eq ip other && not (is_empty ip || is_empty hostname)
        then some hostname
        else lookup cache other)
unfolding store
lookup-store cache ip hostname other = ground (arith, lookup-assign cache ip hostname other)
