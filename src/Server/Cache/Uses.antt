-- ===== src/Server/Cache/Uses.antt =====
-- Reading, swapping and creating in server/cache.c, against a lookup of the key in the whole cache.
use moc.Shared.{
  ℕ, ◌≤◌, ◌≡◌, refl, sym, ap, ◌∙◌, inl, inr, true, false, Bool-cases, Option-cases, Option, none,
  some, arith, if◌then◌else◌, Bytes, Bool, not, ◌&&◌, ◌||◌, ltb, leb, ◌==◌,
}
use moc.Server.Hash.{same_key}
use moc.Server.Cache.{
  CacheEntry, CacheChain, Cache, cache_create, Cas, swapped, missing, differs, find_in_chain,
  find_in_cache, put_chain, is_expired, set_val, cache_get, cache_cas,
}
use moc.Server.Decimal.{ℤ, pos, negsuc}
use moc.Server.Cache.Keeps.{set_val_lem}
use moc.Server.Cache.Lookup.{
  IsCache, place, lookup, chain_index_lem, put_chain-IsCache, put_chain-at, kept, cache_del_lem,
}

-- Whether an expiry has not passed: none was set, or it is not before now.
abbrev pub lasts : ℕ → ℤ → Bool
lasts g_ctime (negsuc n) = true
lasts g_ctime (pos expire) = (expire == 0) || leb g_ctime expire

-- The value that `cache_get` hands out.
abbrev pub live : ℕ → Option CacheEntry → Option Bytes
live g_ctime none = none
live g_ctime (some e) = if lasts g_ctime e.expire then some e.val else none

-- What it leaves under the key.
abbrev pub left : ℕ → Option CacheEntry → Option CacheEntry
left g_ctime none = none
left g_ctime (some e) = if lasts g_ctime e.expire then some e else none

lasts_lem : (g_ctime : ℕ) (e : CacheEntry) → is_expired g_ctime e ≡ not (lasts g_ctime e.expire)
unfolding is_expired
lasts_lem g_ctime e = at e.expire
  where
    at :
        (x : ℤ)
        → elim x [ pos expire ↦ ltb 0 expire && ltb expire g_ctime | negsuc n ↦ false ]
          ≡ not (lasts g_ctime x)
    at (pos expire) = ground arith
    at (negsuc n) = refl

-- `cache_get` returns the value under the key, or a miss if there is none or its expiry is before
-- now; then nothing is left under the key, and else what was there. Every other key has what it had, and the cache stays well formed.
-- Condition: the cache is well formed.
pub cache_get_lem :
    (g_ctime : ℕ) (cd : Cache) (key : Bytes)
    → IsCache cd
    → (cd' : Cache) × (cache_get g_ctime cd key ≡ some (live g_ctime (lookup cd key), cd'))
      × IsCache cd'
      × (lookup cd' key ≡ left g_ctime (lookup cd key))
      × ((other : Bytes) → same_key other key ≡ false → lookup cd' other ≡ lookup cd other)
unfolding cache_get find_in_cache
cache_get_lem g_ctime cd key is =
    let h = chain_index_lem cd key is.0 in
    elim (Option-cases (lookup cd key)) [
      | inl absent ↦ (cd, rw h (rw absent refl), is, rw absent refl, λ other apart. refl)
      | inr (e, present) ↦ elim (Bool-cases (lasts g_ctime e.expire)) [
        | inr gone_by ↦
            let old : is_expired g_ctime e ≡ true = rw (lasts_lem g_ctime e, gone_by) refl in
            let (rv, cd', run, is', gone, _, others) = cache_del_lem cd key is in
            (
              cd',
              rw h (rw (present, old, gone_by) (rw run refl)),
              is',
              rw (present, gone_by) gone,
              others,
            )
        | inl good ↦
            let fresh : is_expired g_ctime e ≡ false = rw (lasts_lem g_ctime e, good) refl in
            (
              cd,
              rw h (rw (present, fresh, good) refl),
              is,
              present ∙ rw (present, good) refl,
              λ other apart. refl,
            )
      ]
    ]

-- What `cache_cas` says of the entry under the key, and what it leaves there.
abbrev pub verdict : Bytes → Option CacheEntry → Cas
verdict oldval none = missing
verdict oldval (some e) = if same_key oldval e.val then swapped else differs

abbrev pub after_cas : Bytes → Bytes → Option CacheEntry → Option CacheEntry
after_cas oldval newval none = none
after_cas oldval newval (some e) =
    if same_key oldval e.val then some (record e { val = newval }) else some e

-- `cache_cas` replaces the value under the key just when it is the old value, and says which of the
-- cases it was; every other key has what it had, and the cache stays well formed.
-- Conditions: the cache is well formed, and there is memory.
pub cache_cas_lem :
    (cd : Cache) (key oldval newval : Bytes)
    → IsCache cd
    → (cd' : Cache) × (cache_cas true cd key oldval newval
        ≡ some (verdict oldval (lookup cd key), cd'))
      × IsCache cd'
      × (lookup cd' key ≡ after_cas oldval newval (lookup cd key))
      × ((other : Bytes) → same_key other key ≡ false → lookup cd' other ≡ lookup cd other)
unfolding cache_cas
cache_cas_lem cd key oldval newval is =
    let h = chain_index_lem cd key is.0 in
    let c = cd.table (place cd key) in
    elim (Option-cases (lookup cd key)) [
      | inl absent ↦ (
        cd,
        ground (arith, h),
        is,
        absent ∙ ap (after_cas oldval newval) (sym absent),
        λ other apart. refl,
      )
      | inr (e, present) ↦ elim (Bool-cases (same_key oldval e.val)) [
        | inl same ↦
            let (chain, found, others) =
              set_val_lem cd.chainlen c key newval e (is.1 (place cd key)) present in
            let c' : CacheChain = record c { entries = set_val c.entries key newval } in
            (
              put_chain cd (place cd key) c',
              ground (arith, h),
              put_chain-IsCache cd (place cd key) c' is chain,
              put_chain-at cd key c' ∙ found ∙ rw (present, same) refl,
              λ other apart. kept cd key other c' (others other apart),
            )
        | inr not_same ↦
            (cd, ground (arith, h), is, rw (present, not_same) refl, λ other apart. refl)
      ]
    ]

-- An empty cache for at least four objects is well formed, and has nothing under any key.
pub cache_create_lem :
    (numobjs flags : ℕ)
    → 4 ≤ numobjs
    → (cd : Cache) × (cache_create true numobjs flags ≡ some cd)
      × IsCache cd
      × ((key : Bytes) → lookup cd key ≡ none)
unfolding cache_create find_in_chain
cache_create_lem numobjs flags big =
    (_, refl, (omega arith, λ i. (refl, omega arith, tt)), λ key. refl)
