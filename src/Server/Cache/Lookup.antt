-- ===== src/Server/Cache/Lookup.antt =====
-- The operations of server/cache.c against a lookup of the key in the whole cache.
use moc.Shared.{
  ℕ, ◌+◌, ◌-◌, ◌%◌, ◌<◌, ◌≡◌, refl, sym, ap, ◌∙◌, inl, inr, Bool, true, false, Bool-cases,
  Option-cases, Option, none, some, arith, if◌then◌else◌, ◌==◌, ◌&&◌, not, Bytes,
}
use moc.Server.Hash.{hash, same_key}
use moc.Server.Cache.{
  CacheEntry, CacheChain, Cache, is_zero, find_in_chain, chain_index, unlink, put_chain, add_new,
  replace_first, cache_del, cache_set,
}
use moc.Server.Cache.Chain.{last_is}
use moc.Server.Decimal.{ℤ, pos, ◌+ℤ◌}
use moc.Server.Cache.Keeps.{IsChain, add_new_lem, replace_first_lem, unlink_lem}

-- There are chains, and each is well formed.
abbrev pub IsCache : Cache → Type 0
IsCache cd = (0 < cd.hashlen) × ((i : ℕ) → IsChain cd.chainlen (cd.table i))

abbrev pub place : Cache → Bytes → ℕ
place cd key = hash key % cd.hashlen

-- What the cache has under a key.
abbrev pub lookup : Cache → Bytes → Option CacheEntry
lookup cd key = find_in_chain (cd.table (place cd key)).entries key

pub chain_index_lem :
    (cd : Cache) (key : Bytes) → 0 < cd.hashlen → chain_index cd key ≡ some (place cd key)
unfolding chain_index
chain_index_lem cd key chains = ground arith

pub put_chain-IsCache :
    (cd : Cache) (h : ℕ) (c : CacheChain)
    → IsCache cd
    → IsChain cd.chainlen c
    → IsCache (put_chain cd h c)
unfolding put_chain
put_chain-IsCache cd h c is chain =
    (is.0, λ i. elim (Bool-cases (i == h)) [ inl at ↦ rw at chain | inr away ↦ rw away (is.1 i) ])

pub put_chain-at :
    (cd : Cache) (key : Bytes) (c : CacheChain)
    → lookup (put_chain cd (place cd key) c) key ≡ find_in_chain c.entries key
unfolding put_chain
put_chain-at cd key c = let at : (place cd key == place cd key) ≡ true = ground arith in rw at refl

put_chain-shared :
    (cd : Cache) (key other : Bytes) (c : CacheChain)
    → (place cd other == place cd key) ≡ true
    → lookup (put_chain cd (place cd key) c) other ≡ find_in_chain c.entries other
unfolding put_chain
put_chain-shared cd key other c shared = rw shared refl

put_chain-away :
    (cd : Cache) (key other : Bytes) (c : CacheChain)
    → (place cd other == place cd key) ≡ false
    → lookup (put_chain cd (place cd key) c) other ≡ lookup cd other
unfolding put_chain
put_chain-away cd key other c away = rw away refl

-- A change of one chain that leaves the other keys alone leaves the rest of the cache alone.
pub kept :
    (cd : Cache) (key other : Bytes) (c : CacheChain)
    → find_in_chain c.entries other ≡ find_in_chain (cd.table (place cd key)).entries other
    → lookup (put_chain cd (place cd key) c) other ≡ lookup cd other
kept cd key other c same = elim (Bool-cases (place cd other == place cd key)) [
  | inl shared ↦
      let at : place cd other ≡ place cd key = ground arith in
      put_chain-shared cd key other c shared ∙ same ∙ rw at refl
  | inr away ↦ put_chain-away cd key other c away
]

-- Whether there is something.
abbrev pub is_there : Option CacheEntry → Bool
is_there none = false
is_there (some e) = true

-- A new key evicts another if they share a chain that is full, and the other is that of its last entry.
abbrev pub evicts : Cache → Bytes → Bytes → Bool
evicts cd key other =
    let c = cd.table (place cd key) in
    not (is_there (lookup cd key))
    && (place cd other == place cd key)
    && (c.len == cd.chainlen + 1)
    && last_is c.entries other

evicts-shared :
    (cd : Cache) (key other : Bytes)
    → lookup cd key ≡ none
    → (place cd other == place cd key) ≡ true
    → let c = cd.table (place cd key) in
      (if c.len == cd.chainlen + 1 && last_is c.entries other
        then none
        else find_in_chain c.entries other)
      ≡ (if evicts cd key other then none else lookup cd other)
evicts-shared cd key other absent shared =
    let at : place cd other ≡ place cd key = ground arith in rw (absent, shared, at) refl

evicts-away :
    (cd : Cache) (key other : Bytes)
    → lookup cd key ≡ none
    → (place cd other == place cd key) ≡ false
    → lookup cd other ≡ (if evicts cd key other then none else lookup cd other)
evicts-away cd key other absent away = rw (absent, away) refl

-- What is found under the other keys after `key` is set: what was there, less the one evicted.
abbrev pub Evicts : Cache → Bytes → Cache → Type 0
Evicts cd key cd' =
    (other : Bytes)
    → same_key other key ≡ false
    → lookup cd' other ≡ (if evicts cd key other then none else lookup cd other)

-- The expiry of an entry that is set: a new one has that of its timeout, and one that is there keeps
-- its own, whatever the timeout.
abbrev pub expiry : ℕ → ℤ → Option CacheEntry → ℤ
expiry g_ctime timeout none = if is_zero timeout then pos 0 else pos g_ctime +ℤ timeout
expiry g_ctime timeout (some e) = e.expire

-- After `cache_set` the key has the value, whatever was there, with the expiry of the timeout if the
-- key is new and its old one if not; every other key has what it had, less, when the key is new and
-- its chain full, the key of the last entry of that chain; the cache stays well formed.
-- Conditions: the cache is well formed, and there is memory.
pub cache_set_lem :
    (g_ctime : ℕ) (cd : Cache) (key val : Bytes) (timeout : ℤ)
    → IsCache cd
    → (cd' : Cache) × (e : CacheEntry) × (cache_set true g_ctime cd key val timeout
        ≡ some (true, cd'))
      × IsCache cd'
      × (lookup cd' key ≡ some e)
      × (e.val ≡ val)
      × (e.expire ≡ expiry g_ctime timeout (lookup cd key))
      × Evicts cd key cd'
unfolding cache_set
cache_set_lem g_ctime cd key val timeout is =
    let h = chain_index_lem cd key is.0 in
    let c = cd.table (place cd key) in
    elim (Option-cases (find_in_chain c.entries key)) [
      | inl absent ↦
          let new : CacheEntry = record {
            key = key;
            val = val;
            expire = if is_zero timeout then pos 0 else pos g_ctime +ℤ timeout;
          } in
          let (chain, (found, others)) =
            add_new_lem cd.chainlen c new (is.1 (place cd key)) absent in
          let c' = add_new cd.chainlen c new in
          (
            put_chain cd (place cd key) c',
            new,
            rw h (rw absent refl),
            put_chain-IsCache cd (place cd key) c' is chain,
            put_chain-at cd key c' ∙ found,
            refl,
            ap (expiry g_ctime timeout) (sym absent),
            λ other apart. elim (Bool-cases (place cd other == place cd key)) [
              | inl shared ↦
                  put_chain-shared cd key other c' shared
                  ∙ others other apart
                  ∙ evicts-shared cd key other absent shared
              | inr away ↦
                  put_chain-away cd key other c' away ∙ evicts-away cd key other absent away
            ],
          )
      | inr (e, present) ↦
          let (chain, found, others) =
            replace_first_lem cd.chainlen c key val e (is.1 (place cd key)) present in
          let c' = replace_first c e val in
          (
            put_chain cd (place cd key) c',
            record e { val = val },
            rw h (rw present refl),
            put_chain-IsCache cd (place cd key) c' is chain,
            put_chain-at cd key c' ∙ found,
            refl,
            ap (expiry g_ctime timeout) (sym present),
            λ other apart. rw present (kept cd key other c' (others other apart)),
          )
    ]

-- After `cache_del` the key is gone, and every other key has what it had; the result says whether
-- the key was there, and the cache stays well formed.
-- Condition: the cache is well formed.
pub cache_del_lem :
    (cd : Cache) (key : Bytes)
    → IsCache cd
    → (rv : Bool) × (cd' : Cache) × (cache_del cd key ≡ some (rv, cd'))
      × IsCache cd'
      × (lookup cd' key ≡ none)
      × (rv ≡ is_there (lookup cd key))
      × ((other : Bytes) → same_key other key ≡ false → lookup cd' other ≡ lookup cd other)
unfolding cache_del
cache_del_lem cd key is =
    let h = chain_index_lem cd key is.0 in
    let c = cd.table (place cd key) in
    elim (Option-cases (find_in_chain c.entries key)) [
      | inl absent ↦
          (false, cd, ground (arith, h), is, absent, ap is_there (sym absent), λ other apart. refl)
      | inr (e, present) ↦
          let (chain, gone, others) =
            unlink_lem cd.chainlen c key e (is.1 (place cd key)) present in
          let c' : CacheChain = record { len = c.len - 1; entries = unlink c.entries key } in
          (
            true,
            put_chain cd (place cd key) c',
            ground (arith, h),
            put_chain-IsCache cd (place cd key) c' is chain,
            put_chain-at cd key c' ∙ gone,
            ap is_there (sym present),
            λ other apart. kept cd key other c' (others other apart),
          )
    ]
