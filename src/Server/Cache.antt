-- ===== src/Server/Cache.antt =====
-- The cache of a module, server/cache.c: a table of chains, each in the order of use, the entry set
-- last in front. A chain is the list from `first` to `last`, its `prev` and `next` links taken as the
-- list's order, with the count that the code keeps beside it. `none` is a fault: a division by the
-- size of an empty table. A `memory` says whether the allocations of the call succeed.
pub mod Chain
pub mod Keeps
pub mod Lookup
pub mod Uses
pub mod Incr
use moc.Shared.{
  ℕ, zero, suc, ◌+◌, ◌-◌, ◌/◌, ◌%◌, Bool, true, false, not, ◌&&◌, Option, none, some, List, [], ◌∷◌,
  ltb, leb, ◌==◌, if◌then◌else◌, ◌>>=◌, length, Bytes,
}
use moc.Server.Decimal.{pos, negsuc, ℤ, ◌+ℤ◌, fits_int64, strtoll, padded, snprintf}
use moc.Server.Hash.{hash, memcmp, same_key}

-- `struct cache_entry`: a key and a value are one list with their size. `expire` is 0, or less, for never.
pub record CacheEntry : Type 0 where
  pub key : Bytes
  pub val : Bytes
  pub expire : ℤ

pub record CacheChain : Type 0 where
  pub len : ℕ
  pub entries : List CacheEntry

-- `struct cache`.
pub record Cache : Type 0 where
  pub numobjs : ℕ
  pub flags : ℕ
  pub hashlen : ℕ
  pub chainlen : ℕ
  pub table : ℕ → CacheChain

unfoldable pub cache_create : Bool → ℕ → ℕ → Option Cache
cache_create memory numobjs flags =
    if memory
    then some (record {
      numobjs = numobjs;
      flags = flags;
      hashlen = numobjs / 4;
      chainlen = 4;
      table = λ i. record { len = 0; entries = [] };
    })
    else none

unfoldable pub find_in_chain : List CacheEntry → Bytes → Option CacheEntry
find_in_chain [] key = none
find_in_chain (e ∷ es) key = if same_key key e.key then some e else find_in_chain es key

-- The place of a key in the table.
unfoldable pub chain_index : Cache → Bytes → Option ℕ
chain_index cd key = if cd.hashlen == 0 then none else some (hash key % cd.hashlen)

unfoldable pub find_in_cache : Cache → Bytes → Option (Option CacheEntry)
unfolding chain_index find_in_chain
find_in_cache cd key = do h ← chain_index cd key; some (find_in_chain (cd.table h).entries key)

unfoldable pub put_chain : Cache → ℕ → CacheChain → Cache
put_chain cd h c = record cd { table = λ i. if i == h then c else cd.table i }

-- An entry is unlinked.
unfoldable pub unlink : List CacheEntry → Bytes → List CacheEntry
unlink [] key = []
unlink (e ∷ es) key = if same_key key e.key then es else e ∷ unlink es key

unfoldable pub cache_del : Cache → Bytes → Option (Bool × Cache)
unfolding chain_index find_in_chain unlink put_chain
cache_del cd key = do
  h ← chain_index cd key
  let c = cd.table h
  elim (find_in_chain c.entries key) [
    | none ↦ some (false, cd)
    | some e ↦
        some (true, put_chain cd h (record { len = c.len - 1; entries = unlink c.entries key }))
  ]

-- `e->expire > 0 && e->expire < g_ctime`
unfoldable pub is_expired : ℕ → CacheEntry → Bool
is_expired g_ctime e = elim e.expire [
  | pos expire ↦ ltb 0 expire && ltb expire g_ctime
  | negsuc n ↦ false
]

-- The value, `none` when the key is missed.
unfoldable pub cache_get : ℕ → Cache → Bytes → Option (Option Bytes × Cache)
unfolding find_in_cache is_expired cache_del
cache_get g_ctime cd key = do
  found ← find_in_cache cd key
  elim found [
    | none ↦ some (none, cd)
    | some e ↦
        if is_expired g_ctime e
        then (do (rv, cd') ← cache_del cd key; some (none, cd'))
        else some (some e.val, cd)
  ]

-- The last entry of a chain is evicted.
unfoldable pub drop_last : List CacheEntry → List CacheEntry
drop_last [] = []
drop_last (e ∷ []) = []
drop_last (e ∷ e' ∷ es) = e ∷ drop_last (e' ∷ es)

-- The branch of `cache_set` for a key that is not in the chain.
unfoldable pub add_new : ℕ → CacheChain → CacheEntry → CacheChain
unfolding drop_last
add_new chainlen c new =
    if c.len == 0
    then record { len = 1; entries = new ∷ [] }
    else (if leb c.len chainlen
        then record { len = c.len + 1; entries = new ∷ c.entries }
        else record c { entries = new ∷ drop_last c.entries })

-- The branch for a key that is: the value is replaced and the entry becomes the first.
unfoldable pub replace_first : CacheChain → CacheEntry → Bytes → CacheChain
unfolding unlink
replace_first c e val = record c { entries = record e { val = val } ∷ unlink c.entries e.key }

unfoldable pub is_zero : ℤ → Bool
is_zero (pos n) = n == 0
is_zero (negsuc n) = false

unfoldable pub cache_set : Bool → ℕ → Cache → Bytes → Bytes → ℤ → Option (Bool × Cache)
unfolding chain_index find_in_chain add_new replace_first put_chain
cache_set memory g_ctime cd key val timeout = do
  h ← chain_index cd key
  let c = cd.table h
  if not memory then some (false, cd) else elim (find_in_chain c.entries key) [
    | none ↦
        let expire = if is_zero timeout then pos 0 else pos g_ctime +ℤ timeout in
        let new : CacheEntry = record { key = key; val = val; expire = expire } in
        some (true, put_chain cd h (add_new cd.chainlen c new))
    | some e ↦ some (true, put_chain cd h (replace_first c e val))
  ]

-- What `cache_cas` returns: -2, -1, 0 and 1.
pub data Cas : Type 0 where
  no_memory missing differs swapped : Cas

-- The value of the first entry with a key is replaced in place.
unfoldable pub set_val : List CacheEntry → Bytes → Bytes → List CacheEntry
set_val [] key val = []
set_val (e ∷ es) key val =
    if same_key key e.key then record e { val = val } ∷ es else e ∷ set_val es key val

unfoldable pub cache_cas : Bool → Cache → Bytes → Bytes → Bytes → Option (Cas × Cache)
unfolding chain_index find_in_chain set_val put_chain
cache_cas memory cd key oldval newval = do
  h ← chain_index cd key
  let c = cd.table h
  elim (find_in_chain c.entries key) [
    | none ↦ some (missing, cd)
    | some e ↦
        if same_key oldval e.val
        then (if memory
            then some
                (swapped, put_chain cd h (record c { entries = set_val c.entries key newval }))
            else some (no_memory, cd))
        else some (differs, cd)
  ]

-- What `cache_incr` returns: -1, -2, -3, or 1 with the new value.
pub data IncrResult : Type 0 where
  no_key unterminated no_space : IncrResult
  value : ℤ → IncrResult

-- Whether the last byte is NUL; a value of no bytes has none to look at.
unfoldable pub ends_nul : Bytes → Option Bool
ends_nul [] = none
ends_nul (b ∷ []) = some (b == 0)
ends_nul (b ∷ c ∷ s) = ends_nul (c ∷ s)

unfoldable pub zero_bytes : ℕ → Bytes
zero_bytes zero = []
zero_bytes (suc n) = 0 ∷ zero_bytes n

-- A value of fewer than 24 bytes gets a new buffer, which the text fills.
unfoldable pub value_buf : Bytes → Bytes
unfolding zero_bytes
value_buf val = if ltb (length val) 24 then zero_bytes 24 else val

-- The sum must be one of 64 bits: a signed overflow has no meaning in C.
unfoldable pub cache_incr : Bool → Cache → Bytes → ℤ → Option (IncrResult × Cache)
unfolding chain_index find_in_chain set_val put_chain ends_nul value_buf
cache_incr memory cd key increment = do
  h ← chain_index cd key
  let c = cd.table h
  elim (find_in_chain c.entries key) [
    | none ↦ some (no_key, cd)
    | some e ↦ do
      nul ← ends_nul e.val
      let intval = strtoll e.val +ℤ increment
      let val = snprintf (value_buf e.val) (padded intval)
      let stored = put_chain cd h (record c { entries = set_val c.entries key val })
      if not nul
          then some (unterminated, cd)
          else (if not (fits_int64 intval)
              then none
              else (if ltb (length e.val) 24 && not memory
                  then some (no_space, cd)
                  else some (value intval, stored)))
  ]
