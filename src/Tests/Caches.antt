-- ===== src/Tests/Caches.antt =====
-- Runs of the cache, server/cache.c.
use moc.Shared.{◌≡◌, refl, Bool, true, false, some, none, [], ◌∷◌, Bytes, arith}
use moc.Server.Hash.{same_key}
use moc.Server.Cache.{
  Cache, CacheEntry, value, find_in_chain, ends_nul, cache_set, cache_get, cache_del, cache_cas,
  cache_incr,
}
use moc.Server.Cache.Incr.{IsNumber, cache_incr_lem}
use moc.Server.Decimal.{
  pos, negsuc, ◌+ℤ◌, diff, fits_int64, strtoll, skip_spaces, is_space, sign, read_digits, is_digit,
  clamp,
}
use moc.Server.Cache.Lookup.{
  IsCache, lookup, is_there, Evicts, expiry, cache_set_lem, cache_del_lem,
}
use moc.Server.Cache.Uses.{live, left, verdict, after_cas, cache_get_lem, cache_cas_lem}
use moc.Tests.{base_name, a_is_1, five}

abbrev small : Cache
small = record {
  numobjs = 8;
  flags = 0;
  hashlen = 2;
  chainlen = 4;
  table = λ i. record { len = 0; entries = [] };
}

small-IsCache : IsCache small
small-IsCache = (omega arith, λ i. (refl, omega arith, tt))

-- "base" is in both chains.
abbrev filled : Cache
filled = record {
  numobjs = 8;
  flags = 0;
  hashlen = 2;
  chainlen = 4;
  table = λ i. record {
    len = 1;
    entries = record { key = base_name; val = five; expire = pos 20 } ∷ [];
  };
}

filled-IsCache : IsCache filled
unfolding find_in_chain
filled-IsCache = (omega arith, λ i. (refl, omega arith, (refl, tt)))

cache_set_lem_example :
    (cd' : Cache) × (e : CacheEntry) × (cache_set true 100 small base_name five (pos 10)
      ≡ some (true, cd'))
    × IsCache cd'
    × (lookup cd' base_name ≡ some e)
    × (e.val ≡ five)
    × (e.expire ≡ expiry 100 (pos 10) (lookup small base_name))
    × Evicts small base_name cd'
cache_set_lem_example = cache_set_lem 100 small base_name five (pos 10) small-IsCache

cache_get_lem_example :
    (cd' : Cache) × (cache_get 100 filled base_name
      ≡ some (live 100 (lookup filled base_name), cd'))
    × IsCache cd'
    × (lookup cd' base_name ≡ left 100 (lookup filled base_name))
    × ((other : Bytes) → same_key other base_name ≡ false → lookup cd' other ≡ lookup filled other)
cache_get_lem_example = cache_get_lem 100 filled base_name filled-IsCache

cache_del_lem_example :
    (rv : Bool) × (cd' : Cache) × (cache_del filled base_name ≡ some (rv, cd'))
    × IsCache cd'
    × (lookup cd' base_name ≡ none)
    × (rv ≡ is_there (lookup filled base_name))
    × ((other : Bytes) → same_key other base_name ≡ false → lookup cd' other ≡ lookup filled other)
cache_del_lem_example = cache_del_lem filled base_name filled-IsCache

cache_cas_lem_example :
    (cd' : Cache) × (cache_cas true filled base_name five a_is_1
      ≡ some (verdict five (lookup filled base_name), cd'))
    × IsCache cd'
    × (lookup cd' base_name ≡ after_cas five a_is_1 (lookup filled base_name))
    × ((other : Bytes) → same_key other base_name ≡ false → lookup cd' other ≡ lookup filled other)
cache_cas_lem_example = cache_cas_lem filled base_name five a_is_1 filled-IsCache

-- "base" has the number 5.
abbrev number_entry : CacheEntry
number_entry = record { key = base_name; val = b'5' ∷ 0 ∷ []; expire = pos 0 }

abbrev numbered : Cache
numbered = record filled { table = λ i. record { len = 1; entries = number_entry ∷ [] } }

numbered-IsCache : IsCache numbered
unfolding find_in_chain
numbered-IsCache = (omega arith, λ i. (refl, omega arith, (refl, tt)))

numbered-IsNumber : IsNumber numbered base_name (pos 5)
unfolding find_in_chain same_key ends_nul strtoll skip_spaces is_space sign read_digits is_digit
    clamp
numbered-IsNumber = record { entry = number_entry; found = refl; ends = refl; reads = refl }

in_range : fits_int64 (pos 5 +ℤ negsuc 8) ≡ true
unfolding fits_int64 ◌+ℤ◌ diff
in_range = refl

cache_incr_lem_example :
    (cd' : Cache) × (cache_incr true numbered base_name (negsuc 8)
      ≡ some (value (pos 5 +ℤ negsuc 8), cd'))
    × IsCache cd'
    × IsNumber cd' base_name (pos 5 +ℤ negsuc 8)
    × ((other : Bytes)
        → same_key other base_name ≡ false
        → lookup cd' other ≡ lookup numbered other)
cache_incr_lem_example =
    cache_incr_lem numbered base_name (pos 5) (negsuc 8) numbered-IsCache numbered-IsNumber in_range
