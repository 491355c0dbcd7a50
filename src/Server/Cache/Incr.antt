-- ===== src/Server/Cache/Incr.antt =====
-- What `cache_incr` of server/cache.c leaves: a number that the next increment reads.
use moc.Shared.{
  ℕ, zero, suc, ◌≤◌, ◌≡◌, refl, ◌∙◌, true, false, Bool-cases, inl, inr, some, [], ◌∷◌, ◌++◌, arith,
  ltb, length, take, drop, Bytes,
}
use moc.Server.Cache.{
  CacheEntry, CacheChain, Cache, value, find_in_chain, chain_index, put_chain, set_val, ends_nul,
  zero_bytes, value_buf, cache_incr,
}
use moc.Server.Cache.Keeps.{set_val_lem}
use moc.Server.Cache.Lookup.{
  IsCache, place, lookup, chain_index_lem, put_chain-IsCache, put_chain-at, kept,
}
use moc.Server.Decimal.{ℤ, ◌+ℤ◌, fits_int64, strtoll, padded, snprintf}
use moc.Server.Decimal.Trip.{strtoll-snprintf}
use moc.Server.Hash.{same_key}

ends_nul-append : (t : Bytes) (x : ℕ) (s : Bytes) → ends_nul (t ++ x ∷ s) ≡ ends_nul (x ∷ s)
unfolding ends_nul
ends_nul-append [] x s = refl
ends_nul-append (b ∷ []) x s = refl
ends_nul-append (b ∷ c ∷ t) x s = ends_nul-append (c ∷ t) x s

ends_nul-drop :
    (n b : ℕ) (s : Bytes) → ends_nul (b ∷ s) ≡ some true → ends_nul (0 ∷ drop n s) ≡ some true
unfolding ends_nul
ends_nul-drop zero b [] h = refl
ends_nul-drop zero b (c ∷ s) h = h
ends_nul-drop (suc n) b [] h = refl
ends_nul-drop (suc n) b (c ∷ s) h = ends_nul-drop n c s h

ends_nul-snprintf :
    (buf text : Bytes) → ends_nul buf ≡ some true → ends_nul (snprintf buf text) ≡ some true
unfolding snprintf
ends_nul-snprintf [] text h = h
ends_nul-snprintf (b ∷ buf) text h =
    let t = take (length buf) text in
    ends_nul-append t 0 (drop (length t) buf) ∙ ends_nul-drop (length t) b buf h

zero_bytes_lem : (24 ≤ length (zero_bytes 24)) × (ends_nul (zero_bytes 24) ≡ some true)
unfolding zero_bytes ends_nul
zero_bytes_lem = (omega arith, refl)

value_buf_lem :
    (val : Bytes)
    → ends_nul val ≡ some true
    → (24 ≤ length (value_buf val)) × (ends_nul (value_buf val) ≡ some true)
unfolding value_buf
value_buf_lem val h = elim (Bool-cases (ltb (length val) 24)) [
  | inl short ↦ rw short zero_bytes_lem
  | inr long ↦ rw long (ground arith, h)
]

-- The entry under the key is a number with a NUL behind it.
pub record IsNumber (cd : Cache) (key : Bytes) (v : ℤ) : Type 0 where
  pub entry : CacheEntry
  pub found : lookup cd key ≡ some entry
  pub ends : ends_nul entry.val ≡ some true
  pub reads : strtoll entry.val ≡ v

cache_incr_run :
    (cd : Cache) (key : Bytes) (increment v : ℤ) (e : CacheEntry) (h : ℕ)
    → chain_index cd key ≡ some h
    → find_in_chain (cd.table h).entries key ≡ some e
    → ends_nul e.val ≡ some true
    → strtoll e.val ≡ v
    → fits_int64 (v +ℤ increment) ≡ true
    → let c = cd.table h in
      let val = snprintf (value_buf e.val) (padded (v +ℤ increment)) in
      cache_incr true cd key increment
      ≡ some (
        value (v +ℤ increment),
        put_chain cd h (record c { entries = set_val c.entries key val }),
      )
unfolding cache_incr
cache_incr_run cd key increment v e h at found ends reads fits =
    elim (Bool-cases (ltb (length e.val) 24)) [ inl short ↦ ground arith | inr long ↦ ground arith ]

-- `cache_incr` of a key with a number adds to it: it returns the sum, the key has the sum, so that the
-- next increment goes on from there, and every other key has what it had.
-- Conditions: the cache is well formed, the sum is an integer of 64 bits, and there is memory.
pub cache_incr_lem :
    (cd : Cache) (key : Bytes) (v increment : ℤ)
    → IsCache cd
    → IsNumber cd key v
    → fits_int64 (v +ℤ increment) ≡ true
    → (cd' : Cache) × (cache_incr true cd key increment ≡ some (value (v +ℤ increment), cd'))
      × IsCache cd'
      × IsNumber cd' key (v +ℤ increment)
      × ((other : Bytes) → same_key other key ≡ false → lookup cd' other ≡ lookup cd other)
cache_incr_lem cd key v increment is number fits =
    let h = chain_index_lem cd key is.0 in
    let c = cd.table (place cd key) in
    let e = number.entry in
    let (room, nul) = value_buf_lem e.val number.ends in
    let text = padded (v +ℤ increment) in
    let val = snprintf (value_buf e.val) text in
    let (chain, found, others) =
      set_val_lem cd.chainlen c key val e (is.1 (place cd key)) number.found in
    let c' : CacheChain = record c { entries = set_val c.entries key val } in
    (
      put_chain cd (place cd key) c',
      cache_incr_run cd key increment v e (place cd key) h number.found number.ends number.reads
          fits,
      put_chain-IsCache cd (place cd key) c' is chain,
      record {
        entry = record e { val = val };
        found = put_chain-at cd key c' ∙ found;
        ends = ends_nul-snprintf (value_buf e.val) text nul;
        reads = strtoll-snprintf (v +ℤ increment) (value_buf e.val) fits room;
      },
      λ other apart. kept cd key other c' (others other apart),
    )
