-- ===== src/Server/Cache/Keeps.antt =====
-- What the operations of server/cache.c make of one chain, and that they keep it well formed.
use moc.Shared.{
  nil_of_length, ℕ, ◌+◌, ◌-◌, ◌≤◌, ◌≡◌, refl, sym, ◌∙◌, inl, inr, true, Bool-cases, none, some,
  List, [], ◌∷◌, arith, if◌then◌else◌, ◌==◌, ◌&&◌, false, leb, length, Bytes,
}
use moc.Server.Hash.{same_key, same_key_refl}
use moc.Server.Cache.{
  CacheEntry, CacheChain, find_in_chain, unlink, drop_last, add_new, replace_first, set_val,
}
use moc.Server.Cache.Chain.{
  Distinct, found_key, unlink-beside, unlink-gone, unlink-Distinct, unlink-length, drop_last-finds,
  last_is, drop_last-Distinct, drop_last-length, drop_last-none, set_val-beside, set_val-found,
  set_val-Distinct, set_val-length,
}

-- The count is that of the entries, one more than `chainlen` at most, and no key is there twice.
abbrev pub IsChain : ℕ → CacheChain → Type 0
IsChain chainlen c = (c.len ≡ length c.entries) × (c.len ≤ chainlen + 1) × Distinct c.entries

find_front :
    (e : CacheEntry) (es : List CacheEntry) (key : Bytes)
    → find_in_chain (e ∷ es) key ≡ (if same_key key e.key then some e else find_in_chain es key)
unfolding find_in_chain
find_front e es key = refl

-- What a search finds after a new entry has come in: it, or what was there, or nothing for the
-- key of the last entry, which a full chain has evicted.
abbrev pub AfterNew : ℕ → CacheChain → CacheEntry → CacheChain → Type 0
AfterNew chainlen c new c' =
    (find_in_chain c'.entries new.key ≡ some new)
    × ((other : Bytes)
        → same_key other new.key ≡ false
        → find_in_chain c'.entries other ≡ (
            if c.len == chainlen + 1 && last_is c.entries other
            then none
            else find_in_chain c.entries other))

pub add_new_lem :
    (chainlen : ℕ) (c : CacheChain) (new : CacheEntry)
    → IsChain chainlen c
    → find_in_chain c.entries new.key ≡ none
    → IsChain chainlen (add_new chainlen c new) × AfterNew chainlen c new (add_new chainlen c new)
unfolding add_new find_in_chain
add_new_lem chainlen c new (count, room, d) missing =
    let front = find_front new c.entries in
    let evicted = find_front new (drop_last c.entries) in
    let self = same_key_refl new.key in
    elim (Bool-cases (c.len == 0)) [
      | inl empty ↦
          let none_in = nil_of_length c.entries (ground arith) in
          let roomy : (c.len == chainlen + 1) ≡ false = ground arith in
          rw empty (
            (refl, omega arith, (refl, tt)),
            (
              rw (find_front new [] new.key, self) refl,
              λ other apart. rw (find_front new [] other, apart, none_in, roomy) refl,
            ),
          )
      | inr some_in ↦ elim (Bool-cases (leb c.len chainlen)) [
        | inl slots ↦
            let roomy : (c.len == chainlen + 1) ≡ false = ground arith in
            rw (some_in, slots)
              (
                (ground arith, ground arith, (missing, d)),
                (rw (front new.key, self) refl, λ other apart. rw (front other, apart, roomy) refl),
              )
        | inr full ↦
            let filled : (c.len == chainlen + 1) ≡ true = ground arith in
            rw (some_in, full)
              (
                (
                  ground (arith, drop_last-length c.entries),
                  room,
                  (drop_last-none c.entries new.key missing, drop_last-Distinct c.entries d),
                ),
                (
                  rw (evicted new.key, self) refl,
                  λ other apart.
                      rw (evicted other, apart, filled) (drop_last-finds c.entries other d),
                ),
              )
      ]
    ]

pub replace_first_lem :
    (chainlen : ℕ) (c : CacheChain) (key val : Bytes) (e : CacheEntry)
    → IsChain chainlen c
    → find_in_chain c.entries key ≡ some e
    → let c' = replace_first c e val in
      IsChain chainlen c'
      × (find_in_chain c'.entries key ≡ some (record e { val = val }))
      × ((other : Bytes)
          → same_key other key ≡ false
          → find_in_chain c'.entries other ≡ find_in_chain c.entries other)
unfolding replace_first
replace_first_lem chainlen c key val e (count, room, d) found =
    let at = found_key c.entries key e found in
    let size = unlink-length c.entries key e found in
    rw at (
      (omega arith, room, (unlink-gone c.entries key d, unlink-Distinct c.entries key d)),
      rw
          (
            find_front (record { key = key; val = val; expire = e.expire }) (unlink c.entries key)
                key,
            same_key_refl key,
          )
          refl,
      λ other apart.
          rw
            (
              find_front (record { key = key; val = val; expire = e.expire }) (unlink c.entries key)
                  other,
              apart,
            )
            (unlink-beside c.entries key other apart),
    )

pub unlink_lem :
    (chainlen : ℕ) (c : CacheChain) (key : Bytes) (e : CacheEntry)
    → IsChain chainlen c
    → find_in_chain c.entries key ≡ some e
    → let c' : CacheChain = record { len = c.len - 1; entries = unlink c.entries key } in
      IsChain chainlen c'
      × (find_in_chain c'.entries key ≡ none)
      × ((other : Bytes)
          → same_key other key ≡ false
          → find_in_chain c'.entries other ≡ find_in_chain c.entries other)
unlink_lem chainlen c key e (count, room, d) found =
    let size = unlink-length c.entries key e found in
    (
      (omega arith, omega arith, unlink-Distinct c.entries key d),
      unlink-gone c.entries key d,
      λ other apart. unlink-beside c.entries key other apart,
    )

pub set_val_lem :
    (chainlen : ℕ) (c : CacheChain) (key val : Bytes) (e : CacheEntry)
    → IsChain chainlen c
    → find_in_chain c.entries key ≡ some e
    → let c' : CacheChain = record c { entries = set_val c.entries key val } in
      IsChain chainlen c'
      × (find_in_chain c'.entries key ≡ some (record e { val = val }))
      × ((other : Bytes)
          → same_key other key ≡ false
          → find_in_chain c'.entries other ≡ find_in_chain c.entries other)
set_val_lem chainlen c key val e (count, room, d) found = (
  (count ∙ sym (set_val-length c.entries key val), room, set_val-Distinct c.entries key val d),
  set_val-found c.entries key val e found,
  λ other apart. set_val-beside c.entries key other val apart,
)
