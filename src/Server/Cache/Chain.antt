-- ===== src/Server/Cache/Chain.antt =====
-- Searches in a chain of server/cache.c after it has changed.
use moc.Shared.{
  ◌+◌, ◌-◌, ◌≡◌, refl, sym, subst, Bool, if◌then◌else◌, inl, inr, false, Bool-cases, none, some,
  List, [], ◌∷◌, arith, length, Bytes,
}
use moc.Server.Hash.{same_key, same_key-≡}
use moc.Server.Cache.{CacheEntry, find_in_chain, unlink, drop_last, set_val}

-- No key is twice in a chain.
abbrev pub Distinct : List CacheEntry → Type 0
Distinct [] = Unit {0}
Distinct (e ∷ es) = (find_in_chain es e.key ≡ none) × Distinct es

pub found_key :
    (es : List CacheEntry) (key : Bytes) (e : CacheEntry)
    → find_in_chain es key ≡ some e
    → e.key ≡ key
unfolding find_in_chain
found_key [] key e h = absurd (ground arith)
found_key (x ∷ es) key e h = elim (Bool-cases (same_key key x.key)) [
  | inl same ↦ let eq = same_key-≡ key x.key same in ground arith
  | inr other ↦ found_key es key e (ground arith)
]

pub unlink-beside :
    (es : List CacheEntry) (key other : Bytes)
    → same_key other key ≡ false
    → find_in_chain (unlink es key) other ≡ find_in_chain es other
unfolding find_in_chain unlink
unlink-beside [] key other apart = refl
unlink-beside (e ∷ es) key other apart =
    ground (arith, unlink-beside es key other apart, same_key-≡ key e.key)

pub unlink-gone :
    (es : List CacheEntry) (key : Bytes) → Distinct es → find_in_chain (unlink es key) key ≡ none
unfolding find_in_chain unlink
unlink-gone [] key d = refl
unlink-gone (e ∷ es) key d = ground (arith, unlink-gone es key d.1, same_key-≡ key e.key)

unlink-keeps_none :
    (es : List CacheEntry) (key other : Bytes)
    → find_in_chain es other ≡ none
    → find_in_chain (unlink es key) other ≡ none
unfolding find_in_chain unlink
unlink-keeps_none [] key other h = refl
unlink-keeps_none (e ∷ es) key other h = ground (arith, unlink-keeps_none es key other)

pub unlink-Distinct : (es : List CacheEntry) (key : Bytes) → Distinct es → Distinct (unlink es key)
unfolding unlink
unlink-Distinct [] key d = tt
unlink-Distinct (e ∷ es) key d = elim (Bool-cases (same_key key e.key)) [
  | inl same ↦ rw same d.1
  | inr other ↦ rw other (unlink-keeps_none es key e.key d.0, unlink-Distinct es key d.1)
]

pub unlink-length :
    (es : List CacheEntry) (key : Bytes) (e : CacheEntry)
    → find_in_chain es key ≡ some e
    → length (unlink es key) + 1 ≡ length es
unfolding find_in_chain unlink
unlink-length [] key e h = absurd (ground arith)
unlink-length (x ∷ es) key e h = ground (arith, unlink-length es key e)

-- Whether the last entry has the key.
abbrev pub last_is : List CacheEntry → Bytes → Bool
last_is [] key = false
last_is (e ∷ []) key = same_key key e.key
last_is (e ∷ e' ∷ es) key = last_is (e' ∷ es) key

last_is-missing :
    (es : List CacheEntry) (key : Bytes) → find_in_chain es key ≡ none → last_is es key ≡ false
unfolding find_in_chain
last_is-missing [] key h = refl
last_is-missing (e ∷ []) key h = ground arith
last_is-missing (e ∷ e' ∷ es) key h = last_is-missing (e' ∷ es) key (ground arith)

-- Without its last entry a chain finds what it found, less the key of that entry.
pub drop_last-finds :
    (es : List CacheEntry) (key : Bytes)
    → Distinct es
    → find_in_chain (drop_last es) key ≡ (if last_is es key then none else find_in_chain es key)
unfolding find_in_chain drop_last
drop_last-finds [] key d = refl
drop_last-finds (e ∷ []) key d = ground arith
drop_last-finds (e ∷ e' ∷ es) key d = elim (Bool-cases (same_key key e.key)) [
  | inl found ↦
      let eq : key ≡ e.key = same_key-≡ key e.key found in
      let stays : last_is (e' ∷ es) key ≡ false =
        last_is-missing (e' ∷ es) key
          (subst (λ k. find_in_chain (e' ∷ es) k ≡ none) (sym eq) d.0) in
      rw (found, stays) refl
  | inr other ↦ rw other (drop_last-finds (e' ∷ es) key d.1)
]

pub drop_last-none :
    (es : List CacheEntry) (key : Bytes)
    → find_in_chain es key ≡ none
    → find_in_chain (drop_last es) key ≡ none
unfolding find_in_chain drop_last
drop_last-none [] key h = refl
drop_last-none (e ∷ []) key h = refl
drop_last-none (e ∷ e' ∷ es) key h = ground (arith, drop_last-none (e' ∷ es) key)

pub drop_last-Distinct : (es : List CacheEntry) → Distinct es → Distinct (drop_last es)
unfolding drop_last
drop_last-Distinct [] d = tt
drop_last-Distinct (e ∷ []) d = tt
drop_last-Distinct (e ∷ e' ∷ es) d =
    (drop_last-none (e' ∷ es) e.key d.0, drop_last-Distinct (e' ∷ es) d.1)

pub drop_last-length : (es : List CacheEntry) → length (drop_last es) ≡ length es - 1
unfolding drop_last
drop_last-length [] = omega arith
drop_last-length (e ∷ []) = omega arith
drop_last-length (e ∷ e' ∷ es) = omega (arith, drop_last-length (e' ∷ es))

pub set_val-beside :
    (es : List CacheEntry) (key other val : Bytes)
    → same_key other key ≡ false
    → find_in_chain (set_val es key val) other ≡ find_in_chain es other
unfolding find_in_chain set_val
set_val-beside [] key other val apart = refl
set_val-beside (e ∷ es) key other val apart =
    ground (arith, set_val-beside es key other val apart, same_key-≡ key e.key)

pub set_val-found :
    (es : List CacheEntry) (key val : Bytes) (e : CacheEntry)
    → find_in_chain es key ≡ some e
    → find_in_chain (set_val es key val) key ≡ some (record e { val = val })
unfolding find_in_chain set_val
set_val-found [] key val e h = absurd (ground arith)
set_val-found (x ∷ es) key val e h = ground (arith, set_val-found es key val e)

set_val-none :
    (es : List CacheEntry) (key other val : Bytes)
    → find_in_chain es other ≡ none
    → find_in_chain (set_val es key val) other ≡ none
unfolding find_in_chain set_val
set_val-none [] key other val h = refl
set_val-none (e ∷ es) key other val h = ground (arith, set_val-none es key other val)

pub set_val-Distinct :
    (es : List CacheEntry) (key val : Bytes) → Distinct es → Distinct (set_val es key val)
unfolding set_val
set_val-Distinct [] key val d = tt
set_val-Distinct (e ∷ es) key val d = elim (Bool-cases (same_key key e.key)) [
  | inl same ↦ rw same d
  | inr other ↦ rw other (set_val-none es key e.key val d.0, set_val-Distinct es key val d.1)
]

pub set_val-length :
    (es : List CacheEntry) (key val : Bytes) → length (set_val es key val) ≡ length es
unfolding set_val
set_val-length [] key val = refl
set_val-length (e ∷ es) key val = ground (arith, set_val-length es key val)
