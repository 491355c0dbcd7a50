-- ===== src/Server/Hash.antt =====
-- The "One at a time" function, which server/mocd.c and server/cache.c each have a copy of, and the
-- comparison of keys in their chains.
use Prim.Native.Nat.{bit_xor}
use moc.Shared.{
  ℕ, ◌+◌, ◌*◌, ◌/◌, ◌%◌, ◌^◌, ◌≡◌, refl, Bool, true, false, ◌&&◌, [], ◌∷◌, arith, ◌==◌, length,
  Bytes,
}

-- One round of the loop, in 32 bits.
unfoldable pub hash_step : ℕ → ℕ → ℕ
hash_step h key =
    let added = (h + key) % 2 ^ 32 in
    let shifted = (added + added * 2 ^ 10 % 2 ^ 32) % 2 ^ 32 in bit_xor shifted (shifted / 2 ^ 6)

unfoldable pub hash_loop : Bytes → ℕ → ℕ
unfolding hash_step
hash_loop [] h = h
hash_loop (key ∷ rest) h = hash_loop rest (hash_step h key)

unfoldable pub hash : Bytes → ℕ
unfolding hash_loop
hash key =
    let looped = hash_loop key 0 in
    let added = (looped + looped * 2 ^ 3 % 2 ^ 32) % 2 ^ 32 in
    let mixed = bit_xor added (added / 2 ^ 11) in (mixed + mixed * 2 ^ 15 % 2 ^ 32) % 2 ^ 32

-- `memcmp` is 0 on two keys of the same length.
unfoldable pub memcmp : Bytes → Bytes → Bool
memcmp [] [] = true
memcmp (a ∷ s) (b ∷ bs) = a == b && memcmp s bs
memcmp _ _ = false

-- The sizes are compared before the bytes.
unfoldable pub same_key : Bytes → Bytes → Bool
unfolding memcmp
same_key key name = length key == length name && memcmp key name

memcmp_refl : (key : Bytes) → memcmp key key ≡ true
unfolding memcmp
memcmp_refl [] = refl
memcmp_refl (a ∷ s) = ground (arith, memcmp_refl s)

memcmp-≡ : (a b : Bytes) → memcmp a b ≡ true → a ≡ b
unfolding memcmp
memcmp-≡ [] [] h = refl
memcmp-≡ [] (b ∷ bs) h = absurd (ground arith)
memcmp-≡ (a ∷ s) [] h = absurd (ground arith)
memcmp-≡ (a ∷ s) (b ∷ bs) h = ground (arith, memcmp-≡ s bs)

pub same_key_refl : (key : Bytes) → same_key key key ≡ true
unfolding same_key
same_key_refl key = ground (arith, memcmp_refl key)

pub same_key-≡ : (a b : Bytes) → same_key a b ≡ true → a ≡ b
unfolding same_key
same_key-≡ a b h = memcmp-≡ a b (ground arith)
