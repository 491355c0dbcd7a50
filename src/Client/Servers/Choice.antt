-- ===== src/Client/Servers/Choice.antt =====
-- `select_srv` of client/internal.c chooses a server that there is.
use moc.Shared.{
  ℕ, zero, suc, ◌+◌, ◌-◌, ◌*◌, ◌/◌, ◌%◌, ◌^◌, ◌≤◌, ◌<◌, ◌≡◌, refl, true, some, [], ◌∷◌, arith, ◌==◌,
  length, Bytes, Bool-cases, inl, inr,
}
use native.Mathlib.Nat.{mod-lt}
use moc.Client.Servers.{read_le16, sum_words, fold_sum, checksum, select_srv}

-- The sum stays within the buffer and within 32 bits.
sum_words_lem :
    (buf : Bytes) (bsize sum : ℕ)
    → bsize ≤ length buf
    → sum < 2 ^ 32
    → (out : ℕ) × (sum_words buf bsize sum ≡ some out) × (out < 2 ^ 32)
unfolding sum_words read_le16
sum_words_lem buf zero sum h low = (sum, refl, low)
sum_words_lem [] (suc zero) sum h low = absurd (omega arith)
sum_words_lem (b ∷ rest) (suc zero) sum h low = ((sum + b) % 2 ^ 32, refl, omega arith)
sum_words_lem [] (suc (suc n)) sum h low = absurd (omega arith)
sum_words_lem (a ∷ []) (suc (suc n)) sum h low = absurd (omega arith)
sum_words_lem (a ∷ b ∷ rest) (suc (suc n)) sum h low =
    sum_words_lem (b ∷ rest) n ((sum + (a + b * 256)) % 2 ^ 32) (omega arith) (omega arith)

fold_sum_lem : (sum : ℕ) → sum < 2 ^ 32 → (out : ℕ) × (fold_sum 3 sum ≡ some out) × (out < 2 ^ 16)
unfolding fold_sum
fold_sum_lem sum low =
    let once = sum % 2 ^ 16 + sum / 2 ^ 16 in
    let twice = once % 2 ^ 16 + once / 2 ^ 16 in
    let small : (twice / 2 ^ 16 == 0) ≡ true = ground arith in
    elim (Bool-cases (sum / 2 ^ 16 == 0)) [
      | inl done ↦ (sum, rw done refl, ground arith)
      | inr more ↦ elim (Bool-cases (once / 2 ^ 16 == 0)) [
        | inl done ↦ (once, rw (more, done) refl, ground arith)
        | inr again ↦ (twice, rw (more, again, small) refl, ground arith)
      ]
    ]

-- The sum over a key ends, without a read outside the key, and the server that it chooses is one that
-- there is.
-- Condition: there is a server.
pub select_srv_lem :
    (nservers : ℕ) (key : Bytes)
    → 0 < nservers
    → (i : ℕ) × (select_srv nservers key ≡ some (some i)) × (i < nservers)
unfolding select_srv checksum
select_srv_lem nservers key some_in =
    let (sum, run, low) = sum_words_lem key (length key) 0 (omega arith) (omega arith) in
    let (out, fold, small) = fold_sum_lem sum low in
    ((2 ^ 32 - 1 - out) % nservers, ground (arith, run, fold), mod-lt (2 ^ 32 - 1 - out) some_in)
