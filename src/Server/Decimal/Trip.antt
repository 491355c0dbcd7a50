-- ===== src/Server/Decimal/Trip.antt =====
-- That a number is read back from its text.
use Prim.Native.Nat.{min}
use moc.Shared.{
  ℕ, zero, suc, ◌+◌, ◌-◌, ◌*◌, ◌/◌, ◌%◌, ◌^◌, ◌≤◌, ◌<◌, ◌≡◌, refl, ap, ◌∙◌, ◌&&◌, Bool, true, false,
  Bool-cases, inl, inr, [], ◌∷◌, ◌++◌, arith, leb, ◌==◌, length, drop, take_all, Bytes,
}
use moc.Server.Decimal.{
  ℤ, pos, negsuc, fits_int64, is_space, is_digit, skip_spaces, sign, read_digits, clamp, strtoll,
  digits, decimal, spaces, padded, snprintf,
}

-- The greatest number of so many digits.
abbrev nines : ℕ → ℕ
nines zero = 0
nines (suc f) = 10 * nines f + 9

read_digits_step :
    (v d : ℕ) (acc : Bytes) → d < 10 → read_digits v ((48 + d) ∷ acc) ≡ read_digits (10 * v + d) acc
unfolding read_digits is_digit
read_digits_step v d acc low =
    let digit : (leb 48 (48 + d) && leb (48 + d) 57) ≡ true = ground arith in
    let back : 48 + d - 48 ≡ d = omega arith in rw (read_digits, digit, back) refl

digits_last :
    (f n : ℕ) (acc : Bytes) → (n / 10 == 0) ≡ true → digits (suc f) n acc ≡ (48 + n % 10) ∷ acc
unfolding digits
digits_last f n acc last = rw last refl

digits_more :
    (f n : ℕ) (acc : Bytes)
    → (n / 10 == 0) ≡ false
    → digits (suc f) n acc ≡ digits f (n / 10) ((48 + n % 10) ∷ acc)
unfolding digits
digits_more f n acc more = rw more refl

read_last :
    (f n : ℕ) (acc : Bytes)
    → (n / 10 == 0) ≡ true
    → read_digits 0 (digits (suc f) n acc) ≡ read_digits n acc
read_last f n acc last =
    let small : 10 * 0 + n % 10 ≡ n = ground arith in
    ap (read_digits 0) (digits_last f n acc last)
    ∙ read_digits_step 0 (n % 10) acc (omega arith)
    ∙ ap (λ k. read_digits k acc) small

read_digits-digits :
    (f n : ℕ) (acc : Bytes)
    → n ≤ nines (suc f)
    → read_digits 0 (digits (suc f) n acc) ≡ read_digits n acc
read_digits-digits zero n acc low = read_last zero n acc (ground arith)
read_digits-digits (suc f) n acc low = elim (Bool-cases (n / 10 == 0)) [
  | inl last ↦ read_last (suc f) n acc last
  | inr more ↦
      let whole : 10 * (n / 10) + n % 10 ≡ n = omega arith in
      ap (read_digits 0) (digits_more (suc f) n acc more)
      ∙ read_digits-digits f (n / 10) ((48 + n % 10) ∷ acc) (omega arith)
      ∙ read_digits_step (n / 10) (n % 10) acc (omega arith)
      ∙ ap (λ k. read_digits k acc) whole
]

-- A text that begins with a digit.
abbrev begins : Bytes → Bool
begins [] = false
begins (b ∷ s) = is_digit b

digits-begins : (f n : ℕ) (acc : Bytes) → begins acc ≡ true → begins (digits f n acc) ≡ true
unfolding digits is_digit
digits-begins zero n acc h = h
digits-begins (suc f) n acc h = elim (Bool-cases (n / 10 == 0)) [
  | inl last ↦ ap begins (digits_last f n acc last) ∙ ground arith
  | inr more ↦
      ap begins (digits_more f n acc more)
      ∙ digits-begins f (n / 10) ((48 + n % 10) ∷ acc) (ground arith)
]

skip_spaces-begins : (s : Bytes) → begins s ≡ true → skip_spaces s ≡ s
unfolding skip_spaces is_space is_digit
skip_spaces-begins [] h = refl
skip_spaces-begins (b ∷ s) h = ground arith

sign-begins : (s : Bytes) → begins s ≡ true → sign s ≡ (false, s)
unfolding sign is_digit
sign-begins [] h = refl
sign-begins (b ∷ s) h = ground arith

skip_spaces-spaces : (n : ℕ) (s : Bytes) → skip_spaces (spaces n s) ≡ skip_spaces s
unfolding skip_spaces spaces is_space
skip_spaces-spaces zero s = refl
skip_spaces-spaces (suc n) s = skip_spaces-spaces n s

digits-front : (f n : ℕ) (acc : Bytes) → begins (digits (suc f) n acc) ≡ true
unfolding digits is_digit
digits-front f n acc = elim (Bool-cases (n / 10 == 0)) [
  | inl last ↦ ap begins (digits_last f n acc last) ∙ ground arith
  | inr more ↦
      ap begins (digits_more f n acc more)
      ∙ digits-begins f (n / 10) ((48 + n % 10) ∷ acc) (ground arith)
]

strtoll_run :
    (s t d : Bytes) (minus : Bool) (n : ℕ)
    → skip_spaces s ≡ t
    → sign t ≡ (minus, d)
    → read_digits 0 d ≡ n
    → strtoll s ≡ clamp minus n
unfolding strtoll
strtoll_run s t d minus n skipped signed digits' = rw (strtoll, skipped, signed, digits') refl

-- The NUL ends the number.
digits-nul : (n : ℕ) (rest : Bytes) → n ≤ nines 20 → read_digits 0 (digits 20 n (0 ∷ rest)) ≡ n
unfolding read_digits is_digit
digits-nul n rest low = read_digits-digits 19 n (0 ∷ rest) low

minus-sign : (k : ℕ) (s : Bytes) → skip_spaces (spaces k (45 ∷ s)) ≡ 45 ∷ s
unfolding skip_spaces is_space
minus-sign k s = skip_spaces-spaces k (45 ∷ s)

pub strtoll-decimal :
    (v : ℤ) (k : ℕ) (rest : Bytes)
    → fits_int64 v ≡ true
    → strtoll (spaces k (decimal v (0 ∷ rest))) ≡ v
unfolding decimal fits_int64 clamp sign
strtoll-decimal (pos n) k rest fits =
    let s = digits 20 n (0 ∷ rest) in
    let front = digits-front 19 n (0 ∷ rest) in
    let small : min n (2 ^ 63 - 1) ≡ n = ground arith in
    strtoll_run (spaces k s) s s false n (skip_spaces-spaces k s ∙ skip_spaces-begins s front)
      (sign-begins s front) (digits-nul n rest (ground arith))
    ∙ ap pos small
strtoll-decimal (negsuc n) k rest fits =
    let s = digits 20 (suc n) (0 ∷ rest) in
    let small : min n (2 ^ 63 - 1) ≡ n = ground arith in
    strtoll_run (spaces k (45 ∷ s)) (45 ∷ s) s true (suc n) (minus-sign k s) refl
      (digits-nul (suc n) rest (ground arith))
    ∙ ap negsuc small

-- A text in front of another.
digits-append : (f n : ℕ) (acc rest : Bytes) → digits f n acc ++ rest ≡ digits f n (acc ++ rest)
unfolding digits
digits-append zero n acc rest = refl
digits-append (suc f) n acc rest =
    ground (arith, digits-append f (n / 10) ((48 + n % 10) ∷ acc) rest)

decimal-append : (v : ℤ) (rest : Bytes) → decimal v [] ++ rest ≡ decimal v rest
unfolding decimal
decimal-append (pos n) rest = digits-append 20 n [] rest
decimal-append (negsuc n) rest = ap (◌∷◌ 45) (digits-append 20 (suc n) [] rest)

spaces-append : (k : ℕ) (s rest : Bytes) → spaces k s ++ rest ≡ spaces k (s ++ rest)
unfolding spaces
spaces-append zero s rest = refl
spaces-append (suc k) s rest = ap (◌∷◌ 32) (spaces-append k s rest)

length-spaces : (k : ℕ) (s : Bytes) → length (spaces k s) ≡ k + length s
unfolding spaces
length-spaces zero s = omega arith
length-spaces (suc k) s = omega (arith, length-spaces k s)

length-digits : (f n : ℕ) (acc : Bytes) → length (digits f n acc) ≤ f + length acc
unfolding digits
length-digits zero n acc = omega arith
length-digits (suc f) n acc = elim (Bool-cases (n / 10 == 0)) [
  | inl last ↦ rw last (omega arith)
  | inr more ↦ rw more (omega (arith, length-digits f (n / 10) ((48 + n % 10) ∷ acc)))
]

length-decimal : (v : ℤ) → length (decimal v []) ≤ 21
unfolding decimal
length-decimal (pos n) = omega (arith, length-digits 20 n [])
length-decimal (negsuc n) = omega (arith, length-digits 20 (suc n) [])

length-padded : (v : ℤ) → length (padded v) ≡ 23
unfolding padded
length-padded v =
    omega (arith, length-spaces (23 - length (decimal v [])) (decimal v []), length-decimal v)

padded_nul :
    (v : ℤ) (rest : Bytes)
    → padded v ++ 0 ∷ rest ≡ spaces (23 - length (decimal v [])) (decimal v (0 ∷ rest))
unfolding padded
padded_nul v rest =
    spaces-append (23 - length (decimal v [])) (decimal v []) (0 ∷ rest)
    ∙ ap (spaces (23 - length (decimal v []))) (decimal-append v (0 ∷ rest))

-- A number that `snprintf` writes with "%23lld" into a buffer of at least 24 bytes is the one that
-- `strtoll` reads there.
pub strtoll-snprintf :
    (v : ℤ) (buf : Bytes)
    → fits_int64 v ≡ true
    → 24 ≤ length buf
    → strtoll (snprintf buf (padded v)) ≡ v
unfolding snprintf
strtoll-snprintf v [] fits room = absurd (omega arith)
strtoll-snprintf v (b ∷ buf) fits room =
    let k = 23 - length (decimal v []) in
    let whole = take_all (length buf) (padded v) (omega (arith, length-padded v)) in
    let rest = drop (length (padded v)) buf in
    ap (λ (t : Bytes). strtoll (t ++ 0 ∷ drop (length t) buf)) whole
    ∙ ap strtoll (padded_nul v rest)
    ∙ strtoll-decimal v k rest fits
