-- ===== src/Server/Decimal.antt =====
-- The numbers that server/cache.c keeps as texts: `strtoll` in base ten, and `snprintf` with
-- "%23lld", as C has them.
pub mod Trip
use Prim.Native.Nat.{min}
use moc.Shared.{
  ℕ, zero, suc, ◌+◌, ◌-◌, ◌*◌, ◌/◌, ◌%◌, ◌^◌, Bool, true, false, ◌&&◌, ◌||◌, List, [], ◌∷◌, ◌++◌,
  ltb, leb, ◌==◌, if◌then◌else◌, length, take, drop, Bytes,
}

-- Integers; `negsuc n` is - n - 1.
pub data ℤ : Type 0 where
  pos : ℕ → ℤ
  negsuc : ℕ → ℤ

unfoldable pub diff : ℕ → ℕ → ℤ
diff m n = if ltb m n then negsuc (n - m - 1) else pos (m - n)

infixl 6 ◌+ℤ◌
unfoldable pub ◌+ℤ◌ : ℤ → ℤ → ℤ
unfolding diff
pos m +ℤ pos n = pos (m + n)
pos m +ℤ negsuc n = diff m (n + 1)
negsuc m +ℤ pos n = diff n (m + 1)
negsuc m +ℤ negsuc n = negsuc (m + n + 1)

-- The integers of 64 bits.
unfoldable pub fits_int64 : ℤ → Bool
fits_int64 (pos n) = ltb n (2 ^ 63)
fits_int64 (negsuc n) = ltb n (2 ^ 63)

unfoldable pub is_space : ℕ → Bool
is_space b = b == 32 || (leb 9 b && leb b 13)

unfoldable pub is_digit : ℕ → Bool
is_digit b = leb 48 b && leb b 57

unfoldable pub skip_spaces : Bytes → Bytes
skip_spaces [] = []
skip_spaces (b ∷ s) = let rest = skip_spaces s in if is_space b then rest else b ∷ s

-- Whether there is a minus sign, and what stands behind the sign.
unfoldable pub sign : Bytes → Bool × Bytes
sign [] = (false, [])
sign (b ∷ s) = if b == 45 then (true, s) else (if b == 43 then (false, s) else (false, b ∷ s))

unfoldable pub read_digits : ℕ → Bytes → ℕ
read_digits v [] = v
read_digits v (b ∷ s) =
    let rest = read_digits (10 * v + (b - 48)) s in if is_digit b then rest else v

-- A number that does not fit becomes the nearest one that does.
unfoldable pub clamp : Bool → ℕ → ℤ
clamp true zero = pos 0
clamp true (suc n) = negsuc (min n (2 ^ 63 - 1))
clamp false n = pos (min n (2 ^ 63 - 1))

unfoldable pub strtoll : Bytes → ℤ
strtoll s = let (minus, digits) = sign (skip_spaces s) in clamp minus (read_digits 0 digits)

-- The digits of a number in front of a text, at most `fuel` of them.
unfoldable pub digits : ℕ → ℕ → Bytes → Bytes
digits zero n acc = acc
digits (suc fuel) n acc =
    let more = digits fuel (n / 10) ((48 + n % 10) ∷ acc) in
    if n / 10 == 0 then (48 + n % 10) ∷ acc else more

-- An integer of 64 bits has 19 digits at most.
unfoldable pub decimal : ℤ → Bytes → Bytes
decimal (pos n) acc = digits 20 n acc
decimal (negsuc n) acc = 45 ∷ digits 20 (suc n) acc

unfoldable pub spaces : ℕ → Bytes → Bytes
spaces zero acc = acc
spaces (suc n) acc = 32 ∷ spaces n acc

-- The text of "%23lld".
unfoldable pub padded : ℤ → Bytes
padded v = spaces (23 - length (decimal v [])) (decimal v [])

-- `snprintf(buf, size, "%s", text)`, where the buffer has its size.
unfoldable pub snprintf : Bytes → Bytes → Bytes
snprintf [] text = []
snprintf (b ∷ buf) text = let t = take (length buf) text in t ++ 0 ∷ drop (length t) buf
