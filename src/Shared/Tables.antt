-- ===== src/Shared/Tables.antt =====
-- What the program uses of ClearSilver's hash tables with string keys: the value under a key, the
-- iteration over what is there (`hash_next`), putting in and taking out.
use Prim.Native.Nat.{◌+◌}
use mathlib.Core.Path.{◌≡◌}
use mathlib.Core.Bool.{Bool}
use mathlib.Core.Option.{Option, none, some}
use mathlib.Core.List.{List, [], ◌∷◌}
use moc.Shared.Lists.{length}
use moc.Shared.Tests.{if◌then◌else◌}
use moc.Shared.Wire.{Bytes}

-- The value under a key in a list of keys and values.
abbrev pub assoc : {A : Type 0} → (Bytes → Bytes → Bool) → List (Bytes × A) → Bytes → Option A
assoc same_key [] j = none
assoc same_key ((k, v) ∷ kvs) j = if same_key k j then some v else assoc same_key kvs j

-- No key stands twice.
abbrev pub Distinct : {A : Type 0} → (Bytes → Bytes → Bool) → List (Bytes × A) → Type 0
Distinct same_key [] = Unit {0}
Distinct same_key ((k, v) ∷ kvs) = (assoc same_key kvs k ≡ none) × Distinct same_key kvs

-- `hash_insert` replaces, `hash_remove` of a key that is not there does nothing.
pub record HashOps (same_key : Bytes → Bytes → Bool) (A : Type 0) : Type 1 where
  pub Hash : Type 0
  pub lookup : Hash → Bytes → Option A
  pub insert : Hash → Bytes → A → Hash
  pub remove : Hash → Bytes → Hash
  pub entries : Hash → List (Bytes × A)
  pub lookup-insert :
      (h : Hash) (k j : Bytes) (v : A)
      → lookup (insert h k v) j ≡ (if same_key k j then some v else lookup h j)
  pub lookup-remove :
      (h : Hash) (k j : Bytes) → lookup (remove h k) j ≡ (if same_key k j then none else lookup h j)
  pub lookup-entries : (h : Hash) (j : Bytes) → lookup h j ≡ assoc same_key (entries h) j
  pub entries-Distinct : (h : Hash) → Distinct same_key (entries h)
  pub length-insert :
      (h : Hash) (k : Bytes) (v : A)
      → lookup h k ≡ none
      → length (entries (insert h k v)) ≡ length (entries h) + 1
  pub length-remove :
      (h : Hash) (k : Bytes) (v : A)
      → lookup h k ≡ some v
      → length (entries (remove h k)) + 1 ≡ length (entries h)
