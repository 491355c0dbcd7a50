-- ===== src/Tests/Tables.antt =====
-- A table for runs: a list of keys and values in which no key stands twice.
use moc.Shared.{
  ◌+◌, ◌≡◌, refl, sym, ap, ◌∙◌, true, false, Bool-cases, inl, inr, Option, none, some, List, [],
  ◌∷◌, arith, if◌then◌else◌, length, Bytes,
}
use moc.Shared.Tables.{HashOps, assoc, Distinct}
use moc.Server.Hash.{same_key, same_key-≡, same_key_refl}

module _ {A : Type 0} where
  abbrev pub find : List (Bytes × A) → Bytes → Option A
  find kvs j = assoc same_key kvs j

  abbrev pub IsDistinct : List (Bytes × A) → Type 0
  IsDistinct kvs = Distinct same_key kvs

  abbrev pub erase : List (Bytes × A) → Bytes → List (Bytes × A)
  erase [] k = []
  erase ((j, v) ∷ kvs) k = let rest = erase kvs k in if same_key k j then rest else (j, v) ∷ rest

  pub find-erase :
      (kvs : List (Bytes × A)) (k j : Bytes)
      → find (erase kvs k) j ≡ (if same_key k j then none else find kvs j)
  find-erase [] k j = ground arith
  find-erase ((i, v) ∷ kvs) k j = elim (Bool-cases (same_key k i)) [
    | inl hit ↦ elim (Bool-cases (same_key i j)) [
      | inl same ↦
          let e : k ≡ j = same_key-≡ k i hit ∙ same_key-≡ i j same in
          let s : same_key k j ≡ true = ap (same_key k) (sym e) ∙ same_key_refl k in
          ground (arith, find-erase kvs k j)
      | inr other ↦ ground (arith, find-erase kvs k j)
    ]
    | inr miss ↦ elim (Bool-cases (same_key i j)) [
      | inl same ↦
          let s : same_key k j ≡ false = ap (same_key k) (sym (same_key-≡ i j same)) ∙ miss in
          ground (arith, find-erase kvs k j)
      | inr other ↦ ground (arith, find-erase kvs k j)
    ]
  ]

  erase-none : (kvs : List (Bytes × A)) (k : Bytes) → find kvs k ≡ none → erase kvs k ≡ kvs
  erase-none [] k h = refl
  erase-none ((i, v) ∷ kvs) k h = elim (Bool-cases (same_key k i)) [
    | inl hit ↦
        let s : same_key i k ≡ true =
          ap (λ (b : Bytes). same_key b k) (sym (same_key-≡ k i hit)) ∙ same_key_refl k in
        absurd (ground arith)
    | inr miss ↦ elim (Bool-cases (same_key i k)) [
      | inl same ↦ absurd (ground arith)
      | inr other ↦ ground (arith, erase-none kvs k)
    ]
  ]

  pub Distinct-erase :
      (kvs : List (Bytes × A)) (k : Bytes) → IsDistinct kvs → IsDistinct (erase kvs k)
  Distinct-erase [] k d = tt
  Distinct-erase ((i, v) ∷ kvs) k (out, d) = elim (Bool-cases (same_key k i)) [
    | inl hit ↦ rw hit (Distinct-erase kvs k d)
    | inr miss ↦ rw miss ((ground (arith, find-erase kvs k i)), Distinct-erase kvs k d)
  ]

  pub length-erase :
      (kvs : List (Bytes × A)) (k : Bytes) (v : A)
      → IsDistinct kvs
      → find kvs k ≡ some v
      → length (erase kvs k) + 1 ≡ length kvs
  length-erase [] k v d h = absurd (ground arith)
  length-erase ((i, w) ∷ kvs) k v (out, d) h = elim (Bool-cases (same_key k i)) [
    | inl hit ↦
        let e = same_key-≡ k i hit in
        let gone : find kvs k ≡ none = ap (find kvs) e ∙ out in
        rw (hit, erase-none kvs k gone) (omega arith)
    | inr miss ↦ elim (Bool-cases (same_key i k)) [
      | inl same ↦
          let s : same_key k i ≡ true = ap (same_key k) (same_key-≡ i k same) ∙ same_key_refl k in
          absurd (ground arith)
      | inr other ↦ ground (arith, length-erase kvs k v d)
    ]
  ]

  pub absent : (kvs : List (Bytes × A)) (k : Bytes) → find (erase kvs k) k ≡ none
  absent kvs k = ground (arith, find-erase kvs k k, same_key_refl k)

  pub find-put :
      (kvs : List (Bytes × A)) (k j : Bytes) (v : A)
      → find ((k, v) ∷ erase kvs k) j ≡ (if same_key k j then some v else find kvs j)
  find-put kvs k j v = ground (arith, find-erase kvs k j)

  pub length-put :
      (kvs : List (Bytes × A)) (k : Bytes) (v : A)
      → find kvs k ≡ none
      → length ((k, v) ∷ erase kvs k) ≡ length kvs + 1
  length-put kvs k v out =
      omega (arith, ap (λ (l : List (Bytes × A)). length l) (erase-none kvs k out))

abbrev pub list_hash : (A : Type 0) → HashOps same_key A
list_hash A = record {
  Hash = (kvs : List (Bytes × A)) × IsDistinct kvs;
  lookup = λ h k. find h.0 k;
  insert = λ h k v. ((k, v) ∷ erase h.0 k, (absent h.0 k, Distinct-erase h.0 k h.1));
  remove = λ h k. (erase h.0 k, Distinct-erase h.0 k h.1);
  entries = λ h. h.0;
  lookup-insert = λ h k j v. find-put h.0 k j v;
  lookup-remove = λ h k j. find-erase h.0 k j;
  lookup-entries = λ h j. refl;
  entries-Distinct = λ h. h.1;
  length-insert = λ h k v out. length-put h.0 k v out;
  length-remove = λ h k v here. length-erase h.0 k v h.1 here;
}
