-- ===== src/Client/Loop/Room.antt =====
-- What a connection of the client keeps between reads, and how much room a run of reads has behind it
-- (client/eloop.c).
use moc.Shared.{
  ℕ, zero, suc, ◌+◌, ◌-◌, ◌≤◌, ◌<◌, ◌≡◌, refl, sym, ap, subst, some, List, [], ◌∷◌, ◌++◌, arith,
  length, Bytes, drop, length-append, length-drop,
}
use moc.Client.Loop.{MocSrv, get_elem?, set}
use moc.Client.Loop.Same.{as_socket}
use moc.Server.Tcp.{sbsize, max_message}
use moc.Server.Tcp.Decode.{
  Tail, partial, illegal, Decodes, decode, Decodes-unique, Decodes-append, Decodes-append_illegal,
  totaltoget_bounds,
}
use moc.Server.Tcp.Unwrap.{Holds}

-- The connection keeps the incomplete message `r`.
abbrev pub Keeps : MocSrv → Bytes → Type 0
Keeps c r = Holds (as_socket c) r

module _ {ℓ} {A : Type ℓ} where
  pub get_elem?-lt : (xs : List A) (i : ℕ) (v : A) → get_elem? xs i ≡ some v → i < length xs
  get_elem?-lt [] i v h = absurd (ground arith)
  get_elem?-lt (x ∷ xs) zero v h = omega arith
  get_elem?-lt (x ∷ xs) (suc i) v h = omega (arith, get_elem?-lt xs i v h)

  pub get_elem?-set_self :
      (xs : List A) (i : ℕ) (u v : A) → get_elem? xs i ≡ some u → get_elem? (set xs i v) i ≡ some v
  get_elem?-set_self [] i u v h = absurd (ground arith)
  get_elem?-set_self (x ∷ xs) zero u v h = refl
  get_elem?-set_self (x ∷ xs) (suc i) u v h = get_elem?-set_self xs i u v h

  pub set-set : (xs : List A) (i : ℕ) (u v : A) → set (set xs i u) i v ≡ set xs i v
  set-set [] i u v = refl
  set-set (x ∷ xs) zero u v = refl
  set-set (x ∷ xs) (suc i) u v = ap (◌∷◌ x) (set-set xs i u v)

  pub set_same : (xs : List A) (i : ℕ) (v : A) → get_elem? xs i ≡ some v → set xs i v ≡ xs
  set_same [] i v h = refl
  set_same (x ∷ xs) zero v h = ground arith
  set_same (x ∷ xs) (suc i) v h = ap (◌∷◌ x) (set_same xs i v h)

-- Reads that each fit behind what is kept: none is longer than SBSIZE less the largest message.
abbrev pub Fit : List Bytes → Type 0
Fit [] = Unit {0}
Fit (rv ∷ reads) = (0 < length rv) × (length rv ≤ sbsize - max_message) × Fit reads

abbrev pub concat : List Bytes → Bytes
concat [] = []
concat (rv ∷ reads) = rv ++ concat reads

-- A stream without an illegal header, cut in two.
pub Decodes-split :
    (a b : Bytes) (ms : List Bytes) (r : Bytes)
    → Decodes (a ++ b) ms (partial r)
    → (ms1 : List Bytes) × (r1 : Bytes) × (ms2 : List Bytes) × Decodes a ms1 (partial r1)
      × Decodes (r1 ++ b) ms2 (partial r)
      × (ms ≡ ms1 ++ ms2)
Decodes-split a b ms r d = split (decode a)
  where
    rest :
        (ms1 : List Bytes) (r1 : Bytes)
        → Decodes a ms1 (partial r1)
        → (ms2 : List Bytes) × (t : Tail) × Decodes (r1 ++ b) ms2 t
        → (ms1 : List Bytes) × (r1 : Bytes) × (ms2 : List Bytes) × Decodes a ms1 (partial r1)
          × Decodes (r1 ++ b) ms2 (partial r)
          × (ms ≡ ms1 ++ ms2)
    rest ms1 r1 d1 (ms2, t, d2) =
        let (same, tail) =
          Decodes-unique (a ++ b) ms (ms1 ++ ms2) (partial r) t d
            (Decodes-append a b ms1 ms2 r1 t d1 d2) in
        (ms1, r1, ms2, d1, subst (λ (u : Tail). Decodes (r1 ++ b) ms2 u) (sym tail) d2, same)

    split :
        (ms1 : List Bytes) × (t : Tail) × Decodes a ms1 t
        → (ms1 : List Bytes) × (r1 : Bytes) × (ms2 : List Bytes) × Decodes a ms1 (partial r1)
          × Decodes (r1 ++ b) ms2 (partial r)
          × (ms ≡ ms1 ++ ms2)
    split (ms1, partial r1, d1) = rest ms1 r1 d1 (decode (r1 ++ b))
    split (ms1, illegal, d1) =
        let (same, tail) =
          Decodes-unique (a ++ b) ms ms1 (partial r) illegal d
            (Decodes-append_illegal a b ms1 d1) in
        absurd (ground arith)

pub Keeps-bound : (c : MocSrv) (r : Bytes) → Keeps c r → length r ≤ max_message
Keeps-bound c [] h = omega arith
Keeps-bound c (b ∷ r) h = ground (arith, totaltoget_bounds (b ∷ r) c.pktsize h.3)

-- What is left at the end of a stream is no longer than the stream.
pub Decodes-shorter :
    (buf : Bytes) (ms : List Bytes) (r : Bytes) → Decodes buf ms (partial r) → length r ≤ length buf
Decodes-shorter buf [] r d = rw d.0 (omega arith)
Decodes-shorter buf (m ∷ ms) r (n, e, fits, is, d) =
    omega (arith, Decodes-shorter (drop n buf) ms r d, length-drop n buf)

-- Each read has room behind what the connection keeps by then.
abbrev pub Roomy : Bytes → List Bytes → Type 0
Roomy r [] = Unit {0}
Roomy r (rv ∷ reads) =
    (0 < length rv)
    × (length r + length rv ≤ sbsize)
    × ((c : MocSrv) (ms : List Bytes) (r1 : Bytes)
        → Keeps c r1
        → Decodes (r ++ rv) ms (partial r1)
        → Roomy r1 reads)

pub Roomy-Fit :
    (reads : List Bytes) (c : MocSrv) (r : Bytes) → Keeps c r → Fit reads → Roomy r reads
Roomy-Fit [] c r keeps fit = tt
Roomy-Fit (rv ∷ reads) c r keeps fit = (
  fit.0,
  omega (arith, Keeps-bound c r keeps, fit.1),
  λ c1 ms r1 keeps1 d. Roomy-Fit reads c1 r1 keeps1 fit.2,
)

-- No read is empty.
abbrev pub NonEmpty : List Bytes → Type 0
NonEmpty [] = Unit {0}
NonEmpty (rv ∷ reads) = (0 < length rv) × NonEmpty reads

pub Roomy-NonEmpty :
    (reads : List Bytes) (r : Bytes)
    → NonEmpty reads
    → length r + length (concat reads) ≤ sbsize
    → Roomy r reads
Roomy-NonEmpty [] r some_each small = tt
Roomy-NonEmpty (rv ∷ reads) r some_each small = (
  some_each.0,
  omega (arith, length-append rv (concat reads)),
  λ c1 ms r1 keeps1 d. Roomy-NonEmpty reads r1 some_each.1 (
      omega (
        arith,
        small,
        Decodes-shorter (r ++ rv) ms r1 d,
        length-append r rv,
        length-append rv (concat reads),
      )),
)
