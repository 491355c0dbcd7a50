-- ===== src/Client/Answer/Reads.antt =====
-- How the client's reads, `srecv` and `recv_msg` of client/tcp.c, put the parts of a message together.
use Prim.Native.Nat.{min}
use moc.Shared.{
  nil_of_length, cons_of_length, ℕ, zero, suc, ◌+◌, ◌-◌, drop-drop, ◌≤◌, ◌<◌, ◌≡◌, refl, sym, ap,
  ◌∙◌, false, true, Bool-cases, inl, inr, some, List, [], ◌∷◌, ◌++◌, append-nil, arith, ltb, le→ltb,
  length, take, drop, length-take, length-drop, take-append-drop, take_all, Bytes, read32,
}
use native.Mathlib.Nat.{zero-add, suc-add}
use moc.Server.Tcp.Decode.{read32-append}
use moc.Client.Answer.{Event, gives, read, behind, srecv, complete, recv_msg}

-- Every event gives bytes.
abbrev pub giving : List ℕ → List Event
giving [] = []
giving (k ∷ ks) = gives k ∷ giving ks

take_nil : (d : ℕ) → take {A = ℕ} d [] ≡ []
take_nil zero = refl
take_nil (suc d) = refl

take_more : (m d : ℕ) (xs : Bytes) → take m xs ++ take d (drop m xs) ≡ take (m + d) xs
take_more zero d xs = rw zero-add
take_more (suc m) d [] = rw suc-add (take_nil d)
take_more (suc m) d (x ∷ xs) = rw suc-add (ap (◌∷◌ x) (take_more m d xs))

-- `srecv` reads what it is asked for, however the kernel cuts it, with one event a byte at most.
srecv_lem :
    (ks : List ℕ) (stream : Bytes) (n : ℕ)
    → n ≤ length stream
    → n ≤ length ks
    → (ks' : List ℕ) × (srecv (giving ks) stream n
        ≡ some (read (take n stream), giving ks', drop n stream))
      × (length ks ≤ length ks' + n)
unfolding srecv behind
srecv_lem ks stream zero h enough = (ks, refl, omega arith)
srecv_lem [] stream (suc n) h enough = absurd (omega arith)
srecv_lem (k ∷ ks) [] (suc n) h enough = absurd (omega arith)
srecv_lem (k ∷ ks) (b ∷ stream) (suc n) h enough =
    let m = min (suc k) (suc n) in
    let bs = b ∷ stream in
    let (ks', run, count) =
      srecv_lem ks (drop m bs) (suc n - m) (omega (arith, length-drop m bs)) (omega arith) in
    let sum : m + (suc n - m) ≡ suc n = omega arith in
    let all = take_more m (suc n - m) bs ∙ ap (λ k. take k bs) sum in
    let rest = drop-drop (suc n - m) m bs ∙ ap (λ k. drop k bs) sum in
    (ks', rw run (rw (all, rest) refl), omega arith)

complete_done :
    (buf rest : Bytes) (size : ℕ) (es : List Event)
    → ltb (length buf) size ≡ false
    → complete buf size es rest ≡ some (read (buf ++ []), es, rest)
unfolding complete
complete_done buf rest size es done =
    rw done (ap (λ s. some (read s, es, rest)) (sym (append-nil buf)))

complete_run :
    (buf rest : Bytes) (size x : ℕ) (xs : Bytes) (es es' : List Event) (rest' : Bytes)
    → ltb (length buf) size ≡ true
    → srecv es rest (size - length buf) ≡ some (read (x ∷ xs), es', rest')
    → complete buf size es rest ≡ some (read (buf ++ (x ∷ xs)), es', rest')
unfolding complete
complete_run buf rest size x xs es es' rest' short run = rw (short, run) refl

-- A message and the bytes of it that the first reads got.
pub header_of : (p : ℕ) (msg : Bytes) → 4 ≤ p → 4 ≤ length msg → read32 (take p msg) ≡ read32 msg
header_of p msg long four =
    sym (read32-append (take p msg) (drop p msg) (omega (arith, length-take p msg)))
    ∙ ap read32 (take-append-drop p msg)

-- The rest of a message is read behind its first bytes.
complete_lem :
    (buf rest : Bytes) (size : ℕ) (ks : List ℕ)
    → size ≤ length buf + length rest
    → length rest ≤ length ks
    → let n = size - length buf in
      (ks' : List ℕ) × (complete buf size (giving ks) rest
        ≡ some (read (buf ++ take n rest), giving ks', drop n rest))
      × (length rest - n ≤ length ks')
complete_lem buf rest size ks h enough = elim (Bool-cases (ltb (length buf) size)) [
  | inr done ↦
      let none_left : size - length buf ≡ 0 = ground arith in
      (ks, rw none_left (complete_done buf rest size (giving ks) done), omega arith)
  | inl short ↦
      let n = size - length buf in
      let (ks', run, count) = srecv_lem ks rest n (omega arith) (omega arith) in
      let (x, xs, some_read) = cons_of_length (take n rest) (ground (arith, length-take n rest)) in
      (
        ks',
        complete_run buf rest size x xs (giving ks) (giving ks') (drop n rest) short
              (run ∙ ap (λ t. some (read t, giving ks', drop n rest)) some_read)
            ∙ ap (λ t. some (read (buf ++ t), giving ks', drop n rest)) (sym some_read),
        omega arith,
      )
]

pub recv_msg_run :
    (k b bsize c msgsize : ℕ) (stream cs : Bytes) (es es' : List Event) (rest : Bytes)
    → let m = min (suc k) bsize in
      complete (take m (b ∷ stream)) 4 es (drop m (b ∷ stream)) ≡ some (read (c ∷ cs), es', rest)
      → read32 (c ∷ cs) ≡ some msgsize
      → msgsize ≤ bsize
      → recv_msg (gives k ∷ es) (b ∷ stream) bsize ≡ complete (c ∷ cs) msgsize es' rest
unfolding recv_msg
recv_msg_run k b bsize c msgsize stream cs es es' rest first size fits =
    rw (first, size, le→ltb bsize msgsize fits) refl

-- The first four bytes, and more that came with them.
pub first_reads :
    (m : ℕ) (msg : Bytes) (ks : List ℕ)
    → 0 < m
    → 4 ≤ length msg
    → length msg ≤ length ks + m
    → (ks1 : List ℕ) × (p : ℕ) × (complete (take m msg) 4 (giving ks) (drop m msg)
        ≡ some (read (take p msg), giving ks1, drop p msg))
      × (4 ≤ p)
      × (length msg - p ≤ length ks1)
first_reads m msg ks pos four enough =
    let lt = length-take m msg in
    let ld = length-drop m msg in
    let (ks1, run, count) =
      complete_lem (take m msg) (drop m msg) 4 ks (omega arith) (omega arith) in
    let n = 4 - length (take m msg) in
    (
      ks1,
      m + n,
      run
          ∙ ap (λ t. some (read t, giving ks1, drop n (drop m msg))) (take_more m n msg)
          ∙ ap (λ t. some (read (take (m + n) msg), giving ks1, t)) (drop-drop n m msg),
      omega arith,
      omega arith,
    )

-- The others.
pub other_reads :
    (p : ℕ) (msg : Bytes) (ks : List ℕ)
    → length msg - p ≤ length ks
    → (ks2 : List ℕ) × (complete (take p msg) (length msg) (giving ks) (drop p msg)
        ≡ some (read msg, giving ks2, []))
other_reads p msg ks enough =
    let lt = length-take p msg in
    let ld = length-drop p msg in
    let (ks2, run, _) =
      complete_lem (take p msg) (drop p msg) (length msg) ks (omega arith) (omega arith) in
    let q = length msg - length (take p msg) in
    let whole : take p msg ++ take q (drop p msg) ≡ msg =
      ap (λ t. take p msg ++ t) (take_all q (drop p msg) (omega arith)) ∙ take-append-drop p msg in
    let nothing : drop q (drop p msg) ≡ [] =
      nil_of_length (drop q (drop p msg)) (omega (arith, length-drop q (drop p msg))) in
    (
      ks2,
      run
          ∙ ap (λ t. some (read t, giving ks2, drop q (drop p msg))) whole
          ∙ ap (λ t. some (read msg, giving ks2, t)) nothing,
    )
