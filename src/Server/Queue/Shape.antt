-- ===== src/Server/Queue/Shape.antt =====
-- When a queue on the heap stands for a list of entries, the next to be served first.
use moc.Shared.{◌≡◌, ◌≢◌, Bool, false, ◌||◌, some, List, [], ◌∷◌, arith, ◌==◌, length}
use moc.Server.Queue.{Ptr, null, Heap, Queue, write}

-- Address and content of each entry.
abbrev pub Cells {ℓ} : Type ℓ → Type ℓ
Cells A = List (Ptr × A)

module _ {ℓ} {A : Type ℓ} where
  abbrev pub has : Ptr → Cells A → Bool
  has a [] = false
  has a ((p, _) ∷ xs) = (a == p) || has a xs

  abbrev pub first : Cells A → Ptr
  first [] = null
  first ((p, _) ∷ _) = p

  abbrev pub last : Cells A → Ptr
  last [] = null
  last ((p, _) ∷ []) = p
  last (_ ∷ x ∷ xs) = last (x ∷ xs)

  -- From each entry `prev` leads to the next; the last one's is NULL.
  abbrev pub Linked : Heap A → Cells A → Type ℓ
  Linked h [] = Unit
  Linked h ((p, v) ∷ xs) =
      (p ≢ null)
      × (h p ≡ some (record { item = v; prev = first xs }))
      × (has p xs ≡ false)
      × Linked h xs

  pub record IsQueue (h : Heap A) (q : Queue) (xs : Cells A) : Type ℓ where
    pub size : q.size ≡ length xs
    pub top : q.top ≡ last xs
    pub bottom : q.bottom ≡ first xs
    pub linked : Linked h xs

  -- An entry that is not in the queue, ready to be put into it.
  pub record IsLoose (h : Heap A) (xs : Cells A) (e : Ptr) (v : A) : Type ℓ where
    pub ne_null : e ≢ null
    pub holds : h e ≡ some (record { item = v; prev = null })
    pub out : has e xs ≡ false

  -- A write outside the queue leaves it alone.
  pub Linked-write :
      (h : Heap A) (p : Ptr) (xs : Cells A) (c : _)
      → has p xs ≡ false
      → Linked h xs
      → Linked (write h p c) xs
  unfolding write
  Linked-write h p [] c out l = tt
  Linked-write h p ((a, v) ∷ xs) c out l =
      (l.0, ground arith, l.2, Linked-write h p xs c (ground arith) l.3)
