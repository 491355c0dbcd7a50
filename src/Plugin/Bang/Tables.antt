-- ===== src/Plugin/Bang/Tables.antt =====
-- Which table `bang_autoselect_table_in_room` of plugin/private/bang_internal.c chooses.
use moc.Shared.{
  ℕ, zero, suc, ◌-◌, ◌<◌, ◌≡◌, refl, sym, subst, Bool, true, false, ◌&&◌, Bool-cases, ◌⊎◌, inl, inr,
  Option, none, some, List, [], ◌∷◌, arith, leb, ◌==◌, ◌>>=◌,
}
use moc.Shared.Tables.{HashOps}
use moc.Plugin.Base.{Ptr}
use moc.Plugin.Bang.{
  BangTable, table_user_maximum, get_table, first_table, bang_autoselect_table_in_room,
}
use moc.Server.Hash.{same_key}

module _ (table : HashOps same_key Ptr) where
  -- The table `i` is the first whose count passes the test, or no table's does.
  abbrev pub First : (ℕ → Bool) → List (BangTable table) → Option ℕ → Type 0
  First test ts none =
      (j : ℕ) (u : BangTable table)
      → get_table table ts j ≡ some u
      → test u.battling_user_number ≡ false
  First test ts (some i) =
      ((t : BangTable table) × (get_table table ts i ≡ some t)
        × (test t.battling_user_number ≡ true))
      × ((j : ℕ) (u : BangTable table)
          → j < i
          → get_table table ts j ≡ some u
          → test u.battling_user_number ≡ false)

  first_hit :
      (test : ℕ → Bool) (t : BangTable table) (ts : List (BangTable table))
      → test t.battling_user_number ≡ true
      → first_table table test (t ∷ ts) ≡ some zero
  unfolding first_table
  first_hit test t ts hit = rw hit refl

  first_miss :
      (test : ℕ → Bool) (t : BangTable table) (ts : List (BangTable table)) (o : Option ℕ)
      → test t.battling_user_number ≡ false
      → first_table table test ts ≡ o
      → first_table table test (t ∷ ts) ≡ (do i ← o; some (suc i))
  unfolding first_table
  first_miss test t ts o miss rest = rw (miss, rest) refl

  First-cons :
      (test : ℕ → Bool) (t : BangTable table) (ts : List (BangTable table)) (o : Option ℕ)
      → test t.battling_user_number ≡ false
      → First test ts o
      → First test (t ∷ ts) (do i ← o; some (suc i))
  First-cons test t ts none miss f = go
    where
      go :
          (j : ℕ) (u : BangTable table)
          → get_table table (t ∷ ts) j ≡ some u
          → test u.battling_user_number ≡ false
      go zero u at = ground arith
      go (suc j) u at = f j u at
  First-cons test t ts (some i) miss f = (f.0, go)
    where
      go :
          (j : ℕ) (u : BangTable table)
          → j < suc i
          → get_table table (t ∷ ts) j ≡ some u
          → test u.battling_user_number ≡ false
      go zero u lt at = ground arith
      go (suc j) u lt at = f.1 j u (omega arith) at

  pub first_table-First :
      (test : ℕ → Bool) (ts : List (BangTable table))
      → (o : Option ℕ) × (first_table table test ts ≡ o) × First test ts o
  unfolding first_table
  first_table-First test [] = (none, refl, λ j u at. absurd (ground arith))
  first_table-First test (t ∷ ts) = elim (Bool-cases (test t.battling_user_number)) [
    | inl hit ↦
        (some zero, first_hit test t ts hit, ((t, refl, hit), λ j u lt at. absurd (omega arith)))
    | inr miss ↦
        let (o, run, f) = first_table-First test ts in
        ((do i ← o; some (suc i)), first_miss test t ts o miss run, First-cons test t ts o miss f)
  ]

  abbrev pub has_room : ℕ → Bool
  has_room n = leb 1 n && leb n (table_user_maximum - 1)

  -- What is chosen: the first table with one to three users, or, if there is none, the first with no
  -- user, or, if every table has another count, none.
  abbrev pub Chosen : List (BangTable table) → Option ℕ → Type 0
  Chosen room o =
      ((i : ℕ) × (o ≡ some i) × First has_room room (some i))
      ⊎ (First has_room room none × First (λ n. n == 0) room o)

  Chosen-of :
      (room : List (BangTable table)) (o e : Option ℕ)
      → first_table table has_room room ≡ o
      → first_table table (λ n. n == 0) room ≡ e
      → First has_room room o
      → First (λ n. n == 0) room e
      → Chosen room (bang_autoselect_table_in_room table room)
  unfolding bang_autoselect_table_in_room
  Chosen-of room (some i) e run run' f g = inl (i, ground arith, f)
  Chosen-of room none e run run' f g =
      inr (f, subst (First (λ n. n == 0) room) (sym (rest run run')) g)
    where
      rest :
          first_table table has_room room ≡ none
          → first_table table (λ n. n == 0) room ≡ e
          → bang_autoselect_table_in_room table room ≡ e
      rest run run' = ground arith

  -- `bang_autoselect_table_in_room` chooses the first table that has users and a free seat; if there
  -- is none, the first empty table; and none if every table is full (or has a count out of range).
  pub autoselect-Chosen :
      (room : List (BangTable table)) → Chosen room (bang_autoselect_table_in_room table room)
  autoselect-Chosen room =
      let (o, run, f) = first_table-First has_room room in
      let (e, run', g) = first_table-First (λ n. n == 0) room in Chosen-of room o e run run' f g
