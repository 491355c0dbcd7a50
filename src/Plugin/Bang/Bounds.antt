-- ===== src/Plugin/Bang/Bounds.antt =====
-- That no table of the game ever has more users than seats (plugin/private/bang_internal.c).
use moc.Shared.{
  ℕ, zero, suc, ◌+◌, ◌%◌, ◌^◌, ◌≤◌, ◌<◌, ◌≡◌, refl, ◌∙◌, true, false, not, ◌||◌, Bool-cases, inl,
  inr, some, List, [], ◌∷◌, arith, ltb, ◌==◌, Bytes,
}
use moc.Shared.Tables.{HashOps}
use moc.Plugin.Base.{Ptr, write}
use moc.Plugin.Bang.{
  BangUser, BangInfo, BangTable, table_user_maximum, receive_battle, is_idle, get_table, set_table,
  set_user, take_seat, invite,
}
use moc.Server.Hash.{same_key}

module _ (table : HashOps same_key Ptr) where
  open table use {insert, entries}

  -- No table has more than four users.
  abbrev pub AllSmall : List (BangTable table) → Type 0
  AllSmall [] = Unit {0}
  AllSmall (t ∷ ts) = (t.battling_user_number ≤ table_user_maximum) × AllSmall ts

  pub AllSmall-get :
      (ts : List (BangTable table)) (i : ℕ) (t : BangTable table)
      → AllSmall ts
      → get_table table ts i ≡ some t
      → t.battling_user_number ≤ table_user_maximum
  AllSmall-get [] i t all at = absurd (ground arith)
  AllSmall-get (u ∷ ts) zero t all at = ground arith
  AllSmall-get (u ∷ ts) (suc i) t all at = AllSmall-get ts i t all.1 at

  AllSmall-set :
      (ts : List (BangTable table)) (i : ℕ) (v : BangTable table)
      → AllSmall ts
      → v.battling_user_number ≤ table_user_maximum
      → AllSmall (set_table table ts i v)
  AllSmall-set [] i v all small = tt
  AllSmall-set (u ∷ ts) zero v all small = (small, all.1)
  AllSmall-set (u ∷ ts) (suc i) v all small = (all.0, AllSmall-set ts i v all.1 small)

  get-set :
      (ts : List (BangTable table)) (i : ℕ) (t v : BangTable table)
      → get_table table ts i ≡ some t
      → get_table table (set_table table ts i v) i ≡ some v
  get-set [] i t v at = absurd (ground arith)
  get-set (u ∷ ts) zero t v at = refl
  get-set (u ∷ ts) (suc i) t v at = get-set ts i t v at

  -- There is a user with a name at this address.
  pub record Named (info : BangInfo table) (o : Ptr) : Type 0 where
    pub user : BangUser
    pub uid : Bytes
    pub at : info.users o ≡ some user
    pub named : user.uid ≡ some uid

  Named-set_user :
      (info : BangInfo table) (p o : Ptr) (u : BangUser) (uid : Bytes)
      → u.uid ≡ some uid
      → Named info o
      → Named (set_user table p u info) o
  unfolding set_user write
  Named-set_user info p o u uid named n = elim (Bool-cases (o == p)) [
    | inl here ↦ record { user = u; uid = uid; at = ground arith; named = named }
    | inr there ↦ record { user = n.user; uid = n.uid; at = ground arith; named = n.named }
  ]

  abbrev pub AllNamed : BangInfo table → List (Bytes × Ptr) → Type 0
  AllNamed info [] = Unit {0}
  AllNamed info ((k, o) ∷ rest) = Named info o × AllNamed info rest

  pub AllNamed-map :
      (info info' : BangInfo table) (kvs : List (Bytes × Ptr))
      → ((o : Ptr) → Named info o → Named info' o)
      → AllNamed info kvs
      → AllNamed info' kvs
  AllNamed-map info info' [] keep all = tt
  AllNamed-map info info' ((k, o) ∷ rest) keep all =
      (keep o all.0, AllNamed-map info info' rest keep all.1)

  -- The game after a user sat down at the table `i`.
  abbrev pub seated : BangInfo table → ℕ → Ptr → BangUser → Bytes → BangTable table → BangInfo table
  seated info i p u uid t =
      set_user table p (record u { current_battling_table = some i })
        (record info {
          room = set_table table info.room i (record t {
            battling_user_number = (t.battling_user_number + 1) % 2 ^ 32;
            battling_user_hash = insert t.battling_user_hash uid p;
          });
        })

  pub take_seat_run :
      (info : BangInfo table) (i : ℕ) (p : Ptr) (u : BangUser) (uid : Bytes) (t : BangTable table)
      → info.users p ≡ some u
      → u.uid ≡ some uid
      → get_table table info.room i ≡ some t
      → take_seat table i p info ≡ some (seated info i p u uid t)
  unfolding take_seat
  take_seat_run info i p u uid t at named there = rw (take_seat, at, named, there) refl

  -- The game after an idle user was invited.
  abbrev pub invited :
      BangInfo table → Bytes → ℕ → Ptr → BangUser → Bytes → BangTable table → BangInfo table
  invited info buf i o u uid t =
      let info' =
        set_user table o (record u { current_battling_table = some i; state = receive_battle })
          (seated info i o u uid t) in
      record info' { sent = (u.fd, buf) ∷ info'.sent }

  invite_skip :
      (buf : Bytes) (n i : ℕ) (p : Ptr) (k : Bytes) (o : Ptr) (rest : List (Bytes × Ptr))
      (info : BangInfo table) (u : BangUser) (t : BangTable table)
      → info.users o ≡ some u
      → get_table table info.room i ≡ some t
      → (o == p || not (is_idle u.state)) ≡ true
      → invite table buf n i p ((k, o) ∷ rest) info ≡ invite table buf n i p rest info
  unfolding invite
  invite_skip buf n i p k o rest info u t at there skip = rw (at, there, skip) refl

  invite_stop :
      (buf : Bytes) (n i : ℕ) (p : Ptr) (k : Bytes) (o : Ptr) (rest : List (Bytes × Ptr))
      (info : BangInfo table) (u : BangUser) (t : BangTable table)
      → info.users o ≡ some u
      → get_table table info.room i ≡ some t
      → (o == p || not (is_idle u.state)) ≡ false
      → ltb n t.battling_user_number ≡ true
      → invite table buf n i p ((k, o) ∷ rest) info ≡ some info
  unfolding invite
  invite_stop buf n i p k o rest info u t at there go full = rw (at, there, go, full) refl

  pub seated_user :
      (info : BangInfo table) (i : ℕ) (p : Ptr) (u : BangUser) (uid : Bytes) (t : BangTable table)
      → (seated info i p u uid t).users p ≡ some (record u { current_battling_table = some i })
  unfolding set_user write
  seated_user info i p u uid t = ground arith

  invite_seat :
      (buf : Bytes) (n i : ℕ) (p : Ptr) (k : Bytes) (o : Ptr) (rest : List (Bytes × Ptr))
      (info : BangInfo table) (u : BangUser) (uid : Bytes) (t : BangTable table)
      → info.users o ≡ some u
      → u.uid ≡ some uid
      → get_table table info.room i ≡ some t
      → (o == p || not (is_idle u.state)) ≡ false
      → ltb n t.battling_user_number ≡ false
      → invite table buf n i p ((k, o) ∷ rest) info
        ≡ invite table buf n i p rest (invited info buf i o u uid t)
  unfolding invite
  invite_seat buf n i p k o rest info u uid t at named there go free =
      rw
        (
          at,
          there,
          go,
          free,
          take_seat_run info i o u uid t at named there,
          seated_user info i o u uid t,
        )
        refl

  module _ (info : BangInfo table) (i : ℕ) (o : Ptr) (u : BangUser) (uid : Bytes)
      (t : BangTable table) (named : u.uid ≡ some uid)
      (there : get_table table info.room i ≡ some t) where
    pub seated-Named : (x : Ptr) → Named info x → Named (seated info i o u uid t) x
    seated-Named x n =
        Named-set_user _ o x (record u { current_battling_table = some i }) uid named
          (record { user = n.user; uid = n.uid; at = n.at; named = n.named })

    pub seated-AllSmall :
        t.battling_user_number < table_user_maximum
        → AllSmall info.room
        → AllSmall (seated info i o u uid t).room
    unfolding set_user
    seated-AllSmall free all = AllSmall-set info.room i _ all (omega arith)

    pub seated-get :
        (v : BangTable table) × (get_table table (seated info i o u uid t).room i ≡ some v)
        × (v.battling_user_number ≡ (t.battling_user_number + 1) % 2 ^ 32)
    unfolding set_user
    seated-get = (_, get-set info.room i t _ there, refl)

    invited-Named : (buf : Bytes) (x : Ptr) → Named info x → Named (invited info buf i o u uid t) x
    invited-Named buf x n =
        let m =
          Named-set_user (seated info i o u uid t) o x
            (record u { current_battling_table = some i; state = receive_battle }) uid named
            (seated-Named x n) in
        record { user = m.user; uid = m.uid; at = m.at; named = m.named }

    invited-room :
        (buf : Bytes) → (invited info buf i o u uid t).room ≡ (seated info i o u uid t).room
    unfolding set_user
    invited-room buf = refl

  -- Inviting the idle users to a table ends, and seats no one at a full one.
  pub invite_lem :
      (buf : Bytes) (n i : ℕ) (p : Ptr) (kvs : List (Bytes × Ptr)) (info : BangInfo table)
      (t : BangTable table)
      → n < table_user_maximum
      → AllNamed info kvs
      → AllSmall info.room
      → get_table table info.room i ≡ some t
      → (info' : BangInfo table) × (invite table buf n i p kvs info ≡ some info')
        × AllSmall info'.room
        × ((x : Ptr) → Named info x → Named info' x)
  unfolding invite
  invite_lem buf n i p [] info t small all bounded there = (info, refl, bounded, λ x h. h)
  invite_lem buf n i p ((k, o) ∷ rest) info t small all bounded there =
      let ou : Named info o = all.0 in
      let u = ou.user in
      elim (Bool-cases (o == p || not (is_idle u.state))) [
        | inl skip ↦
            let (info', run, bounded', keep) =
              invite_lem buf n i p rest info t small all.1 bounded there in
            (info', invite_skip buf n i p k o rest info u t ou.at there skip ∙ run, bounded', keep)
        | inr go ↦ elim (Bool-cases (ltb n t.battling_user_number)) [
          | inl full ↦
              (info, invite_stop buf n i p k o rest info u t ou.at there go full, bounded, λ x h. h)
          | inr free ↦
              let next = invited info buf i o u ou.uid t in
              let same = invited-room info i o u ou.uid t ou.named there buf in
              let seats : t.battling_user_number < table_user_maximum = ground arith in
              let (v, at, count) = seated-get info i o u ou.uid t ou.named there in
              let (info', run, bounded', keep) =
                invite_lem buf n i p rest next v small
                  (AllNamed-map info next rest
                    (λ x h. invited-Named info i o u ou.uid t ou.named there buf x h) all.1)
                  (rw same (seated-AllSmall info i o u ou.uid t ou.named there seats bounded))
                  (rw same at) in
              (
                info',
                invite_seat buf n i p k o rest info u ou.uid t ou.at ou.named there go free ∙ run,
                bounded',
                λ x h. keep x (invited-Named info i o u ou.uid t ou.named there buf x h),
              )
        ]
      ]
