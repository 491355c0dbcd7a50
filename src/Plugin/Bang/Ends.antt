-- ===== src/Plugin/Bang/Ends.antt =====
-- Requests and disconnections that the game does not survive (plugin/private/bang_internal.c).
use moc.Shared.{
  ℕ, ◌+◌, ◌≤◌, ◌≡◌, refl, ◌∙◌, Bool, true, false, inl, inr, Option, Option-cases, none, some, List,
  arith, ◌==◌, ◌>>=◌, Bytes,
}
use moc.Shared.Tables.{HashOps}
use moc.Client.Push.{PushOps}
use moc.Plugin.Base.{Ptr, Origin, write}
use moc.Plugin.Bang.{
  BangUser, BangInfo, BangTable, blank_user, idle, is_idle, get_table, set_user,
  bang_autoselect_table_in_room, bang_state_transit_idle, bang_user_destroy, close_calls, put_back,
  remove_ref, leave_old, enter, bang_user_new, bang_broadcast_to_battle_message,
}
use moc.Plugin.Bang.Tables.{Chosen, autoselect-Chosen}
use moc.Server.Hash.{same_key}
use moc.Server.Tcp.{TcpSocket, tcp_socket_remove_ref}

module _ (table : HashOps same_key Ptr) where
  open table use {lookup, insert, remove}

  destroy_seatless :
      (info : BangInfo table) (p : Ptr) (u : BangUser)
      → info.users p ≡ some u
      → u.current_battling_table ≡ none
      → bang_user_destroy table p info ≡ none
  unfolding bang_user_destroy
  destroy_seatless info p u at seatless = elim (Option-cases u.uid) [
    | inl no_name ↦ ground arith
    | inr (uid, named) ↦ ground arith
  ]

  last_closes :
      (c : TcpSocket) (p : Ptr) (w : Option (BangInfo table))
      → c.refcount ≡ 1
      → c.on_close ≡ some p
      → (tcp_socket_remove_ref (close_calls table) c w).1
        ≡ (do info ← w; bang_user_destroy table p info)
  unfolding tcp_socket_remove_ref close_calls
  last_closes c p w last owner = ground arith

  put_back-none :
      (t : Ptr) (out : TcpSocket × Option (BangInfo table))
      → out.1 ≡ none
      → put_back table t out ≡ none
  unfolding put_back
  put_back-none t (c, w) gone = rw gone refl

  close_seatless :
      (info : BangInfo table) (t p : Ptr) (c : TcpSocket) (u : BangUser)
      → info.socks t ≡ some c
      → c.refcount ≡ 1
      → c.on_close ≡ some p
      → info.users p ≡ some u
      → u.current_battling_table ≡ none
      → remove_ref table t info ≡ none
  unfolding remove_ref
  close_seatless info t p c u there last owner at seatless = rw there (
      put_back-none t _
        (last_closes c p (some info) last owner ∙ destroy_seatless info p u at seatless))

  -- The game after a name that had not joined has joined at `fresh`.
  abbrev entered : BangInfo table → Ptr → Bytes → Origin → TcpSocket → BangInfo table
  entered info fresh uid q c =
      let user = record blank_user { uid = some uid; fd = q.fd; tcpsock = q.tcpsock } in
      record (set_user table fresh user (set_user table fresh blank_user info)) {
        usernum = info.usernum + 1;
        userh = insert info.userh uid fresh;
        socks = write info.socks q.tcpsock (some (record c { on_close = some fresh }));
      }

  leave_unknown :
      (info : BangInfo table) (uid : Bytes) (q : Origin)
      → lookup info.userh uid ≡ none
      → leave_old table uid q info ≡ some info
  unfolding leave_old
  leave_unknown info uid q new = ground arith

  enter_new :
      (info : BangInfo table) (fresh : Ptr) (uid : Bytes) (q : Origin) (c : TcpSocket)
      → lookup info.userh uid ≡ none
      → info.socks q.tcpsock ≡ some c
      → enter table fresh uid q (set_user table fresh blank_user info)
        ≡ some (entered info fresh uid q c)
  unfolding enter set_user write
  enter_new info fresh uid q c new there = ground arith

  idle_kept :
      (info : BangInfo table) (p t : Ptr) (u : BangUser) (uid : Bytes) (c : TcpSocket)
      → info.users p ≡ some u
      → u.uid ≡ some uid
      → info.socks t ≡ some c
      → (info' : BangInfo table) × (bang_state_transit_idle table p info ≡ some info')
        × (info'.users p ≡ some (record u { state = idle }))
        × (info'.socks t ≡ some c)
  unfolding bang_state_transit_idle set_user write
  idle_kept info p t u uid c at named there =
      elim (Option-cases (lookup info.bang_idle_user_hash uid)) [
        | inl out ↦ (
          record (set_user table p (record u { state = idle }) info) {
            bang_idle_user_hash = insert info.bang_idle_user_hash uid p;
            bang_idle_user_number = info.bang_idle_user_number + 1;
          },
          ground arith,
          ground arith,
          there,
        )
        | inr (r, there') ↦
            (set_user table p (record u { state = idle }) info, ground arith, ground arith, there)
      ]

  new_run :
      (info info' info'' : BangInfo table) (fresh : Ptr) (uid : Bytes) (q : Origin)
      → leave_old table uid q (set_user table fresh blank_user info) ≡ some info'
      → enter table fresh uid q info' ≡ some info''
      → bang_user_new table fresh uid q info ≡ bang_state_transit_idle table fresh info''
  unfolding bang_user_new
  new_run info info' info'' fresh uid q e1 e2 = rw (bang_user_new, e1, e2) refl

  -- A user that joins and whose connection then ends, before any battle, makes the close handler
  -- read the table of a user that has none.
  -- Conditions: the name has not joined; the connection is there, with no other reference when it ends.
  pub join_close-faults :
      (info : BangInfo table) (fresh : Ptr) (uid : Bytes) (q : Origin) (c : TcpSocket)
      → lookup info.userh uid ≡ none
      → info.socks q.tcpsock ≡ some c
      → c.refcount ≡ 1
      → (info' : BangInfo table) × (bang_user_new table fresh uid q info ≡ some info')
        × (remove_ref table q.tcpsock info' ≡ none)
  unfolding write set_user blank_user
  join_close-faults info fresh uid q c new there last =
      let user = record blank_user { uid = some uid; fd = q.fd; tcpsock = q.tcpsock } in
      let d = record c { on_close = some fresh } in
      let (info', run, at, there') =
        idle_kept (entered info fresh uid q c) fresh q.tcpsock user uid d (ground arith) refl
          (ground arith) in
      (
        info',
        new_run info (set_user table fresh blank_user info) (entered info fresh uid q c) fresh uid q
              (leave_unknown (set_user table fresh blank_user info) uid q new)
              (enter_new info fresh uid q c new there)
            ∙ run,
        close_seatless info' q.tcpsock fresh d (record user { state = idle }) there' last refl at
            refl,
      )

  leave_same :
      (info : BangInfo table) (fresh p : Ptr) (uid : Bytes) (q : Origin) (u : BangUser)
      → lookup info.userh uid ≡ some p
      → info.users p ≡ some u
      → u.tcpsock ≡ q.tcpsock
      → u.fd ≡ q.fd
      → (p == fresh) ≡ false
      → leave_old table uid q (set_user table fresh blank_user info)
        ≡ some (set_user table fresh blank_user info)
  unfolding leave_old set_user write
  leave_same info fresh p uid q u known at same same' apart = ground arith

  enter_old :
      (info : BangInfo table) (fresh p : Ptr) (uid : Bytes) (q : Origin)
      → lookup info.userh uid ≡ some p
      → enter table fresh uid q info ≡ some info
  unfolding enter
  enter_old info fresh p uid q known = ground arith

  idle_nameless :
      (info : BangInfo table) (fresh : Ptr)
      → bang_state_transit_idle table fresh (set_user table fresh blank_user info) ≡ none
  unfolding bang_state_transit_idle set_user write blank_user
  idle_nameless info fresh = ground arith

  -- A user that joins again over its connection faults the server: the new structure gets no name,
  -- and NULL is looked up among the idle users.
  -- Conditions: the user is not at the address of the new structure.
  pub join_again-faults :
      (info : BangInfo table) (fresh p : Ptr) (uid : Bytes) (q : Origin) (u : BangUser)
      → lookup info.userh uid ≡ some p
      → info.users p ≡ some u
      → u.tcpsock ≡ q.tcpsock
      → u.fd ≡ q.fd
      → (p == fresh) ≡ false
      → bang_user_new table fresh uid q info ≡ none
  unfolding set_user
  join_again-faults info fresh p uid q u known at same same' apart =
      let info1 = set_user table fresh blank_user info in
      new_run info info1 info1 fresh uid q
        (leave_same info fresh p uid q u known at same same' apart)
        (enter_old info1 fresh p uid q known)
      ∙ idle_nameless info fresh

  module _ (ops : PushOps) (set_int_value : ops.hdf.Hdf → Bytes → ℕ → ops.hdf.Hdf) where
    no_table :
        (room : List (BangTable table))
        → ((i : ℕ) (t : BangTable table)
            → get_table table room i ≡ some t
            → 4 ≤ t.battling_user_number)
        → bang_autoselect_table_in_room table room ≡ none
    no_table room full =
        go (bang_autoselect_table_in_room table room) (autoselect-Chosen table room)
      where
        go : (o : Option ℕ) → Chosen table room o → o ≡ none
        go o (inl (i, e, ((t, at, test), rest))) = let many = full i t at in absurd (ground arith)
        go none (inr (f, g)) = refl
        go (some i) (inr (f, ((t, at, test), rest))) =
            let many = full i t at in absurd (ground arith)

    -- A user that wants to battle when every table is full makes the server follow NULL.
    -- Conditions: the user is idle; every table of the room has at least four users.
    pub to_battle_full-faults :
        (memory : Bool) (p : Ptr) (info : BangInfo table) (u : BangUser)
        → info.users p ≡ some u
        → is_idle u.state ≡ true
        → ((i : ℕ) (t : BangTable table)
            → get_table table info.room i ≡ some t
            → 4 ≤ t.battling_user_number)
        → bang_broadcast_to_battle_message table ops set_int_value memory p info ≡ none
    unfolding bang_broadcast_to_battle_message
    to_battle_full-faults memory p info u at ready full =
        rw (bang_broadcast_to_battle_message, at, ready, no_table info.room full) refl
