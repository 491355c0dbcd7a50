-- ===== src/Plugin/Bang.antt =====
-- The game "bang": its users, tables and states, plugin/private/bang_internal.c, with the joining of
-- plugin/moc_bang.c. `none` is a fault: an access through NULL or through a pointer to nothing.
-- The count of a table is an `int`, held as its 32 bits; no test tells a negative count from a large
-- one.
pub mod Tables
pub mod Battle
pub mod Bounds
pub mod Ends
use moc.Shared.{
  ℕ, zero, suc, ◌+◌, ◌-◌, ◌%◌, ◌^◌, Bool, true, false, not, ◌&&◌, ◌||◌, Option, none, some, List,
  [], ◌∷◌, ltb, leb, ◌==◌, if◌then◌else◌, ◌>>=◌, Bytes,
}
use moc.Shared.Tables.{HashOps}
use moc.Client.Push.{NeoErr, PushOps}
use moc.Plugin.Base.{Ptr, Origin, write}
use moc.Plugin.Message.{Made, refused, made, base_msg_new}
use moc.Server.Hash.{same_key}
use moc.Server.Tcp.{TcpSocket, Calls, tcp_socket_remove_ref}

-- BANG_TABLE_USER_MAXIMUM and BANG_ROOM_TABLE_MAXIMUM.
abbrev pub table_user_maximum : ℕ
table_user_maximum = 4

abbrev pub room_table_maximum : ℕ
room_table_maximum = 25

-- BANG_BATTLE_STATE.
pub data BattleState : Type 0 where
  idle to_battle receive_battle accept_battle single_battle battling unknown : BattleState

unfoldable pub is_idle : BattleState → Bool
is_idle idle = true
is_idle _ = false

-- `struct bang_user`, with the user that it inherits from; the table is its index in the room.
pub record BangUser : Type 0 where
  pub uid : Option Bytes
  pub fd : ℕ
  pub tcpsock : Ptr
  pub current_battling_table : Option ℕ
  pub state : BattleState

-- A user as `calloc` and `bang_user_new` leave it: without a name.
unfoldable pub blank_user : BangUser
blank_user = record { uid = none; fd = 0; tcpsock = 0; current_battling_table = none; state = idle }

-- What a command returns: STATUS_OK, the error of the game, or that of a message.
pub data Status : Type 0 where
  status_ok bang_error : Status
  failed : NeoErr → Status

-- "tableid", "user_has_been_matched", "1", "battlebegin" and "battleinvite".
abbrev pub tableid_key : Bytes
tableid_key = b't' ∷ b'a' ∷ b'b' ∷ b'l' ∷ b'e' ∷ b'i' ∷ b'd' ∷ []

abbrev pub matched_key : Bytes
matched_key =
    b'u' ∷ b's' ∷ b'e' ∷ b'r' ∷ b'_' ∷ b'h' ∷ b'a' ∷ b's' ∷ b'_' ∷ b'b' ∷ b'e' ∷ b'e' ∷ b'n' ∷ b'_'
    ∷ b'm' ∷ b'a' ∷ b't' ∷ b'c' ∷ b'h' ∷ b'e' ∷ b'd' ∷ []

abbrev pub battlebegin : Bytes
battlebegin = b'b' ∷ b'a' ∷ b't' ∷ b't' ∷ b'l' ∷ b'e' ∷ b'b' ∷ b'e' ∷ b'g' ∷ b'i' ∷ b'n' ∷ []

abbrev pub battleinvite : Bytes
battleinvite =
    b'b' ∷ b'a' ∷ b't' ∷ b't' ∷ b'l' ∷ b'e' ∷ b'i' ∷ b'n' ∷ b'v' ∷ b'i' ∷ b't' ∷ b'e' ∷ []

-- A table's id is its index and one.
module _ (table : HashOps same_key Ptr) where
  open table use {Hash, lookup, insert, remove, entries}

  pub record BangTable : Type 0 where
    pub battling_user_number : ℕ
    pub battling_user_hash : Hash

  -- `struct bang_info` and the `struct base_info` that it inherits from, with the users and the
  -- connections that there are, and the messages sent.
  pub record BangInfo : Type 0 where
    pub usernum : ℕ
    pub userh : Hash
    pub users : Ptr → Option BangUser
    pub socks : Ptr → Option TcpSocket
    pub bang_idle_user_number : ℕ
    pub bang_idle_user_hash : Hash
    pub room : List BangTable
    pub sent : List (ℕ × Bytes)

  abbrev pub get_table : List BangTable → ℕ → Option BangTable
  get_table [] i = none
  get_table (t ∷ ts) zero = some t
  get_table (t ∷ ts) (suc i) = get_table ts i

  abbrev pub set_table : List BangTable → ℕ → BangTable → List BangTable
  set_table [] i v = []
  set_table (t ∷ ts) zero v = v ∷ ts
  set_table (t ∷ ts) (suc i) v = t ∷ set_table ts i v

  -- The first table whose count passes the test.
  unfoldable pub first_table : (ℕ → Bool) → List BangTable → Option ℕ
  first_table test [] = none
  first_table test (t ∷ ts) =
      let rest : Option ℕ = (do i ← first_table test ts; some (suc i)) in
      if test t.battling_user_number then some zero else rest

  unfoldable pub bang_autoselect_table_in_room : List BangTable → Option ℕ
  bang_autoselect_table_in_room room =
      elim (first_table (λ n. leb 1 n && leb n (table_user_maximum - 1)) room) [
        | some i ↦ some i
        | none ↦ first_table (λ n. n == 0) room
      ]

  unfoldable pub set_user : Ptr → BangUser → BangInfo → BangInfo
  unfolding write
  set_user p u info = record info { users = write info.users p (some u) }

  -- A user takes a seat at the table `i`: the table, its hash and its count.
  unfoldable pub take_seat : ℕ → Ptr → BangInfo → Option BangInfo
  unfolding set_user
  take_seat i p info = do
    user ← info.users p
    uid ← user.uid
    t ← get_table info.room i
    let t' = record t {
      battling_user_number = (t.battling_user_number + 1) % 2 ^ 32;
      battling_user_hash = insert t.battling_user_hash uid p;
    }
    some (
        set_user p (record user { current_battling_table = some i })
          (record info { room = set_table info.room i t' }))

  unfoldable pub bang_state_transit_idle : Ptr → BangInfo → Option BangInfo
  unfolding set_user
  bang_state_transit_idle p info = do
    user ← info.users p
    uid ← user.uid
    let there = lookup info.bang_idle_user_hash uid
    let info' = set_user p (record user { state = idle }) info
    elim there [
      | some _ ↦ some info'
      | none ↦ some (record info' {
        bang_idle_user_hash = insert info.bang_idle_user_hash uid p;
        bang_idle_user_number = info.bang_idle_user_number + 1;
      })
    ]

  -- The rest of `bang_user_destroy` once the user is out of its table: `base_user_destroy` takes the
  -- user out of the table of users, and off the count, a second time.
  unfoldable pub forget : Ptr → Bytes → BangInfo → BangInfo
  unfolding write
  forget p uid info =
      let less = λ (n : ℕ). if ltb 0 n then n - 1 else n in
      record info {
        userh = remove (remove info.userh uid) uid;
        usernum = less (less info.usernum);
        users = write info.users p none;
      }

  unfoldable pub bang_user_destroy : Ptr → BangInfo → Option BangInfo
  unfolding forget
  bang_user_destroy p info = do
    user ← info.users p
    uid ← user.uid
    let number = info.bang_idle_user_number
    let info' = elim (lookup info.bang_idle_user_hash uid) as (λ _. BangInfo) [
      | none ↦ info
      | some _ ↦ record info {
        bang_idle_user_hash = remove info.bang_idle_user_hash uid;
        bang_idle_user_number = if ltb 0 number then number - 1 else number;
      }
    ]
    i ← user.current_battling_table
    t ← get_table info.room i
    let t' = record t {
      battling_user_number = (t.battling_user_number + 2 ^ 32 - 1) % 2 ^ 32;
      battling_user_hash = remove t.battling_user_hash uid;
    }
    some (forget p uid (record info' { room = set_table info'.room i t' }))

  unfoldable pub close_calls : Calls (Option BangInfo)
  close_calls = record {
    count_tcp = λ w. w;
    parse_message = λ m refs w. record { accepted = true; refs = refs; world = w };
    on_close = λ p w. (do info ← w; bang_user_destroy p info);
  }

  unfoldable pub put_back : Ptr → TcpSocket × Option BangInfo → Option BangInfo
  unfolding write
  put_back tcpsock (c, w) = do
    info ← w
    some (record info { socks = write info.socks tcpsock (if c.alive then some c else none) })

  -- `tcp_socket_remove_ref` on the heap, as in the base.
  unfoldable pub remove_ref : Ptr → BangInfo → Option BangInfo
  unfolding put_back
  remove_ref tcpsock info = do
    c ← info.socks tcpsock
    put_back tcpsock (tcp_socket_remove_ref close_calls c (some info))

  -- `base_user_quit` with the request that joins.
  unfoldable pub leave_old : Bytes → Origin → BangInfo → Option BangInfo
  unfolding remove_ref
  leave_old uid q info = elim (lookup info.userh uid) [
    | none ↦ some info
    | some p ↦ do
      user ← info.users p
      let gone = remove_ref user.tcpsock info
      if q.tcpsock == user.tcpsock && q.fd == user.fd then some info else gone
  ]

  -- `base_user_new` with a structure of the caller's, at `p`: a name that is there keeps its user, and
  -- the structure stays without a name.
  unfoldable pub enter : Ptr → Bytes → Origin → BangInfo → Option BangInfo
  unfolding set_user write
  enter p uid q info = elim (lookup info.userh uid) [
    | some user ↦ some info
    | none ↦ do
      ruser ← info.users p
      c ← info.socks q.tcpsock
      let user = record ruser { uid = some uid; fd = q.fd; tcpsock = q.tcpsock }
      some (record (set_user p user info) {
        usernum = info.usernum + 1;
        userh = insert info.userh uid p;
        socks = write info.socks q.tcpsock (some (record c { on_close = some p }));
      })
  ]

  -- At the address that calloc gives. The name has been read from the request.
  unfoldable pub bang_user_new : Ptr → Bytes → Origin → BangInfo → Option BangInfo
  unfolding set_user
  bang_user_new fresh uid q info = do
    info ← leave_old uid q (set_user fresh blank_user info)
    info ← enter fresh uid q info
    bang_state_transit_idle fresh info

  -- The loop over the idle users: each but the one at `p` is invited to the table `i`, until it has
  -- more than `noticenum` users.
  unfoldable pub invite : Bytes → ℕ → ℕ → Ptr → List (Bytes × Ptr) → BangInfo → Option BangInfo
  invite buf noticenum i p [] info = some info
  invite buf noticenum i p ((k, o) ∷ rest) info = do
    ouser ← info.users o
    t ← get_table info.room i
    let skip = invite buf noticenum i p rest info
    let seat = (do
      info' ← take_seat i o info
      u ← info'.users o
      let info'' = set_user o (record u { state = receive_battle }) info'
      invite buf noticenum i p rest (record info'' { sent = (ouser.fd, buf) ∷ info''.sent }))
    if o == p || not (is_idle ouser.state)
        then skip
        else (if ltb noticenum t.battling_user_number then some info else seat)

  module _ (ops : PushOps) (set_int_value : ops.hdf.Hdf → Bytes → ℕ → ops.hdf.Hdf) where
    open ops use {hdf, set_value}

    unfoldable pub bang_state_transit_battling : Bool → Ptr → BangInfo → Option (Status × BangInfo)
    unfolding set_user
    bang_state_transit_battling memory p info = do
      user ← info.users p
      uid ← user.uid
      let number = info.bang_idle_user_number
      let info' =
          set_user p (record user { state = battling })
            (record info {
              bang_idle_user_hash = remove info.bang_idle_user_hash uid;
              bang_idle_user_number = if ltb 0 number then number - 1 else number;
            })
      let begin = (do
        i ← user.current_battling_table
        msg ←
            base_msg_new ops memory battlebegin
              (set_int_value (set_value hdf.init matched_key (b'1' ∷ [])) tableid_key (i + 1))
        elim msg [
          | refused err ↦ some (failed err, info')
          | made buf ↦ some (status_ok, record info' { sent = (user.fd, buf) ∷ info'.sent })
        ])
      elim (lookup info.bang_idle_user_hash uid) [
        | none ↦ some (status_ok, set_user p (record user { state = unknown }) info)
        | some _ ↦ begin
      ]

    unfoldable pub bang_broadcast_to_battle_message :
        Bool → Ptr → BangInfo → Option (Status × BangInfo)
    unfolding set_user
    bang_broadcast_to_battle_message memory p info = do
      user ← info.users p
      if not (is_idle user.state) then some (bang_error, info) else (do
        i ← bang_autoselect_table_in_room info.room
        info ← take_seat i p info
        user ← info.users p
        t ← get_table info.room i
        let number = info.bang_idle_user_number
        let noticenum = if ltb number table_user_maximum then number else table_user_maximum - 1
        let begin = bang_state_transit_battling memory p info
        let calling = (do
          msg ← base_msg_new ops memory battleinvite (set_int_value hdf.init tableid_key (i + 1))
          elim msg [
            | refused err ↦ some (failed err, info)
            | made buf ↦ do
              info' ← invite buf noticenum i p (entries info.bang_idle_user_hash) info
              user' ← info'.users p
              some (status_ok, set_user p (record user' { state = to_battle }) info')
          ])
        if ltb 1 t.battling_user_number && leb t.battling_user_number 4
            then begin
            else (if leb noticenum 1
                then some (status_ok, set_user p (record user { state = single_battle }) info)
                else calling))
