-- ===== src/Tests/Plugins.antt =====
-- Users of the modules base, chat and bang: who joins, speaks, fights and quits.
use moc.Shared.{
  ℕ, ◌+◌, ◌-◌, ◌<◌, ◌≡◌, refl, true, false, inl, Option, none, some, [], ◌∷◌, ◌++◌, ◌&&◌, ◌==◌,
  if◌then◌else◌, Bytes, length, arith,
}
use moc.Client.Push.Message.{base_msg_new_lem}
use moc.Client.Request.Layout.{body}
use moc.Plugin.Base
use moc.Plugin.Base.{Ptr, BaseUser, Origin, BaseInfo, write, join, quit}
use moc.Plugin.Bang
use moc.Plugin.Base.Users.{Joined, IsBase}
use moc.Plugin.Base.Joins.{IsFree, added, added-IsBase, join_lem, quit_lem}
use moc.Plugin.Base.Twice.{join_twice-faults}
use moc.Plugin.Bang.{
  BattleState, BangInfo, BangTable, BangUser, Status, first_table, bang_autoselect_table_in_room,
  bang_user_new, bang_broadcast_to_battle_message,
}
use moc.Plugin.Bang.Battle.{EndsSmall, bang_broadcast_to_battle_message-EndsSmall}
use moc.Plugin.Bang.Bounds.{Named, AllNamed}
use moc.Plugin.Bang.Ends.{join_close-faults}
use moc.Plugin.Chat.{ChatOps, Sent, done, bcst_cmd, msg_key, get_param, cmd_bcst}
use moc.Plugin.Chat.Told.{In, Reached, cmd_bcst_lem}
use moc.Plugin.Message.{push_bytes}
use moc.Server.Hash.{same_key}
use moc.Server.Tcp.{TcpSocket, tcp_newconnection}
use moc.Tests.{text_ops, a_is_1}
use moc.Tests.Pushes.{text_push}
use moc.Tests.Tables.{list_hash}

abbrev ann : Bytes
ann = b'a' ∷ b'n' ∷ b'n' ∷ []

abbrev bob : Bytes
bob = b'b' ∷ b'o' ∷ b'b' ∷ []

-- Two connections, at the addresses 1 and 2, and no user.
abbrev sockets : Ptr → Option TcpSocket
sockets p =
    if p == 1
    then some (tcp_newconnection 5)
    else (if p == 2 then some (tcp_newconnection 6) else none)

abbrev pub nobody : BaseInfo (list_hash Ptr)
nobody = record { usernum = 0; userh = ([], tt); users = λ p. none; socks = sockets }

abbrev pub ann_origin : Origin
ann_origin = record { fd = 5; tcpsock = 1 }

abbrev bob_origin : Origin
bob_origin = record { fd = 6; tcpsock = 2 }

-- Ann has joined, then Bob.
abbrev one_user : BaseInfo (list_hash Ptr)
one_user = added (list_hash Ptr) nobody 11 ann ann_origin (tcp_newconnection 5)

abbrev two_users : BaseInfo (list_hash Ptr)
two_users = added (list_hash Ptr) one_user 12 bob bob_origin (tcp_newconnection 6)

nobody-IsBase : IsBase (list_hash Ptr) nobody
nobody-IsBase = record { joined = λ k p h. absurd (ground arith); counted = refl }

ann-IsFree : IsFree (list_hash Ptr) nobody ann_origin (tcp_newconnection 5)
unfolding tcp_newconnection
ann-IsFree = record { there = refl; no_owner = refl; held = omega arith; alive = refl }

bob-IsFree : IsFree (list_hash Ptr) one_user bob_origin (tcp_newconnection 6)
unfolding tcp_newconnection write
bob-IsFree = record { there = refl; no_owner = refl; held = omega arith; alive = refl }

one_user-IsBase : IsBase (list_hash Ptr) one_user
one_user-IsBase =
    added-IsBase (list_hash Ptr) nobody 11 ann ann_origin (tcp_newconnection 5) nobody-IsBase refl
      refl ann-IsFree

bob_new : (list_hash Ptr).lookup one_user.userh bob ≡ none
unfolding same_key
bob_new = refl

unused : one_user.users 12 ≡ none
unfolding write
unused = refl

two_users-IsBase : IsBase (list_hash Ptr) two_users
two_users-IsBase =
    added-IsBase (list_hash Ptr) one_user 12 bob bob_origin (tcp_newconnection 6) one_user-IsBase
      bob_new unused bob-IsFree

join_lem_example :
    (b' : BaseInfo (list_hash Ptr)) × (join (list_hash Ptr) (some 12) bob bob_origin one_user
      ≡ some b')
    × IsBase (list_hash Ptr) b'
    × (b'.users 12 ≡ some (record { uid = bob; fd = 6; tcpsock = 2 }))
    × ((j : Bytes)
        → (list_hash Ptr).lookup b'.userh j
          ≡ (if same_key bob j then some 12 else (list_hash Ptr).lookup one_user.userh j))
join_lem_example =
    join_lem (list_hash Ptr) one_user 12 bob bob_origin (tcp_newconnection 6) one_user-IsBase unused
      bob-IsFree (inl bob_new)

ann_here : (list_hash Ptr).lookup two_users.userh ann ≡ some 11
unfolding same_key
ann_here = refl

abbrev ann_base : BaseUser
ann_base = record { uid = ann; fd = 5; tcpsock = 1 }

abbrev ann_sock : TcpSocket
ann_sock = record (tcp_newconnection 5) { on_close = some 11 }

ann_at : two_users.users 11 ≡ some ann_base
unfolding write
ann_at = refl

ann_sock_at : two_users.socks 1 ≡ some ann_sock
unfolding write
ann_sock_at = refl

ann_held : 0 < ann_sock.refcount
unfolding tcp_newconnection
ann_held = omega arith

ann_alive : ann_sock.alive ≡ true
unfolding tcp_newconnection
ann_alive = refl

abbrev ann_joined : Joined (list_hash Ptr) two_users ann 11
ann_joined = record {
  user = ann_base;
  sock = ann_sock;
  at = ann_at;
  named = refl;
  over = ann_sock_at;
  owner = refl;
  held = ann_held;
  alive = ann_alive;
}

quit_lem_example :
    (b' : BaseInfo (list_hash Ptr)) × (quit (list_hash Ptr) ann two_users ≡ some b')
    × IsBase (list_hash Ptr) b'
    × (b'.socks ann_joined.user.tcpsock ≡ (
        if ann_joined.sock.refcount == 1
        then none
        else some (record ann_joined.sock { refcount = ann_joined.sock.refcount - 1 })))
    × (b'.users 11 ≡ (if ann_joined.sock.refcount == 1 then none else some ann_joined.user))
    × ((t : Ptr) → (t == ann_joined.user.tcpsock) ≡ false → b'.socks t ≡ two_users.socks t)
    × ((j : Bytes)
        → (list_hash Ptr).lookup b'.userh j ≡ (
            if ann_joined.sock.refcount == 1 && same_key ann j
            then none
            else (list_hash Ptr).lookup two_users.userh j))
quit_lem_example = quit_lem (list_hash Ptr) two_users ann 11 two_users-IsBase ann_here ann_joined

join_twice-faults_example :
    (b1 b2 b3 : BaseInfo (list_hash Ptr)) × (join (list_hash Ptr) (some 11) ann ann_origin nobody
      ≡ some b1)
    × (join (list_hash Ptr) (some 12) bob ann_origin b1 ≡ some b2)
    × (Base.remove_ref (list_hash Ptr) 1 b2 ≡ some b3)
    × ((list_hash Ptr).lookup b3.userh ann ≡ some 11)
    × (b3.users 11 ≡ some (record { uid = ann; fd = ann_origin.fd; tcpsock = ann_origin.tcpsock }))
    × (b3.socks 1 ≡ none)
    × (quit (list_hash Ptr) ann b3 ≡ none)
unfolding same_key tcp_newconnection
join_twice-faults_example =
    join_twice-faults (list_hash Ptr) nobody 11 12 ann bob ann_origin (tcp_newconnection 5) refl
      refl refl refl refl refl refl

-- Requests are texts with the message "hi", and the message to the users is of the whole request.
abbrev chat_ops : ChatOps
chat_ops = record {
  push = text_push;
  get_value = λ h name. some (b'h' ∷ b'i' ∷ []);
  get_obj = λ h name. some h;
}

abbrev said : Bytes
said = push_bytes (body text_ops (bcst_cmd ++ a_is_1) (bcst_cmd ++ a_is_1) refl)

said_hi : get_param (chat_ops.get_value a_is_1 msg_key) ≡ some (b'h' ∷ b'i' ∷ [])
unfolding get_param
said_hi = refl

cmd_bcst_lem_example :
    (sent : Sent) × (cmd_bcst (list_hash Ptr) chat_ops true ann_origin a_is_1 two_users
      ≡ some (done, sent))
    × ((j : Bytes) (r : Ptr)
        → (list_hash Ptr).lookup two_users.userh j ≡ some r
        → same_key ann j ≡ false
        → (v : Joined (list_hash Ptr) two_users j r) → In (v.user.fd, said) sent)
    × ((x : ℕ × Bytes) → In x sent → Reached (list_hash Ptr) two_users ann said x)
    × (length sent + 1 ≡ 2)
cmd_bcst_lem_example =
    cmd_bcst_lem (list_hash Ptr) chat_ops two_users true ann_origin a_is_1 a_is_1 ann
      (b'h' ∷ b'i' ∷ []) said 11 two_users-IsBase ann_here ann_joined refl said_hi refl
      (base_msg_new_lem text_push bcst_cmd a_is_1 (bcst_cmd ++ a_is_1) (bcst_cmd ++ a_is_1) refl
        refl)

-- The game with these users, both idle, and two tables without users.
abbrev empty_table : BangTable (list_hash Ptr)
empty_table = record { battling_user_number = 0; battling_user_hash = ([], tt) }

abbrev ann_user : BangUser
ann_user = record {
  uid = some ann;
  fd = 5;
  tcpsock = 1;
  current_battling_table = none;
  state = BattleState.idle;
}

abbrev bob_user : BangUser
bob_user = record {
  uid = some bob;
  fd = 6;
  tcpsock = 2;
  current_battling_table = none;
  state = BattleState.idle;
}

abbrev game : BangInfo (list_hash Ptr)
game = record {
  usernum = 2;
  userh = two_users.userh;
  users = λ p. if p == 11 then some ann_user else (if p == 12 then some bob_user else none);
  socks = sockets;
  bang_idle_user_number = 2;
  bang_idle_user_hash = two_users.userh;
  room = empty_table ∷ empty_table ∷ [];
  sent = [];
}

ann-Named : Named (list_hash Ptr) game 11
ann-Named = record { user = ann_user; uid = ann; at = refl; named = refl }

bob-Named : Named (list_hash Ptr) game 12
bob-Named = record { user = bob_user; uid = bob; at = refl; named = refl }

all-AllNamed : AllNamed (list_hash Ptr) game ((list_hash Ptr).entries game.bang_idle_user_hash)
unfolding same_key
all-AllNamed = (bob-Named, (ann-Named, tt))

first_empty : bang_autoselect_table_in_room (list_hash Ptr) game.room ≡ some 0
unfolding bang_autoselect_table_in_room first_table
first_empty = refl

bang_broadcast_to_battle_message-EndsSmall_example :
    EndsSmall
      (list_hash Ptr)
      (bang_broadcast_to_battle_message (list_hash Ptr) text_push (λ h name value. h) true 11 game)
bang_broadcast_to_battle_message-EndsSmall_example =
    bang_broadcast_to_battle_message-EndsSmall (list_hash Ptr) text_push (λ h name value. h) true 11
      game 0 ann-Named all-AllNamed (omega arith, (omega arith, tt)) first_empty

abbrev empty_game : BangInfo (list_hash Ptr)
empty_game = record game {
  usernum = 0;
  userh = ([], tt);
  users = λ p. none;
  bang_idle_user_number = 0;
  bang_idle_user_hash = ([], tt);
}

join_close-faults_example :
    (info' : BangInfo (list_hash Ptr)) × (bang_user_new (list_hash Ptr) 11 ann ann_origin empty_game
      ≡ some info')
    × (Bang.remove_ref (list_hash Ptr) 1 info' ≡ none)
unfolding tcp_newconnection
join_close-faults_example =
    join_close-faults (list_hash Ptr) empty_game 11 ann ann_origin (tcp_newconnection 5) refl refl
      refl
