-- ===== src/Plugin/Chat.antt =====
-- The commands of the chat, plugin/moc_chat.c: joining, quitting, saying something to all, and the
-- private message, which does nothing yet. `none` is a fault.
pub mod Told
pub mod Serve
use moc.Shared.{
  ℕ, zero, suc, ◌+◌, Bool, true, false, Option, none, some, List, [], ◌∷◌, ◌++◌, ◌==◌,
  if◌then◌else◌, ◌>>=◌, Bytes,
}
use moc.Shared.Tables.{HashOps}
use moc.Client.Push.{PushOps, NeoErr}
use moc.Plugin.Base.{Ptr, BaseUser, Origin, BaseInfo, base_user_quit, join, quit}
use moc.Plugin.Message.{Made, refused, made, base_msg_new}
use moc.Server.Hash.{same_key}

-- What the chat uses of data sets besides pushing them: the string under a name, and the node under a
-- name.
pub record ChatOps : Type 1 where
  pub push : PushOps
  pub get_value : push.hdf.Hdf → Bytes → Option Bytes
  pub get_obj : push.hdf.Hdf → Bytes → Option push.hdf.Hdf

-- "userid", "msg", "Output", and the commands "join", "quit" and "bcst" of the messages.
abbrev pub userid_key : Bytes
userid_key = b'u' ∷ b's' ∷ b'e' ∷ b'r' ∷ b'i' ∷ b'd' ∷ []

abbrev pub msg_key : Bytes
msg_key = b'm' ∷ b's' ∷ b'g' ∷ []

abbrev pub pre_output : Bytes
pre_output = b'O' ∷ b'u' ∷ b't' ∷ b'p' ∷ b'u' ∷ b't' ∷ []

abbrev pub join_cmd : Bytes
join_cmd = b'j' ∷ b'o' ∷ b'i' ∷ b'n' ∷ []

abbrev pub quit_cmd : Bytes
quit_cmd = b'q' ∷ b'u' ∷ b'i' ∷ b't' ∷ []

abbrev pub bcst_cmd : Bytes
bcst_cmd = b'b' ∷ b'c' ∷ b's' ∷ b't' ∷ []

-- What a command returns: STATUS_OK, REP_ERR_BADPARAM, or the error of `base_msg_new`.
pub data Status : Type 0 where
  done bad_param : Status
  failed : NeoErr → Status

-- A call of `base_msg_send`: the descriptor and the message.
abbrev pub Sent : Type 0
Sent = List (ℕ × Bytes)

-- REQ_GET_PARAM_STR: an empty string is none.
unfoldable pub get_param : Option Bytes → Option Bytes
get_param none = none
get_param (some []) = none
get_param (some (b ∷ bs)) = some (b ∷ bs)

module _ (table : HashOps same_key Ptr) where
  open table use {entries}

  -- The loop over the users: every one but `uid` is sent the message.
  unfoldable pub tell : BaseInfo table → Bytes → Bytes → List (Bytes × Ptr) → Option Sent
  tell binfo uid msgbuf [] = some []
  tell binfo uid msgbuf ((k, p) ∷ rest) = do
    user ← binfo.users p
    sent ← tell binfo uid msgbuf rest
    some (if same_key uid user.uid then sent else (user.fd, msgbuf) ∷ sent)

  unfoldable pub tell_all : BaseInfo table → Bytes → Bytes → Option Sent
  unfolding tell
  tell_all binfo uid msgbuf = tell binfo uid msgbuf (entries binfo.userh)

  -- BASE_GET_UID: the name of the user at the `appdata` of the connection.
  unfoldable pub get_uid : BaseInfo table → Origin → Option (Option Bytes)
  get_uid binfo q = do
    c ← binfo.socks q.tcpsock
    elim c.on_close [ none ↦ some none | some p ↦ do user ← binfo.users p; some (some user.uid) ]

  module _ (ops : ChatOps) where
    open ops use {push, get_value, get_obj}
    open push use {hdf, set_value}

    -- A message under a command with the node "Output" of the request, to all users but `uid`.
    unfoldable pub announce :
        Bool → Bytes → Bytes → hdf.Hdf → BaseInfo table → Option (Status × Sent)
    unfolding tell_all
    announce memory cmd uid hdfrcv binfo = elim (get_obj hdfrcv pre_output) [
      | none ↦ some (failed NeoErr.nerr_assert, [])
      | some msgnode ↦ do
        msg ← base_msg_new push memory cmd msgnode
        elim msg [
          | refused err ↦ some (failed err, [])
          | made msgbuf ↦ do sent ← tell_all binfo uid msgbuf; some (done, sent)
        ]
    ]

    unfoldable pub cmd_join :
        Bool
        → Option Ptr
        → Origin
        → hdf.Hdf
        → BaseInfo table
        → Option (Status × Sent × BaseInfo table)
    unfolding announce
    cmd_join memory fresh q hdfrcv binfo = elim (get_param (get_value hdfrcv userid_key)) [
      | none ↦ some (bad_param, [], binfo)
      | some uid ↦ do
        binfo' ← join table fresh uid q binfo
        (status, sent) ←
            announce memory join_cmd uid (set_value hdfrcv (pre_output ++ b'.' ∷ userid_key) uid)
              binfo'
        some (status, sent, binfo')
    ]

    unfoldable pub cmd_quit :
        Bool → hdf.Hdf → BaseInfo table → Option (Status × Sent × BaseInfo table)
    unfolding announce
    cmd_quit memory hdfrcv binfo = elim (get_param (get_value hdfrcv userid_key)) [
      | none ↦ some (bad_param, [], binfo)
      | some uid ↦ do
        (status, sent) ←
            announce memory quit_cmd uid (set_value hdfrcv (pre_output ++ b'.' ∷ userid_key) uid)
              binfo
        let left = quit table uid binfo
        elim status [
          | done ↦ do binfo' ← left; some (done, sent, binfo')
          | bad_param ↦ some (bad_param, sent, binfo)
          | failed err ↦ some (failed err, sent, binfo)
        ]
    ]

    unfoldable pub cmd_bcst : Bool → Origin → hdf.Hdf → BaseInfo table → Option (Status × Sent)
    unfolding announce get_uid
    cmd_bcst memory q hdfrcv binfo = do
      uid ← get_uid binfo q
      elim uid [
        | none ↦ some (bad_param, [])
        | some uid ↦ elim (get_param (get_value hdfrcv msg_key)) [
          | none ↦ some (bad_param, [])
          | some msg ↦
              let named = set_value hdfrcv (pre_output ++ b'.' ∷ userid_key) uid in
              announce memory bcst_cmd uid (set_value named (pre_output ++ b'.' ∷ msg_key) msg)
                binfo
        ]
      ]

    unfoldable pub cmd_pm : hdf.Hdf → Status
    cmd_pm hdfrcv = elim (get_param (get_value hdfrcv userid_key)) [
      | none ↦ bad_param
      | some uid ↦ done
    ]
