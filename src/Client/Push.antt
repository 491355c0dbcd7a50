-- ===== src/Client/Push.antt =====
-- What the client does with a message of the server while its event loop runs: `msparse_msg` of
-- client/mscli.c, the queue of events for the callbacks, and a round of the callback thread with the
-- table of callbacks (client/mcbk.c). `none` is a fault: a read outside the message.
pub mod Message
pub mod Callbacks
use moc.Shared.{
  ℕ, ◌+◌, ◌-◌, ◌≡◌, Bool, true, false, not, ◌&&◌, Option, none, some, List, [], ◌∷◌, ◌++◌, ltb, leb,
  ◌==◌, if◌then◌else◌, ◌>>=◌, length, take, drop, Bytes, read32,
}
use moc.Shared.Tables.{HashOps}
use moc.Client.Packet.{HdfOps, unpack_hdf}
use moc.Server.Hash.{same_key}

-- What the push of a message uses of data sets besides reading and writing them: the attributes of a
-- node in their order, with a value that may be NULL; setting a value and, which may fail, an
-- attribute; removing a node with all below it.
pub record PushOps : Type 1 where
  pub hdf : HdfOps
  pub get_attr : hdf.Hdf → Bytes → List (Bytes × Option Bytes)
  pub set_attr : hdf.Hdf → Bytes → Bytes → Bytes → Option hdf.Hdf
  pub set_value : hdf.Hdf → Bytes → Bytes → hdf.Hdf
  pub remove_tree : hdf.Hdf → Bytes → hdf.Hdf

-- "_Reserve" and "cmd".
abbrev pub reserve_node : Bytes
reserve_node = b'_' ∷ b'R' ∷ b'e' ∷ b's' ∷ b'e' ∷ b'r' ∷ b'v' ∷ b'e' ∷ []

abbrev pub cmd_key : Bytes
cmd_key = b'c' ∷ b'm' ∷ b'd' ∷ []

-- `struct msqueue_entry`; its `hdfsnd` stays empty.
pub record MsqueueEntry (Hdf : Type 0) : Type 0 where
  pub ename : Bytes
  pub cmd : Bytes
  pub hdfrcv : Hdf

-- The client as the handler of a message sees it: the name of the connection's module and the data
-- set it last received, the callback queue with the next to be served first, and how often the main
-- thread and the callback thread were signalled.
pub record Events (Hdf : Type 0) : Type 0 where
  pub ename : Bytes
  pub hdfrcv : Hdf
  pub callbackqueue : List (MsqueueEntry Hdf)
  pub main_signals : ℕ
  pub callback_signals : ℕ

-- STATUS_OK, NERR_ASSERT and NERR_NOMEM.
pub data NeoErr : Type 0 where
  status_ok nerr_assert nerr_nomem nerr_io : NeoErr

-- The loop over the attributes: the last of that name counts.
unfoldable pub find_cmd : List (Bytes × Option Bytes) → Option Bytes → Option Bytes
find_cmd [] cmd = cmd
find_cmd ((key, value) ∷ attrs) cmd = find_cmd attrs (if same_key key cmd_key then value else cmd)

-- `msqueue_put` and the signal to the callback thread.
unfoldable pub put_event : {Hdf : Type 0} → MsqueueEntry Hdf → Events Hdf → Events Hdf
put_event e s = record s {
  callbackqueue = s.callbackqueue ++ e ∷ [];
  callback_signals = s.callback_signals + 1;
}

module _ (ops : PushOps) where
  open ops use {hdf, get_attr, remove_tree}

  -- The branch for a message that the server pushes; `memory` is whether the entry is allocated.
  unfoldable pub server_push : Bool → Bytes → Events hdf.Hdf → Option (NeoErr × Events hdf.Hdf)
  server_push memory payload s =
      if ltb (length payload) 4
      then some (nerr_assert, s)
      else (if not memory then some (nerr_nomem, s) else (do
        (rv, hdfrcv) ← unpack_hdf hdf (some (drop 4 payload)) (length payload - 4) hdf.init
        if rv == 0
            then some (nerr_assert, s)
            else elim (find_cmd (get_attr hdfrcv reserve_node) none) [
              | none ↦ some (nerr_assert, s)
              | some cmd ↦ some (
                status_ok,
                put_event
                    (record {
                      ename = s.ename;
                      cmd = cmd;
                      hdfrcv = remove_tree hdfrcv reserve_node;
                    })
                    s,
              )
            ]))

  -- The branch for a reply to a request.
  unfoldable pub server_response : ℕ → ℕ → Bytes → Events hdf.Hdf → Option (NeoErr × Events hdf.Hdf)
  server_response g_reqid id payload s =
      if ltb id g_reqid
      then some (nerr_assert, s)
      else (if leb 4 (length payload)
          then (do
            (rv, hdfrcv) ← unpack_hdf hdf (some (drop 4 payload)) (length payload - 4) s.hdfrcv
            if rv == 0
                then some (nerr_assert, record s { hdfrcv = hdfrcv })
                else some
                    (status_ok, record s { hdfrcv = hdfrcv; main_signals = s.main_signals + 1 }))
          else some (status_ok, record s { main_signals = s.main_signals + 1 }))

  unfoldable pub msparse_msg : Bool → ℕ → Bytes → Events hdf.Hdf → Option (NeoErr × Events hdf.Hdf)
  unfolding server_push server_response
  msparse_msg memory g_reqid buf s = if ltb (length buf) 8 then some (nerr_assert, s) else do
    id ← read32 buf
    reply ← read32 (drop 4 buf)
    if id == 0 && reply == 10000
        then server_push memory (drop 8 buf) s
        else server_response g_reqid id (drop 8 buf) s

  -- As `msparse_buf` calls it: an error is only logged.
  unfoldable pub handle_msg : Bool → ℕ → Bytes → Option (Events hdf.Hdf) → Option (Events hdf.Hdf)
  handle_msg memory g_reqid buf s = do s ← s; (err, s') ← msparse_msg memory g_reqid buf s; some s'

-- The name under which `mcbk_regist` and `mcbk_find` keep a callback: "%s_%s" in 1024 bytes.
unfoldable pub callback_token : Bytes → Bytes → Bytes
callback_token module' cmd = take 1023 (module' ++ b'_' ∷ cmd)

module _ {Callback : Type 0} (table : HashOps same_key Callback) where
  open table use {Hash, lookup, insert, remove}

  unfoldable pub mcbk_find : Hash → Bytes → Bytes → Option Callback
  unfolding callback_token
  mcbk_find cbkh module' cmd = lookup cbkh (callback_token module' cmd)

  unfoldable pub mcbk_regist : Hash → Bytes → Bytes → Callback → Hash
  unfolding callback_token
  mcbk_regist cbkh module' cmd c =
      insert (remove cbkh (callback_token module' cmd)) (callback_token module' cmd) c

  -- A round of `callback_routine` whose wait ends well: the call that it makes, if there is an entry
  -- and a callback for it, and the queue that it leaves.
  unfoldable pub callback_round :
      {Hdf : Type 0}
      → Hash
      → List (MsqueueEntry Hdf)
      → Option (Callback × Hdf) × List (MsqueueEntry Hdf)
  unfolding mcbk_find
  callback_round cbkh [] = (none, [])
  callback_round cbkh (e ∷ q) =
      (elim (mcbk_find cbkh e.ename e.cmd) [ none ↦ none | some c ↦ some (c, e.hdfrcv) ], q)
