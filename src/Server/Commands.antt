-- ===== src/Server/Commands.antt =====
-- The commands on a module's cache that server/syscmd.c offers to the modules, and their dispatch in
-- server/syscmd.h (CASE_SYS_CMD). `none` is a fault: an access through NULL, a string without its
-- end, or a division by the size of an empty table.
pub mod Roundtrip
use moc.Shared.{
  ℕ, ◌+◌, Bool, true, false, ◌&&◌, Option, none, some, List, [], ◌∷◌, ◌++◌, ltb, ◌==◌,
  if◌then◌else◌, ◌>>=◌, length, Bytes,
}
use moc.Client.Packet.{cstring}
use moc.Server.Cache.{Cache, cache_create, cache_get, cache_set, cache_del}
use moc.Server.Decimal.{pos}
use moc.Server.Reply.{ReqInfo, rep_err, tcp_reply_mini, tcp_reply_long}

abbrev pub rep_err_badparam : ℕ
rep_err_badparam = 23

abbrev pub rep_err_cache_miss : ℕ
rep_err_cache_miss = 24

-- What the commands use of data sets: the string under a name, the node under a name with its value,
-- which may be NULL, and setting a string. Strings have no NUL.
pub record NodeOps : Type 1 where
  pub Hdf : Type 0
  pub get_value : Hdf → Bytes → Option Bytes
  pub get_node : Hdf → Bytes → Option (Option Bytes)
  pub set_value : Hdf → Bytes → Bytes → Hdf

-- VNAME_CACHE_KEY and VNAME_CACHE_VAL.
abbrev pub vname_cache_key : Bytes
vname_cache_key = b'c' ∷ b'a' ∷ b'c' ∷ b'h' ∷ b'e' ∷ b'k' ∷ b'e' ∷ b'y' ∷ []

abbrev pub vname_cache_val : Bytes
vname_cache_val = b'c' ∷ b'a' ∷ b'c' ∷ b'h' ∷ b'e' ∷ b'v' ∷ b'a' ∷ b'l' ∷ []

-- The entry of the queue that is served.
pub record Request (Hdf : Type 0) : Type 0 where
  pub req : ReqInfo
  pub hdfrcv : Hdf
  pub hdfsnd : Hdf

-- What a command leaves: the error, `none` for STATUS_OK, the cache, the data set to send, and the
-- reply that it has sent itself, if any.
pub record Outcome (Hdf : Type 0) : Type 0 where
  pub err : Option ℕ
  pub cd : Option Cache
  pub hdfsnd : Hdf
  pub sent : Option Bytes

-- `reply` stands where the code of a reply is wanted, so that 1 is sent.
unfoldable pub mini_if : Bool → ReqInfo → Option Bytes
mini_if reply req = if reply then some (tcp_reply_mini req 1) else none

module _ (ops : NodeOps) where
  open ops use {Hdf, get_value, get_node, set_value}

  -- The label `done` of `sys_cmd_cache_get` without an error, with the value that was found.
  unfoldable pub got : Bool → Option Cache → Request Hdf → Bytes → Option (Outcome Hdf)
  got true cd q val = some (record {
    err = none;
    cd = cd;
    hdfsnd = q.hdfsnd;
    sent = some (tcp_reply_long q.req 1 (some val) (length val));
  })
  got false cd q val =
      if ltb 0 (length val)
      then (do
        s ← cstring val
        some (record {
          err = none;
          cd = cd;
          hdfsnd = set_value q.hdfsnd vname_cache_val s;
          sent = none;
        }))
      else some (record { err = none; cd = cd; hdfsnd = q.hdfsnd; sent = none })

  -- A command that ends with an error, or with nothing to return.
  unfoldable pub done : Bool → Option Cache → Request Hdf → Option ℕ → Outcome Hdf
  done reply cd q err = record { err = err; cd = cd; hdfsnd = q.hdfsnd; sent = mini_if reply q.req }

  unfoldable pub sys_cmd_cache_get : ℕ → Request Hdf → Option Cache → Bool → Option (Outcome Hdf)
  sys_cmd_cache_get g_ctime q none reply = some (done reply none q (some rep_err))
  sys_cmd_cache_get g_ctime q (some cd) reply = elim (get_value q.hdfrcv vname_cache_key) [
    | none ↦ some (done reply (some cd) q (some rep_err_badparam))
    | some key ↦ do
      (found, cd') ← cache_get g_ctime cd key
      elim found [
        | none ↦ some (done reply (some cd') q (some rep_err_cache_miss))
        | some val ↦ got reply (some cd') q val
      ]
  ]

  -- The result of `cache_set` is not looked at.
  unfoldable pub sys_cmd_cache_set :
      Bool → ℕ → Request Hdf → Option Cache → Bool → Option (Outcome Hdf)
  sys_cmd_cache_set memory g_ctime q none reply = some (done reply none q (some rep_err))
  sys_cmd_cache_set memory g_ctime q (some cd) reply = elim (get_value q.hdfrcv vname_cache_key) [
    | none ↦ some (done reply (some cd) q (some rep_err_badparam))
    | some key ↦ elim (get_node q.hdfrcv vname_cache_val) [
      | none ↦ some (done reply (some cd) q (some rep_err_badparam))
      | some node ↦ do
        val ← node
        (rv, cd') ← cache_set memory g_ctime cd key (val ++ 0 ∷ []) (pos 0)
        some (done reply (some cd') q none)
    ]
  ]

  unfoldable pub sys_cmd_cache_del : Request Hdf → Option Cache → Bool → Option (Outcome Hdf)
  sys_cmd_cache_del q none reply = some (done reply none q (some rep_err))
  sys_cmd_cache_del q (some cd) reply = elim (get_value q.hdfrcv vname_cache_key) [
    | none ↦ some (done reply (some cd) q (some rep_err_badparam))
    | some key ↦ do (rv, cd') ← cache_del cd key; some (done reply (some cd') q none)
  ]

  -- A cache of the same size takes the place of the old one; without memory there is none.
  unfoldable pub sys_cmd_cache_empty :
      Bool → Request Hdf → Option Cache → Bool → Option (Outcome Hdf)
  sys_cmd_cache_empty memory q none reply = some (done reply none q (some rep_err))
  sys_cmd_cache_empty memory q (some cd) reply =
      some (done reply (cache_create memory cd.numobjs 0) q none)
