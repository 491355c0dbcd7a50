-- ===== src/Plugin/Chat/Serve.antt =====
-- How the module chat serves a request, `chat_process_driver` of plugin/moc_chat.c: the commands on
-- its cache, its own commands, its statistics, and the reply to a synchronous request. `none` is a
-- fault of the command.
pub mod Counters
pub mod Counts
use moc.Shared.{
  ℕ, ◌+◌, Bool, true, false, not, ◌&&◌, ◌||◌, Option, none, some, List, [], ◌∷◌, ◌++◌, leb, ◌==◌,
  if◌then◌else◌, ◌>>=◌, Bytes,
}
use moc.Shared.Tables.{HashOps}
use moc.Client.Push.{PushOps, NeoErr, status_ok, nerr_assert, nerr_nomem}
use moc.Client.Trigger.{is_sync, pre_errmsg}
use moc.Plugin.Base.{Ptr, Origin, BaseInfo}
use moc.Plugin.Chat.{
  ChatOps, Status, done, bad_param, failed, Sent, cmd_join, cmd_quit, cmd_bcst, cmd_pm,
}
use moc.Server.Cache.{Cache}
use moc.Server.Commands.{
  NodeOps, Request, Outcome, rep_err_badparam, sys_cmd_cache_get, sys_cmd_cache_set,
  sys_cmd_cache_del, sys_cmd_cache_empty,
}
use moc.Server.Hash.{same_key}
use moc.Server.Parse.{DataOps, reply_trigger}
use moc.Server.Reply.{ReqInfo, rep_ok, rep_err_unkreq}

-- What the module uses of data sets, together.
pub record ServeOps : Type 1 where
  pub push : PushOps
  pub get_value : push.hdf.Hdf → Bytes → Option Bytes
  pub get_obj : push.hdf.Hdf → Bytes → Option push.hdf.Hdf
  pub get_node : push.hdf.Hdf → Bytes → Option (Option Bytes)
  pub set_int_value : push.hdf.Hdf → Bytes → ℕ → push.hdf.Hdf
  pub copy_modules : push.hdf.Hdf → push.hdf.Hdf → push.hdf.Hdf
  pub has_child : push.hdf.Hdf → Bool
  -- The trace and the description of the error with a code.
  pub traceback : ℕ → Bytes
  pub desc : ℕ → Bytes

-- PRE_ERRTRACE and PRE_ERRCODE.
abbrev pub pre_errtrace : Bytes
pre_errtrace =
    b'O' ∷ b'u' ∷ b't' ∷ b'p' ∷ b'u' ∷ b't' ∷ b'.' ∷ b'e' ∷ b'r' ∷ b'r' ∷ b't' ∷ b'r' ∷ b'a' ∷ b'c'
    ∷ b'e' ∷ []

abbrev pub pre_errcode : Bytes
pre_errcode =
    b'O' ∷ b'u' ∷ b't' ∷ b'p' ∷ b'u' ∷ b't' ∷ b'.' ∷ b'e' ∷ b'r' ∷ b'r' ∷ b'c' ∷ b'o' ∷ b'd' ∷ b'e'
    ∷ []

-- `struct chat_stats`.
pub record ChatStats : Type 0 where
  pub msg_total : ℕ
  pub msg_unrec : ℕ
  pub msg_badparam : ℕ
  pub msg_stats : ℕ
  pub proc_suc : ℕ
  pub proc_fai : ℕ

-- NERR_ASSERT and NERR_NOMEM in the order in which the library registers its errors.
unfoldable pub error_code : Status → Option ℕ
error_code done = none
error_code bad_param = some rep_err_badparam
error_code (failed NeoErr.status_ok) = none
error_code (failed NeoErr.nerr_assert) = some 2
error_code (failed NeoErr.nerr_nomem) = some 5
error_code (failed NeoErr.nerr_io) = some 9

-- PROCESS_OK, and the counters of the results.
unfoldable pub count_result : ℕ → ChatStats → ChatStats
count_result ret st =
    if leb rep_ok ret then record st { proc_suc = st.proc_suc + 1 } else record st {
      proc_fai = st.proc_fai + 1;
      msg_badparam = if ret == rep_err_badparam then st.msg_badparam + 1 else st.msg_badparam;
    }

unfoldable pub result_code : Option ℕ → ℕ
result_code none = rep_ok
result_code (some code) = code

-- A request from the queue: the command, the data sets, what the reply needs, and where it came from;
-- which allocations succeed for it, and the time.
pub record Entry (Hdf : Type 0) : Type 0 where
  pub operation : ℕ
  pub request : Request Hdf
  pub origin : Origin
  pub memory : Bool
  pub reply_memory : Bool
  pub fresh : Option Ptr
  pub time : ℕ

module _ (table : HashOps same_key Ptr) (ops : ServeOps) where
  open ops use {push, set_int_value}
  open push use {hdf, set_value}

  abbrev pub nodes : NodeOps
  nodes = record {
    Hdf = hdf.Hdf;
    get_value = ops.get_value;
    get_node = ops.get_node;
    set_value = λ h name value. set_value h name value;
  }

  abbrev pub chat_ops : ChatOps
  chat_ops = record { push = push; get_value = ops.get_value; get_obj = ops.get_obj }

  abbrev pub data_ops : DataOps
  data_ops = record {
    hdf = hdf;
    set_int_value = set_int_value;
    copy_modules = ops.copy_modules;
    has_child = ops.has_child;
  }

  -- `struct chat_entry`, with the users.
  pub record ChatEntry : Type 0 where
    pub cd : Option Cache
    pub st : ChatStats
    pub base : BaseInfo table

  -- What a command leaves: the error, the module, the data set to send, and the messages pushed.
  pub record Served : Type 0 where
    pub err : Option ℕ
    pub entry : ChatEntry
    pub hdfsnd : hdf.Hdf
    pub pushed : Sent

  unfoldable pub of_cache : ChatEntry → Outcome hdf.Hdf → Served
  of_cache e out = record {
    err = out.err;
    entry = record e { cd = out.cd };
    hdfsnd = out.hdfsnd;
    pushed = [];
  }

  unfoldable pub of_chat : ChatEntry → hdf.Hdf → Status × Sent × BaseInfo table → Served
  unfolding error_code
  of_chat e hdfsnd (status, sent, base) = record {
    err = error_code status;
    entry = record e { base = base };
    hdfsnd = hdfsnd;
    pushed = sent;
  }

  -- The counters as a data set, under the names of the fields.
  unfoldable pub put_stats : ChatStats → hdf.Hdf → hdf.Hdf
  put_stats st h =
      let m : Bytes → Bytes = λ t. b'm' ∷ b's' ∷ b'g' ∷ b'_' ∷ t in
      let p : Bytes → Bytes = λ t. b'p' ∷ b'r' ∷ b'o' ∷ b'c' ∷ b'_' ∷ t in
      let h1 = set_int_value h (m (b't' ∷ b'o' ∷ b't' ∷ b'a' ∷ b'l' ∷ [])) st.msg_total in
      let h2 = set_int_value h1 (m (b'u' ∷ b'n' ∷ b'r' ∷ b'e' ∷ b'c' ∷ [])) st.msg_unrec in
      let h3 =
        set_int_value h2 (m (b'b' ∷ b'a' ∷ b'd' ∷ b'p' ∷ b'a' ∷ b'r' ∷ b'a' ∷ b'm' ∷ []))
          st.msg_badparam in
      let h4 = set_int_value h3 (m (b's' ∷ b't' ∷ b'a' ∷ b't' ∷ b's' ∷ [])) st.msg_stats in
      let h5 = set_int_value h4 (p (b's' ∷ b'u' ∷ b'c' ∷ [])) st.proc_suc in
      set_int_value h5 (p (b'f' ∷ b'a' ∷ b'i' ∷ [])) st.proc_fai

  unfoldable pub cmd_stats : ChatEntry → hdf.Hdf → Served
  unfolding put_stats
  cmd_stats e hdfsnd =
      let st = record e.st { msg_stats = e.st.msg_stats + 1 } in
      record { err = none; entry = record e { st = st }; hdfsnd = put_stats st hdfsnd; pushed = [] }

  unfoldable pub unknown_cmd : ChatEntry → hdf.Hdf → Served
  unknown_cmd e hdfsnd = record {
    err = some rep_err_unkreq;
    entry = record e { st = record e.st { msg_unrec = e.st.msg_unrec + 1 } };
    hdfsnd = hdfsnd;
    pushed = [];
  }

  -- The commands on the cache, CASE_SYS_CMD.
  unfoldable pub sys_cmd : Entry hdf.Hdf → ChatEntry → Option (Outcome hdf.Hdf)
  sys_cmd t e =
      let q = t.request in
      if t.operation == 100
      then sys_cmd_cache_get nodes t.time q e.cd false
      else (if t.operation == 101
          then sys_cmd_cache_set nodes t.memory t.time q e.cd false
          else (if t.operation == 102
              then sys_cmd_cache_del nodes q e.cd false
              else sys_cmd_cache_empty nodes t.memory q e.cd false))

  -- The commands of the chat: REQ_CMD_BASE_JOIN, REQ_CMD_BASE_QUIT, REQ_CMD_CHAT_BCST and
  -- REQ_CMD_CHAT_PM, the last.
  unfoldable pub chat_cmd : Entry hdf.Hdf → ChatEntry → Option (Status × Sent × BaseInfo table)
  chat_cmd t e =
      let h = t.request.hdfrcv in
      if t.operation == 1001
      then cmd_join table chat_ops t.memory t.fresh t.origin h e.base
      else (if t.operation == 1002
          then cmd_quit table chat_ops t.memory h e.base
          else (if t.operation == 1011
              then (do
                (status, sent) ← cmd_bcst table chat_ops t.memory t.origin h e.base
                some (status, sent, e.base))
              else some (cmd_pm table chat_ops h, [], e.base)))

  -- The switch on the command.
  unfoldable pub dispatch : Entry hdf.Hdf → ChatEntry → Option Served
  unfolding sys_cmd chat_cmd of_cache of_chat cmd_stats unknown_cmd
  dispatch t e =
      let op = t.operation in
      if leb 100 op && leb op 103
      then (do out ← sys_cmd t e; some (of_cache e out))
      else (if op == 1001 || op == 1002 || op == 1011 || op == 1012
          then (do out ← chat_cmd t e; some (of_chat e t.request.hdfsnd out))
          else (if op == 1000
              then some (cmd_stats e t.request.hdfsnd)
              else some (unknown_cmd e t.request.hdfsnd)))

  -- TRACE_ERR.
  unfoldable pub trace_err : ℕ → hdf.Hdf → hdf.Hdf
  trace_err ret h =
      set_value (set_int_value (set_value h pre_errtrace (ops.traceback ret)) pre_errcode ret)
        pre_errmsg (ops.desc ret)

  -- The replies, the messages pushed, and the module.
  unfoldable pub chat_process_driver :
      Entry hdf.Hdf → ChatEntry → Option (List Bytes × Sent × ChatEntry)
  unfolding dispatch count_result trace_err result_code
  chat_process_driver t e = do
    d ← dispatch t (record e { st = record e.st { msg_total = e.st.msg_total + 1 } })
    let ret = result_code d.err
    let hdfsnd = if leb rep_ok ret then d.hdfsnd else trace_err ret d.hdfsnd
    let e' = record d.entry { st = count_result ret d.entry.st }
    let answered = (do
      (rv, out) ← reply_trigger data_ops t.reply_memory hdfsnd t.request.req ret
      some (out ∷ [], d.pushed, e'))
    if is_sync t.request.req.flags then answered else some ([], d.pushed, e')
