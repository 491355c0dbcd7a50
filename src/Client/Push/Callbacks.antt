-- ===== src/Client/Push/Callbacks.antt =====
-- Which callback the callback thread calls for an event (client/mcbk.c).
use moc.Shared.{
  ℕ, zero, suc, ◌≡◌, refl, ap, ◌∙◌, Bool-cases, inl, inr, Option, none, some, List, [], ◌∷◌, ◌++◌,
  append_assoc, if◌then◌else◌, take, Bytes,
}
use moc.Shared.Tables.{HashOps}
use moc.Client.Push.{MsqueueEntry, callback_token, mcbk_find, mcbk_regist, callback_round}
use moc.Server.Hash.{same_key, same_key_refl}

token_shift :
    (module' infix' cmd : Bytes)
    → callback_token (module' ++ b'_' ∷ infix') cmd ≡ callback_token module' (infix' ++ b'_' ∷ cmd)
unfolding callback_token
token_shift module' infix' cmd = ap (take 1023) (append_assoc module' (b'_' ∷ infix') (b'_' ∷ cmd))

module _ {Callback : Type 0} (table : HashOps same_key Callback) where
  open table use {Hash, lookup, lookup-insert, lookup-remove}

  mcbk_find-mcbk_regist :
      (cbkh : Hash) (module' cmd : Bytes) (c : Callback) (ename command : Bytes)
      → mcbk_find table (mcbk_regist table cbkh module' cmd c) ename command ≡ (
          if same_key (callback_token module' cmd) (callback_token ename command)
          then some c
          else mcbk_find table cbkh ename command)
  unfolding mcbk_find mcbk_regist
  mcbk_find-mcbk_regist cbkh module' cmd c ename command =
      let k = callback_token module' cmd in
      let j = callback_token ename command in
      elim (Bool-cases (same_key k j)) [
        | inl same ↦ lookup-insert (table.remove cbkh k) k j c ∙ rw same refl
        | inr other ↦
            lookup-insert (table.remove cbkh k) k j c
            ∙ rw other (lookup-remove cbkh k j ∙ rw other refl)
      ]

  -- The calls of so many rounds that find an entry, in their order.
  unfoldable pub callback_rounds :
      {Hdf : Type 0}
      → Hash
      → ℕ
      → List (MsqueueEntry Hdf)
      → List (Option (Callback × Hdf)) × List (MsqueueEntry Hdf)
  unfolding callback_round
  callback_rounds cbkh zero q = ([], q)
  callback_rounds cbkh (suc n) q =
      let (made, q') = callback_round table cbkh q in
      let (calls, end) = callback_rounds cbkh n q' in (made ∷ calls, end)

  -- The call for an event, by the callback that was registered last for its name.
  abbrev pub call_for :
      {Hdf : Type 0} → Hash → Bytes → Bytes → Callback → MsqueueEntry Hdf → Option (Callback × Hdf)
  call_for cbkh module' cmd c e =
      if same_key (callback_token module' cmd) (callback_token e.ename e.cmd)
      then some (c, e.hdfrcv)
      else elim (mcbk_find table cbkh e.ename e.cmd) [ none ↦ none | some d ↦ some (d, e.hdfrcv) ]

  abbrev pub calls_for :
      {Hdf : Type 0}
      → Hash
      → Bytes
      → Bytes
      → Callback
      → List (MsqueueEntry Hdf)
      → List (Option (Callback × Hdf))
  calls_for cbkh module' cmd c [] = []
  calls_for cbkh module' cmd c (e ∷ es) =
      call_for cbkh module' cmd c e ∷ calls_for cbkh module' cmd c es

  abbrev pub count_of : {Hdf : Type 0} → List (MsqueueEntry Hdf) → ℕ
  count_of [] = zero
  count_of (e ∷ es) = suc (count_of es)

  module _ {Hdf : Type 0} where
    round_lem :
        (cbkh : Hash) (module' cmd : Bytes) (c : Callback) (e : MsqueueEntry Hdf)
        (q : List (MsqueueEntry Hdf))
        → callback_round table (mcbk_regist table cbkh module' cmd c) (e ∷ q)
          ≡ (call_for cbkh module' cmd c e, q)
    unfolding callback_round
    round_lem cbkh module' cmd c e q =
        let found = mcbk_find-mcbk_regist cbkh module' cmd c e.ename e.cmd in
        elim (Bool-cases (same_key (callback_token module' cmd) (callback_token e.ename e.cmd))) [
          | inl same ↦ rw (found, same) refl
          | inr other ↦ rw (found, other) refl
        ]

    -- After a callback was registered for the command of a module, the callback thread makes one call
    -- for each event in the queue, in the order of the queue: the new callback, with the data of the
    -- event, if the name that joins module and command of the event with `_`, cut to 1023 bytes, is
    -- that of the registered module and command, and otherwise the one that was registered before
    -- under the event's joined name, if any. What stands behind those events is left.
    pub callback_rounds-regist :
        (cbkh : Hash) (module' cmd : Bytes) (c : Callback) (q rest : List (MsqueueEntry Hdf))
        → callback_rounds (mcbk_regist table cbkh module' cmd c) (count_of q) (q ++ rest)
          ≡ (calls_for cbkh module' cmd c q, rest)
    unfolding callback_rounds
    callback_rounds-regist cbkh module' cmd c [] rest = refl
    callback_rounds-regist cbkh module' cmd c (e ∷ q) rest =
        rw
          (
            round_lem cbkh module' cmd c e (q ++ rest),
            callback_rounds-regist cbkh module' cmd c q rest,
          )
          refl

    -- The names of a module and of a command are not kept apart: a callback that is registered for
    -- the command `cmd` of the module `module'_infix'` is called for events of the command
    -- `infix'_cmd` of the module `module'`, instead of the one registered for them.
    pub callback_round_mixed :
        (cbkh : Hash) (module' infix' cmd : Bytes) (c : Callback) (hdfrcv : Hdf)
        (q : List (MsqueueEntry Hdf))
        → callback_round table
            (mcbk_regist table cbkh (module' ++ b'_' ∷ infix') cmd c)
            (record { ename = module'; cmd = infix' ++ b'_' ∷ cmd; hdfrcv = hdfrcv } ∷ q)
          ≡ (some (c, hdfrcv), q)
    callback_round_mixed cbkh module' infix' cmd c hdfrcv q =
        let e : MsqueueEntry Hdf = record {
          ename = module';
          cmd = infix' ++ b'_' ∷ cmd;
          hdfrcv = hdfrcv;
        } in
        round_lem cbkh (module' ++ b'_' ∷ infix') cmd c e q
        ∙ rw
            (
              token_shift module' infix' cmd,
              same_key_refl (callback_token module' (infix' ++ b'_' ∷ cmd)),
            )
            refl
