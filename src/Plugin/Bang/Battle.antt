-- ===== src/Plugin/Bang/Battle.antt =====
-- A user's request to battle, `bang_broadcast_to_battle_message` of plugin/private/bang_internal.c.
use moc.Shared.{
  ℕ, ◌+◌, ◌-◌, ◌<◌, ◌≡◌, refl, Bool, true, ◌&&◌, Bool-cases, inl, inr, Option, Option-cases, none,
  some, List, [], ◌∷◌, arith, ltb, leb, ◌==◌, if◌then◌else◌, ◌>>=◌, Bytes, take,
}
use moc.Shared.Tables.{HashOps}
use moc.Client.Packet.{max_packet_len, pack_hdf}
use moc.Client.Packet.Trip.{pack_hdf_total}
use moc.Client.Push.{PushOps, NeoErr, reserve_node, cmd_key}
use moc.Plugin.Base.{Ptr}
use moc.Plugin.Message.{
  Made, refused, made, moc_value, static_buf, length-static_buf, base_msg_new, push_bytes,
}
use moc.Plugin.Bang.{
  BangUser, BangInfo, BangTable, Status, failed, status_ok, table_user_maximum, is_idle, get_table,
  set_user, bang_autoselect_table_in_room, bang_state_transit_battling,
  bang_broadcast_to_battle_message, tableid_key, matched_key, battlebegin, battleinvite, to_battle,
  invite,
}
use moc.Plugin.Bang.Bounds.{
  Named, AllNamed, AllNamed-map, AllSmall, seated, seated_user, seated-get, seated-AllSmall,
  seated-Named, take_seat_run, invite_lem,
}
use moc.Plugin.Bang.Tables.{Chosen, autoselect-Chosen}
use moc.Server.Hash.{same_key}

-- Making a message always comes to an end without a fault.
module _ (ops : PushOps) where
  open ops use {hdf, set_attr, set_value}

  attr_fails :
      (memory : Bool) (cmd : Bytes) (datanode : hdf.Hdf)
      → set_attr (set_value datanode reserve_node moc_value) reserve_node cmd_key cmd ≡ none
      → base_msg_new ops memory cmd datanode ≡ some (refused NeoErr.nerr_nomem)
  unfolding base_msg_new
  attr_fails memory cmd datanode attr = rw (base_msg_new, attr) refl

  made_of :
      (memory : Bool) (cmd : Bytes) (datanode node : hdf.Hdf) (buf : Bytes) (vsize : ℕ)
      → set_attr (set_value datanode reserve_node moc_value) reserve_node cmd_key cmd ≡ some node
      → pack_hdf hdf node static_buf max_packet_len ≡ some (buf, vsize)
      → (m : Made) × (base_msg_new ops memory cmd datanode ≡ some m)
  unfolding base_msg_new
  made_of memory cmd datanode node buf vsize attr packed = elim (Bool-cases (vsize == 0)) [
    | inl empty ↦ (refused NeoErr.nerr_assert, rw (base_msg_new, attr, packed, empty) refl)
    | inr full ↦ elim (Bool-cases memory) [
      | inl enough ↦
          (made (push_bytes (take vsize buf)), rw (base_msg_new, attr, packed, full, enough) refl)
      | inr short ↦ (refused NeoErr.nerr_nomem, rw (base_msg_new, attr, packed, full, short) refl)
    ]
  ]

  base_msg_new_total :
      (memory : Bool) (cmd : Bytes) (datanode : hdf.Hdf)
      → (m : Made) × (base_msg_new ops memory cmd datanode ≡ some m)
  base_msg_new_total memory cmd datanode =
      elim (Option-cases
        (set_attr (set_value datanode reserve_node moc_value) reserve_node cmd_key cmd)) [
          | inl bad ↦ (refused NeoErr.nerr_nomem, attr_fails memory cmd datanode bad)
          | inr (node, attr) ↦
              let (buf, vsize, packed) =
                pack_hdf_total hdf node static_buf (omega (arith, length-static_buf)) in
              made_of memory cmd datanode node buf vsize attr packed
        ]

module _ (table : HashOps same_key Ptr) where
  -- A command comes to an end, with some result, and leaves no table with more than four users.
  abbrev pub EndsSmall : Option (Status × BangInfo table) → Type 0
  EndsSmall out =
      (st : Status) × (info' : BangInfo table) × (out ≡ some (st, info'))
      × AllSmall table info'.room

module _ (table : HashOps same_key Ptr) (ops : PushOps)
    (set_int_value : ops.hdf.Hdf → Bytes → ℕ → ops.hdf.Hdf) where
  open table use {lookup, remove, entries}

  message_of :
      (info : BangInfo table) (m : Made) (next : Bytes → Option (Status × BangInfo table))
      → AllSmall table info.room
      → ((buf : Bytes) → EndsSmall table (next buf))
      → EndsSmall table (elim m [ refused err ↦ some (failed err, info) | made buf ↦ next buf ])
  message_of info (refused err) next small all = (failed err, info, refl, small)
  message_of info (made buf) next small all = all buf

  begin_lem :
      (memory : Bool) (p : Ptr) (info : BangInfo table) (u : BangUser) (uid : Bytes) (i : ℕ)
      → info.users p ≡ some u
      → u.uid ≡ some uid
      → u.current_battling_table ≡ some i
      → AllSmall table info.room
      → EndsSmall table (bang_state_transit_battling table ops set_int_value memory p info)
  unfolding bang_state_transit_battling set_user
  begin_lem memory p info u uid i at named current small =
      elim (Option-cases (lookup info.bang_idle_user_hash uid)) [
        | inl missing ↦ rw (bang_state_transit_battling, at, named, missing) (_, _, refl, small)
        | inr (o, found) ↦
            let node =
              set_int_value (ops.set_value ops.hdf.init matched_key (b'1' ∷ [])) tableid_key
                (i + 1) in
            let (m, run) = base_msg_new_total ops memory battlebegin node in
            rw (bang_state_transit_battling, at, named, found, current, run)
              (message_of _ m _ small (λ buf. (_, _, refl, small)))
      ]

  calling_lem :
      (memory : Bool) (p : Ptr) (info : BangInfo table) (i n : ℕ) (t : BangTable table)
      → n < table_user_maximum
      → Named table info p
      → AllNamed table info (entries info.bang_idle_user_hash)
      → AllSmall table info.room
      → get_table table info.room i ≡ some t
      → EndsSmall table (do
        msg ← base_msg_new ops memory battleinvite (set_int_value ops.hdf.init tableid_key (i + 1))
        elim msg [
          | refused err ↦ some (failed err, info)
          | made buf ↦ do
            info' ← invite table buf n i p (entries info.bang_idle_user_hash) info
            user' ← info'.users p
            some (status_ok, set_user table p (record user' { state = to_battle }) info')
        ])
  unfolding set_user
  calling_lem memory p info i n t few me all small there =
      let (m, run) =
        base_msg_new_total ops memory battleinvite
          (set_int_value ops.hdf.init tableid_key (i + 1)) in
      rw run (
        message_of info m _ small (λ buf.
          let (info', went, small', keep) =
            invite_lem table buf n i p (entries info.bang_idle_user_hash) info t few all small
              there in
          let me' = keep p me in rw (went, me'.at) (_, _, refl, small')))

  free_seat :
      (room : List (BangTable table)) (o : Option ℕ) (i : ℕ)
      → Chosen table room o
      → o ≡ some i
      → (t : BangTable table) × (get_table table room i ≡ some t)
        × (t.battling_user_number < table_user_maximum)
  free_seat room none i c is = absurd (ground arith)
  free_seat room (some j) i (inl (k, same, f)) is =
      let (t, there, count) = f.0 in (t, ground arith, ground arith)
  free_seat room (some j) i (inr (skipped, f)) is =
      let (t, there, count) = f.0 in (t, ground arith, ground arith)

  at_table :
      (memory : Bool) (p : Ptr) (info : BangInfo table) (u : BangUser) (uid : Bytes) (i : ℕ)
      (t : BangTable table)
      → info.users p ≡ some u
      → u.uid ≡ some uid
      → is_idle u.state ≡ true
      → bang_autoselect_table_in_room table info.room ≡ some i
      → get_table table info.room i ≡ some t
      → t.battling_user_number < table_user_maximum
      → AllNamed table info (entries info.bang_idle_user_hash)
      → AllSmall table info.room
      → EndsSmall table (bang_broadcast_to_battle_message table ops set_int_value memory p info)
  unfolding bang_broadcast_to_battle_message set_user
  at_table memory p info u uid i t at named idle chosen there free all small =
      let info' = seated table info i p u uid t in
      let (v, there', count) = seated-get table info i p u uid t named there in
      let small' = seated-AllSmall table info i p u uid t named there free small in
      let me' : Named table info' p = record {
        user = _;
        uid = uid;
        at = seated_user table info i p u uid t;
        named = named;
      } in
      let n =
        if ltb info.bang_idle_user_number table_user_maximum
        then info.bang_idle_user_number
        else table_user_maximum - 1 in
      rw
        (
          bang_broadcast_to_battle_message,
          at,
          idle,
          chosen,
          take_seat_run table info i p u uid t at named there,
          seated_user table info i p u uid t,
          there',
        )
        (elim (Bool-cases (ltb 1 v.battling_user_number && leb v.battling_user_number 4)) [
          | inl several ↦ rw several (
              begin_lem memory p info' _ uid i (seated_user table info i p u uid t) named refl
                small')
          | inr alone ↦ elim (Bool-cases (leb n 1)) [
            | inl single ↦ rw (alone, single) (_, _, refl, small')
            | inr others ↦
                rw (alone, others)
                  (calling_lem memory p info' i n v (ground arith) me'
                    (AllNamed-map table info info' _
                      (λ x h. seated-Named table info i p u uid t named there x h) all)
                    small' there')
          ]
        ])

  -- A user who asks for a battle while some table has a free seat gets an answer, whatever state they
  -- are in, when every user on the list of idle users has a name: the call reads no missing user or
  -- table, and no table has more than four users behind it.
  pub bang_broadcast_to_battle_message-EndsSmall :
      (memory : Bool) (p : Ptr) (info : BangInfo table) (i : ℕ)
      → Named table info p
      → AllNamed table info (entries info.bang_idle_user_hash)
      → AllSmall table info.room
      → bang_autoselect_table_in_room table info.room ≡ some i
      → EndsSmall table (bang_broadcast_to_battle_message table ops set_int_value memory p info)
  unfolding bang_broadcast_to_battle_message
  bang_broadcast_to_battle_message-EndsSmall memory p info i me all small chosen =
      elim (Bool-cases (is_idle me.user.state)) [
        | inr busy ↦ rw (bang_broadcast_to_battle_message, me.at, busy) (_, _, refl, small)
        | inl idle ↦
            let (t, there, free) =
              free_seat info.room _ i (autoselect-Chosen table info.room) chosen in
            at_table memory p info me.user me.uid i t me.at me.named idle chosen there free all
              small
      ]
