-- ===== src/Plugin/Base/Joins.antt =====
-- Joining and quitting, `base_cmd_join` and `base_cmd_quit` of plugin/moc_base.c with
-- `base_user_new` and `base_user_quit` of plugin/private/base_internal.c.
use native.Mathlib.Decide.{dec_lt}
use moc.Shared.{
  ◌+◌, ◌-◌, ◌<◌, ◌≡◌, ◌≢◌, refl, sym, ap, subst, ◌∙◌, Bool, true, false, ◌&&◌, Bool-cases, ◌⊎◌, inl,
  inr, Option, none, some, arith, ◌==◌, if◌then◌else◌, Bytes,
}
use moc.Shared.Tables.{HashOps}
use moc.Plugin.Base.{
  Ptr, BaseUser, Origin, BaseInfo, write, base_user_find, base_user_new, base_user_quit, remove_ref,
  join, quit,
}
use moc.Plugin.Base.Users.{
  Joined, IsBase, without, with_refs, remove_ref_more, remove_ref_last, without-IsBase, Joined-refs,
}
use moc.Server.Hash.{same_key, same_key-≡, same_key_refl}
use moc.Server.Tcp.{TcpSocket}

module _ (table : HashOps same_key Ptr) where
  open table use {lookup, insert, remove, entries, lookup-insert, lookup-remove, length-insert}

  -- The users once `uid` has joined at `fresh`, over the connection `c`.
  abbrev pub added : BaseInfo table → Ptr → Bytes → Origin → TcpSocket → BaseInfo table
  added b fresh uid q c = record b {
    usernum = b.usernum + 1;
    userh = insert b.userh uid fresh;
    users = write b.users fresh (some (record { uid = uid; fd = q.fd; tcpsock = q.tcpsock }));
    socks = write b.socks q.tcpsock (some (record c { on_close = some fresh }));
  }

  -- A connection on which no one has joined.
  pub record IsFree (b : BaseInfo table) (q : Origin) (c : TcpSocket) : Type 0 where
    pub there : b.socks q.tcpsock ≡ some c
    pub no_owner : c.on_close ≡ none
    pub held : 0 < c.refcount
    pub alive : c.alive ≡ true

  added-Joined :
      (b : BaseInfo table) (fresh : Ptr) (uid : Bytes) (q : Origin) (c : TcpSocket) (j : Bytes)
      (r : Ptr)
      → b.users fresh ≡ none
      → IsFree b q c
      → Joined table b j r
      → Joined table (added b fresh uid q c) j r
  unfolding write
  added-Joined b fresh uid q c j r unused free v =
      let apart : r ≢ fresh = λ e. cc in
      let elsewhere : v.user.tcpsock ≢ q.tcpsock = λ e.
        let one : v.sock ≡ c = ground arith in
        let owners : some r ≡ none =
          sym v.owner ∙ ap (λ (d : TcpSocket). d.on_close) one ∙ free.no_owner in
        cc in
      record {
        user = v.user;
        sock = v.sock;
        at = ground arith;
        named = v.named;
        over = ground arith;
        owner = v.owner;
        held = v.held;
        alive = v.alive;
      }

  added-self :
      (b : BaseInfo table) (fresh : Ptr) (uid : Bytes) (q : Origin) (c : TcpSocket) (j : Bytes)
      → IsFree b q c
      → uid ≡ j
      → Joined table (added b fresh uid q c) j fresh
  unfolding write
  added-self b fresh uid q c j free same = record {
    user = record { uid = uid; fd = q.fd; tcpsock = q.tcpsock };
    sock = record c { on_close = some fresh };
    at = ground arith;
    named = same;
    over = ground arith;
    owner = refl;
    held = free.held;
    alive = free.alive;
  }

  pub added-IsBase :
      (b : BaseInfo table) (fresh : Ptr) (uid : Bytes) (q : Origin) (c : TcpSocket)
      → IsBase table b
      → lookup b.userh uid ≡ none
      → b.users fresh ≡ none
      → IsFree b q c
      → IsBase table (added b fresh uid q c)
  added-IsBase b fresh uid q c is new unused free = record {
    joined = λ j r h. elim (Bool-cases (same_key uid j)) [
      | inl same ↦
          let at : fresh ≡ r = ground (arith, lookup-insert b.userh uid j fresh) in
          subst (Joined table (added b fresh uid q c) j) at
            (added-self b fresh uid q c j free (same_key-≡ uid j same))
      | inr other ↦
          let before : lookup b.userh j ≡ some r =
            ground (arith, lookup-insert b.userh uid j fresh) in
          added-Joined b fresh uid q c j r unused free (is.joined j r before)
    ];
    counted = omega (arith, is.counted, length-insert b.userh uid fresh new);
  }

  pub new_lem :
      (b : BaseInfo table) (fresh : Ptr) (uid : Bytes) (q : Origin) (c : TcpSocket)
      → lookup b.userh uid ≡ none
      → b.socks q.tcpsock ≡ some c
      → base_user_new table (some fresh) uid q b ≡ some (some fresh, added b fresh uid q c)
  unfolding base_user_new base_user_find
  new_lem b fresh uid q c new there = rw (base_user_new, new, there) refl

  pub quit_unknown :
      (b : BaseInfo table) (uid : Bytes) (q : Option Origin)
      → lookup b.userh uid ≡ none
      → base_user_quit table uid q b ≡ some (false, b)
  unfolding base_user_quit base_user_find
  quit_unknown b uid q new = rw (base_user_quit, new) refl

  old_lem :
      (b : BaseInfo table) (memory : Option Ptr) (uid : Bytes) (q : Origin) (p : Ptr)
      → lookup b.userh uid ≡ some p
      → base_user_new table memory uid q b ≡ some (some p, b)
  unfolding base_user_new base_user_find
  old_lem b memory uid q p found = rw (base_user_new, found) refl

  -- The connection of the request is not that of the user.
  abbrev pub Other : Option Origin → BaseUser → Type 0
  Other none user = Unit {0}
  Other (some o) user = (o.tcpsock == user.tcpsock) ≡ false

  quit-Other :
      (b b' : BaseInfo table) (uid : Bytes) (q : Option Origin) (p : Ptr) (user : BaseUser)
      → lookup b.userh uid ≡ some p
      → b.users p ≡ some user
      → Other q user
      → remove_ref table user.tcpsock b ≡ some b'
      → base_user_quit table uid q b ≡ some (true, b')
  unfolding base_user_quit base_user_find
  quit-Other b b' uid none p user found at other gone = rw (base_user_quit, found, at, gone) refl
  quit-Other b b' uid (some o) p user found at other gone =
      rw (base_user_quit, found, at, other, gone) refl

  pub join_run :
      (memory : Option Ptr) (b b' b'' : BaseInfo table) (uid : Bytes) (q : Origin) (rv : Bool)
      (user : Option Ptr)
      → base_user_quit table uid (some q) b ≡ some (rv, b')
      → base_user_new table memory uid q b' ≡ some (user, b'')
      → join table memory uid q b ≡ some b''
  unfolding join
  join_run memory b b' b'' uid q rv user e1 e2 = rw (e1, e2) refl

  -- No one's connection is that of the request.
  elsewhere :
      (b : BaseInfo table) (k : Bytes) (p : Ptr) (q : Origin) (c : TcpSocket)
      → IsFree b q c
      → (u : Joined table b k p) → (q.tcpsock == u.user.tcpsock) ≡ false
  elsewhere b k p q c free u = elim (Bool-cases (q.tcpsock == u.user.tcpsock)) [
    | inl here ↦
        let one : u.sock ≡ c = ground (arith, u.over, free.there) in
        let owners : some p ≡ none =
          sym u.owner ∙ ap (λ (d : TcpSocket). d.on_close) one ∙ free.no_owner in
        absurd (ground arith)
    | inr there ↦ there
  ]

  IsFree-without :
      (b : BaseInfo table) (k : Bytes) (p t : Ptr) (q : Origin) (c : TcpSocket)
      → IsFree b q c
      → (q.tcpsock == t) ≡ false
      → IsFree (without table b k p t) q c
  unfolding write
  IsFree-without b k p t q c free apart = record {
    there = rw apart free.there;
    no_owner = free.no_owner;
    held = free.held;
    alive = free.alive;
  }

  unused-without :
      (b : BaseInfo table) (k : Bytes) (p t fresh : Ptr)
      → (u : Joined table b k p) → b.users fresh ≡ none
      → (without table b k p t).users fresh ≡ none
  unfolding write
  unused-without b k p t fresh u unused = ground arith

  gone-without :
      (b : BaseInfo table) (k : Bytes) (p t : Ptr) → lookup (without table b k p t).userh k ≡ none
  gone-without b k p t = ground (arith, lookup-remove b.userh k k, same_key_refl k)

  -- The name has not joined, or over a connection on which nothing else waits.
  abbrev pub Movable : BaseInfo table → Bytes → Type 0
  Movable b uid =
      (lookup b.userh uid ≡ none)
      ⊎ ((p : Ptr) × (lookup b.userh uid ≡ some p)
          × ((u : Joined table b uid p) × (u.sock.refcount ≡ 1)))

  -- Joining over a connection on which no one has joined keeps users, connections and the count
  -- together; the name has the new user, over this connection, and every other name has the user that
  -- it had. A connection over which the name had joined before is closed, and its user is gone.
  -- Conditions: users and connections fit together; the name has not joined, or over a connection with
  -- no other reference; there is memory for the user, at an address not in use.
  pub join_lem :
      (b : BaseInfo table) (fresh : Ptr) (uid : Bytes) (q : Origin) (c : TcpSocket)
      → IsBase table b
      → b.users fresh ≡ none
      → IsFree b q c
      → Movable b uid
      → (b' : BaseInfo table) × (join table (some fresh) uid q b ≡ some b')
        × IsBase table b'
        × (b'.users fresh ≡ some (record { uid = uid; fd = q.fd; tcpsock = q.tcpsock }))
        × ((j : Bytes)
            → lookup b'.userh j ≡ (if same_key uid j then some fresh else lookup b.userh j))
  unfolding write
  join_lem b fresh uid q c is unused free (inl new) = (
    added b fresh uid q c,
    join_run (some fresh) b b (added b fresh uid q c) uid q false (some fresh)
        (quit_unknown b uid (some q) new) (new_lem b fresh uid q c new free.there),
    added-IsBase b fresh uid q c is new unused free,
    ground arith,
    λ j. lookup-insert b.userh uid j fresh,
  )
  join_lem b fresh uid q c is unused free (inr (p, found, (u, last))) =
      let t = u.user.tcpsock in
      let b1 = without table b uid p t in
      let apart = elsewhere b uid p q c free u in
      let free1 = IsFree-without b uid p t q c free apart in
      let new1 = gone-without b uid p t in
      let pos : 0 < b.usernum =
        omega (arith, is.counted, table.length-remove b.userh uid p found) in
      let gone : remove_ref table t b ≡ some b1 =
        remove_ref_last table b t p u.sock u.user u.over last u.owner u.at pos
        ∙ ap (λ (n : Bytes). some (without table b n p t)) u.named in
      (
        added b1 fresh uid q c,
        join_run (some fresh) b b1 (added b1 fresh uid q c) uid q true (some fresh)
            (quit-Other b b1 uid (some q) p u.user found u.at apart gone)
            (new_lem b1 fresh uid q c new1 free1.there),
        added-IsBase b1 fresh uid q c (without-IsBase table b uid p is found u) new1
            (unused-without b uid p t fresh u unused) free1,
        ground arith,
        λ j.
            ground
              (arith, lookup-insert (remove b.userh uid) uid j fresh, lookup-remove b.userh uid j),
      )

  -- A name that has joined over another connection on which a request still waits stays there:
  -- joining takes one reference from that connection and does nothing else, so that the new
  -- connection has no user, while the request is answered with success.
  -- Conditions: users and connections fit together, and no one has joined over the new connection.
  pub join_stays :
      (b : BaseInfo table) (memory : Option Ptr) (uid : Bytes) (q : Origin) (c : TcpSocket)
      (p : Ptr)
      → IsBase table b
      → IsFree b q c
      → lookup b.userh uid ≡ some p
      → (u : Joined table b uid p) → 1 < u.sock.refcount
      → let left = record u.sock { refcount = u.sock.refcount - 1 } in
        let b' = with_refs table b u.user.tcpsock left in
        (join table memory uid q b ≡ some b') × IsBase table b' × IsFree b' q c
  unfolding write
  join_stays b memory uid q c p is free found u more =
      let t = u.user.tcpsock in
      let b' = with_refs table b t (record u.sock { refcount = u.sock.refcount - 1 }) in
      let apart = elsewhere b uid p q c free u in
      (
        join_run memory b b' b' uid q true (some p)
            (quit-Other b b' uid (some q) p u.user found u.at apart
              (remove_ref_more table b t u.sock u.over more u.alive))
            (old_lem b' memory uid q p found),
        record {
          joined = λ j r h. Joined-refs table b uid j p r u (is.joined j r h) more;
          counted = is.counted;
        },
        record {
          there = rw apart free.there;
          no_owner = free.no_owner;
          held = free.held;
          alive = free.alive;
        },
      )

  -- A name that quits loses one reference to its connection, and with the last one the connection is
  -- closed and the user is gone, from the table too; every other name has the user that it had, every
  -- other connection is as it was, and users, connections and the count fit together.
  -- Conditions: they did before, and the name has joined.
  pub quit_lem :
      (b : BaseInfo table) (uid : Bytes) (p : Ptr)
      → IsBase table b
      → lookup b.userh uid ≡ some p
      → (u : Joined table b uid p)
      → (b' : BaseInfo table) × (quit table uid b ≡ some b')
        × IsBase table b'
        × (b'.socks u.user.tcpsock ≡ (
            if u.sock.refcount == 1
            then none
            else some (record u.sock { refcount = u.sock.refcount - 1 })))
        × (b'.users p ≡ (if u.sock.refcount == 1 then none else some u.user))
        × ((t : Ptr) → (t == u.user.tcpsock) ≡ false → b'.socks t ≡ b.socks t)
        × ((j : Bytes)
            → lookup b'.userh j
              ≡ (if u.sock.refcount == 1 && same_key uid j then none else lookup b.userh j))
  unfolding quit write
  quit_lem b uid p is found u =
      let t = u.user.tcpsock in
      elim (dec_lt 1 u.sock.refcount) [
        | yes more ↦
            let b' = with_refs table b t (record u.sock { refcount = u.sock.refcount - 1 }) in
            (
              b',
              rw
                  (quit-Other b b' uid none p u.user found u.at tt
                    (remove_ref_more table b t u.sock u.over more u.alive))
                  refl,
              record {
                joined = λ j r h. Joined-refs table b uid j p r u (is.joined j r h) more;
                counted = is.counted;
              },
              ground arith,
              ground (arith, u.at),
              λ other apart. ground arith,
              λ j. ground arith,
            )
        | no last ↦
            let b' = without table b uid p t in
            let one : u.sock.refcount ≡ 1 = omega (arith, u.held) in
            let pos : 0 < b.usernum =
              omega (arith, is.counted, table.length-remove b.userh uid p found) in
            let gone : remove_ref table t b ≡ some b' =
              remove_ref_last table b t p u.sock u.user u.over one u.owner u.at pos
              ∙ ap (λ (n : Bytes). some (without table b n p t)) u.named in
            (
              b',
              rw (quit-Other b b' uid none p u.user found u.at tt gone) refl,
              without-IsBase table b uid p is found u,
              ground arith,
              ground arith,
              λ other apart. ground arith,
              λ j. ground (arith, lookup-remove b.userh uid j),
            )
      ]
