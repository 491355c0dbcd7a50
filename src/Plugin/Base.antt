-- ===== src/Plugin/Base.antt =====
-- The users of a module, plugin/private/base_internal.c: who has joined, over which connection, and
-- what becomes of them when connections end (server/tcp.c). Users and connections are structures on
-- a heap that point at each other: the `appdata` of a connection is its user, the `tcpsock` of a user
-- its connection. `none` is a fault: an access through a pointer to nothing, or to a freed structure.
pub mod Users
pub mod Joins
pub mod Twice
use moc.Shared.{
  ℕ, zero, suc, ◌+◌, ◌-◌, Bool, true, false, ◌&&◌, Option, none, some, ltb, ◌==◌, if◌then◌else◌,
  ◌>>=◌, Bytes,
}
use moc.Shared.Tables.{HashOps}
use moc.Server.Hash.{same_key}
use moc.Server.Tcp.{TcpSocket, Calls, tcp_socket_remove_ref}

abbrev pub Ptr : Type 0
Ptr = ℕ

-- `struct base_user`, as far as the code looks at it; the address of the client is for the log only.
pub record BaseUser : Type 0 where
  pub uid : Bytes
  pub fd : ℕ
  pub tcpsock : Ptr

-- The request that is served: its descriptor and its connection.
pub record Origin : Type 0 where
  pub fd : ℕ
  pub tcpsock : Ptr

unfoldable pub write : {A : Type 0} → (Ptr → Option A) → Ptr → Option A → Ptr → Option A
write h p v a = if a == p then v else h a

module _ (table : HashOps same_key Ptr) where
  open table use {Hash, lookup, insert, remove}

  -- `struct base_info`, with the users and the connections that there are.
  pub record BaseInfo : Type 0 where
    pub usernum : ℕ
    pub userh : Hash
    pub users : Ptr → Option BaseUser
    pub socks : Ptr → Option TcpSocket

  unfoldable pub base_user_find : BaseInfo → Bytes → Option Ptr
  base_user_find binfo uid = lookup binfo.userh uid

  unfoldable pub base_user_destroy : Ptr → BaseInfo → Option BaseInfo
  unfolding write
  base_user_destroy arg binfo = do
    user ← binfo.users arg
    some (record binfo {
      usernum = if ltb 0 binfo.usernum then binfo.usernum - 1 else binfo.usernum;
      userh = remove binfo.userh user.uid;
      users = write binfo.users arg none;
    })

  -- The close handler of a connection: it is given the user at `appdata`.
  unfoldable pub destroy_on_close : Ptr → Option BaseInfo → Option BaseInfo
  destroy_on_close arg w = do binfo ← w; base_user_destroy arg binfo

  -- What the connections call.
  unfoldable pub close_calls : Calls (Option BaseInfo)
  unfolding destroy_on_close
  close_calls = record {
    count_tcp = λ w. w;
    parse_message = λ m refs w. record { accepted = true; refs = refs; world = w };
    on_close = destroy_on_close;
  }

  -- `tcp_socket_remove_ref(tcpsock)` on the heap: with the last reference the structure is freed.
  unfoldable pub put_back : Ptr → TcpSocket × Option BaseInfo → Option BaseInfo
  unfolding write
  put_back tcpsock (c, w) = do
    binfo ← w
    some (record binfo { socks = write binfo.socks tcpsock (if c.alive then some c else none) })

  unfoldable pub remove_ref : Ptr → BaseInfo → Option BaseInfo
  unfolding put_back
  remove_ref tcpsock binfo = do
    c ← binfo.socks tcpsock
    put_back tcpsock (tcp_socket_remove_ref close_calls c (some binfo))

  -- `fresh` is the address that calloc gives, `none` without memory; NULL is returned as `none`.
  unfoldable pub base_user_new :
      Option Ptr → Bytes → Origin → BaseInfo → Option (Option Ptr × BaseInfo)
  unfolding write
  base_user_new memory uid q binfo = elim (base_user_find binfo uid) [
    | some user ↦ some (some user, binfo)
    | none ↦ elim memory [
      | none ↦ some (none, binfo)
      | some fresh ↦ do
        c ← binfo.socks q.tcpsock
        some (
          some fresh,
          record binfo {
            usernum = binfo.usernum + 1;
            userh = insert binfo.userh uid fresh;
            users =
                write binfo.users fresh
                  (some (record { uid = uid; fd = q.fd; tcpsock = q.tcpsock }));
            socks = write binfo.socks q.tcpsock (some (record c { on_close = some fresh }));
          },
        )
    ]
  ]

  -- `q` is NULL where a user quits: then the connection is not looked at.
  unfoldable pub base_user_quit : Bytes → Option Origin → BaseInfo → Option (Bool × BaseInfo)
  base_user_quit uid q binfo = elim (base_user_find binfo uid) [
    | none ↦ some (false, binfo)
    | some p ↦ do
      user ← binfo.users p
      let same : Bool = elim q [
        | none ↦ false
        | some o ↦ o.tcpsock == user.tcpsock && o.fd == user.fd
      ]
      let gone = remove_ref user.tcpsock binfo
      if same then some (false, binfo) else (do binfo' ← gone; some (true, binfo'))
  ]

  -- What `base_cmd_join` does to the users, and `base_cmd_quit`. Neither looks at what the two calls
  -- return.
  unfoldable pub join : Option Ptr → Bytes → Origin → BaseInfo → Option BaseInfo
  unfolding base_user_quit base_user_new
  join memory uid q binfo = do
    (rv, binfo') ← base_user_quit uid (some q) binfo
    (user, binfo'') ← base_user_new memory uid q binfo'
    some binfo''

  unfoldable pub quit : Bytes → BaseInfo → Option BaseInfo
  unfolding base_user_quit
  quit uid binfo = do (rv, binfo') ← base_user_quit uid none binfo; some binfo'
