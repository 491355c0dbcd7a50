-- ===== src/Plugin/Base/Users.antt =====
-- When users, connections and the table of users fit together, and that the end of a connection
-- keeps it so.
use native.Mathlib.Decide.{dec_lt}
use moc.Shared.{
  ◌-◌, ◌<◌, ◌≡◌, ◌≢◌, refl, sym, ap, ◌∙◌, true, false, Bool-cases, inl, inr, Option, none, some,
  arith, lt→ltb, ◌==◌, length, Bytes,
}
use moc.Shared.Tables.{HashOps}
use moc.Plugin.Base.{
  Ptr, BaseUser, BaseInfo, write, base_user_destroy, close_calls, destroy_on_close, put_back,
  remove_ref,
}
use moc.Server.Hash.{same_key, same_key_refl}
use moc.Server.Tcp.{TcpSocket, tcp_socket_remove_ref}
use moc.Server.Tcp.Close.{remove_lem}

module _ (table : HashOps same_key Ptr) where
  open table use {lookup, remove, entries, lookup-remove, length-remove}

  -- The user at `p` has joined as `k`, over the connection `c`, which will destroy it.
  pub record Joined (b : BaseInfo table) (k : Bytes) (p : Ptr) : Type 0 where
    pub user : BaseUser
    pub sock : TcpSocket
    pub at : b.users p ≡ some user
    pub named : user.uid ≡ k
    pub over : b.socks user.tcpsock ≡ some sock
    pub owner : sock.on_close ≡ some p
    pub held : 0 < sock.refcount
    pub alive : sock.alive ≡ true

  pub record IsBase (b : BaseInfo table) : Type 0 where
    pub joined : (k : Bytes) (p : Ptr) → lookup b.userh k ≡ some p → Joined b k p
    pub counted : b.usernum ≡ length (entries b.userh)

  -- The users and the connections after the last reference to the connection of `p` went.
  abbrev pub without : BaseInfo table → Bytes → Ptr → Ptr → BaseInfo table
  without b k p t = record b {
    usernum = b.usernum - 1;
    userh = remove b.userh k;
    users = write b.users p none;
    socks = write b.socks t none;
  }

  abbrev pub with_refs : BaseInfo table → Ptr → TcpSocket → BaseInfo table
  with_refs b t c = record b { socks = write b.socks t (some c) }

  pub remove_ref_more :
      (b : BaseInfo table) (t : Ptr) (c : TcpSocket)
      → b.socks t ≡ some c
      → 1 < c.refcount
      → c.alive ≡ true
      → remove_ref table t b ≡ some (with_refs b t (record c { refcount = c.refcount - 1 }))
  unfolding remove_ref
  remove_ref_more b t c at more live =
      rw (at, remove_lem (close_calls table) c (some b) more) (ground arith)

  last_lem :
      (w : Option (BaseInfo table)) (c : TcpSocket) (p : Ptr)
      → c.refcount ≡ 1
      → c.on_close ≡ some p
      → let out = tcp_socket_remove_ref (close_calls table) c w in
        (out.0.alive ≡ false) × (out.1 ≡ destroy_on_close table p w)
  unfolding tcp_socket_remove_ref close_calls
  last_lem w c p one owner = ground arith

  put_back_dead :
      (t : Ptr) (out : TcpSocket × Option (BaseInfo table)) (b : BaseInfo table)
      → out.0.alive ≡ false
      → out.1 ≡ some b
      → put_back table t out ≡ some (record b { socks = write b.socks t none })
  unfolding put_back
  put_back_dead t (c, w) b dead is = ground arith

  destroy_lem :
      (b : BaseInfo table) (p : Ptr) (u : BaseUser)
      → b.users p ≡ some u
      → 0 < b.usernum
      → destroy_on_close table p (some b)
        ≡ some (record b {
          usernum = b.usernum - 1;
          userh = remove b.userh u.uid;
          users = write b.users p none;
        })
  unfolding destroy_on_close base_user_destroy
  destroy_lem b p u at pos = rw (at, lt→ltb 0 b.usernum pos) refl

  pub remove_ref_last :
      (b : BaseInfo table) (t p : Ptr) (c : TcpSocket) (u : BaseUser)
      → b.socks t ≡ some c
      → c.refcount ≡ 1
      → c.on_close ≡ some p
      → b.users p ≡ some u
      → 0 < b.usernum
      → remove_ref table t b ≡ some (without b u.uid p t)
  unfolding remove_ref
  remove_ref_last b t p c u at one owner user pos =
      let (dead, world) = last_lem (some b) c p one owner in
      rw at (put_back_dead t _ _ dead (world ∙ destroy_lem b p u user pos))

  -- Two keys with the same user are the same key, and so are two with the same connection.
  ne_user :
      (b : BaseInfo table) (k j : Bytes) (p q : Ptr)
      → (u : Joined b k p) → (v : Joined b j q) → same_key k j ≡ false
      → (q ≢ p) × (v.user.tcpsock ≢ u.user.tcpsock)
  ne_user b k j p q u v other = (apart, λ e. apart (same_owner e))
    where
      apart : q ≢ p
      apart e =
          let one : v.user ≡ u.user = cc in
          let same : j ≡ k = sym v.named ∙ ap (λ (w : BaseUser). w.uid) one ∙ u.named in
          let hit : same_key k j ≡ true = ap (same_key k) same ∙ same_key_refl k in cc

      same_owner : v.user.tcpsock ≡ u.user.tcpsock → q ≡ p
      same_owner e =
          let one : v.sock ≡ u.sock = cc in
          let owners : some q ≡ some p =
            sym v.owner ∙ ap (λ (c : TcpSocket). c.on_close) one ∙ u.owner in
          ground arith

  Joined-apart :
      (b : BaseInfo table) (k j : Bytes) (p q : Ptr)
      → (u : Joined b k p) → Joined b j q
      → same_key k j ≡ false
      → Joined (without b k p u.user.tcpsock) j q
  unfolding write
  Joined-apart b k j p q u v other =
      let (ne, apart) = ne_user b k j p q u v other in
      record {
        user = v.user;
        sock = v.sock;
        at = ground arith;
        named = v.named;
        over = ground arith;
        owner = v.owner;
        held = v.held;
        alive = v.alive;
      }

  pub Joined-refs :
      (b : BaseInfo table) (k j : Bytes) (p q : Ptr)
      → (u : Joined b k p) → Joined b j q
      → 1 < u.sock.refcount
      → Joined (with_refs b u.user.tcpsock (record u.sock { refcount = u.sock.refcount - 1 })) j q
  unfolding write
  Joined-refs b k j p q u v more = elim (Bool-cases (v.user.tcpsock == u.user.tcpsock)) [
    | inl here ↦
        let one : v.sock ≡ u.sock = ground arith in
        record {
          user = v.user;
          sock = record u.sock { refcount = u.sock.refcount - 1 };
          at = v.at;
          named = v.named;
          over = ground arith;
          owner = ap (λ (c : TcpSocket). c.on_close) (sym one) ∙ v.owner;
          held = omega arith;
          alive = u.alive;
        }
    | inr there ↦ record {
      user = v.user;
      sock = v.sock;
      at = v.at;
      named = v.named;
      over = ground arith;
      owner = v.owner;
      held = v.held;
      alive = v.alive;
    }
  ]

  lookup-without :
      (b : BaseInfo table) (k j : Bytes) (q : Ptr)
      → lookup (remove b.userh k) j ≡ some q
      → (same_key k j ≡ false) × (lookup b.userh j ≡ some q)
  lookup-without b k j q h = ground (arith, lookup-remove b.userh k j)

  pub without-IsBase :
      (b : BaseInfo table) (k : Bytes) (p : Ptr)
      → IsBase b
      → lookup b.userh k ≡ some p
      → (u : Joined b k p) → IsBase (without b k p u.user.tcpsock)
  without-IsBase b k p is found u = record {
    joined = λ j q h.
        let (other, before) = lookup-without b k j q h in
        Joined-apart b k j p q u (is.joined j q before) other;
    counted = omega (arith, is.counted, length-remove b.userh k p found);
  }

  -- After a reference to the connection of a user goes, users and connections still fit together.
  pub remove_ref-IsBase :
      (b : BaseInfo table) (k : Bytes) (p : Ptr)
      → IsBase b
      → lookup b.userh k ≡ some p
      → (u : Joined b k p)
      → (b' : BaseInfo table) × (remove_ref table u.user.tcpsock b ≡ some b') × IsBase b'
  remove_ref-IsBase b k p is found u =
      let t = u.user.tcpsock in
      elim (dec_lt 1 u.sock.refcount) [
        | yes more ↦ (
          with_refs b t (record u.sock { refcount = u.sock.refcount - 1 }),
          remove_ref_more b t u.sock u.over more u.alive,
          record {
            joined = λ j q h. Joined-refs b k j p q u (is.joined j q h) more;
            counted = is.counted;
          },
        )
        | no last ↦ (
          without b k p t,
          remove_ref_last b t p u.sock u.user u.over (omega (arith, u.held)) u.owner u.at
                (omega (arith, is.counted, length-remove b.userh k p found))
              ∙ ap (λ (n : Bytes). some (without b n p t)) u.named,
          without-IsBase b k p is found u,
        )
      ]
