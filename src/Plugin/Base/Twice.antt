-- ===== src/Plugin/Base/Twice.antt =====
-- Two names over one connection (plugin/private/base_internal.c): nothing keeps a connection from
-- joining a second time, and its close handler destroys the last user only.
use moc.Shared.{◌≡◌, refl, false, none, some, arith, ◌==◌, Bytes}
use moc.Shared.Tables.{HashOps}
use moc.Plugin.Base.{
  Ptr, BaseUser, Origin, BaseInfo, write, base_user_find, base_user_quit, remove_ref, join, quit,
}
use moc.Plugin.Base.Users.{without, remove_ref_last}
use moc.Plugin.Base.Joins.{added, new_lem, quit_unknown, join_run}
use moc.Server.Hash.{same_key, same_key_refl}
use moc.Server.Tcp.{TcpSocket}

module _ (table : HashOps same_key Ptr) where
  open table use {lookup, insert, remove, lookup-insert, lookup-remove}

  quit_dangling :
      (b : BaseInfo table) (uid : Bytes) (p : Ptr) (user : BaseUser)
      → lookup b.userh uid ≡ some p
      → b.users p ≡ some user
      → b.socks user.tcpsock ≡ none
      → quit table uid b ≡ none
  unfolding quit base_user_quit base_user_find remove_ref
  quit_dangling b uid p user found at freed =
      rw (quit, base_user_quit, found, at, remove_ref, freed) refl

  join_new :
      (b : BaseInfo table) (fresh : Ptr) (uid : Bytes) (q : Origin) (c : TcpSocket)
      → lookup b.userh uid ≡ none
      → b.socks q.tcpsock ≡ some c
      → join table (some fresh) uid q b ≡ some (added table b fresh uid q c)
  join_new b fresh uid q c new there =
      join_run table (some fresh) b b (added table b fresh uid q c) uid q false (some fresh)
        (quit_unknown table b uid (some q) new) (new_lem table b fresh uid q c new there)

  module _ (b : BaseInfo table) (one two : Ptr) (uid name : Bytes) (q : Origin) (c : TcpSocket)
      (new : lookup b.userh uid ≡ none) (new' : lookup b.userh name ≡ none)
      (differ : same_key uid name ≡ false) (differ' : same_key name uid ≡ false)
      (apart : (one == two) ≡ false) (there : b.socks q.tcpsock ≡ some c)
      (last : c.refcount ≡ 1) where
    abbrev first : BaseInfo table
    first = added table b one uid q c

    abbrev second : BaseInfo table
    second = added table first two name q (record c { on_close = some one })

    abbrev closed : BaseInfo table
    closed = without table second name two q.tcpsock

    first_there : first.socks q.tcpsock ≡ some (record c { on_close = some one })
    unfolding write
    first_there = ground arith

    joined_second : join table (some two) name q first ≡ some second
    joined_second =
        join_new first two name q (record c { on_close = some one })
          (ground (arith, lookup-insert b.userh uid name one)) first_there

    second_there : second.socks q.tcpsock ≡ some (record c { on_close = some two })
    unfolding write
    second_there = ground arith

    second_user : second.users two ≡ some (record { uid = name; fd = q.fd; tcpsock = q.tcpsock })
    unfolding write
    second_user = ground arith

    ended : remove_ref table q.tcpsock second ≡ some closed
    ended =
        remove_ref_last table second q.tcpsock two (record c { on_close = some two })
          (record { uid = name; fd = q.fd; tcpsock = q.tcpsock }) second_there last refl second_user
          (omega arith)

    still_known : lookup closed.userh uid ≡ some one
    still_known = ground (
      arith,
      lookup-remove (insert (insert b.userh uid one) name two) name uid,
      lookup-insert (insert b.userh uid one) name uid two,
      lookup-insert b.userh uid uid one,
      same_key_refl uid,
    )

    still_user : closed.users one ≡ some (record { uid = uid; fd = q.fd; tcpsock = q.tcpsock })
    unfolding write
    still_user = ground arith

    sock_gone : closed.socks q.tcpsock ≡ none
    unfolding write
    sock_gone = ground arith

    -- Two names join over one connection, and the connection ends: all three succeed, but the first
    -- name stays in the table, with a user whose connection is freed, and the next request to quit
    -- under that name gives back a reference to freed memory, which is a fault.
    -- Conditions: neither name had joined; the connection is there, with no other reference once
    -- both requests are served.
    pub join_twice-faults :
        (b1 b2 b3 : BaseInfo table) × (join table (some one) uid q b ≡ some b1)
        × (join table (some two) name q b1 ≡ some b2)
        × (remove_ref table q.tcpsock b2 ≡ some b3)
        × (lookup b3.userh uid ≡ some one)
        × (b3.users one ≡ some (record { uid = uid; fd = q.fd; tcpsock = q.tcpsock }))
        × (b3.socks q.tcpsock ≡ none)
        × (quit table uid b3 ≡ none)
    join_twice-faults = (
      first,
      second,
      closed,
      join_new b one uid q c new there,
      joined_second,
      ended,
      still_known,
      still_user,
      sock_gone,
      quit_dangling closed uid one (record { uid = uid; fd = q.fd; tcpsock = q.tcpsock })
          still_known still_user sock_gone,
    )
