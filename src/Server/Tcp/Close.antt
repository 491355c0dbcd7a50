-- ===== src/Server/Tcp/Close.antt =====
-- References to a connection and its end: `tcp_socket_add_ref`, `tcp_socket_remove_ref` and
-- `tcp_socket_free` of server/tcp.c.
use moc.Shared.{ℕ, ◌-◌, ◌<◌, ◌≡◌, false, Option, none, some, arith, ◌==◌, if◌then◌else◌}
use moc.Server.Tcp.{TcpSocket, Calls, tcp_socket_remove_ref, error_exit}

module _ {W : Type 0} (calls : Calls W) where
  -- The rest of the server after one of `refs` references goes: the close handler runs with the last.
  abbrev pub last_ref : Option ℕ → ℕ → W → W
  last_ref on_close refs w =
      if refs == 1 then (elim on_close [ none ↦ w | some d ↦ calls.on_close d w ]) else w

  -- A connection that `error_exit` has ended, from `c` with `refs` references: no descriptor, no
  -- event, one reference less, and the structure freed with its last reference.
  abbrev pub IsClosed : TcpSocket → ℕ → W → TcpSocket × W → Type 0
  IsClosed c refs w out =
      (out.0.fd ≡ none)
      × (out.0.evt ≡ false)
      × (out.0.refcount ≡ refs - 1)
      × (out.0.alive ≡ (if refs == 1 then false else c.alive))
      × (out.1 ≡ last_ref c.on_close refs w)

  pub error_exit-IsClosed : (c : TcpSocket) (w : W) → IsClosed c c.refcount w (error_exit calls c w)
  unfolding error_exit
  error_exit-IsClosed c w = ground arith

  pub remove_lem :
      (c : TcpSocket) (w : W)
      → 1 < c.refcount
      → tcp_socket_remove_ref calls c w ≡ (record c { refcount = c.refcount - 1 }, w)
  unfolding tcp_socket_remove_ref
  remove_lem c w h = ground arith

  -- Giving back the last reference closes the descriptor, deletes the event, runs the close handler
  -- once and frees the structure; another removal would do nothing.
  -- Condition: one reference is held.
  pub remove_ref_last :
      (c : TcpSocket) (w : W)
      → c.refcount ≡ 1
      → let out = tcp_socket_remove_ref calls c w in
        (out.0.alive ≡ false)
        × (out.0.fd ≡ none)
        × (out.0.evt ≡ false)
        × (out.0.refcount ≡ 0)
        × (out.1 ≡ last_ref c.on_close 1 w)
        × (tcp_socket_remove_ref calls out.0 out.1 ≡ out)
  unfolding tcp_socket_remove_ref
  remove_ref_last c w h = ground arith
