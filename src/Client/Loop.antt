-- ===== src/Client/Loop.antt =====
-- The client's side of a connection on which the server may push: `msparse_buf` and `mssrv_close` of
-- client/mscli.c, and what `el_routine` of client/eloop.c does with the result of a recv. The cutting
-- of the bytes is a copy of the server's (`process_buf`), but without its guard on the size of a
-- read. `none` is a fault: an access outside a buffer or an array, or no fuel.
pub mod Same
pub mod Room
pub mod Reads
use moc.Shared.{
  ℕ, zero, suc, ◌+◌, ◌-◌, Bool, Option, none, some, List, [], ◌∷◌, ◌++◌, ltb, ◌==◌, if◌then◌else◌,
  ◌>>=◌, length, take, drop, Bytes,
}
use moc.Server.Tcp.{Recv, bytes, again, timed_out, ended, sbsize, totaltoget}

-- `struct _moc_srv`, as far as the server's messages are processed with it. `fd` is `none` for -1,
-- `buf` holds the first bytes of the temporary buffer of SBSIZE bytes.
pub record MocSrv : Type 0 where
  pub fd : Option ℕ
  pub buf : Option Bytes
  pub len : ℕ
  pub pktsize : ℕ
  pub excess : ℕ

-- The fields that a new connection or a reconnection sets.
unfoldable pub fresh_srv : ℕ → MocSrv
fresh_srv fd = record { fd = some fd; buf = none; len = 0; pktsize = 0; excess = 0 }

-- The branch for an incomplete message.
unfoldable pub keep_rest : Bool → MocSrv → Bytes → ℕ → MocSrv
keep_rest memory c buf total = elim c.buf [
  | none ↦ if memory then record c { buf = some buf; len = length buf; pktsize = total } else c
  | some _ ↦ record c { buf = some buf; len = length buf; pktsize = total }
]

-- What stands in the temporary buffer once the parsing of `buf`, which it is or is not, gives up.
unfoldable pub keep_bytes : MocSrv → Bytes → MocSrv
keep_bytes c buf = elim c.buf [ none ↦ c | some _ ↦ record c { buf = some buf } ]

unfoldable pub free_buf : MocSrv → MocSrv
free_buf c = elim c.buf [
  | none ↦ c
  | some _ ↦ record c { buf = none; len = 0; pktsize = 0; excess = 0 }
]

module _ {W : Type 0} (msparse_msg : Bytes → W → W) where
  -- `msparse_buf` behind its checks of the parameters, which hold again when it calls itself. An
  -- error of `msparse_msg` is only logged.
  unfoldable pub parse_loop : ℕ → Bool → MocSrv → Bytes → W → Option (MocSrv × W)
  parse_loop zero memory c buf w = none
  parse_loop (suc fuel) memory c buf w =
      let len = length buf in
      elim (totaltoget buf) [
        | none ↦ some (keep_bytes c buf, w)
        | some total ↦
            if ltb len total
            then some (keep_rest memory c buf total, w)
            else let excess = if ltb total len then len - total else c.excess in
              let w' = msparse_msg (drop 4 (take total buf)) w in
              let rest =
                parse_loop fuel memory (record c { len = excess; excess = 0 }) (drop total buf)
                  w' in
              if excess == 0 then some (free_buf (record c { excess = excess }), w') else rest
      ]

-- `servers[order]`, and a write there.
abbrev pub get_elem? {ℓ} : {A : Type ℓ} → List A → ℕ → Option A
get_elem? [] i = none
get_elem? (x ∷ xs) zero = some x
get_elem? (x ∷ xs) (suc i) = get_elem? xs i

abbrev pub set {ℓ} : {A : Type ℓ} → List A → ℕ → A → List A
set [] i v = []
set (x ∷ xs) zero v = v ∷ xs
set (x ∷ xs) (suc i) v = x ∷ set xs i v

-- `srv->fd == fd`
unfoldable pub same_fd : MocSrv → ℕ → Bool
same_fd srv fd = elim srv.fd [ none ↦ Bool.false | some n ↦ n == fd ]

unfoldable pub mssrv_close : List MocSrv → ℕ → ℕ → Option (List MocSrv)
mssrv_close servers order fd = if ltb (length servers) order then some servers else do
  srv ← get_elem? servers order
  some (if same_fd srv fd then set servers order (record srv { fd = none }) else servers)

-- The entry that `el_routine` queues for the callbacks when the network is out of reach.
abbrev pub connectlost : Bytes
connectlost = b'_' ∷ b'c' ∷ b'o' ∷ b'n' ∷ b'n' ∷ b'e' ∷ b'c' ∷ b't' ∷ b'l' ∷ b'o' ∷ b's' ∷ b't' ∷ []

module _ {W : Type 0} (msparse_msg : Bytes → W → W) where
  unfoldable pub msparse_buf : Bool → List MocSrv → ℕ → ℕ → Bytes → W → Option (List MocSrv × W)
  msparse_buf memory servers order fd buf w =
      if ltb (length servers) order then some (servers, w) else do
        srv ← get_elem? servers order
        if same_fd srv fd
            then (do
              (srv', w') ← parse_loop msparse_msg (length buf + 1) memory srv buf w
              some (set servers order srv', w'))
            else some (servers, w)

  -- The bytes of one recv, given to `msparse_buf` by themselves or behind those that are kept.
  unfoldable pub el_read : Bool → List MocSrv → ℕ → ℕ → Bytes → W → Option (List MocSrv × W)
  el_read memory servers order fd rv w = do
    srv ← get_elem? servers order
    elim srv.buf [
      | none ↦ msparse_buf memory servers order fd rv w
      | some buf ↦
          if ltb sbsize (length buf + length rv)
          then none
          else let srv' = record srv { buf = some (buf ++ rv); len = srv.len + length rv } in
            msparse_buf memory (set servers order srv') order fd (buf ++ rv) w
    ]

  -- Reads of one connection, one after the other.
  unfoldable pub el_reads : List Bytes → List MocSrv → ℕ → ℕ → W → Option (List MocSrv × W)
  el_reads [] servers order fd w = some (servers, w)
  el_reads (rv ∷ reads) servers order fd w = do
    (servers', w') ← el_read Bool.true servers order fd rv w
    el_reads reads servers' order fd w'

  -- What `el_routine` does with a recv on the connection `order` of a module, whose descriptor was
  -- `fd` when the descriptors were collected; `put_event` queues an event for the callbacks.
  unfoldable pub el_event :
      (Bytes → W → W) → Bool → List MocSrv → ℕ → ℕ → Recv → W → Option (List MocSrv × W)
  unfolding mssrv_close el_read
  el_event put_event memory servers order fd (bytes rv) w = el_read memory servers order fd rv w
  el_event put_event memory servers order fd again w = some (servers, w)
  el_event put_event memory servers order fd timed_out w = some (servers, put_event connectlost w)
  el_event put_event memory servers order fd ended w = do
    servers' ← mssrv_close servers order fd
    some (servers', w)
