-- ===== src/Client/Servers/Order.antt =====
-- `compare_servers` of client/internal.c is an order that qsort can use.
use moc.Shared.{◌≡◌, arith}
use moc.Client.Servers.{Srv, Sign, less, same, more, compare_servers}

abbrev pub opposite : Sign → Sign
opposite less = more
opposite same = same
opposite more = less

-- `compare_servers` is a total order on address and port: it answers the opposite when its arguments
-- change places, it says that two servers are the same only if they are, and it is transitive.
pub compare_servers_lem :
    (a b c : Srv)
    → (compare_servers b a ≡ opposite (compare_servers a b))
      × (compare_servers a b ≡ same → (a.addr ≡ b.addr) × (a.port ≡ b.port))
      × (compare_servers a b ≡ less → compare_servers b c ≡ less → compare_servers a c ≡ less)
unfolding compare_servers
compare_servers_lem a b c = (ground arith, λ h. ground arith, λ h k. ground arith)
