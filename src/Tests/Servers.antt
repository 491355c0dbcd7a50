-- ===== src/Tests/Servers.antt =====
-- The choice and the order of servers, client/internal.c.
use moc.Shared.{ℕ, ◌<◌, ◌≡◌, some, arith}
use moc.Client.Servers.{Srv, select_srv}
use moc.Client.Servers.Choice.{select_srv_lem}
use moc.Tests.{five}

abbrev first_srv : Srv
first_srv = record { addr = 16777343; port = 34835 }

abbrev second_srv : Srv
second_srv = record { addr = 16777343; port = 35091 }

select_srv_lem_example : (i : ℕ) × (select_srv 3 five ≡ some (some i)) × (i < 3)
select_srv_lem_example = select_srv_lem 3 five (omega arith)
