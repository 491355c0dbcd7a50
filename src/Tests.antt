-- ===== src/Tests.antt =====
-- Concrete runs of the program's parts: data for them, and the theorems applied there.
pub mod Queues
pub mod Servers
pub mod Connections
pub mod Messages
pub mod Caches
pub mod Modules
pub mod Tables
pub mod Pushes
pub mod Plugins
pub mod Requests
use moc.Shared.{Bool, ℕ, zero, suc, ◌≡◌, refl, Option, none, some, List, [], ◌∷◌, Bytes, length}
use moc.Client.Packet.{HdfOps}
use moc.Server.Parse.{DataOps, Stats, Server, QueueItem, sys_stats_init}
use moc.Server.Mocd.{Driver, Moc, EventEntry, moc_start}
use moc.Server.Tcp.{Calls, Parsed}

-- Data sets as their text.
abbrev pub text_ops : HdfOps
text_ops = record { Hdf = Bytes; init = []; read_string = λ old s. s; write_string = λ h. some h }

abbrev pub text_data : DataOps
text_data = record {
  hdf = text_ops;
  set_int_value = λ h name value. h;
  copy_modules = λ h node. node;
  has_child = λ h. Bool.false;
}

-- "base", and the data set "a=1".
abbrev pub base_name : Bytes
base_name = b'b' ∷ b'a' ∷ b's' ∷ b'e' ∷ []

abbrev pub a_is_1 : Bytes
a_is_1 = b'a' ∷ b'=' ∷ b'1' ∷ []

abbrev pub base_entry : EventEntry (QueueItem Bytes)
base_entry = record { name = base_name; process_driver = 40; stop_driver = 41; op_queue = [] }

-- Two drivers of one name.
abbrev pub base_driver : Driver
base_driver = record { name = base_name; process_driver = 40; stop_driver = 41 }

abbrev pub old_driver : Driver
old_driver = record { name = base_name; process_driver = 30; stop_driver = 31 }

-- A server with the module "base".
abbrev pub base_server : Server Bytes
base_server = record {
  stats = sys_stats_init;
  g_moc = moc_start (some base_driver ∷ []);
  clientmod = none;
  req = record { id = 0 ∷ 0 ∷ 0 ∷ 0 ∷ []; cmd = 0; flags = 0 };
  sent = [];
}

-- A server that counts messages, and accepts them all.
abbrev pub counting : Calls ℕ
counting = record {
  count_tcp = λ w. suc w;
  parse_message = λ m refs w. record { accepted = Bool.true; refs = refs; world = w };
  on_close = λ appdata w. w;
}

-- A message of five bytes.
abbrev pub five : Bytes
five = 1 ∷ 2 ∷ 3 ∷ 4 ∷ 5 ∷ []

-- So many bytes.
abbrev pub bytes_of : ℕ → Bytes
bytes_of zero = []
bytes_of (suc n) = 0 ∷ bytes_of n
