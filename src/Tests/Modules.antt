-- ===== src/Tests/Modules.antt =====
-- Runs of the modules' timers and cache commands, and of the wait for a reply.
use moc.Shared.{
  ℕ, ◌≡◌, refl, true, false, none, some, List, [], ◌∷◌, ◌++◌, arith, Bytes, take, be32,
}
use moc.Server.Timers.{TimerEntry, walk}
use moc.Server.Timers.Walk.{kept, fired, walk_lem}
use moc.Server.Commands.{NodeOps, Request, Outcome, sys_cmd_cache_set, sys_cmd_cache_get}
use moc.Server.Commands.Roundtrip.{sys_cmd_cache_get-sys_cmd_cache_set}
use moc.Server.Cache.{Cache, find_in_chain}
use moc.Server.Reply.{tcp_reply_long}
use moc.Client.Answer.{reply, tcp_get_rep}
use moc.Client.Answer.Reads.{giving}
use moc.Client.Answer.Whole.{tcp_get_rep-tcp_reply_long}
use moc.Tests.{a_is_1, five, bytes_of}

-- A timer of three seconds that does not repeat, one of two seconds that does, and one of none.
abbrev once : TimerEntry
once = record { timeout = 3; repeat = false; timer = 8 }

abbrev twice : TimerEntry
twice = record { timeout = 2; repeat = true; timer = 9 }

abbrev never : TimerEntry
never = record { timeout = 0; repeat = true; timer = 10 }

walk_lem_example :
    walk 6 (once ∷ twice ∷ never ∷ once ∷ [])
    ≡ (kept 6 (once ∷ twice ∷ []) ++ never ∷ once ∷ [], fired 6 (once ∷ twice ∷ []))
walk_lem_example =
    walk_lem 6 (once ∷ twice ∷ []) (never ∷ once ∷ []) (omega arith, (omega arith, tt)) refl

-- Data sets that have the same string under every name.
abbrev string_ops : NodeOps
string_ops = record {
  Hdf = Bytes;
  get_value = λ h name. some h;
  get_node = λ h name. some (some h);
  set_value = λ h name value. value;
}

abbrev empty_cache : Cache
empty_cache = record {
  numobjs = 8;
  flags = 0;
  hashlen = 2;
  chainlen = 4;
  table = λ i. record { len = 0; entries = [] };
}

abbrev a_request : Request Bytes
a_request = record {
  req = record { id = 0 ∷ 0 ∷ 0 ∷ 7 ∷ []; cmd = 101; flags = 0 };
  hdfrcv = a_is_1;
  hdfsnd = [];
}

sys_cmd_cache_get-sys_cmd_cache_set_example :
    (out out' : Outcome Bytes) × (sys_cmd_cache_set string_ops true 100 a_request
        (some empty_cache)
        false
      ≡ some out)
    × (out.err ≡ none)
    × (sys_cmd_cache_get string_ops 900 a_request out.cd false ≡ some out')
    × (out'.err ≡ none)
    × (out'.hdfsnd ≡ a_is_1)
unfolding find_in_chain
sys_cmd_cache_get-sys_cmd_cache_set_example =
    sys_cmd_cache_get-sys_cmd_cache_set string_ops 100 900 a_request a_request empty_cache a_is_1
      a_is_1 (omega arith, λ i. (refl, omega arith, tt)) refl (refl, (refl, (refl, tt))) refl refl
      refl

tcp_get_rep-tcp_reply_long_example :
    (ks' : List ℕ) × (tcp_get_rep 1 5
        (giving (bytes_of 30))
        (tcp_reply_long (record { id = be32 7; cmd = 0; flags = 0 }) 1000 (some five) 5)
        100
      ≡ some (reply 1000 (be32 5 ++ take 5 five), giving ks', []))
tcp_get_rep-tcp_reply_long_example =
    tcp_get_rep-tcp_reply_long 5 7 1000 0 0 5 five (bytes_of 30) 100 (omega arith) (omega arith)
      (omega arith) (omega arith) (omega arith) (omega arith) (omega arith)
