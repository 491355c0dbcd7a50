-- ===== src/Server/Commands/Roundtrip.antt =====
-- A value that a module has set in its cache through server/syscmd.c is got back.
use moc.Shared.{
  ℕ, ◌≡◌, refl, ap, ◌∙◌, true, false, Option, none, some, [], ◌∷◌, ◌++◌, ltb, lt→ltb, arith, length,
  length-append, Bytes,
}
use moc.Client.Packet.Trip.{NoNul, cstring-append}
use moc.Server.Cache.{is_zero, Cache, CacheEntry, cache_get, cache_set}
use moc.Server.Decimal.{pos}
use moc.Server.Cache.Lookup.{IsCache, lookup, expiry, cache_set_lem}
use moc.Server.Cache.Uses.{live, cache_get_lem}
use moc.Server.Commands.{
  NodeOps, Request, Outcome, vname_cache_key, vname_cache_val, got, done, sys_cmd_cache_get,
  sys_cmd_cache_set,
}

module _ (ops : NodeOps) where
  open ops use {Hdf, get_value, get_node, set_value}

  set_run :
      (g_ctime : ℕ) (q : Request Hdf) (cd cd' : Cache) (key val : Bytes)
      → get_value q.hdfrcv vname_cache_key ≡ some key
      → get_node q.hdfrcv vname_cache_val ≡ some (some val)
      → cache_set true g_ctime cd key (val ++ 0 ∷ []) (pos 0) ≡ some (true, cd')
      → sys_cmd_cache_set ops true g_ctime q (some cd) false
        ≡ some (done ops false (some cd') q none)
  unfolding sys_cmd_cache_set
  set_run g_ctime q cd cd' key val named valued run =
      rw (sys_cmd_cache_set, named, valued, run) refl

  get_run :
      (g_ctime : ℕ) (q : Request Hdf) (cd cd' : Cache) (key val : Bytes)
      → get_value q.hdfrcv vname_cache_key ≡ some key
      → cache_get g_ctime cd key ≡ some (some val, cd')
      → sys_cmd_cache_get ops g_ctime q (some cd) false ≡ got ops false (some cd') q val
  unfolding sys_cmd_cache_get
  get_run g_ctime q cd cd' key val named run = rw (sys_cmd_cache_get, named, run) refl

  got_string :
      (q : Request Hdf) (cd : Cache) (val : Bytes)
      → NoNul val
      → got ops false (some cd) q (val ++ 0 ∷ [])
        ≡ some (record {
          err = none;
          cd = some cd;
          hdfsnd = set_value q.hdfsnd vname_cache_val val;
          sent = none;
        })
  unfolding got
  got_string q cd val clean =
      let big : ltb 0 (length (val ++ 0 ∷ [])) ≡ true =
        lt→ltb 0 (length (val ++ 0 ∷ [])) (omega (arith, length-append val (0 ∷ []))) in
      rw (big, cstring-append val [] clean) refl

  never_expired :
      (g_ctime : ℕ) (e : CacheEntry) → e.expire ≡ pos 0 → live g_ctime (some e) ≡ some e.val
  never_expired g_ctime e zero_expire = rw zero_expire refl

  -- What one request sets in the cache of a module, a later request for the same key gets, whenever it
  -- comes: both succeed, and the value is in the data set that is sent.
  -- Conditions: the cache is well formed, and had nothing under the key; the value has no NUL; there
  -- is memory.
  pub sys_cmd_cache_get-sys_cmd_cache_set :
      (now later : ℕ) (q q' : Request Hdf) (cd : Cache) (key val : Bytes)
      → IsCache cd
      → lookup cd key ≡ none
      → NoNul val
      → get_value q.hdfrcv vname_cache_key ≡ some key
      → get_node q.hdfrcv vname_cache_val ≡ some (some val)
      → get_value q'.hdfrcv vname_cache_key ≡ some key
      → (out out' : Outcome Hdf) × (sys_cmd_cache_set ops true now q (some cd) false ≡ some out)
        × (out.err ≡ none)
        × (sys_cmd_cache_get ops later q' out.cd false ≡ some out')
        × (out'.err ≡ none)
        × (out'.hdfsnd ≡ set_value q'.hdfsnd vname_cache_val val)
  unfolding done is_zero
  sys_cmd_cache_get-sys_cmd_cache_set now later q q' cd key val is absent clean named valued
        named' =
      let (cd1, e, set, is1, found, same, expire, others) =
        cache_set_lem now cd key (val ++ 0 ∷ []) (pos 0) is in
      let (cd2, get, _, _, _) = cache_get_lem later cd1 key is1 in
      let zero_expire : e.expire ≡ pos 0 = expire ∙ ap (expiry now (pos 0)) absent in
      let alive : live later (lookup cd1 key) ≡ some (val ++ 0 ∷ []) =
        ap (live later) found ∙ never_expired later e zero_expire ∙ ap some same in
      let get' : cache_get later cd1 key ≡ some (some (val ++ 0 ∷ []), cd2) =
        get ∙ ap (λ (v : Option Bytes). some (v, cd2)) alive in
      (
        done ops false (some cd1) q none,
        record {
          err = none;
          cd = some cd2;
          hdfsnd = set_value q'.hdfsnd vname_cache_val val;
          sent = none;
        },
        set_run now q cd cd1 key val named valued set,
        refl,
        get_run later q' cd1 cd2 key (val ++ 0 ∷ []) named' get' ∙ got_string q' cd2 val clean,
        refl,
        refl,
      )
