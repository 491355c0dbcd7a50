-- ===== src/Server/Timers.antt =====
-- The timers of the modules: `moc_add_timer` of server/mocd.c, and `time_up` of server/net.c, which
-- libevent calls ten times a second.
pub mod Walk
pub mod Once
use moc.Shared.{
  ℕ, suc, ◌+◌, ◌-◌, ◌%◌, Bool, true, false, Option, none, some, List, [], ◌∷◌, ◌++◌, ltb, ◌==◌,
  if◌then◌else◌,
}

-- `struct timer_entry`; `timeout` is 0 for one that is not positive, `timer` names the callback and its
-- data.
pub record TimerEntry : Type 0 where
  pub timeout : ℕ
  pub repeat : Bool
  pub timer : ℕ

-- A new timer becomes the first; without memory there is none.
unfoldable pub moc_add_timer : Bool → ℕ → Bool → ℕ → List TimerEntry → List TimerEntry
moc_add_timer memory timeout repeat timer timers =
    if memory then record { timeout = timeout; repeat = repeat; timer = timer } ∷ timers else timers

-- A call of a timer's callback: the second, and its data.
abbrev pub Fired : Type 0
Fired = ℕ × ℕ

-- The loop over the timers of a module: the timers that stay, and the callbacks called, in order. The
-- callbacks themselves do not change the list, as the modules have none that does.
unfoldable pub walk : ℕ → List TimerEntry → List TimerEntry × List Fired
walk upsec [] = ([], [])
walk upsec (t ∷ ts) =
    let rest = walk upsec ts in
    if t.timeout == 0
    then (t ∷ ts, [])
    else (if upsec % t.timeout == 0
        then ((if t.repeat then t ∷ rest.0 else rest.0), (upsec, t.timer) ∷ rest.1)
        else (t ∷ rest.0, rest.1))

-- Over all modules, in the order of the table.
unfoldable pub walk_all : ℕ → List (List TimerEntry) → List (List TimerEntry) × List Fired
unfolding walk
walk_all upsec [] = ([], [])
walk_all upsec (ts ∷ entries) =
    let (kept, fired) = walk upsec ts in
    let (rest, more) = walk_all upsec entries in (kept ∷ rest, fired ++ more)

-- `g_ctime`, and the static `upsec` of `time_up`.
pub record Clock : Type 0 where
  pub g_ctime : ℕ
  pub upsec : ℕ

-- One call of `time_up` when the time is `now`.
unfoldable pub time_up :
    ℕ → Clock → List (List TimerEntry) → Clock × List (List TimerEntry) × List Fired
unfolding walk_all
time_up now clock entries =
    if ltb clock.g_ctime now
    then (let upsec = clock.upsec + (now - clock.g_ctime) in
        let (entries', fired) = walk_all upsec entries in
        (record { g_ctime = now; upsec = upsec }, entries', fired))
    else (record clock { g_ctime = now }, entries, [])
