-- ===== src/Server/Timers/Once.antt =====
-- When `time_up` of server/net.c calls one timer among others, second by second.
use moc.Shared.{ℕ, zero, suc, ◌<◌, ◌≡◌, ◌⊎◌, false, List, [], ◌∷◌, ◌++◌, ◌==◌, if◌then◌else◌}
use moc.Server.Timers.{TimerEntry, Fired, walk}

-- The walks of `n` seconds that follow second `s`, when the clock does not skip any.
unfoldable pub seconds : ℕ → ℕ → List TimerEntry → List TimerEntry × List Fired
seconds s zero ts = (ts, [])
seconds s (suc n) ts =
    let now = walk (suc s) ts in let later = seconds (suc s) n now.0 in (later.0, now.1 ++ later.1)

-- The calls that get the data `timer`.
abbrev pub calls_of : ℕ → List Fired → List Fired
calls_of timer [] = []
calls_of timer ((upsec, called) ∷ fs) =
    if called == timer then (upsec, called) ∷ calls_of timer fs else calls_of timer fs

-- No timer of the list has that data.
abbrev pub Absent : ℕ → List TimerEntry → Type 0
Absent timer [] = Unit {0}
Absent timer (t ∷ ts) = ((t.timer == timer) ≡ false) × Absent timer ts

-- The timer is in the list, behind timers of positive timeouts only, and no other has its data.
abbrev pub Present : TimerEntry → List TimerEntry → Type 0
Present t [] = ⊥
Present t (x ∷ ts) =
    ((x ≡ t) × Absent t.timer ts)
    ⊎ ((0 < x.timeout) × ((x.timer == t.timer) ≡ false) × Present t ts)
