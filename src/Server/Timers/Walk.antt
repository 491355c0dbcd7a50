-- ===== src/Server/Timers/Walk.antt =====
-- Which timers `time_up` of server/net.c calls, and which it keeps.
use moc.Shared.{
  ℕ, ◌%◌, ◌<◌, ◌≡◌, refl, Bool, false, not, ◌&&◌, Bool-cases, inl, inr, List, [], ◌∷◌, ◌++◌, arith,
  ◌==◌, if◌then◌else◌,
}
use moc.Server.Timers.{TimerEntry, Fired, walk}

-- The timer is called in this second.
abbrev pub is_due : ℕ → TimerEntry → Bool
is_due upsec t = upsec % t.timeout == 0

abbrev pub kept : ℕ → List TimerEntry → List TimerEntry
kept upsec [] = []
kept upsec (t ∷ ts) = if is_due upsec t && not t.repeat then kept upsec ts else t ∷ kept upsec ts

abbrev pub fired : ℕ → List TimerEntry → List Fired
fired upsec [] = []
fired upsec (t ∷ ts) = if is_due upsec t then (upsec, t.timer) ∷ fired upsec ts else fired upsec ts

abbrev pub AllPositive : List TimerEntry → Type 0
AllPositive [] = Unit {0}
AllPositive (t ∷ ts) = (0 < t.timeout) × AllPositive ts

-- The timers in front of one whose timeout is not positive.
abbrev pub Stops : List TimerEntry → Type 0
Stops [] = Unit {0}
Stops (t ∷ ts) = t.timeout ≡ 0

-- In each second the walk calls exactly the timers whose timeout divides the second, each once and in
-- order, and drops just those of them that do not repeat. A timer whose timeout is not positive ends
-- it: it stays with all behind it, and none of them is called.
pub walk_lem :
    (upsec : ℕ) (ts rest : List TimerEntry)
    → AllPositive ts
    → Stops rest
    → walk upsec (ts ++ rest) ≡ (kept upsec ts ++ rest, fired upsec ts)
unfolding walk
walk_lem upsec [] [] all stops = refl
walk_lem upsec [] (t ∷ rest) all stops = ground arith
walk_lem upsec (t ∷ ts) rest all stops =
    let ih = walk_lem upsec ts rest all.1 stops in
    let positive : (t.timeout == 0) ≡ false = ground arith in
    elim (Bool-cases (is_due upsec t)) [
      | inl due ↦ elim (Bool-cases t.repeat) [
        | inl again ↦ ground (arith, ih)
        | inr once ↦ ground (arith, ih)
      ]
      | inr early ↦ ground (arith, ih)
    ]
