-- ===== src/Server/Reply/Sends.antt =====
-- `rep_send` of server/tcp.c against what the socket takes.
use moc.Shared.{
  ℕ, zero, suc, ◌≤◌, ◌≡◌, refl, ap, true, some, List, [], ◌∷◌, arith, length, drop, length-drop,
  take-append-drop, Bytes,
}
use moc.Server.Reply.{Send, takes, would_block, fails, ReqInfo, rep_send}

-- The socket takes at least one byte in `n` of these calls, and never fails.
abbrev pub TakesIn : ℕ → List Send → Type 0
TakesIn zero sends = Unit {0}
TakesIn (suc n) [] = ⊥
TakesIn (suc n) (would_block ∷ sends) = TakesIn (suc n) sends
TakesIn (suc n) (takes zero ∷ sends) = ⊥
TakesIn (suc n) (takes (suc k) ∷ sends) = TakesIn n sends
TakesIn (suc n) (fails ∷ sends) = ⊥

TakesIn-less : (m n : ℕ) (sends : List Send) → m ≤ n → TakesIn n sends → TakesIn m sends
TakesIn-less zero n sends le h = tt
TakesIn-less (suc m) zero sends le h = absurd (omega arith)
TakesIn-less (suc m) (suc n) [] le h = elim h [ ]
TakesIn-less (suc m) (suc n) (takes zero ∷ sends) le h = elim h [ ]
TakesIn-less (suc m) (suc n) (fails ∷ sends) le h = elim h [ ]
TakesIn-less (suc m) (suc n) (would_block ∷ sends) le h = TakesIn-less (suc m) (suc n) sends le h
TakesIn-less (suc m) (suc n) (takes (suc k) ∷ sends) le h = TakesIn-less m n sends (omega arith) h

-- However the socket cuts a reply, and however often it would block, `rep_send` puts the whole reply
-- on the wire, each byte once and in order, and returns 1.
-- Condition: the socket does not fail, and takes at least one byte in as many calls as there are
-- bytes.
pub rep_send_whole :
    (sends : List Send) (req : ReqInfo) (buf : Bytes)
    → TakesIn (length buf) sends
    → rep_send sends req buf ≡ some (true, buf)
unfolding rep_send
rep_send_whole sends req [] h = refl
rep_send_whole [] req (b ∷ buf) h = elim h [ ]
rep_send_whole (takes zero ∷ sends) req (b ∷ buf) h = elim h [ ]
rep_send_whole (fails ∷ sends) req (b ∷ buf) h = elim h [ ]
rep_send_whole (would_block ∷ sends) req (b ∷ buf) h = rep_send_whole sends req (b ∷ buf) h
rep_send_whole (takes (suc n) ∷ sends) req (b ∷ buf) h =
    let rest = rep_send_whole sends req (drop n buf) (
      TakesIn-less (length (drop n buf)) (length buf) sends (omega (arith, length-drop n buf)) h) in
    rw rest (ap (λ s. some (true, b ∷ s)) (take-append-drop n buf))
