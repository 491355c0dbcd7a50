-- ===== src/Plugin/Message/Sends.antt =====
-- What `base_msg_send` of plugin/private/base_internal.c puts on the wire.
use Prim.Native.Nat.{min}
use moc.Shared.{
  ℕ, ◌+◌, ◌-◌, ◌≤◌, ◌<◌, ◌≡◌, refl, ap, ◌∙◌, Bool, false, some, List, [], ◌∷◌, ◌++◌, sym, subst,
  nil_of_length, arith, ltb, ◌==◌, ◌>>=◌, le→ltb, length, take, drop, Bytes, Bool-cases, inl, inr,
  drop-drop, take-append-drop, length-drop, take_all,
}
use moc.Client.Push.{NeoErr}
use moc.Plugin.Message.{send_rounds, base_msg_send}
use moc.Server.Decimal.{pos}
use moc.Server.Reply.{Send, takes, would_block, fails}

-- The calls of send each take at least a byte, and together all that is left.
abbrev pub Enough : List Send → ℕ → Type 0
Enough [] left = left ≡ 0
Enough (takes n ∷ sends) left = (0 < n) × Enough sends (left - n)
Enough (_ ∷ sends) left = ⊥

sent_all :
    (buf : Bytes) (c n rv : ℕ)
    → rv ≡ min n (length buf - c)
    → (rv == length buf) ≡ Bool.true
    → take rv (drop c buf) ≡ drop c buf
sent_all buf c n rv e h = take_all rv (drop c buf) (ground (arith, length-drop c buf))

-- However the socket cuts a message, so long as each send takes at least a byte, the whole of it is
-- put on the wire, in order.
-- Conditions: the sends listed are enough; `c` bytes have gone out before.
pub send_rounds_whole :
    (sends : List Send) (buf : Bytes) (c : ℕ)
    → Enough sends (length buf - c)
    → send_rounds sends buf c ≡ some (NeoErr.status_ok, drop c buf)
unfolding send_rounds
send_rounds_whole [] buf c enough =
    let over : length buf ≤ c = omega arith in
    rw (le→ltb c (length buf) over, nil_of_length (drop c buf) (omega (arith, length-drop c buf)))
      refl
send_rounds_whole (takes n ∷ sends) buf c enough =
    let rv = min n (length buf - c) in
    elim (Bool-cases (ltb c (length buf))) [
      | inr over ↦
          let none_left : drop c buf ≡ [] =
            nil_of_length (drop c buf) (ground (arith, length-drop c buf)) in
          rw (over, none_left) refl
      | inl more ↦ elim (Bool-cases (rv == length buf)) [
        | inl all ↦ rw (more, all, sent_all buf c n rv refl all) refl
        | inr part ↦
            let moved : (rv == 0) ≡ false = ground (arith, enough.0) in
            let left : length buf - c - n ≡ length buf - (c + rv) = ground arith in
            let rest = send_rounds_whole sends buf (c + rv) (rw left at enough.1) in
            rw (more, part, moved, rest)
              (ap (λ (t : Bytes). some (NeoErr.status_ok, t))
                (ap (λ (t : Bytes). take rv (drop c buf) ++ t) (sym (drop-drop rv c buf))
                  ∙ take-append-drop rv (drop c buf)))
      ]
    ]
send_rounds_whole (would_block ∷ sends) buf c enough = absurd enough
send_rounds_whole (fails ∷ sends) buf c enough = absurd enough

-- However the socket cuts a message, the whole of it goes out in order, and STATUS_OK is returned.
-- Conditions: each send takes at least a byte, and they are enough; the descriptor is positive.
pub base_msg_send_all :
    (sends : List Send) (buf : Bytes) (fd : ℕ)
    → 0 < fd
    → Enough sends (length buf)
    → base_msg_send sends buf (pos fd) ≡ some (NeoErr.status_ok, buf)
unfolding base_msg_send
base_msg_send_all sends buf fd open_fd enough =
    let good : (fd == 0) ≡ false = ground arith in
    let same : length buf - 0 ≡ length buf = omega arith in
    rw good (send_rounds_whole sends buf 0 (subst (Enough sends) (sym same) enough))
