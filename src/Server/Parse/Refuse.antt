-- ===== src/Server/Parse/Refuse.antt =====
-- Which messages `parse_message` of server/parse.c refuses, and what it answers.
use moc.Shared.{
  ◌*◌, le→ltb, lt→ltb, length-drop, ℕ, ◌+◌, ◌%◌, ◌≤◌, ◌<◌, ◌≡◌, refl, sym, Bool, true, false, not,
  ◌||◌, Bool-cases, Option, Option-cases, none, some, ◌⊎◌, inl, inr, [], ◌∷◌, ◌++◌, arith, ltb,
  ◌==◌, if◌then◌else◌, length, drop, Bytes, IsBytes, be32, read32, read16, ◌^◌, ◌/◌,
}
use moc.Server.Reply.{ReqInfo, tcp_reply_mini, rep_err_broken, rep_err_ver}
use moc.Server.Parse.{DataOps, Memory, Server, reply_mini, proto_ver}
use moc.Server.Parse.Message.{parse_message, parse_event, le32}

-- A message is too short, or the upper half of its first byte is not the version of the protocol.
abbrev pub is_refused : Bytes → Bool
is_refused [] = true
is_refused (a ∷ rest) = ltb (length rest) 16 || not (a / 16 == proto_ver)

-- The answer to a message that is refused: the id of the request before, if the message is too short,
-- and else its own id, with its bytes in the reverse of their order in the message.
abbrev pub refusal : Bytes → Bytes → Bytes
refusal old (a ∷ b ∷ c ∷ d ∷ rest) =
    if ltb (length rest) 13
    then be32 12 ++ old ++ be32 rep_err_broken
    else be32 12 ++ (d ∷ c ∷ b ∷ a % 16 ∷ []) ++ be32 rep_err_ver
refusal old _ = be32 12 ++ old ++ be32 rep_err_broken

-- The outcome for a message that is refused, or not: 0 with this one answer and nothing else changed
-- but counters and the request, or, unless there is a fault, 1.
abbrev pub Verdict :
    {Hdf : Type 0} → Bool → Bytes → ℕ → Server Hdf → Option (Bool × ℕ × Server Hdf) → Type 0
Verdict {Hdf = Hdf} true answer refs s out =
    (s' : Server Hdf) × (out ≡ some (false, refs, s'))
    × (s'.sent ≡ s.sent ++ answer ∷ [])
    × (s'.g_moc ≡ s.g_moc)
Verdict {Hdf = Hdf} false answer refs s out =
    (out ≡ none) ⊎ ((refs' : ℕ) × (s' : Server Hdf) × (out ≡ some (true, refs', s')))

read16_long : (buf : Bytes) → 2 ≤ length buf → (n : ℕ) × (read16 buf ≡ some n)
unfolding read16
read16_long [] h = absurd (omega arith)
read16_long (a ∷ []) h = absurd (omega arith)
read16_long (a ∷ b ∷ rest) h = (a * 256 + b, refl)

-- The header's four bytes as a number, and that number in the memory of a little-endian machine.
le32_header :
    (a b c d : ℕ)
    → a < 256
    → b < 256
    → c < 256
    → d < 256
    → le32 ((a * 16777216 + b * 65536 + c * 256 + d) % 2 ^ 28) ≡ d ∷ c ∷ b ∷ a % 16 ∷ []
unfolding le32
le32_header a b c d ha hb hc hd =
    let x = (a * 16777216 + b * 65536 + c * 256 + d) % 2 ^ 28 in
    let whole : x ≡ (a % 16) * 16777216 + b * 65536 + c * 256 + d = omega arith in
    let e0 : x % 256 ≡ d = omega (arith, whole) in
    let e1 : x / 256 % 256 ≡ c = omega (arith, whole) in
    let e2 : x / 65536 % 256 ≡ b = omega (arith, whole) in
    let e3 : x / 16777216 % 256 ≡ a % 16 = omega (arith, whole) in rw (e0, e1, e2, e3) refl

module _ (data_ops : DataOps) where
  open data_ops use {hdf}

  refuses_short :
      (memory : Memory) (buf : Bytes) (refs : ℕ) (s : Server hdf.Hdf)
      → length buf < 17
      → Verdict true
          (be32 12 ++ s.req.id ++ be32 rep_err_broken)
          refs
          s
          (parse_message data_ops memory buf refs s)
  unfolding parse_message reply_mini tcp_reply_mini
  refuses_short memory buf refs s short = (
    reply_mini rep_err_broken
        (record s { stats = record s.stats { net_broken_req = s.stats.net_broken_req + 1 } }),
    rw (lt→ltb (length buf) 17 short) refl,
    refl,
    refl,
  )

  refuses_version :
      (memory : Memory) (buf : Bytes) (refs hdr : ℕ) (s : Server hdf.Hdf)
      → 17 ≤ length buf
      → read32 buf ≡ some hdr
      → (hdr / 2 ^ 28 == proto_ver) ≡ false
      → Verdict true
          (be32 12 ++ le32 (hdr % 2 ^ 28) ++ be32 rep_err_ver)
          refs
          s
          (parse_message data_ops memory buf refs s)
  unfolding parse_message reply_mini tcp_reply_mini
  refuses_version memory buf refs hdr s long e version =
      let (cmd, e2) = read16_long (drop 4 buf) (omega (arith, length-drop 4 buf)) in
      let (flags, e3) = read16_long (drop 6 buf) (omega (arith, length-drop 6 buf)) in
      (
        reply_mini rep_err_ver (record s {
          stats = record s.stats { net_version_mismatch = s.stats.net_version_mismatch + 1 };
          req = record s.req { id = le32 (hdr % 2 ^ 28) };
        }),
        rw (le→ltb (length buf) 17 long, e, e2, e3, version) refl,
        refl,
        refl,
      )

  returns_1 :
      (memory : Memory) (buf : Bytes) (refs refs' hdr : ℕ) (s s' : Server hdf.Hdf) (rv : Bool)
      → 17 ≤ length buf
      → read32 buf ≡ some hdr
      → (hdr / 2 ^ 28 == proto_ver) ≡ true
      → parse_message data_ops memory buf refs s ≡ some (rv, refs', s')
      → parse_message data_ops memory buf refs s ≡ some (true, refs', s')
  unfolding parse_message
  returns_1 memory buf refs refs' hdr s s' rv long e version run =
      let (cmd, e2) = read16_long (drop 4 buf) (omega (arith, length-drop 4 buf)) in
      let (flags, e3) = read16_long (drop 6 buf) (omega (arith, length-drop 6 buf)) in
      let req : ReqInfo = record { id = be32 (hdr % 2 ^ 28); cmd = cmd; flags = flags } in
      elim (Option-cases (parse_event data_ops memory (drop 8 buf) refs (record s { req = req }))) [
        | inl bad ↦ absurd (ground (arith, le→ltb (length buf) 17 long))
        | inr ((refs1, s1), e4) ↦ ground (arith, le→ltb (length buf) 17 long)
      ]

  takes_version :
      (memory : Memory) (buf answer : Bytes) (refs hdr : ℕ) (s : Server hdf.Hdf)
      → 17 ≤ length buf
      → read32 buf ≡ some hdr
      → (hdr / 2 ^ 28 == proto_ver) ≡ true
      → Verdict false answer refs s (parse_message data_ops memory buf refs s)
  takes_version memory buf answer refs hdr s long e version =
      elim (Option-cases (parse_message data_ops memory buf refs s)) [
        | inl fault ↦ inl fault
        | inr ((rv, refs', s'), run) ↦
            inr (refs', s', returns_1 memory buf refs refs' hdr s s' rv long e version run)
      ]

  -- `parse_message` refuses just the messages that are shorter than 17 bytes or of another version of
  -- the protocol: it returns 0 with one answer, to the id that `refusal` says, and neither the modules
  -- nor the references to the connection change; for any other message it returns 1, unless there is
  -- a fault.
  -- Condition: the message is of bytes.
  pub parse_message-refuses :
      (memory : Memory) (buf : Bytes) (refs : ℕ) (s : Server hdf.Hdf)
      → IsBytes buf
      → Verdict
          (is_refused buf)
          (refusal s.req.id buf)
          refs
          s
          (parse_message data_ops memory buf refs s)
  unfolding read32
  parse_message-refuses memory [] refs s bytes = refuses_short memory [] refs s (omega arith)
  parse_message-refuses memory (a ∷ []) refs s bytes =
      refuses_short memory (a ∷ []) refs s (omega arith)
  parse_message-refuses memory (a ∷ b ∷ []) refs s bytes =
      refuses_short memory (a ∷ b ∷ []) refs s (omega arith)
  parse_message-refuses memory (a ∷ b ∷ c ∷ []) refs s bytes =
      refuses_short memory (a ∷ b ∷ c ∷ []) refs s (omega arith)
  parse_message-refuses memory (a ∷ b ∷ c ∷ d ∷ rest) refs s (ha, (hb, (hc, (hd, _)))) =
      let buf = a ∷ b ∷ c ∷ d ∷ rest in
      let hdr = a * 16777216 + b * 65536 + c * 256 + d in
      let top : hdr / 2 ^ 28 ≡ a / 16 = omega arith in
      elim (Bool-cases (ltb (length rest) 13)) [
        | inl short ↦
            let below : ltb (length (b ∷ c ∷ d ∷ rest)) 16 ≡ true = ground arith in
            rw (below, short) (refuses_short memory buf refs s (ground arith))
        | inr long ↦
            let above : ltb (length (b ∷ c ∷ d ∷ rest)) 16 ≡ false = ground arith in
            elim (Bool-cases (a / 16 == proto_ver)) [
              | inl ours ↦
                  rw (above, long, ours)
                    (takes_version memory buf
                      (be32 12 ++ (d ∷ c ∷ b ∷ a % 16 ∷ []) ++ be32 rep_err_ver) refs hdr s
                      (ground arith) refl (rw top ours))
              | inr other ↦
                  rw (above, long, other, sym (le32_header a b c d ha hb hc hd))
                    (refuses_version memory buf refs hdr s (ground arith) refl (rw top other))
            ]
      ]
