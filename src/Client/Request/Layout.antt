-- ===== src/Client/Request/Layout.antt =====
-- The bytes that `_mevt_trigger` of client/moc.c sends.
use moc.Shared.{
  ℕ, ◌+◌, ◌<◌, ◌≤◌, ◌≡◌, refl, sym, ap, ◌∙◌, false, some, [], ◌++◌, append_assoc, arith, ltb,
  le→ltb, length, take, drop, take-append-drop, length-take, length-drop, length-append,
  take-length, drop-length, drop-drop, Bytes, be32, be16, length-be32, length-be16,
}
use moc.Client.Packet.{HdfOps, max_packet_len, data_type_eof, blit, advance, pack_hdf}
use moc.Client.Packet.Write.{image, sent, length-sent, length-image, root, blit_at, pack_hdf_lem}
use moc.Client.Packet.Trip.{advance-append}
use moc.Client.Request.{Mevt, version_bits, with_length, lay_out_head, lay_out, next_reqid}

-- A message as the protocol's documentation lays it out: version and id, command, flags, the name of
-- the module, and the data set.
unfoldable pub header : ℕ → ℕ → ℕ → ℕ → Bytes
header id cmd flags ksize = be32 (version_bits + id) ++ be16 cmd ++ be16 flags ++ be32 ksize

unfoldable pub message : ℕ → ℕ → ℕ → Bytes → Bytes → Bytes
unfolding header
message id cmd flags ename body = header id cmd flags (length ename) ++ ename ++ body

pub length-header : (id cmd flags k : ℕ) → length (header id cmd flags k) ≡ 12
unfolding header be32 be16
length-header id cmd flags k = refl

pub length-message :
    (id cmd flags : ℕ) (ename rest : Bytes)
    → length (message id cmd flags ename rest) ≡ 12 + length ename + length rest
unfolding message
length-message id cmd flags ename rest = omega (
  arith,
  length-append (header id cmd flags (length ename) ++ ename) rest,
  length-append (header id cmd flags (length ename)) ename,
  length-header id cmd flags (length ename),
)

module _ (old : Bytes) (id cmd flags : ℕ) (ename mid : Bytes) where
  head_blits :
      length old ≡ 4
      → 12 + length ename ≤ length mid
      → lay_out_head id cmd flags ename (old ++ mid)
        ≡ some
            ((old ++ (header id cmd flags (length ename) ++ ename)) ++ drop (12 + length ename) mid)
  unfolding header lay_out_head
  head_blits size room =
      let a = be32 (version_bits + id) in
      let b = be16 cmd in
      let c = be16 flags in
      let d = be32 (length ename) in
      let la = length-be32 (version_bits + id) in
      let lb = length-be16 cmd in
      let lc = length-be16 flags in
      let ld = length-be32 (length ename) in
      let m1 = drop (length a) mid in
      let m2 = drop (length b) m1 in
      let m3 = drop (length c) m2 in
      let m4 = drop (length d) m3 in
      let r1 = length-drop (length a) mid in
      let r2 = length-drop (length b) m1 in
      let r3 = length-drop (length c) m2 in
      let r4 = length-drop (length d) m3 in
      let p1 = length-append old a in
      let p2 = length-append (old ++ a) b in
      let p3 = length-append (old ++ a ++ b) c in
      let p4 = length-append (old ++ a ++ b ++ c) d in
      let k = length ename in
      let count : length a + (length b + (length c + (length d + k))) ≡ 12 + k = omega arith in
      let tail : drop k m4 ≡ drop (12 + k) mid =
        drop-drop k (length d) m3
        ∙ drop-drop (length d + k) (length c) m2
        ∙ drop-drop (length c + (length d + k)) (length b) m1
        ∙ drop-drop (length b + (length c + (length d + k))) (length a) mid
        ∙ ap (λ n. drop n mid) count in
      rw
        (
          blit_at 4 old a mid (omega arith) (omega arith),
          blit_at 8 (old ++ a) b m1 (omega arith) (omega arith),
          blit_at 10 (old ++ a ++ b) c m2 (omega arith) (omega arith),
          blit_at 12 (old ++ a ++ b ++ c) d m3 (omega arith) (omega arith),
          blit_at 16 (old ++ a ++ b ++ c ++ d) ename m4 (omega arith) (omega arith),
        )
        (rw tail (simp append_assoc))

with_length_lem :
    (old msg rest : Bytes) (total : ℕ)
    → length old ≡ 4
    → total ≡ 4 + length msg
    → with_length (old ++ (msg ++ rest)) total ≡ some (be32 total ++ msg ++ rest, be32 total ++ msg)
unfolding with_length
with_length_lem old msg rest total size sum =
    let l = length-be32 total in
    let n = length-append (be32 total) msg in
    let after : drop (length (be32 total)) (old ++ (msg ++ rest)) ≡ msg ++ rest =
      ap (λ k. drop k (old ++ (msg ++ rest))) (l ∙ sym size) ∙ drop-length old (msg ++ rest) in
    let written : blit 0 (be32 total) (old ++ (msg ++ rest)) ≡ some (be32 total ++ msg ++ rest) =
      blit_at 0 [] (be32 total) (old ++ (msg ++ rest)) refl
        (omega (arith, length-append old (msg ++ rest)))
      ∙ rw after (simp append_assoc) in
    let front : take total (be32 total ++ msg ++ rest) ≡ be32 total ++ msg =
      ap (λ k. take k (be32 total ++ msg ++ rest)) (omega arith)
      ∙ take-length (be32 total ++ msg) rest in
    rw (written, front)

module _ (ops : HdfOps) (hdf : ops.Hdf) (text : Bytes)
    (wrote : ops.write_string hdf ≡ some text) where
  -- The payload of a data set on the wire: one variable, and the end mark.
  abbrev pub body : Bytes
  body = image root (sent (some text) max_packet_len) ++ be32 data_type_eof

  pub length-body : length body ≡ 20 + length (sent (some text) max_packet_len)
  length-body = omega (
    arith,
    length-append (image root (sent (some text) max_packet_len)) (be32 data_type_eof),
    length-image root (sent (some text) max_packet_len),
    length-be32 data_type_eof,
  )

  -- A request goes out as one message of the protocol, behind its length: version and id, command,
  -- flags, the name of the module, and the data set, cut where it is longer than a packet.
  -- Conditions: the library writes the data set as the text, and the buffer has room for all of it.
  pub lay_out_lem :
      (id cmd flags : ℕ) (evt : Mevt ops.Hdf)
      → evt.hdfsnd ≡ hdf
      → 16 + length evt.ename + length body ≤ length evt.payload
      → (evt' : Mevt ops.Hdf) × (lay_out ops id cmd flags evt
          ≡ some (
            evt',
            be32 (16 + length evt.ename + length body) ++ message id cmd flags evt.ename body,
          ))
  unfolding lay_out message with_length
  lay_out_lem id cmd flags evt same room =
      let k = length evt.ename in
      let v = sent (some text) max_packet_len in
      let old = take 4 evt.payload in
      let mid = drop 4 evt.payload in
      let front = old ++ (header id cmd flags k ++ evt.ename) in
      let back = drop (12 + k) mid in
      let size : length old ≡ 4 = omega (arith, length-take 4 evt.payload) in
      let m = length-drop 4 evt.payload in
      let head : lay_out_head id cmd flags evt.ename evt.payload ≡ some (front ++ back) =
        ap (lay_out_head id cmd flags evt.ename) (sym (take-append-drop 4 evt.payload))
        ∙ head_blits old id cmd flags evt.ename mid size (omega arith) in
      let named = length-append (header id cmd flags k) evt.ename in
      let long : length front ≡ 16 + k = omega (
        arith,
        length-append old (header id cmd flags k ++ evt.ename),
        named,
        length-header id cmd flags k,
      ) in
      let ahead : advance (16 + k) (front ++ back) ≡ some back =
        advance-append (16 + k) front back (sym long) in
      let cut : take (16 + k) (front ++ back) ≡ front =
        ap (λ n. take n (front ++ back)) (sym long) ∙ take-length front back in
      let room_back : 20 + length v ≤ length back =
        omega (arith, length-drop (12 + k) mid, length-body) in
      let rest = drop (length body) back in
      let packed : pack_hdf ops evt.hdfsnd back max_packet_len
          ≡ some (body ++ rest, 20 + length v) =
        rw same (
          pack_hdf_lem ops hdf text back max_packet_len wrote
            (omega (arith, room_back, length-sent (some text) max_packet_len))) in
      let big : ltb (16 + k + (20 + length v)) 17 ≡ false =
        le→ltb (16 + k + (20 + length v)) 17 (omega arith) in
      let whole = front ++ (body ++ rest) in
      let total = 16 + k + (20 + length v) in
      let msg = header id cmd flags k ++ evt.ename ++ body in
      let sum : total ≡ 4 + length msg = omega (
        arith,
        length-append (header id cmd flags k ++ evt.ename) body,
        named,
        length-header id cmd flags k,
        length-body,
      ) in
      let count : 16 + k + length body ≡ total = omega (arith, length-body) in
      let apart : whole ≡ old ++ (msg ++ rest) = simp append_assoc in
      let out = ap (λ b. with_length b total) apart ∙ with_length_lem old msg rest total size sum in
      rw (head, ahead, packed, cut, big, out, count)
        (
          record evt {
            payload = be32 total ++ msg ++ rest;
            psize = total;
            cmd = cmd;
            flags = flags;
          },
          refl,
        )

-- An id is never 0 and always has 28 bits, as long as `g_reqid` started so.
pub next_reqid_fits :
    (g_reqid : ℕ)
    → g_reqid ≤ 0x0FFFFFFD
    → (0 < next_reqid g_reqid) × (next_reqid g_reqid ≤ 0x0FFFFFFD)
unfolding next_reqid
next_reqid_fits g_reqid h = ground arith
