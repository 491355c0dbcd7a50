-- ===== src/Plugin/Chat/Told.antt =====
-- Who is told, in the loops over the users of plugin/moc_chat.c.
use moc.Shared.{
  ℕ, ◌+◌, ◌≡◌, refl, sym, ap, ◌∙◌, Bool, true, false, Bool-cases, ◌⊎◌, inl, inr, none, some, List,
  [], ◌∷◌, ◌++◌, arith, if◌then◌else◌, length, Bytes,
}
use moc.Shared.Tables.{HashOps, assoc, Distinct}
use moc.Plugin.Base.{Ptr, BaseUser, Origin, BaseInfo}
use moc.Plugin.Base.Users.{Joined, IsBase}
use moc.Plugin.Chat.{
  Sent, done, tell, tell_all, ChatOps, get_uid, get_param, announce, cmd_bcst, msg_key, userid_key,
  pre_output, bcst_cmd,
}
use moc.Plugin.Message.{made, base_msg_new}
use moc.Server.Hash.{same_key, same_key-≡, same_key_refl}

-- `x` is in the list.
abbrev pub In : ℕ × Bytes → Sent → Type 0
In x [] = ⊥
In x (y ∷ ys) = (x ≡ y) ⊎ In x ys

same_key_sym : (a b : Bytes) → same_key a b ≡ false → same_key b a ≡ false
same_key_sym a b h = elim (Bool-cases (same_key b a)) [
  | inl hit ↦
      let s : same_key a b ≡ true =
        ap (λ (c : Bytes). same_key c b) (sym (same_key-≡ b a hit)) ∙ same_key_refl b in
      absurd (ground arith)
  | inr miss ↦ miss
]

module _ (table : HashOps same_key Ptr) where
  open table use {lookup, entries, lookup-entries, entries-Distinct}

  -- One for a name that is in the list of entries.
  abbrev pub present : List (Bytes × Ptr) → Bytes → ℕ
  present kvs uid = elim (assoc same_key kvs uid) [ none ↦ 0 | some p ↦ 1 ]

  module _ (b : BaseInfo table) (uid msg : Bytes) where
    -- Every entry is that of a user who has joined.
    abbrev Known : List (Bytes × Ptr) → Type 0
    Known [] = Unit {0}
    Known ((k, p) ∷ kvs) = (lookup b.userh k ≡ some p) × Known kvs

    -- The message has gone to this user.
    pub record Reached (x : ℕ × Bytes) : Type 0 where
      pub name : Bytes
      pub ptr : Ptr
      pub known : lookup b.userh name ≡ some ptr
      pub other : same_key uid name ≡ false
      pub user : Joined table b name ptr
      pub is : x ≡ (user.user.fd, msg)

    pub record Told (kvs : List (Bytes × Ptr)) (sent : Sent) : Type 0 where
      pub reaches :
          (j : Bytes) (p : Ptr)
          → assoc same_key kvs j ≡ some p
          → same_key uid j ≡ false
          → (u : Joined table b j p) → In (u.user.fd, msg) sent
      pub only : (x : ℕ × Bytes) → In x sent → Reached x
      pub counts : length sent + present kvs uid ≡ length kvs

    tell_cons :
        (k : Bytes) (p : Ptr) (kvs : List (Bytes × Ptr)) (sent : Sent)
        → (u : Joined table b k p) → tell table b uid msg kvs ≡ some sent
        → tell table b uid msg ((k, p) ∷ kvs)
          ≡ some (if same_key uid k then sent else (u.user.fd, msg) ∷ sent)
    unfolding tell
    tell_cons k p kvs sent u rest =
        rw (u.at, rest)
          (ap (λ (n : Bytes). some (if same_key uid n then sent else (u.user.fd, msg) ∷ sent))
            u.named)

    same_fd : (j : Bytes) (p : Ptr) (u v : Joined table b j p) → u.user.fd ≡ v.user.fd
    same_fd j p u v = let one : u.user ≡ v.user = cc in ap (λ (w : BaseUser). w.fd) one

    Told-skip :
        (k : Bytes) (p : Ptr) (kvs : List (Bytes × Ptr)) (sent : Sent)
        → same_key uid k ≡ true
        → assoc same_key kvs k ≡ none
        → Told kvs sent
        → Told ((k, p) ∷ kvs) sent
    Told-skip k p kvs sent hit out t =
        let e : uid ≡ k = same_key-≡ uid k hit in
        let gone : assoc same_key kvs uid ≡ none = ap (assoc same_key kvs) e ∙ out in
        let here : same_key k uid ≡ true = ap (same_key k) e ∙ same_key_refl k in
        record {
          reaches = λ j q at other u.
              let apart : same_key k j ≡ false = ap (λ (n : Bytes). same_key n j) (sym e) ∙ other in
              t.reaches j q (ground arith) other u;
          only = t.only;
          counts = ground (arith, t.counts);
        }

    Told-cons :
        (k : Bytes) (p : Ptr) (kvs : List (Bytes × Ptr)) (sent : Sent)
        → same_key uid k ≡ false
        → lookup b.userh k ≡ some p
        → (v : Joined table b k p) → Told kvs sent
        → Told ((k, p) ∷ kvs) ((v.user.fd, msg) ∷ sent)
    Told-cons k p kvs sent miss known v t = record {
      reaches = λ j q at other u. elim (Bool-cases (same_key k j)) [
        | inl hit ↦
            let one : p ≡ q = ground arith in
            let e : k ≡ j = same_key-≡ k j hit in
            inl (ap (λ (f : ℕ). (f, msg)) (head_fd k j p q e one v u))
        | inr apart ↦ inr (t.reaches j q (ground arith) other u)
      ];
      only = λ x at. elim at [
        | inl e ↦ record { name = k; ptr = p; known = known; other = miss; user = v; is = e }
        | inr rest ↦ t.only x rest
      ];
      counts = ground (arith, t.counts, same_key_sym uid k miss);
    }
      where
        head_fd :
            (k j : Bytes) (p q : Ptr)
            → k ≡ j
            → p ≡ q
            → (v : Joined table b k p) → (u : Joined table b j q) → u.user.fd ≡ v.user.fd
        head_fd k j p q e one v u =
            let same : u.user ≡ v.user = cc in ap (λ (w : BaseUser). w.fd) same

    tell_lem :
        (kvs : List (Bytes × Ptr))
        → IsBase table b
        → Distinct same_key kvs
        → Known kvs
        → (sent : Sent) × (tell table b uid msg kvs ≡ some sent) × Told kvs sent
    unfolding tell
    tell_lem [] is d known = (
      [],
      refl,
      record { reaches = λ j p at. absurd (ground arith); only = λ x at. absurd at; counts = refl },
    )
    tell_lem ((k, p) ∷ kvs) is d known =
        let (sent, run, t) = tell_lem kvs is d.1 known.1 in
        let v = is.joined k p known.0 in
        let step = tell_cons k p kvs sent v run in
        elim (Bool-cases (same_key uid k)) [
          | inl hit ↦ (sent, step ∙ rw hit refl, Told-skip k p kvs sent hit d.0 t)
          | inr miss ↦ (
            (v.user.fd, msg) ∷ sent,
            step ∙ rw miss refl,
            Told-cons k p kvs sent miss known.0 v t,
          )
        ]

    entries-Known :
        (kvs : List (Bytes × Ptr))
        → Distinct same_key kvs
        → ((k : Bytes) (p : Ptr) → assoc same_key kvs k ≡ some p → lookup b.userh k ≡ some p)
        → Known kvs
    entries-Known [] d all = tt
    entries-Known ((k, p) ∷ kvs) d all = (
      all k p (ground (arith, same_key_refl k)),
      entries-Known kvs d.1 (λ j q at. all j q (behind j q at (Bool-cases (same_key k j)))),
    )
      where
        behind :
            (j : Bytes) (q : Ptr)
            → assoc same_key kvs j ≡ some q
            → (same_key k j ≡ true) ⊎ (same_key k j ≡ false)
            → assoc same_key ((k, p) ∷ kvs) j ≡ some q
        behind j q at (inl hit) =
            let gone : assoc same_key kvs j ≡ none =
              ap (assoc same_key kvs) (sym (same_key-≡ k j hit)) ∙ d.0 in
            absurd (ground arith)
        behind j q at (inr miss) = ground arith

    -- The loop over the users reaches every user that has joined but `uid`, and no one else.
    tell_all_lem :
        IsBase table b
        → (sent : Sent) × (tell_all table b uid msg ≡ some sent) × Told (entries b.userh) sent
    unfolding tell_all
    tell_all_lem is =
        let d = entries-Distinct b.userh in
        tell_lem (entries b.userh) is d
          (entries-Known (entries b.userh) d (λ k p at. lookup-entries b.userh k ∙ at))

  module _ (ops : ChatOps) where
    open ops use {push, get_value, get_obj}
    open push use {hdf, set_value}

    -- The data set that `cmd_bcst` makes its message of.
    abbrev pub bcst_node : hdf.Hdf → Bytes → Bytes → hdf.Hdf
    bcst_node hdfrcv uid msg =
        set_value (set_value hdfrcv (pre_output ++ b'.' ∷ userid_key) uid)
          (pre_output ++ b'.' ∷ msg_key) msg

    get_uid_lem :
        (b : BaseInfo table) (q : Origin) (uid : Bytes) (p : Ptr)
        → (u : Joined table b uid p) → u.user.tcpsock ≡ q.tcpsock
        → get_uid table b q ≡ some (some uid)
    unfolding get_uid
    get_uid_lem b q uid p u same =
        let there : b.socks q.tcpsock ≡ some u.sock = ap b.socks (sym same) ∙ u.over in
        rw (get_uid, there, u.owner, u.at) (ap (λ (n : Bytes). some (some n)) u.named)

    announce_run :
        (memory : Bool) (cmd uid : Bytes) (hdfrcv node : hdf.Hdf) (buf : Bytes) (sent : Sent)
        (b : BaseInfo table)
        → get_obj hdfrcv pre_output ≡ some node
        → base_msg_new push memory cmd node ≡ some (made buf)
        → tell_all table b uid buf ≡ some sent
        → announce table ops memory cmd uid hdfrcv b ≡ some (done, sent)
    unfolding announce
    announce_run memory cmd uid hdfrcv node buf sent b e3 e4 e5 = ground arith

    cmd_bcst_run :
        (b : BaseInfo table) (memory : Bool) (q : Origin) (hdfrcv node : hdf.Hdf)
        (uid msg buf : Bytes) (sent : Sent)
        → get_uid table b q ≡ some (some uid)
        → get_param (get_value hdfrcv msg_key) ≡ some msg
        → get_obj (bcst_node hdfrcv uid msg) pre_output ≡ some node
        → base_msg_new push memory bcst_cmd node ≡ some (made buf)
        → tell_all table b uid buf ≡ some sent
        → cmd_bcst table ops memory q hdfrcv b ≡ some (done, sent)
    unfolding cmd_bcst
    cmd_bcst_run b memory q hdfrcv node uid msg buf sent e1 e2 e3 e4 e5 =
        let said =
          announce_run memory bcst_cmd uid (bcst_node hdfrcv uid msg) node buf sent b e3 e4 e5 in
        ground arith

    -- What a user says to all, over the connection that it joined by, is sent once to every other user
    -- that has joined, and to no one else.
    -- Conditions: users, connections and the count fit together; the request comes over the connection
    -- of the user and has a message; the message can be made.
    pub cmd_bcst_lem :
        (b : BaseInfo table) (memory : Bool) (q : Origin) (hdfrcv node : hdf.Hdf)
        (uid msg buf : Bytes) (p : Ptr)
        → IsBase table b
        → lookup b.userh uid ≡ some p
        → (u : Joined table b uid p) → u.user.tcpsock ≡ q.tcpsock
        → get_param (get_value hdfrcv msg_key) ≡ some msg
        → get_obj (bcst_node hdfrcv uid msg) pre_output ≡ some node
        → base_msg_new push memory bcst_cmd node ≡ some (made buf)
        → (sent : Sent) × (cmd_bcst table ops memory q hdfrcv b ≡ some (done, sent))
          × ((j : Bytes) (r : Ptr)
              → lookup b.userh j ≡ some r
              → same_key uid j ≡ false
              → (v : Joined table b j r) → In (v.user.fd, buf) sent)
          × ((x : ℕ × Bytes) → In x sent → Reached b uid buf x)
          × (length sent + 1 ≡ b.usernum)
    cmd_bcst_lem b memory q hdfrcv node uid msg buf p is known u same has obj new =
        let (sent, run, t) = tell_all_lem b uid buf is in
        let one : assoc same_key (entries b.userh) uid ≡ some p =
          sym (lookup-entries b.userh uid) ∙ known in
        (
          sent,
          cmd_bcst_run b memory q hdfrcv node uid msg buf sent (get_uid_lem b q uid p u same) has
              obj new run,
          λ j r at other v. t.reaches j r (sym (lookup-entries b.userh j) ∙ at) other v,
          t.only,
          ground (arith, t.counts, is.counted),
        )
