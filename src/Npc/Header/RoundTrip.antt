-- ===== src/Npc/Header/RoundTrip.antt =====
-- A header that is written is read back, and the other way round.
use gomcpack.Prelude.{
  ℕ, ◌+◌, ◌*◌, ◌^◌, ◌≤◌, ◌<◌, ◌≡◌, refl, ap, sym, ◌∙◌, none, some, [], ◌∷◌, ◌++◌, append_assoc,
  arith, length, length-append, take, drop, drop-append, take-append, split_at, leb, lt→ltb, leb→le,
  leb→gt, if◌then◌else◌, Bool-cases, inl, inr, subst,
}
use gomcpack.Go.{done, incomplete_header, short_header_buffer}
use gomcpack.Go.Slice.{Bytes}
use gomcpack.Mcpack.Number.RoundTrip.{le32, le32-of_bytes}
use gomcpack.Npc.Header.{Header, unmarshal, marshal}
use gomcpack.Npc.Header.Layout.{le16, header_bytes, IsHeader, marshal-bytes, unmarshal-bytes}

pub length-header_bytes : (h : Header) → length h.provider ≡ 16 → length (header_bytes h) ≡ 36
length-header_bytes h p =
    omega (
      arith,
      p,
      length-append h.provider (le32 h.magic_num ++ (le32 h.reserved ++ le32 h.body_len)),
    )

drop-header : (h : Header) (r : Bytes) → length h.provider ≡ 16 → drop 36 (header_bytes h ++ r) ≡ r
drop-header h r p =
    ap (λ (n : ℕ). drop n (header_bytes h ++ r)) (sym (length-header_bytes h p))
    ∙ drop-append (header_bytes h) r

-- What `Marshal` writes into a slice of at least 36 bytes, `Unmarshal` reads back into any header,
-- and the bytes behind the first 36 stay as they are. On a shorter slice both return their errors
-- and change nothing.
pub header-marshal :
    (h old : Header) (b : Bytes)
    → IsHeader h
    → length old.provider ≡ 16
    → if leb 36 (length b)
      then ((b' : Bytes) × (marshal h b ≡ done (none, b'))
          × (unmarshal old b' ≡ done (none, h))
          × (drop 36 b' ≡ drop 36 b))
      else (marshal h b ≡ done (some short_header_buffer, b))
        × (unmarshal old b ≡ done (some incomplete_header, old))
unfolding marshal unmarshal
header-marshal h old b w p = elim (Bool-cases (leb 36 (length b))) [
  | inl e ↦ rw e (
    header_bytes h ++ drop 36 b,
    marshal-bytes h b w.provider_length (leb→le 36 (length b) e),
    unmarshal-bytes old h (drop 36 b) p w,
    drop-header h (drop 36 b) w.provider_length,
  )
  | inr e ↦ rw (e, lt→ltb (length b) 36 (leb→gt 36 (length b) e)) (refl, refl)
]

-- Numbers that are bytes.
abbrev pub AreBytes : Bytes → Type 0
AreBytes [] = Unit
AreBytes (x ∷ xs) = (x < 256) × AreBytes xs

pub AreBytes-append : (xs ys : Bytes) → AreBytes (xs ++ ys) → AreBytes xs × AreBytes ys
AreBytes-append [] ys h = (tt, h)
AreBytes-append (x ∷ xs) ys h = let (hx, hy) = AreBytes-append xs ys h.1 in ((h.0, hx), hy)

two_bytes : (g : Bytes) → length g ≡ 2 → AreBytes g → (v : ℕ) × (v < 2 ^ 16) × (g ≡ le16 v)
two_bytes (a ∷ b ∷ []) e (ha, (hb, u)) = (a + b * 256, omega arith, ground arith)
two_bytes [] e h = absurd (omega arith)
two_bytes (a ∷ []) e h = absurd (omega arith)
two_bytes (a ∷ b ∷ c ∷ g) e h = absurd (omega arith)

four_bytes : (g : Bytes) → length g ≡ 4 → AreBytes g → (v : ℕ) × (v < 2 ^ 32) × (g ≡ le32 v)
four_bytes (a ∷ b ∷ c ∷ d ∷ []) e (ha, (hb, (hc, (hd, u)))) = (
  a + b * 256 + c * 65536 + d * 16777216,
  omega arith,
  sym (le32-of_bytes a b c d [] ha hb hc hd),
)
four_bytes [] e h = absurd (omega arith)
four_bytes (a ∷ []) e h = absurd (omega arith)
four_bytes (a ∷ b ∷ []) e h = absurd (omega arith)
four_bytes (a ∷ b ∷ c ∷ []) e h = absurd (omega arith)
four_bytes (a ∷ b ∷ c ∷ d ∷ x ∷ g) e h = absurd (omega arith)

-- The next `n` bytes, and what is behind them, which has at least `m` bytes.
abbrev Cut : ℕ → ℕ → Bytes → Type 0
Cut n m b =
    (g : Bytes) × (r : Bytes) × (b ≡ g ++ r)
    × (length g ≡ n)
    × (m ≤ length r)
    × AreBytes g
    × AreBytes r

cut : (n m : ℕ) (b : Bytes) → n + m ≤ length b → AreBytes b → Cut n m b
cut n m b long h =
    let (g, r, e, l) = split_at n b (omega arith) in
    let (hg, hr) = AreBytes-append g r (subst AreBytes e h) in
    (g, r, e, l, omega (arith, ap length e, length-append g r), hg, hr)

-- The seven pieces put together again.
joined_pieces :
    (b g1 r1 g2 r2 g3 r3 g4 r4 g5 r5 g6 r6 g7 r7 : Bytes)
    → b ≡ g1 ++ r1
    → r1 ≡ g2 ++ r2
    → r2 ≡ g3 ++ r3
    → r3 ≡ g4 ++ r4
    → r4 ≡ g5 ++ r5
    → r5 ≡ g6 ++ r6
    → r6 ≡ g7 ++ r7
    → b ≡ g1 ++ (g2 ++ (g3 ++ (g4 ++ (g5 ++ (g6 ++ (g7 ++ r7))))))
joined_pieces b g1 r1 g2 r2 g3 r3 g4 r4 g5 r5 g6 r6 g7 r7 e1 e2 e3 e4 e5 e6 e7 = cc

pieces-header :
    (h : Header) (g1 g2 g3 g5 g6 g7 r : Bytes)
    → g1 ≡ le16 h.id
    → g2 ≡ le16 h.version
    → g3 ≡ le32 h.log_id
    → g5 ≡ le32 h.magic_num
    → g6 ≡ le32 h.reserved
    → g7 ≡ le32 h.body_len
    → g1 ++ (g2 ++ (g3 ++ (h.provider ++ (g5 ++ (g6 ++ (g7 ++ r)))))) ≡ header_bytes h ++ r
pieces-header h g1 g2 g3 g5 g6 g7 r e1 e2 e3 e5 e6 e7 =
    rw (e1, e2, e3, e5, e6, e7)
      (ap (λ (t : Bytes). le16 h.id ++ (le16 h.version ++ (le32 h.log_id ++ t)))
        (sym
          (append_assoc h.provider (le32 h.magic_num ++ (le32 h.reserved ++ le32 h.body_len)) r)))

-- Every 36 bytes are a header.
pub header_of_bytes :
    (b : Bytes)
    → 36 ≤ length b
    → AreBytes b
    → (h : Header) × (r : Bytes) × IsHeader h × (b ≡ header_bytes h ++ r)
header_of_bytes b long bytes =
    let (g1, r1, e1, l1, m1, b1, c1) = cut 2 34 b long bytes in
    let (g2, r2, e2, l2, m2, b2, c2) = cut 2 32 r1 m1 c1 in
    let (g3, r3, e3, l3, m3, b3, c3) = cut 4 28 r2 m2 c2 in
    let (g4, r4, e4, l4, m4, b4, c4) = cut 16 12 r3 m3 c3 in
    let (g5, r5, e5, l5, m5, b5, c5) = cut 4 8 r4 m4 c4 in
    let (g6, r6, e6, l6, m6, b6, c6) = cut 4 4 r5 m5 c5 in
    let (g7, r7, e7, l7, m7, b7, c7) = cut 4 0 r6 m6 c6 in
    let (id, hid, eid) = two_bytes g1 l1 b1 in
    let (version, hversion, eversion) = two_bytes g2 l2 b2 in
    let (log_id, hlog_id, elog_id) = four_bytes g3 l3 b3 in
    let (magic_num, hmagic, emagic) = four_bytes g5 l5 b5 in
    let (reserved, hreserved, ereserved) = four_bytes g6 l6 b6 in
    let (body_len, hbody, ebody) = four_bytes g7 l7 b7 in
    let h : Header = record {
      id = id;
      version = version;
      log_id = log_id;
      provider = g4;
      magic_num = magic_num;
      reserved = reserved;
      body_len = body_len;
    } in
    (
      h,
      r7,
      record {
        id_bound = hid;
        version_bound = hversion;
        log_id_bound = hlog_id;
        provider_length = l4;
        magic_num_bound = hmagic;
        reserved_bound = hreserved;
        body_len_bound = hbody;
      },
      joined_pieces b g1 r1 g2 r2 g3 r3 g4 r4 g5 r5 g6 r6 g7 r7 e1 e2 e3 e4 e5 e6 e7
          ∙ pieces-header h g1 g2 g3 g5 g6 g7 r7 eid eversion elog_id emagic ereserved ebody,
    )

-- Whatever 36 bytes `Unmarshal` reads, it returns a header with fields of their widths, and
-- `Marshal` of that header writes the same 36 bytes into any slice with room for them.
pub header-unmarshal :
    (old : Header) (b b2 : Bytes)
    → length old.provider ≡ 16
    → 36 ≤ length b
    → AreBytes b
    → 36 ≤ length b2
    → (h : Header) × IsHeader h
      × (unmarshal old b ≡ done (none, h))
      × (marshal h b2 ≡ done (none, take 36 b ++ drop 36 b2))
header-unmarshal old b b2 p long bytes room =
    let (h, r, w, e) = header_of_bytes b long bytes in
    let front : take 36 b ≡ header_bytes h =
      ap (λ (t : Bytes). take 36 t) e
      ∙ ap (λ (n : ℕ). take n (header_bytes h ++ r)) (sym (length-header_bytes h w.provider_length))
      ∙ take-append (header_bytes h) r in
    (
      h,
      w,
      ap (unmarshal old) e ∙ unmarshal-bytes old h r p w,
      marshal-bytes h b2 w.provider_length room
          ∙ ap (λ (t : Bytes). done (none, t ++ drop 36 b2)) (sym front),
    )
