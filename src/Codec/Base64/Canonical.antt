-- ===== src/Codec/Base64/Canonical.antt =====
-- `base64Encode` after `base64Decode`: only the canonical text of a byte string is accepted.
use brickred_server.Base.{
  ℕ, suc, ◌+◌, ◌-◌, ◌*◌, ◌/◌, ◌%◌, ◌≤◌, ◌≡◌, refl, sym, subst, ◌∙◌, true, Option, none, some, List,
  [], ◌∷◌, ◌++◌, map, length, replicate, arith, All, IsByte, Option-cases, inl, inr,
}
use brickred_server.Base.Bits.{bit_and_three, bit_and_fifteen}
use brickred_server.Codec.{emit}
use brickred_server.Codec.Base64.{encode, encode_char, scan, decode_group, decode, is_empty}
use brickred_server.Codec.Base64.Scan.{IsSextet, Scanned, scan-Scanned}
use brickred_server.Codec.Base64.Sextets.{octet0, octet1, octet2}
use brickred_server.Codec.Base64.Encoding.{encoding, encode-encoding}
use brickred_server.Codec.Base64.RoundTrip.{decode_step}

-- A round that writes had the room.
emit-eq-some :
    (room need : ℕ) (group ys : List ℕ) {xs : List ℕ}
    → emit room need group (some ys) ≡ some xs
    → (group ++ ys ≡ xs) × (need ≤ room)
unfolding emit
emit-eq-some room need group ys e = (ground arith, ground arith)

-- `cs` is the base64 text of `xs`, which are bytes and fit in `room`.
record Encodes (xs cs : List ℕ) (room : ℕ) : Type 0 where
  text : encoding xs ≡ cs
  octets : All IsByte xs
  fits : length xs ≤ room

abbrev Later : List ℕ → Type 0
Later rest = (room : ℕ) (xs : List ℕ) → decode rest room ≡ some xs → Encodes xs rest room

-- A padded quad is the last one.
none_behind :
    (rest : List ℕ) (room : ℕ) (ys : List ℕ)
    → is_empty rest ≡ true
    → decode rest room ≡ some ys
    → (rest ≡ []) × (ys ≡ [])
unfolding decode
none_behind [] room ys h e = (refl, ground arith)
none_behind (c ∷ cs) room ys h e = absurd (cc)

two_sextets :
    (v0 v1 room : ℕ) (xs : List ℕ)
    → IsSextet v0
    → IsSextet v1
    → decode_group (v0 ∷ v1 ∷ []) room (some []) ≡ some xs
    → Encodes xs (encode_char v0 ∷ encode_char v1 ∷ b'=' ∷ b'=' ∷ []) room
unfolding decode_group
two_sextets v0 v1 room xs h0 h1 e =
    let w0 : ℕ = v0 * 4 + v1 / 16 in
    let low : v1 % 16 ≡ 0 = ground (arith, bit_and_fifteen v1) in
    let written : emit room 1 (w0 ∷ []) (some []) ≡ some xs = ground (arith, octet0 v0 v1 h0 h1) in
    let (split, room_for) = emit-eq-some room 1 (w0 ∷ []) [] written in
    let i0 : w0 / 4 ≡ v0 = omega arith in
    let i1 : w0 % 4 * 16 ≡ v1 = omega arith in
    subst (λ zs. Encodes zs (encode_char v0 ∷ encode_char v1 ∷ b'=' ∷ b'=' ∷ []) room) split
      (record { text = rw (i0, i1) refl; octets = (omega arith, tt); fits = omega arith })

three_sextets :
    (v0 v1 v2 room : ℕ) (xs : List ℕ)
    → IsSextet v0
    → IsSextet v1
    → IsSextet v2
    → decode_group (v0 ∷ v1 ∷ v2 ∷ []) room (some []) ≡ some xs
    → Encodes xs (encode_char v0 ∷ encode_char v1 ∷ encode_char v2 ∷ b'=' ∷ []) room
unfolding decode_group
three_sextets v0 v1 v2 room xs h0 h1 h2 e =
    let w0 : ℕ = v0 * 4 + v1 / 16 in
    let w1 : ℕ = v1 % 16 * 16 + v2 / 4 in
    let low : v2 % 4 ≡ 0 = ground (arith, bit_and_three v2) in
    let written : emit room 2 (w0 ∷ w1 ∷ []) (some []) ≡ some xs =
      ground (arith, octet0 v0 v1 h0 h1, octet1 v1 v2 h2) in
    let (split, room_for) = emit-eq-some room 2 (w0 ∷ w1 ∷ []) [] written in
    let i0 : w0 / 4 ≡ v0 = omega arith in
    let i1 : w0 % 4 * 16 + w1 / 16 ≡ v1 = omega arith in
    let i2 : w1 % 16 * 4 ≡ v2 = omega arith in
    subst (λ zs. Encodes zs (encode_char v0 ∷ encode_char v1 ∷ encode_char v2 ∷ b'=' ∷ []) room)
      split
      (record {
        text = rw (i0, i1, i2) refl;
        octets = (omega arith, (omega arith, tt));
        fits = omega arith;
      })

four_sextets :
    (v0 v1 v2 v3 room : ℕ) (rest ys xs : List ℕ)
    → IsSextet v0
    → IsSextet v1
    → IsSextet v2
    → IsSextet v3
    → Encodes ys rest (room - 3)
    → decode_group (v0 ∷ v1 ∷ v2 ∷ v3 ∷ []) room (some ys) ≡ some xs
    → Encodes xs (encode_char v0 ∷ encode_char v1 ∷ encode_char v2 ∷ encode_char v3 ∷ rest) room
unfolding decode_group
four_sextets v0 v1 v2 v3 room rest ys xs h0 h1 h2 h3 later e =
    let w0 : ℕ = v0 * 4 + v1 / 16 in
    let w1 : ℕ = v1 % 16 * 16 + v2 / 4 in
    let w2 : ℕ = v2 % 4 * 64 + v3 in
    let written : emit room 3 (w0 ∷ w1 ∷ w2 ∷ []) (some ys) ≡ some xs =
      ground (arith, octet0 v0 v1 h0 h1, octet1 v1 v2 h2, octet2 v2 v3 h3) in
    let (split, room_for) = emit-eq-some room 3 (w0 ∷ w1 ∷ w2 ∷ []) ys written in
    let i0 : w0 / 4 ≡ v0 = omega arith in
    let i1 : w0 % 4 * 16 + w1 / 16 ≡ v1 = omega arith in
    let i2 : w1 % 16 * 4 + w2 / 64 ≡ v2 = omega arith in
    let i3 : w2 % 64 ≡ v3 = omega arith in
    subst
      (λ zs.
        Encodes zs (encode_char v0 ∷ encode_char v1 ∷ encode_char v2 ∷ encode_char v3 ∷ rest) room)
      split
      (record {
        text = rw (i0, i1, i2, i3, later.text) refl;
        octets = (omega arith, (omega arith, (omega arith, later.octets)));
        fits = omega (arith, later.fits);
      })

-- The later rounds of a quad that was written succeeded.
later_rounds :
    (vs : List ℕ) (room : ℕ) (more : Option (List ℕ)) (xs : List ℕ)
    → decode_group vs room more ≡ some xs
    → (ys : List ℕ) × (more ≡ some ys)
unfolding decode_group
later_rounds [] room none xs e = absurd (cc)
later_rounds (v0 ∷ []) room none xs e = absurd (cc)
later_rounds (v0 ∷ v1 ∷ []) room none xs e = absurd (ground arith)
later_rounds (v0 ∷ v1 ∷ v2 ∷ []) room none xs e = absurd (ground arith)
later_rounds (v0 ∷ v1 ∷ v2 ∷ v3 ∷ []) room none xs e = absurd (ground arith)
later_rounds (v0 ∷ v1 ∷ v2 ∷ v3 ∷ v4 ∷ vs) room none xs e = absurd (cc)
later_rounds vs room (some ys) xs e = (ys, refl)

decode_refused :
    (c0 c1 c2 c3 : ℕ) (rest : List ℕ) (room : ℕ)
    → scan (c0 ∷ c1 ∷ c2 ∷ c3 ∷ []) (is_empty rest) ≡ none
    → decode (c0 ∷ c1 ∷ c2 ∷ c3 ∷ rest) room ≡ none
unfolding decode
decode_refused c0 c1 c2 c3 rest room e = rw e refl

module _ (c0 c1 c2 c3 : ℕ) (rest : List ℕ) (room : ℕ) (xs : List ℕ) (ih : Later rest) where
  abbrev quad : List ℕ
  quad = c0 ∷ c1 ∷ c2 ∷ c3 ∷ []

  abbrev text_of : List ℕ → ℕ → List ℕ
  text_of vs pads = map encode_char vs ++ replicate pads b'='

  padded :
      (vs : List ℕ) (pads : ℕ) (s : Scanned quad (is_empty rest) vs)
      → s.pads ≡ suc pads
      → decode_group vs room (decode rest (room - (length vs - 1))) ≡ some xs
      → (rest ≡ []) × (decode_group vs room (some []) ≡ some xs) × (quad ≡ text_of vs (suc pads))
  padded vs pads s n e =
      let (ys, more) = later_rounds vs room _ xs e in
      let (nothing, none_written) =
        none_behind rest _ ys (s.at_end (λ z. absurd (omega arith))) more in
      (
        nothing,
        subst (λ zs. decode_group vs room (some zs) ≡ some xs) none_written
            (subst (λ m. decode_group vs room m ≡ some xs) more e),
        subst (λ k. quad ≡ text_of vs k) n s.text,
      )

  quad_cases :
      (vs : List ℕ)
      → Scanned quad (is_empty rest) vs
      → decode_group vs room (decode rest (room - (length vs - 1))) ≡ some xs
      → Encodes xs (quad ++ rest) room
  quad_cases [] s e = absurd (unfold decode_group in cc)
  quad_cases (v0 ∷ []) s e = absurd (unfold decode_group in cc)
  quad_cases (v0 ∷ v1 ∷ []) s e =
      let (nothing, written, text) = padded (v0 ∷ v1 ∷ []) 1 s (omega (arith, s.sum)) e in
      rw (nothing, text) (two_sextets v0 v1 room xs s.sextets.0 s.sextets.1.0 written)
  quad_cases (v0 ∷ v1 ∷ v2 ∷ []) s e =
      let (nothing, written, text) = padded (v0 ∷ v1 ∷ v2 ∷ []) 0 s (omega (arith, s.sum)) e in
      rw (nothing, text)
        (three_sextets v0 v1 v2 room xs s.sextets.0 s.sextets.1.0 s.sextets.1.1.0 written)
  quad_cases (v0 ∷ v1 ∷ v2 ∷ v3 ∷ []) s e =
      let vs : List ℕ = v0 ∷ v1 ∷ v2 ∷ v3 ∷ [] in
      let (ys, more) = later_rounds vs room _ xs e in
      let none_padded : s.pads ≡ 0 = omega (arith, s.sum) in
      let text : quad ≡ text_of vs 0 = subst (λ k. quad ≡ text_of vs k) none_padded s.text in
      subst (λ q. Encodes xs (q ++ rest) room) (sym text)
        (four_sextets v0 v1 v2 v3 room rest ys xs s.sextets.0 s.sextets.1.0 s.sextets.1.1.0
          s.sextets.1.1.1.0 (ih (room - 3) ys more)
          (subst (λ m. decode_group vs room m ≡ some xs) more e))
  quad_cases (v0 ∷ v1 ∷ v2 ∷ v3 ∷ v4 ∷ vs) s e = absurd (omega (arith, s.sum))

decode-Encodes : (cs : List ℕ) → Later cs
decode-Encodes [] room xs e =
    let nothing : [] ≡ xs = unfold decode in ground arith in
    subst (λ zs. Encodes zs [] room) nothing
      (record { text = refl; octets = tt; fits = omega arith })
decode-Encodes (c0 ∷ []) room xs e = absurd (unfold decode in cc)
decode-Encodes (c0 ∷ c1 ∷ []) room xs e = absurd (unfold decode in cc)
decode-Encodes (c0 ∷ c1 ∷ c2 ∷ []) room xs e = absurd (unfold decode in cc)
decode-Encodes (c0 ∷ c1 ∷ c2 ∷ c3 ∷ rest) room xs e =
    elim (Option-cases (scan (c0 ∷ c1 ∷ c2 ∷ c3 ∷ []) (is_empty rest))) [
      | inl bad ↦ absurd (cc (e, decode_refused c0 c1 c2 c3 rest room bad))
      | inr (vs, read) ↦
          quad_cases c0 c1 c2 c3 rest room xs (decode-Encodes rest) vs
            (scan-Scanned _ (is_empty rest) vs read)
            (sym (decode_step c0 c1 c2 c3 rest room vs read) ∙ e)
    ]

-- Whatever `base64Decode` accepts is the text that `base64Encode` writes for its result: the
-- result is a string of bytes that fits the output, and encoding it gives the input back.
pub encode-decode :
    (cs xs : List ℕ) (room : ℕ)
    → decode cs room ≡ some xs
    → (encode xs (length cs) ≡ some cs) × All IsByte xs × (length xs ≤ room)
encode-decode cs xs room e =
    let d = decode-Encodes cs room xs e in
    (encode-encoding xs (length cs) d.octets ∙ rw d.text (ground arith), d.octets, d.fits)
