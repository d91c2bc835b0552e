-- ===== src/Codec/Base64/Scan.antt =====
-- What the inner loop of `base64Decode` accepts.
use brickred_server.Base.{
  ℕ, suc, ◌+◌, ◌<◌, ◌≡◌, ◌≢◌, refl, sym, subst, ap₂, Bool, true, false, some, List, [], ◌∷◌, ◌++◌,
  map, length, replicate, ◌==◌, ◌>>=◌, arith, All, Bool-cases, Option-cases, inl, inr,
}
use brickred_server.Codec.Base64.{encode_char, decode_char, all_pad, scan}
use brickred_server.Codec.Base64.Sextets.{encode_char-decode_char}

abbrev pub IsSextet : ℕ → Type 0
IsSextet v = v < 64

all_pad-replicate : (cs : List ℕ) → all_pad cs ≡ true → cs ≡ replicate (length cs) b'='
unfolding all_pad
all_pad-replicate [] h = refl
all_pad-replicate (c ∷ cs) h = ap₂ ◌∷◌ (ground arith) (all_pad-replicate cs (ground arith))

-- What the inner loop accepts: the characters of the sextets, then padding at the very end.
pub record Scanned (cs : List ℕ) (last : Bool) (vs : List ℕ) : Type 0 where
  pub pads : ℕ
  pub text : cs ≡ map encode_char vs ++ replicate pads b'='
  pub sextets : All IsSextet vs
  pub sum : length vs + pads ≡ length cs
  pub at_end : pads ≢ 0 → last ≡ true

scan_pad :
    (c : ℕ) (cs : List ℕ) (last : Bool) (vs : List ℕ)
    → (c == b'=') ≡ true
    → scan (c ∷ cs) last ≡ some vs
    → Scanned (c ∷ cs) last vs
unfolding scan
scan_pad c cs last [] h e = record {
  pads = suc (length cs);
  text = ap₂ ◌∷◌ (ground arith) (all_pad-replicate cs (ground arith));
  sextets = tt;
  sum = omega arith;
  at_end = λ _. ground arith;
}
scan_pad c cs last (v ∷ vs) h e = absurd (ground arith)

scan_other :
    (c : ℕ) (cs : List ℕ) (last : Bool)
    → (c == b'=') ≡ false
    → scan (c ∷ cs) last ≡ (decode_char c >>= λ v. scan cs last >>= λ vs. some (v ∷ vs))
unfolding scan
scan_other c cs last h = rw h refl

-- A sextet in front.
Scanned-cons :
    (c : ℕ) (cs : List ℕ) (last : Bool) (v : ℕ) (ws vs : List ℕ)
    → decode_char c ≡ some v
    → Scanned cs last ws
    → v ∷ ws ≡ vs
    → Scanned (c ∷ cs) last vs
Scanned-cons c cs last v ws vs e s f =
    let (small, same) = encode_char-decode_char c v e in
    subst (Scanned (c ∷ cs) last) f (record {
      pads = s.pads;
      text = ap₂ ◌∷◌ (sym same) s.text;
      sextets = (small, s.sextets);
      sum = omega (arith, s.sum);
      at_end = s.at_end;
    })

pub scan-Scanned :
    (cs : List ℕ) (last : Bool) (vs : List ℕ) → scan cs last ≡ some vs → Scanned cs last vs
scan-Scanned [] last vs e =
    let none_read : [] ≡ vs = unfold scan in ground arith in
    subst (Scanned [] last) none_read (record {
      pads = 0;
      text = refl;
      sextets = tt;
      sum = omega arith;
      at_end = λ h. absurd (h refl);
    })
scan-Scanned (c ∷ cs) last vs e = elim (Bool-cases (c == b'=')) [
  | inl pad ↦ scan_pad c cs last vs pad e
  | inr other ↦ elim (Option-cases (decode_char c)) [
    | inl bad ↦ absurd (cc (bad, scan_other c cs last other))
    | inr (v, good) ↦ elim (Option-cases (scan cs last)) [
      | inl bad ↦ absurd (ground (arith, scan_other c cs last other))
      | inr (ws, rest) ↦
          Scanned-cons c cs last v ws vs good (scan-Scanned cs last ws rest)
            (ground (arith, scan_other c cs last other))
    ]
  ]
]
