-- ===== src/Digest/Update.antt =====
-- `update` goes on with the message that a context has taken in: src/brickred/codec.
use brickred_server.Base.{
  ℕ, ◌+◌, ◌-◌, ◌%◌, ◌^◌, ◌<◌, min, ◌≡◌, refl, sym, ap, subst, ◌∙◌, bit_and, Bool-cases, inl, inr,
  List, [], ◌∷◌, ◌++◌, length, take, drop, overlay, ltb, arith, length-append, length-take,
  take_all, append_assoc, append-nil, take-append-drop,
}
use brickred_server.Base.Bits.{bit_and_63}
use brickred_server.Digest.{ProcessBlock, Context, absorb, update}
use brickred_server.Digest.Blocks.{run_blocks}
use brickred_server.Digest.Streaming.{
  Absorbed, Represents, short-Absorbed, full-Absorbed, absorb-Absorbed, counted_next,
}

module _ (process_block : ProcessBlock) where
  update-size :
      (c : Context) (xs : List ℕ)
      → (update process_block c xs).message_size ≡ (c.message_size + length xs) % 2 ^ 64
  unfolding update
  update-size c xs = elim (Bool-cases (ltb 0 (bit_and c.message_size 63))) [
    | inl some_in ↦ elim (Bool-cases (ltb (length xs) (64 - bit_and c.message_size 63))) [
      | inl few ↦ rw (some_in, few) refl
      | inr many ↦ rw (some_in, many) refl
    ]
    | inr none_in ↦ rw none_in refl
  ]

  -- The absorbed bytes do not depend on the counter.
  recount :
      {h : List ℕ} {m : List ℕ} (c : Context) (n : ℕ)
      → Absorbed process_block h c m
      → Absorbed process_block h (record c { message_size = n }) m
  recount c n a = record { hashed = a.hashed; partial = a.partial; room = a.room }

  offset :
      {h : List ℕ} (c : Context) (m : List ℕ)
      → Represents process_block h c m
      → bit_and c.message_size 63 ≡ length m % 64
  offset c m r = omega (arith, bit_and_63 c.message_size, r.counted)

  through_boundary :
      {h : List ℕ} (c : Context) (m xs : List ℕ) (n left : ℕ)
      → Absorbed process_block h c m
      → n ≡ length m % 64
      → 0 < n
      → n + length (take left xs) ≡ 64
      → Absorbed process_block h
          (absorb process_block
            (record c {
              hash = process_block c.hash (overlay c.work_block n (take left xs));
              work_block = overlay c.work_block n (take left xs);
            })
            (drop left xs))
          (m ++ xs)
  through_boundary {h} c m xs n left a at some_in full =
      let filled : List ℕ = overlay c.work_block n (take left xs) in
      let next : Context = record c { hash = process_block c.hash filled; work_block = filled } in
      let boundary : length (m ++ take left xs) % 64 ≡ 0 =
        omega (arith, length-append m (take left xs)) in
      subst (λ (z : List ℕ). Absorbed process_block h (absorb process_block next (drop left xs)) z)
        (append_assoc m (take left xs) (drop left xs)
          ∙ ap (λ (z : List ℕ). m ++ z) (take-append-drop left xs))
        (absorb-Absorbed process_block next (m ++ take left xs) (drop left xs)
          (full-Absorbed process_block c m (take left xs) n a at some_in full) boundary)

  pub update-Absorbed :
      {h : List ℕ} (c : Context) (m xs : List ℕ)
      → Represents process_block h c m
      → Absorbed process_block h (update process_block c xs) (m ++ xs)
  unfolding update
  update-Absorbed {h} c m xs r =
      let n : ℕ = bit_and c.message_size 63 in
      let left : ℕ = 64 - n in
      let at : n ≡ length m % 64 = offset c m r in
      let sized : Context = record c { message_size = (c.message_size + length xs) % 2 ^ 64 } in
      let a : Absorbed process_block h sized m = recount c sized.message_size r.absorbed in
      elim (Bool-cases (ltb 0 n)) [
        | inl some_in ↦ elim (Bool-cases (ltb (length xs) left)) [
          | inl few ↦
              let all : take (min (length xs) left) xs ≡ xs =
                take_all (min (length xs) left) xs (ground arith) in
              let fits : n + length xs < 64 = ground arith in
              rw (some_in, few, all) (short-Absorbed process_block sized m xs n a at fits)
          | inr many ↦
              let cut : min (length xs) left ≡ left = ground arith in
              let full : n + length (take left xs) ≡ 64 = ground (arith, length-take left xs) in
              rw (some_in, many, cut) (through_boundary sized m xs n left a at (ground arith) full)
        ]
        | inr none_in ↦
            let boundary : length m % 64 ≡ 0 = ground arith in
            rw none_in (absorb-Absorbed process_block sized m xs a boundary)
      ]

  -- `update` counts the bytes and takes them in, however much of a block was there before.
  pub update-Represents :
      {h : List ℕ} (c : Context) (m xs : List ℕ)
      → Represents process_block h c m
      → Represents process_block h (update process_block c xs) (m ++ xs)
  update-Represents c m xs r = record {
    counted = update-size c xs ∙ counted_next process_block c m xs r.counted;
    absorbed = update-Absorbed c m xs r;
  }

  -- A work block behind a cleared counter has taken in the empty message.
  pub reset-Represents :
      (c : Context)
      → c.message_size ≡ 0
      → length c.work_block ≡ 64
      → Represents process_block c.hash c []
  reset-Represents c e room = record {
    counted = e;
    absorbed = record { hashed = unfold run_blocks in refl; partial = refl; room = room };
  }

-- Pieces of a message, one `update` each.
abbrev pub update_all : (Context → List ℕ → Context) → Context → List (List ℕ) → Context
update_all update c [] = c
update_all update c (xs ∷ pieces) = update_all update (update c xs) pieces

abbrev pub joined : List (List ℕ) → List ℕ
joined [] = []
joined (xs ∷ pieces) = xs ++ joined pieces

pub update_all-Represents :
    (process_block : ProcessBlock) {h : List ℕ} (c : Context) (m : List ℕ) (pieces : List (List ℕ))
    → Represents process_block h c m
    → Represents process_block h (update_all (update process_block) c pieces) (m ++ joined pieces)
update_all-Represents process_block {h} c m [] r =
    subst (λ (z : List ℕ). Represents process_block h c z) (sym (append-nil m)) r
update_all-Represents process_block {h} c m (xs ∷ pieces) r =
    subst
      (λ (z : List ℕ).
        Represents process_block h
          (update_all (update process_block) (update process_block c xs) pieces) z)
      (append_assoc m xs (joined pieces))
      (update_all-Represents process_block (update process_block c xs) (m ++ xs) pieces
        (update-Represents process_block c m xs r))
