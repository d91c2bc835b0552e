-- ===== src/Digest/Streaming.antt =====
-- What a context has taken in, and that `update` may be called piecewise.
use brickred_server.Base.{
  ℕ, zero, suc, ◌+◌, ◌*◌, ◌/◌, ◌%◌, ◌^◌, ◌≤◌, ◌<◌, ◌≡◌, refl, sym, ap, ap₂, subst, ◌∙◌, Bool-cases,
  inl, inr, List, [], ◌∷◌, ◌++◌, length, take, drop, overlay, ltb, if◌then◌else◌, arith,
  length-append, length-drop, length-overlay, overlay_split, drop-append_left, take-append_length,
  drop-append_length, take_all, drop_all, drop-drop, append_assoc, drop-append_more, true,
}
use brickred_server.Digest.{ProcessBlock, Context, loop, absorb}
use brickred_server.Digest.Blocks.{run_blocks, run_blocks-add, run_blocks-append}

-- The leftover of the loop stands at the start of the work block.
saved :
    (block rest : List ℕ)
    → length rest ≤ length block
    → take (length rest) (if ltb 0 (length rest) then overlay block 0 rest else block) ≡ rest
saved block [] fits = refl
saved block (x ∷ rest) fits =
    let some_left : ltb 0 (suc (length rest)) ≡ true = ground arith in
    rw some_left (
      ap (take (suc (length rest)))
        (overlay_split block 0 (suc (length rest)) (x ∷ rest) (omega arith) fits)
      ∙ take-append_length (suc (length rest)) (x ∷ rest) _ refl)

length-saved :
    (block rest : List ℕ)
    → length (if ltb 0 (length rest) then overlay block 0 rest else block) ≡ length block
length-saved block rest = ground (arith, length-overlay block 0 rest)

module _ (process_block : ProcessBlock) where
  later_block :
      (b : ℕ) (h buffer : List ℕ)
      → ◌≡◌ {A = List ℕ × List ℕ}
          (
            run_blocks process_block b (process_block h (take 64 buffer)) (drop 64 buffer),
            drop (b * 64) (drop 64 buffer),
          )
          (run_blocks process_block (suc b) h buffer, drop (suc b * 64) buffer)
  unfolding run_blocks
  later_block b h buffer =
      ap {B = List ℕ × List ℕ}
        (λ (rest : List ℕ).
          (run_blocks process_block b (process_block h (take 64 buffer)) (drop 64 buffer), rest))
        (drop-drop (b * 64) 64 (suc b * 64) buffer (omega arith))

  last_block :
      (whole : ℕ) (h m ys filled : List ℕ)
      → whole * 64 ≤ length m
      → length filled ≡ 64
      → filled ≡ drop (whole * 64) m ++ ys
      → run_blocks process_block 1
          (run_blocks process_block whole h (m ++ ys))
          (drop (whole * 64) (m ++ ys))
        ≡ process_block (run_blocks process_block whole h m) filled
  unfolding run_blocks
  last_block whole h m ys filled room size holds =
      rw
        (
          drop-append_left (whole * 64) m ys room,
          ← holds,
          take_all 64 filled (omega arith),
          run_blocks-append process_block whole h m ys room,
        )
        refl

  -- With a round for each whole block the loop takes in all of them.
  loop_lem :
      (fuel : ℕ) (h buffer : List ℕ)
      → length buffer / 64 ≤ fuel
      → loop process_block fuel h buffer ≡ (
        run_blocks process_block (length buffer / 64) h buffer,
        drop (length buffer / 64 * 64) buffer,
      )
  unfolding loop
  loop_lem zero h buffer e =
      let none_whole : length buffer / 64 ≡ 0 = omega arith in
      rw none_whole (unfold run_blocks in refl)
  loop_lem (suc fuel) h buffer e = elim (Bool-cases (ltb (length buffer) 64)) [
    | inl short ↦
        let none_whole : length buffer / 64 ≡ 0 = ground arith in
        rw (short, none_whole) (unfold run_blocks in refl)
    | inr long ↦
        let enough : 64 ≤ length buffer = ground arith in
        let one_more : length buffer / 64 ≡ suc (length (drop 64 buffer) / 64) =
          omega (arith, length-drop 64 buffer) in
        let fewer : length (drop 64 buffer) / 64 ≤ fuel = omega arith in
        rw (long, one_more)
          (loop_lem fuel (process_block h (take 64 buffer)) (drop 64 buffer) fewer
            ∙ later_block (length (drop 64 buffer) / 64) h buffer)
  ]

  -- The context has taken in the message `m` from the hash `h`: the whole blocks are hashed, and
  -- the work block begins with the rest.
  pub record Absorbed (h : List ℕ) (c : Context) (m : List ℕ) : Type 0 where
    pub hashed : c.hash ≡ run_blocks process_block (length m / 64) h m
    pub partial : take (length m % 64) c.work_block ≡ drop (length m / 64 * 64) m
    pub room : length c.work_block ≡ 64

  pub Absorbed-at :
      {h : List ℕ} (c : Context) (m : List ℕ) (q r : ℕ)
      → length m / 64 ≡ q
      → length m % 64 ≡ r
      → c.hash ≡ run_blocks process_block q h m
      → take r c.work_block ≡ drop (q * 64) m
      → length c.work_block ≡ 64
      → Absorbed h c m
  Absorbed-at c m q r eq er hashed partial room = record {
    hashed = rw eq hashed;
    partial = rw (eq, er) partial;
    room = room;
  }

  -- At a block boundary, the loop and the leftover go on with the next bytes.
  pub absorb-Absorbed :
      {h : List ℕ} (c : Context) (m xs : List ℕ)
      → Absorbed h c m
      → length m % 64 ≡ 0
      → Absorbed h (absorb process_block c xs) (m ++ xs)
  unfolding absorb
  absorb-Absorbed {h} c m xs a e =
      let whole : ℕ = length xs / 64 in
      let rest : List ℕ = drop (whole * 64) xs in
      let total : length (m ++ xs) ≡ length m + length xs = length-append m xs in
      let left : length rest ≡ length (m ++ xs) % 64 =
        omega (arith, total, length-drop (whole * 64) xs) in
      rw (loop_lem (length xs / 64) c.hash xs (omega arith)) (record {
        hashed = rw a.hashed (
            sym (
              run_blocks-add process_block (length m / 64) whole (length (m ++ xs) / 64) h (m ++ xs)
                (omega (arith, total))
              ∙ ap₂ (run_blocks process_block whole)
                  (run_blocks-append process_block (length m / 64) h m xs (omega arith))
                  (drop-append_length (length m / 64 * 64) m xs (omega arith))));
        partial =
            subst
              (λ (n : ℕ).
                take n (if ltb 0 (length rest) then overlay c.work_block 0 rest else c.work_block)
                ≡ drop (length (m ++ xs) / 64 * 64) (m ++ xs))
              left
              (saved c.work_block rest (omega (arith, a.room, left))
                ∙ sym (
                    drop-append_more (length (m ++ xs) / 64 * 64) (whole * 64) m xs
                      (omega (arith, total))));
        room = length-saved c.work_block rest ∙ a.room;
      })

  -- The context of the class: its size counts modulo `2 ^ 64`.
  pub record Represents (h : List ℕ) (c : Context) (m : List ℕ) : Type 0 where
    pub counted : c.message_size ≡ length m % 2 ^ 64
    pub absorbed : Absorbed h c m

  pub counted_next :
      (c : Context) (m xs : List ℕ)
      → c.message_size ≡ length m % 2 ^ 64
      → (c.message_size + length xs) % 2 ^ 64 ≡ length (m ++ xs) % 2 ^ 64
  counted_next c m xs e = omega (arith, e, length-append m xs)

  -- A work block filled up to `n` bytes begins with the rest of the message and the new bytes.
  filled_lem :
      (block m xs : List ℕ) (n : ℕ)
      → take n block ≡ m
      → n ≡ length m
      → n + length xs ≤ length block
      → take (n + length xs) (overlay block n xs) ≡ m ++ xs
  filled_lem block m xs n e k fits =
      rw
        (
          overlay_split block n (n + length xs) xs refl fits,
          e,
          ← append_assoc m xs (drop (n + length xs) block),
        )
        (take-append_length (n + length xs) (m ++ xs) _ (omega (arith, length-append m xs)))

  -- Bytes that do not fill the work block.
  pub short-Absorbed :
      {h : List ℕ} (c : Context) (m xs : List ℕ) (n : ℕ)
      → Absorbed h c m
      → n ≡ length m % 64
      → n + length xs < 64
      → Absorbed h (record c { work_block = overlay c.work_block n xs }) (m ++ xs)
  short-Absorbed {h} c m xs n a e few =
      let total : length (m ++ xs) ≡ length m + length xs = length-append m xs in
      let same : length (m ++ xs) / 64 ≡ length m / 64 = omega (arith, total) in
      let now : length (m ++ xs) % 64 ≡ n + length xs = omega (arith, total) in
      Absorbed-at (record c { work_block = overlay c.work_block n xs }) (m ++ xs) (length m / 64)
        (n + length xs) same now
        (a.hashed ∙ sym (run_blocks-append process_block (length m / 64) h m xs (omega arith)))
        (filled_lem c.work_block (drop (length m / 64 * 64) m) xs n
            (subst (λ (k : ℕ). take k c.work_block ≡ drop (length m / 64 * 64) m) (sym e) a.partial)
            (omega (arith, length-drop (length m / 64 * 64) m)) (omega (arith, a.room))
          ∙ sym (drop-append_left (length m / 64 * 64) m xs (omega arith)))
        (length-overlay c.work_block n xs ∙ a.room)

  -- Bytes that just fill it: the block is hashed.
  pub full-Absorbed :
      {h : List ℕ} (c : Context) (m ys : List ℕ) (n : ℕ)
      → Absorbed h c m
      → n ≡ length m % 64
      → 0 < n
      → n + length ys ≡ 64
      → Absorbed h
          (record c {
            hash = process_block c.hash (overlay c.work_block n ys);
            work_block = overlay c.work_block n ys;
          })
          (m ++ ys)
  full-Absorbed {h} c m ys n a e some_in full =
      let total : length (m ++ ys) ≡ length m + length ys = length-append m ys in
      let whole : ℕ = length m / 64 in
      let filled : List ℕ = overlay c.work_block n ys in
      let one_more : length (m ++ ys) / 64 ≡ whole + 1 = omega (arith, total) in
      let boundary : length (m ++ ys) % 64 ≡ 0 = omega (arith, total) in
      let size : length filled ≡ 64 = length-overlay c.work_block n ys ∙ a.room in
      let holds : filled ≡ drop (whole * 64) m ++ ys =
        sym (take_all 64 filled (omega arith))
        ∙ subst (λ (k : ℕ). take k filled ≡ drop (whole * 64) m ++ ys) full
            (filled_lem c.work_block (drop (whole * 64) m) ys n
              (subst (λ (k : ℕ). take k c.work_block ≡ drop (whole * 64) m) (sym e) a.partial)
              (omega (arith, length-drop (whole * 64) m)) (omega (arith, a.room))) in
      Absorbed-at (record c { hash = process_block c.hash filled; work_block = filled }) (m ++ ys)
        (whole + 1) 0 one_more boundary
        (sym (
          run_blocks-add process_block whole 1 (whole + 1) h (m ++ ys) refl
          ∙ last_block whole h m ys filled (omega arith) size holds
          ∙ ap (λ (g : List ℕ). process_block g filled) (sym a.hashed)))
        (sym (drop_all ((whole + 1) * 64) (m ++ ys) (omega arith))) size
