-- ===== src/DynamicBuffer/Words.antt =====
-- The integers of `DynamicBuffer` as numbers: the shifts and joins of bytes against base 256.
use brickred_server.Base.{
  ℕ, zero, suc, ◌+◌, ◌-◌, ◌*◌, ◌^◌, ◌≤◌, ◌<◌, ◌≡◌, refl, sym, ap, ◌∙◌, Bool, true, false, none,
  some, List, [], ◌∷◌, length, bit_or, get_or, take, drop, ltb, if◌then◌else◌, Bool-cases, inl, inr,
  arith, All, All-get_or, All-take, All-drop, get_or-drop, get_or-take,
}
use brickred_server.Base.Bits.{bit_or_disjoint}
use brickred_server.DynamicBuffer.{Buffer, size_add, readable_bytes}
use brickred_server.DynamicBuffer.Invariant.{IsByte, IsValid, readable_bytes_lem}
use brickred_server.DynamicBuffer.Contents.{contents, length-contents}
use brickred_server.DynamicBuffer.Integers.{
  at, word16, word32, word64, peek_int8, peek_int16, peek_int32, peek_int64, bytes16, bytes32,
  bytes64,
}
use brickred_server.DynamicBuffer.Queue.{decode, decode_le, encode, peek}

word16_lem : (x0 x1 : ℕ) → IsByte x0 → word16 x0 x1 ≡ x0 + 256 * x1
unfolding word16
word16_lem x0 x1 h0 = omega (arith, bit_or_disjoint 8 x0 x1 (x1 * 2 ^ 8) h0 refl)

word32_lem :
    (x0 x1 x2 x3 : ℕ)
    → IsByte x0
    → IsByte x1
    → IsByte x2
    → word32 x0 x1 x2 x3 ≡ x0 + 256 * (x1 + 256 * (x2 + 256 * x3))
unfolding word32
word32_lem x0 x1 x2 x3 h0 h1 h2 = rw (word16_lem x0 x1 h0) (
    rw (bit_or_disjoint 16 (x0 + 256 * x1) x2 (x2 * 2 ^ 16) (omega arith) refl) (
      rw (bit_or_disjoint 24 (x0 + 256 * x1 + x2 * 2 ^ 16) x3 (x3 * 2 ^ 24) (omega arith) refl)
        (omega arith)))

-- One more byte on top.
join_lem : (k acc x : ℕ) → acc < 2 ^ k → bit_or acc (x * 2 ^ k) ≡ acc + x * 2 ^ k
join_lem k acc x h = bit_or_disjoint k acc x (x * 2 ^ k) h refl

word64_lem :
    (x0 x1 x2 x3 x4 x5 x6 x7 : ℕ)
    → All IsByte (x0 ∷ x1 ∷ x2 ∷ x3 ∷ x4 ∷ x5 ∷ x6 ∷ x7 ∷ [])
    → word64 x0 x1 x2 x3 x4 x5 x6 x7 ≡ decode_le (x0 ∷ x1 ∷ x2 ∷ x3 ∷ x4 ∷ x5 ∷ x6 ∷ x7 ∷ [])
unfolding word64
word64_lem x0 x1 x2 x3 x4 x5 x6 x7 h =
    let low : ℕ = x0 + 256 * (x1 + 256 * (x2 + 256 * x3)) in
    rw (word32_lem x0 x1 x2 x3 h.0 h.1.0 h.1.1.0) (
      rw (join_lem 32 low x4 (omega arith)) (
        rw (join_lem 40 (low + x4 * 2 ^ 32) x5 (omega arith)) (
          rw (join_lem 48 (low + x4 * 2 ^ 32 + x5 * 2 ^ 40) x6 (omega arith)) (
            rw (join_lem 56 (low + x4 * 2 ^ 32 + x5 * 2 ^ 40 + x6 * 2 ^ 48) x7 (omega arith))
              (omega arith)))))

pub bytes16_lem : (v : ℕ) (le : Bool) → bytes16 v le ≡ encode 2 le v
unfolding bytes16
bytes16_lem v true = ground arith
bytes16_lem v false = ground arith

pub bytes32_lem : (v : ℕ) (le : Bool) → bytes32 v le ≡ encode 4 le v
unfolding bytes32
bytes32_lem v true = ground arith
bytes32_lem v false = ground arith

pub bytes64_lem : (v : ℕ) (le : Bool) → bytes64 v le ≡ encode 8 le v
unfolding bytes64
bytes64_lem v true = ground arith
bytes64_lem v false = ground arith

-- The next `n` bytes at position `i`, one by one.
abbrev window : List ℕ → ℕ → ℕ → List ℕ
window q i zero = []
window q i (suc n) = get_or q i 0 ∷ window q (suc i) n

window-cons : (x : ℕ) (q : List ℕ) (i n : ℕ) → window (x ∷ q) (suc i) n ≡ window q i n
window-cons x q i zero = refl
window-cons x q i (suc n) = ap (◌∷◌ (get_or q i 0)) (window-cons x q (suc i) n)

window-take : (q : List ℕ) (i n : ℕ) → i + n ≤ length q → take n (drop i q) ≡ window q i n
window-take [] zero zero h = refl
window-take [] zero (suc n) h = absurd (omega arith)
window-take [] (suc i) n h = absurd (omega arith)
window-take (x ∷ q) zero zero h = refl
window-take (x ∷ q) zero (suc n) h =
    ap (◌∷◌ x) (window-take q zero n (omega arith) ∙ sym (window-cons x q zero n))
window-take (x ∷ q) (suc i) n h = window-take q i n (omega arith) ∙ sym (window-cons x q i n)

at_lem :
    {b : Buffer} (i j : ℕ)
    → IsValid b
    → j ≡ i
    → i < length (contents b)
    → at b j ≡ get_or (contents b) i 0
unfolding at
at_lem {b} i j v e h = sym (
    get_or-take (b.write_index - b.read_index) i (drop b.read_index b.bytes) 0
      (omega (arith, length-contents v))
    ∙ get_or-drop b.read_index i (b.read_index + j) b.bytes 0 (omega arith))

module _ {b : Buffer} (v : IsValid b) where
  contents-IsByte : All IsByte (contents b)
  contents-IsByte = All-take IsByte _ _ (All-drop IsByte b.read_index b.bytes v.octets)

  octet : (i : ℕ) → IsByte (get_or (contents b) i 0)
  octet i = All-get_or IsByte (contents b) i 0 contents-IsByte (omega arith)

  -- The bound test of the peeks, on the queue.
  test_lem :
      (n offset : ℕ)
      → offset + n < 2 ^ 64
      → ltb (readable_bytes b) (size_add offset n) ≡ ltb (length (contents b)) (offset + n)
  test_lem n offset h =
      let fits : size_add offset n ≡ offset + n = omega arith in
      rw (fits, readable_bytes_lem v, length-contents v) refl

  peek_branch :
      (n offset x : ℕ) (le : Bool)
      → offset + n < 2 ^ 64
      → (offset + n ≤ length (contents b) → x ≡ decode le (window (contents b) offset n))
      → (if ltb (readable_bytes b) (size_add offset n) then none else some x)
        ≡ peek n offset le (contents b)
  peek_branch n offset x le h value =
      rw (test_lem n offset h) (elim (Bool-cases (ltb (length (contents b)) (offset + n))) [
        | inl short ↦ rw short refl
        | inr enough ↦
            let room : offset + n ≤ length (contents b) = ground arith in
            rw enough (ap some (rw (window-take (contents b) offset n room) (value room)))
      ])

  -- `peekInt8` reads the byte at `offset`, if it is there.
  pub peek_int8_refines :
      (offset : ℕ) → offset + 1 < 2 ^ 64 → peek_int8 b offset ≡ peek 1 offset true (contents b)
  unfolding peek_int8
  peek_int8_refines offset h =
      peek_branch 1 offset _ true h
        λ room. rw (at_lem offset offset v refl (omega arith)) (omega arith)

  -- The byte at a position, for a position written `suc (… offset)`.
  byte : (i j : ℕ) → j ≡ i → i < length (contents b) → at b j ≡ get_or (contents b) i 0
  byte i j e h = at_lem i j v e h

  -- `peekInt16` reads the two bytes at `offset`, in the order asked for.
  pub peek_int16_refines :
      (offset : ℕ) (le : Bool)
      → offset + 2 < 2 ^ 64
      → peek_int16 b offset le ≡ peek 2 offset le (contents b)
  unfolding peek_int16
  peek_int16_refines offset true h = peek_branch 2 offset _ true h λ room.
      rw
        (
          byte offset offset (omega arith) (omega arith),
          byte (suc offset) (offset + 1) (omega arith) (omega arith),
        )
        (rw (word16_lem _ (get_or (contents b) (suc offset) 0) (octet offset)) (omega arith))
  peek_int16_refines offset false h = peek_branch 2 offset _ false h λ room.
      rw
        (
          byte offset offset (omega arith) (omega arith),
          byte (suc offset) (offset + 1) (omega arith) (omega arith),
        )
        (rw (word16_lem _ (get_or (contents b) offset 0) (octet (suc offset))) (omega arith))

  -- `peekInt32` reads the four bytes at `offset`, in the order asked for.
  pub peek_int32_refines :
      (offset : ℕ) (le : Bool)
      → offset + 4 < 2 ^ 64
      → peek_int32 b offset le ≡ peek 4 offset le (contents b)
  unfolding peek_int32
  peek_int32_refines offset true h = peek_branch 4 offset _ true h λ room.
      rw
        (
          byte offset offset (omega arith) (omega arith),
          byte (suc offset) (offset + 1) (omega arith) (omega arith),
          byte (suc (suc offset)) (offset + 2) (omega arith) (omega arith),
          byte (suc (suc (suc offset))) (offset + 3) (omega arith) (omega arith),
        )
        (rw
          (word32_lem _ _ _ (get_or (contents b) (suc (suc (suc offset))) 0) (octet offset)
            (octet (suc offset)) (octet (suc (suc offset))))
          (omega arith))
  peek_int32_refines offset false h = peek_branch 4 offset _ false h λ room.
      rw
        (
          byte offset offset (omega arith) (omega arith),
          byte (suc offset) (offset + 1) (omega arith) (omega arith),
          byte (suc (suc offset)) (offset + 2) (omega arith) (omega arith),
          byte (suc (suc (suc offset))) (offset + 3) (omega arith) (omega arith),
        )
        (rw
          (word32_lem _ _ _ (get_or (contents b) offset 0) (octet (suc (suc (suc offset))))
            (octet (suc (suc offset))) (octet (suc offset)))
          (omega arith))

  -- `peekInt64` reads the eight bytes at `offset`, in the order asked for.
  pub peek_int64_refines :
      (offset : ℕ) (le : Bool)
      → offset + 8 < 2 ^ 64
      → peek_int64 b offset le ≡ peek 8 offset le (contents b)
  unfolding peek_int64
  peek_int64_refines offset true h = peek_branch 8 offset _ true h λ room.
      rw
        (
          byte offset offset (omega arith) (omega arith),
          byte (suc offset) (offset + 1) (omega arith) (omega arith),
          byte (suc (suc offset)) (offset + 2) (omega arith) (omega arith),
          byte (suc (suc (suc offset))) (offset + 3) (omega arith) (omega arith),
          byte (suc (suc (suc (suc offset)))) (offset + 4) (omega arith) (omega arith),
          byte (suc (suc (suc (suc (suc offset))))) (offset + 5) (omega arith) (omega arith),
          byte (suc (suc (suc (suc (suc (suc offset)))))) (offset + 6) (omega arith) (omega arith),
          byte (suc (suc (suc (suc (suc (suc (suc offset))))))) (offset + 7) (omega arith)
              (omega arith),
        )
        (rw
          (word64_lem _ _ _ _ _ _ _ _ (
            octet offset,
            (
              octet (suc offset),
              (
                octet (suc (suc offset)),
                (
                  octet (suc (suc (suc offset))),
                  (
                    octet (suc (suc (suc (suc offset)))),
                    (
                      octet (suc (suc (suc (suc (suc offset))))),
                      (
                        octet (suc (suc (suc (suc (suc (suc offset)))))),
                        (octet (suc (suc (suc (suc (suc (suc (suc offset))))))), tt),
                      ),
                    ),
                  ),
                ),
              ),
            ),
          ))
          (omega arith))
  peek_int64_refines offset false h = peek_branch 8 offset _ false h λ room.
      rw
        (
          byte offset offset (omega arith) (omega arith),
          byte (suc offset) (offset + 1) (omega arith) (omega arith),
          byte (suc (suc offset)) (offset + 2) (omega arith) (omega arith),
          byte (suc (suc (suc offset))) (offset + 3) (omega arith) (omega arith),
          byte (suc (suc (suc (suc offset)))) (offset + 4) (omega arith) (omega arith),
          byte (suc (suc (suc (suc (suc offset))))) (offset + 5) (omega arith) (omega arith),
          byte (suc (suc (suc (suc (suc (suc offset)))))) (offset + 6) (omega arith) (omega arith),
          byte (suc (suc (suc (suc (suc (suc (suc offset))))))) (offset + 7) (omega arith)
              (omega arith),
        )
        (rw
          (word64_lem _ _ _ _ _ _ _ _ (
            octet (suc (suc (suc (suc (suc (suc (suc offset))))))),
            (
              octet (suc (suc (suc (suc (suc (suc offset)))))),
              (
                octet (suc (suc (suc (suc (suc offset))))),
                (
                  octet (suc (suc (suc (suc offset)))),
                  (
                    octet (suc (suc (suc offset))),
                    (octet (suc (suc offset)), (octet (suc offset), (octet offset, tt))),
                  ),
                ),
              ),
            ),
          ))
          (omega arith))
