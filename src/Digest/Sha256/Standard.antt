-- ===== src/Digest/Sha256/Standard.antt =====
-- src/brickred/codec/sha256.cc: what a digest of `Sha256` is.
use brickred_server.Base.{
  ℕ, zero, suc, ◌+◌, ◌/◌, ◌≤◌, ◌≡◌, refl, ap, ◌∙◌, true, List, [], ◌∷◌, length, arith,
}
use brickred_server.Digest.{Context, output}
use brickred_server.Digest.Blocks.{run_blocks}
use brickred_server.Digest.Streaming.{Represents}
use brickred_server.Digest.Update.{
  reset-Represents, update_all, joined, update_all-Represents, update-Represents,
}
use brickred_server.Digest.Padding.{padded, digest_lem}
use brickred_server.Digest.Text.{bytes_of, text_of, hex-output}
use brickred_server.Digest.Hex.{hex, length-hex, length-output}
use brickred_server.Digest.Sha256.{
  initial_hash, process_block, reset, init, update, digest, digest_string, sha256, sha256_binary,
}

-- The initial words of the standard.
abbrev pub first_words : List ℕ
first_words =
    0x6a09e667 ∷ 0xbb67ae85 ∷ 0x3c6ef372 ∷ 0xa54ff53a ∷ 0x510e527f ∷ 0x9b05688c ∷ 0x1f83d9ab
    ∷ 0x5be0cd19 ∷ []

-- The words of a digest: the code's own block function, from the initial words of the standard,
-- over the blocks of the padded message in turn.
unfoldable pub sha256_words : List ℕ → List ℕ
sha256_words m =
    let p : List ℕ = padded true m in run_blocks process_block (length p / 64) first_words p

reset_pieces :
    (c : Context) (pieces : List (List ℕ))
    → length c.work_block ≡ 64
    → Represents process_block initial_hash (update_all update (reset c) pieces) (joined pieces)
unfolding reset update
reset_pieces c pieces room =
    update_all-Represents process_block (reset c) [] pieces
      (reset-Represents process_block (reset c) refl room)

-- From a reset context, whatever its hash and its work block of 64 bytes held, the digest of a
-- message that comes in any pieces is, in hexadecimal, the code's block function run from the
-- standard's initial words over the whole message, which is padded by a one bit, zeros and its
-- length in bits as a 64-bit number.
pub sha256_pieces :
    (c : Context) (pieces : List (List ℕ))
    → length c.work_block ≡ 64
    → (digest_string (update_all update (reset c) pieces)).0
      ≡ text_of (bytes_of true (sha256_words (joined pieces)))
unfolding digest_string digest sha256_words
sha256_pieces c pieces room =
    ap hex (
      digest_lem process_block true (update_all update (reset c) pieces) (joined pieces)
        (reset_pieces c pieces room))
    ∙ hex-output true (sha256_words (joined pieces))

-- `sha256` and `sha256_binary` of a buffer do not depend on the memory that the new context stands in:
-- they are these words, in hexadecimal and as bytes.
pub sha256_lem :
    (work_block m : List ℕ)
    → length work_block ≡ 64
    → (sha256 work_block m ≡ hex (output true (sha256_words m)))
      × (sha256_binary work_block m ≡ output true (sha256_words m))
unfolding sha256 sha256_binary digest_string digest init reset update sha256_words
sha256_lem work_block m room =
    let c : Context = record { hash = []; message_size = 0; work_block = work_block } in
    let r : Represents process_block initial_hash (update (reset c) m) m =
      update-Represents process_block (reset c) [] m
        (reset-Represents process_block (reset c) refl room) in
    let same : (digest (update (reset c) m)).0 ≡ output true (sha256_words m) =
      digest_lem process_block true (update (reset c) m) m r in
    (ap hex same, same)

run_blocks-words :
    (n : ℕ) (h m : List ℕ) → length h ≡ 8 → length (run_blocks process_block n h m) ≡ 8
unfolding run_blocks process_block
run_blocks-words zero h m e = e
run_blocks-words (suc n) h m e = run_blocks-words n _ _ refl

-- The text of the digest has 64 characters: with the final zero it fits `hex_output`, of 128 bytes,
-- and the digest itself fills its 32 bytes.
pub length-sha256 :
    (work_block m : List ℕ)
    → length work_block ≡ 64
    → (length (sha256 work_block m) ≡ 64)
      × ((length (sha256 work_block m) + 1 ≤ 128) × (length (sha256_binary work_block m) ≡ 32))
unfolding sha256_words
length-sha256 work_block m room =
    let same = sha256_lem work_block m room in
    let p : List ℕ = padded true m in
    let bytes : length (output true (sha256_words m)) ≡ 32 = omega (
      arith,
      length-output true (sha256_words m),
      run_blocks-words (length p / 64) initial_hash p refl,
    ) in
    let text : length (sha256 work_block m) ≡ 64 =
      ap length same.0 ∙ length-hex (output true (sha256_words m)) ∙ omega (arith, bytes) in
    (text, (omega arith, ap length same.1 ∙ bytes))
