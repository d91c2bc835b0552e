-- ===== src/Digest/Md5/Standard.antt =====
-- src/brickred/codec/md5.cc: what a digest of `Md5` is.
use brickred_server.Base.{
  ℕ, zero, suc, ◌+◌, ◌/◌, ◌≤◌, ◌≡◌, refl, ap, ◌∙◌, false, List, [], ◌∷◌, length, arith,
}
use brickred_server.Digest.{Context, output}
use brickred_server.Digest.Blocks.{run_blocks}
use brickred_server.Digest.Streaming.{Represents}
use brickred_server.Digest.Update.{
  reset-Represents, update_all, joined, update_all-Represents, update-Represents,
}
use brickred_server.Digest.Padding.{padded, digest_lem}
use brickred_server.Digest.Text.{bytes_of, text_of, hex-output}
use brickred_server.Digest.Hex.{hex, length-hex, length-output}
use brickred_server.Digest.Md5.{
  initial_hash, process_block, reset, init, update, digest, digest_string, md5, md5_binary,
}

-- The initial words of the standard.
abbrev pub first_words : List ℕ
first_words = 0x67452301 ∷ 0xefcdab89 ∷ 0x98badcfe ∷ 0x10325476 ∷ []

-- The words of a digest: the code's own block function, from the initial words of the standard,
-- over the blocks of the padded message in turn.
unfoldable pub md5_words : List ℕ → List ℕ
md5_words m =
    let p : List ℕ = padded false m in run_blocks process_block (length p / 64) first_words p

reset_pieces :
    (c : Context) (pieces : List (List ℕ))
    → length c.work_block ≡ 64
    → Represents process_block initial_hash (update_all update (reset c) pieces) (joined pieces)
unfolding reset update
reset_pieces c pieces room =
    update_all-Represents process_block (reset c) [] pieces
      (reset-Represents process_block (reset c) refl room)

-- From a reset context, whatever its hash and its work block of 64 bytes held, the digest of a
-- message that comes in any pieces is, in hexadecimal, the code's block function run from the
-- standard's initial words over the whole message, which is padded by a one bit, zeros and its
-- length in bits as a 64-bit number.
pub md5_pieces :
    (c : Context) (pieces : List (List ℕ))
    → length c.work_block ≡ 64
    → (digest_string (update_all update (reset c) pieces)).0
      ≡ text_of (bytes_of false (md5_words (joined pieces)))
unfolding digest_string digest md5_words
md5_pieces c pieces room =
    ap hex (
      digest_lem process_block false (update_all update (reset c) pieces) (joined pieces)
        (reset_pieces c pieces room))
    ∙ hex-output false (md5_words (joined pieces))

-- `md5` and `md5_binary` of a buffer do not depend on the memory that the new context stands in:
-- they are these words, in hexadecimal and as bytes.
pub md5_lem :
    (work_block m : List ℕ)
    → length work_block ≡ 64
    → (md5 work_block m ≡ hex (output false (md5_words m)))
      × (md5_binary work_block m ≡ output false (md5_words m))
unfolding md5 md5_binary digest_string digest init reset update md5_words
md5_lem work_block m room =
    let c : Context = record { hash = []; message_size = 0; work_block = work_block } in
    let r : Represents process_block initial_hash (update (reset c) m) m =
      update-Represents process_block (reset c) [] m
        (reset-Represents process_block (reset c) refl room) in
    let same : (digest (update (reset c) m)).0 ≡ output false (md5_words m) =
      digest_lem process_block false (update (reset c) m) m r in
    (ap hex same, same)

run_blocks-words :
    (n : ℕ) (h m : List ℕ) → length h ≡ 4 → length (run_blocks process_block n h m) ≡ 4
unfolding run_blocks process_block
run_blocks-words zero h m e = e
run_blocks-words (suc n) h m e = run_blocks-words n _ _ refl

-- The text of the digest has 32 characters: with the final zero it fits `hex_output`, of 64 bytes,
-- and the digest itself fills its 16 bytes.
pub length-md5 :
    (work_block m : List ℕ)
    → length work_block ≡ 64
    → (length (md5 work_block m) ≡ 32)
      × ((length (md5 work_block m) + 1 ≤ 64) × (length (md5_binary work_block m) ≡ 16))
unfolding md5_words
length-md5 work_block m room =
    let same = md5_lem work_block m room in
    let p : List ℕ = padded false m in
    let bytes : length (output false (md5_words m)) ≡ 16 = omega (
      arith,
      length-output false (md5_words m),
      run_blocks-words (length p / 64) initial_hash p refl,
    ) in
    let text : length (md5 work_block m) ≡ 32 =
      ap length same.0 ∙ length-hex (output false (md5_words m)) ∙ omega (arith, bytes) in
    (text, (omega arith, ap length same.1 ∙ bytes))
