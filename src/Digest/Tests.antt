-- ===== src/Digest/Tests.antt =====
-- Known answers of src/brickred/codec/{md5,sha1,sha256}.cc, and the witnesses.
use brickred_server.Base.{ℕ, List, [], ◌∷◌, ◌++◌, ◌≡◌, refl, true, false, replicate, codes}
use brickred_server.Digest.{Context}
use brickred_server.Digest.Text.{bytes_of, text_of}
use brickred_server.Digest.Update.{update_all}
use brickred_server.Digest.Sha256
use brickred_server.Digest.Sha256.Standard.{sha256_words, sha256_pieces}
use brickred_server.Digest.Sha1
use brickred_server.Digest.Sha1.Standard.{sha1_words, sha1_pieces}
use brickred_server.Digest.Md5
use brickred_server.Digest.Md5.Standard.{md5_words, md5_pieces}

abbrev fresh_block : List ℕ
fresh_block = replicate 64 7

md5_abc : Md5.md5 fresh_block (codes "abc") ≡ codes "900150983cd24fb0d6963f7d28e17f72"
unfolding Md5.md5
md5_abc = refl

sha1_abc : Sha1.sha1 fresh_block (codes "abc") ≡ codes "a9993e364706816aba3e25717850c26c9cd0d89d"
unfolding Sha1.sha1
sha1_abc = refl

sha256_abc :
    Sha256.sha256 fresh_block (codes "abc")
    ≡ codes "ba7816bf8f01cfea414140de5dae2223b00361a396177a9cb410ff61f20015ad"
unfolding Sha256.sha256
sha256_abc = refl

-- 56 bytes leave no room for the length in their block.
sha256_two_blocks :
    Sha256.sha256 fresh_block (replicate 56 97)
    ≡ codes "b35439a4ac6f0948b6d6f9e3c6af0f5f590ce20f1bde7090ef7970686ec6738a"
unfolding Sha256.sha256
sha256_two_blocks = refl

md5_empty : Md5.md5 fresh_block [] ≡ codes "d41d8cd98f00b204e9800998ecf8427e"
unfolding Md5.md5
md5_empty = refl

-- A context after other work, and a message of 70 bytes that comes in three pieces.
abbrev used : Context
used = record { hash = 1 ∷ 2 ∷ []; message_size = 99; work_block = fresh_block }

abbrev three : List (List ℕ)
three = replicate 10 1 ∷ replicate 54 2 ∷ replicate 6 3 ∷ []

abbrev seventy : List ℕ
seventy = replicate 10 1 ++ (replicate 54 2 ++ replicate 6 3)

sha256_pieces_example :
    (Sha256.digest_string (update_all Sha256.update (Sha256.reset used) three)).0
    ≡ text_of (bytes_of true (sha256_words seventy))
sha256_pieces_example = sha256_pieces used three refl

sha1_pieces_example :
    (Sha1.digest_string (update_all Sha1.update (Sha1.reset used) three)).0
    ≡ text_of (bytes_of true (sha1_words seventy))
sha1_pieces_example = sha1_pieces used three refl

md5_pieces_example :
    (Md5.digest_string (update_all Md5.update (Md5.reset used) three)).0
    ≡ text_of (bytes_of false (md5_words seventy))
md5_pieces_example = md5_pieces used three refl
