-- ===== src/HttpProtocol/Bodies.antt =====
-- What `readBody` of http_protocol.cc leaves.
use brickred_server.Base.{
  ℕ, zero, suc, ◌+◌, ◌≤◌, ◌<◌, ◌≡◌, refl, false, not, ◌==◌, Option, some, List, ◌++◌, arith, length,
  length-append, length-take, length-drop, take, drop, ltb, if◌then◌else◌, codes, Option-cases, inl,
  inr,
}
use brickred_server.Base.Int.{ℤ, pos, pos_part, ltb_ℤ, eqb_ℤ}
use brickred_server.StringUtil.{starts_with, find}
use brickred_server.HttpProtocol.Message.{
  Message as HttpMessage, set_header, remove_header, set_body, has_header, header_contain,
  get_header,
}
use brickred_server.HttpProtocol.{
  reading_body, Impl, Turn, crlf, read_sized_body, stored_of, read_chunk, read_chunks, read_body,
  c_string,
}
use brickred_server.HttpProtocol.Turns.{rank, Keeps, IsTurn, if_elim, ends_here}

pub chunk_fits :
    (len i size : ℕ)
    → ltb len (if size == 0 then i + 2 else i + 2 + size + 2) ≡ false
    → (size == 0) ≡ false
    → i + size + 4 ≤ len
chunk_fits len i size e1 e2 = ground arith

module _ (s : Impl) (m : HttpMessage) (buffer : List ℕ) (here : s.message ≡ some m)
    (k : length m.body ≤ s.body_max_size) (kept : Keeps s.status s.message s.body_max_size) where
  module _ (at : s.status ≡ reading_body) where
    body_rank : rank s.status < 3
    body_rank = rw at (omega arith)

    read_sized_body-IsTurn :
        (n : ℤ) → IsTurn s.body_max_size s.status (read_sized_body s m buffer n)
    unfolding read_sized_body set_body
    read_sized_body-IsTurn n =
        if_elim (IsTurn s.body_max_size s.status) (ltb_ℤ (pos 0) n) _ _
          (λ e.
            if_elim (IsTurn s.body_max_size s.status) (ltb s.body_max_size (pos_part n)) _ _
              (λ e1. (refl, tt))
              (λ e1.
                if_elim (IsTurn s.body_max_size s.status) (ltb (length buffer) (pos_part n)) _ _
                  (λ e2. (refl, (refl, kept)))
                  (λ e2. (
                    refl,
                    (
                      omega (arith, body_rank),
                      omega arith,
                      ground (arith, length-take (pos_part n) buffer),
                    ),
                  ))))
          (λ e.
            if_elim (IsTurn s.body_max_size s.status) (eqb_ℤ n (pos 0)) _ _
              (λ e1. (refl, (omega (arith, body_rank), omega arith, ends_here s m here k)))
              (λ e1. (refl, tt)))

    module _ (scan_hex : List ℕ → Option ℕ) (to_string : ℕ → List ℕ) where
      read_chunk-IsTurn :
          (stored bytes : List ℕ) (i size : ℕ) (rest : Turn)
          → length stored ≤ s.body_max_size
          → (0 < size → i + size + 4 ≤ length bytes → IsTurn s.body_max_size s.status rest)
          → IsTurn s.body_max_size s.status (
              read_chunk scan_hex to_string
                (record s { chunk_buffer = some stored })
                m
                stored
                bytes
                i
                size
                rest)
      unfolding set_body set_header remove_header
      read_chunk-IsTurn stored bytes i size rest le next =
          let total : ℕ = if size == 0 then i + 2 else i + 2 + size + 2 in
          if_elim (IsTurn s.body_max_size s.status) (ltb s.body_max_size size) _ _ (λ e. (refl, tt))
            (λ e.
              if_elim (IsTurn s.body_max_size s.status) (ltb (length bytes) total) _ _
                (λ e1. (refl, (refl, kept)))
                (λ e1.
                  if_elim (IsTurn s.body_max_size s.status) (size == 0) _ _
                    (λ e2. (refl, (omega (arith, body_rank), omega arith, le)))
                    (λ e2.
                      if_elim (IsTurn s.body_max_size s.status)
                        (not (starts_with (drop (i + 2 + size) bytes) crlf)) _ _ (λ e3. (refl, tt))
                        (λ e3. next (ground arith) (chunk_fits (length bytes) i size e1 e2)))))

      -- The chunks stored and the buffer stay within the limit together.
      read_chunks-IsTurn :
          (fuel : ℕ) (stored bytes : List ℕ)
          → length stored + length bytes ≤ s.body_max_size
          → IsTurn s.body_max_size s.status (read_chunks scan_hex to_string fuel s m stored bytes)
      unfolding read_chunks
      read_chunks-IsTurn zero stored bytes le = (refl, (refl, kept))
      read_chunks-IsTurn (suc fuel) stored bytes le = elim (Option-cases (find bytes crlf)) [
        | inl e ↦ rw (e, read_chunks) (refl, (refl, kept))
        | inr (i, e) ↦ elim (Option-cases (scan_hex (c_string (take i bytes)))) [
          | inl e1 ↦ rw (e, read_chunks) (rw e1 (refl, tt))
          | inr (size, e1) ↦
              rw (e, read_chunks)
                (rw e1 (
                  read_chunk-IsTurn stored bytes i size
                    (read_chunks scan_hex to_string fuel s m
                      (stored ++ take size (drop (i + 2) bytes)) (drop (i + 2 + size + 2) bytes))
                    (omega arith)
                    (λ some_byte room.
                      read_chunks-IsTurn fuel (stored ++ take size (drop (i + 2) bytes))
                        (drop (i + 2 + size + 2) bytes)
                        (omega (
                          arith,
                          length-append stored (take size (drop (i + 2) bytes)),
                          length-take size (drop (i + 2) bytes),
                          length-drop (i + 2) bytes,
                          length-drop (i + 2 + size + 2) bytes,
                        )))))
        ]
      ]

      pub read_body-IsTurn :
          (atoi : List ℕ → ℤ)
          → IsTurn s.body_max_size s.status (read_body scan_hex to_string atoi s m buffer)
      unfolding read_body
      read_body-IsTurn atoi =
          let stored = stored_of s.chunk_buffer in
          if_elim (IsTurn s.body_max_size s.status) (has_header m (codes "Content-Length")) _ _
            (λ e. read_sized_body-IsTurn (atoi (c_string (get_header m (codes "Content-Length")))))
            (λ e.
              if_elim (IsTurn s.body_max_size s.status)
                (header_contain m (codes "Transfer-Encoding") (codes "chunked")) _ _
                (λ e1.
                  if_elim (IsTurn s.body_max_size s.status)
                    (ltb s.body_max_size (length stored + length buffer)) _ _ (λ e2. (refl, tt))
                    (λ e2. read_chunks-IsTurn (suc (length buffer)) stored buffer (ground arith)))
                (λ e1. (refl, tt)))
