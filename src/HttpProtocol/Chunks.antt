-- ===== src/HttpProtocol/Chunks.antt =====
-- The loop over the chunks in `readBody` of http_protocol.cc.
use brickred_server.Base.{
  ℕ, zero, suc, ◌+◌, ◌<◌, ◌≤◌, ◌≡◌, refl, Bool, true, false, not, ◌==◌, Option, some, List, ◌++◌,
  arith, length, length-drop, take, drop, ltb, if◌then◌else◌, Option-cases, inl, inr,
}
use brickred_server.StringUtil.{starts_with, find}
use brickred_server.HttpProtocol.Message.{Message as HttpMessage}
use brickred_server.HttpProtocol.{
  Impl, Turn, turn, failed, waiting, again, crlf, c_string, read_chunk, read_chunks, assembled,
  reading_trailer_header,
}
use brickred_server.HttpProtocol.Bodies.{chunk_fits}

else_eq :
    (b : Bool) (x y z : Turn) → (b ≡ false → y ≡ z) → (if b then x else y) ≡ (if b then x else z)
else_eq true x y z h = refl
else_eq false x y z h = h refl

module _ (scan_hex : List ℕ → Option ℕ) (to_string : ℕ → List ℕ) (s : Impl) (m : HttpMessage) where
  read_chunk_eq :
      (s' : Impl) (stored bytes : List ℕ) (i size : ℕ) (x y : Turn)
      → (i + size + 4 ≤ length bytes → x ≡ y)
      → read_chunk scan_hex to_string s' m stored bytes i size x
        ≡ read_chunk scan_hex to_string s' m stored bytes i size y
  read_chunk_eq s' stored bytes i size x y h =
      let total : ℕ = if size == 0 then i + 2 else i + 2 + size + 2 in
      let last : Turn =
        turn
          (record s' {
            message = some (assembled scan_hex to_string m stored);
            status = reading_trailer_header;
          })
          (drop total bytes) again in
      let open_chunk : Bool = not (starts_with (drop (i + 2 + size) bytes) crlf) in
      let stop : Turn = turn s' bytes failed in
      let wait : Turn = turn s' bytes waiting in
      else_eq (ltb s'.body_max_size size) stop
        (if ltb (length bytes) total
          then wait
          else if size == 0
          then last
          else if open_chunk
          then stop
          else x)
        (if ltb (length bytes) total
          then wait
          else if size == 0
          then last
          else if open_chunk
          then stop
          else y)
        (λ e1.
          else_eq (ltb (length bytes) total) wait
            (if size == 0 then last else if open_chunk then stop else x)
            (if size == 0 then last else if open_chunk then stop else y)
            (λ e2.
              else_eq (size == 0) last (if open_chunk then stop else x)
                (if open_chunk then stop else y)
                (λ e3.
                  else_eq open_chunk stop x y (λ e4. h (chunk_fits (length bytes) i size e2 e3)))))

  -- More rounds than bytes are enough: a further one changes nothing.
  pub read_chunks-enough :
      (fuel : ℕ) (stored bytes : List ℕ)
      → length bytes < fuel
      → read_chunks scan_hex to_string (suc fuel) s m stored bytes
        ≡ read_chunks scan_hex to_string fuel s m stored bytes
  unfolding read_chunks
  read_chunks-enough zero stored bytes le = absurd (omega (arith, le))
  read_chunks-enough (suc fuel) stored bytes le = elim (Option-cases (find bytes crlf)) [
    | inl e ↦ rw (e, read_chunks) refl
    | inr (i, e) ↦ elim (Option-cases (scan_hex (c_string (take i bytes)))) [
      | inl e1 ↦ rw (e, read_chunks) (rw e1 refl)
      | inr (size, e1) ↦
          rw (e, read_chunks)
            (rw e1 (
              read_chunk_eq (record s { chunk_buffer = some stored }) stored bytes i size
                (read_chunks scan_hex to_string (suc fuel) s m
                  (stored ++ take size (drop (i + 2) bytes)) (drop (i + 2 + size + 2) bytes))
                (read_chunks scan_hex to_string fuel s m (stored ++ take size (drop (i + 2) bytes))
                  (drop (i + 2 + size + 2) bytes))
                (λ room.
                  read_chunks-enough fuel (stored ++ take size (drop (i + 2) bytes))
                    (drop (i + 2 + size + 2) bytes)
                    (omega (arith, le, room, length-drop (i + 2 + size + 2) bytes)))))
    ]
  ]
