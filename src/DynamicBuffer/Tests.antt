-- ===== src/DynamicBuffer/Tests.antt =====
-- Runs of dynamic_buffer.cc on small buffers, and its theorems at such inputs.
use brickred_server.Base.{
  ◌+◌, ◌≤◌, ◌≡◌, refl, true, false, some, none, List, [], ◌∷◌, length, arith,
}
use brickred_server.DynamicBuffer.{
  discardable_bytes, readable, store, writable_bytes, Buffer, store, writable_bytes,
  discardable_bytes, readable, reserve_writable_bytes, readable_bytes,
}
use brickred_server.DynamicBuffer.Invariant.{IsValid}
use brickred_server.DynamicBuffer.Contents.{room_after_reserve}
use brickred_server.DynamicBuffer.Integers.{write_bytes}
use brickred_server.DynamicBuffer.Queue
use brickred_server.DynamicBuffer.Queue.{
  w16, w32, Op, put_int, put_bytes, peek_int, get_int, get_bytes, skip, reserve, done, int, octets,
}
use brickred_server.DynamicBuffer.Refine.{run, run_refines}

-- Two readable bytes, 8 and 7, and one free byte at the end.
abbrev sample : Buffer
sample = record { bytes = 9 ∷ 8 ∷ 7 ∷ 6 ∷ []; expand_size = 4; read_index = 1; write_index = 3 }

sample-IsValid : IsValid sample
sample-IsValid = omega arith

abbrev script : List Op
script =
    put_int w16 false 0x1234
    ∷ put_bytes (1 ∷ 2 ∷ [])
    ∷ peek_int w16 2 false
    ∷ get_bytes 2
    ∷ get_int w32 true
    ∷ get_int w16 true
    ∷ []

run-sample :
    run sample script
    ≡ done ∷ done ∷ int (some 0x1234) ∷ octets (8 ∷ 7 ∷ []) ∷ int (some 0x02013412) ∷ int none ∷ []
unfolding Queue.run Queue.step
run-sample = run_refines script sample-IsValid (omega arith) (omega arith)

-- The second byte of an integer forces the storage to grow in one step of four.
grows : length (write_bytes (record sample { read_index = 0 }) (1 ∷ 2 ∷ [])).bytes ≡ 8
unfolding write_bytes reserve_writable_bytes store writable_bytes discardable_bytes readable
    readable_bytes
grows = refl

run_refines_example : run sample script ≡ Queue.run (8 ∷ 7 ∷ []) script
run_refines_example = run_refines script sample-IsValid (omega arith) (omega arith)

room_after_reserve_example :
    let b' = reserve_writable_bytes sample 9 in
    (b'.write_index + 9 ≤ length b'.bytes) × (4 ≤ length b'.bytes) × (b'.expand_size ≡ 4)
room_after_reserve_example = room_after_reserve 9 sample-IsValid (omega arith)
