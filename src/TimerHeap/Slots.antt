-- ===== src/TimerHeap/Slots.antt =====
-- The binary heap of src/brickred/timer_heap.cc, `minHeapInsert` to `minHeapTop`. A `Timer *` is
-- the timer's id, and `slot` is timer_min_heap_, whose place 0 holds a null pointer that is never
-- read. `heap_pos` is the field heap_pos_ of every timer. The loops run on fuel.
use brickred_server.Base.{
  ℕ, zero, suc, ◌+◌, ◌-◌, ◌*◌, ◌/◌, Bool, ◌&&◌, not, Option, none, some, ltb, leb, ◌==◌,
  if◌then◌else◌,
}
use brickred_server.Base.Int.{ℤ, pos, negsuc, pos_part, ltb_ℤ}
use brickred_server.Timestamp.{Timestamp, less}

pub record MinHeap : Type 0 where
  pub size : ℕ
  pub slot : ℕ → ℕ
  pub heap_pos : ℕ → ℤ

abbrev pub put {ℓ} : {A : Type ℓ} → (ℕ → A) → ℕ → A → ℕ → A
put f i a j = if j == i then a else f j

-- The vector with its null pointer.
abbrev pub empty : MinHeap
empty = record { size = 1; slot = λ i. 0; heap_pos = λ id. negsuc 0 }

-- The swap of two places, each timer told where it is going.
abbrev pub swap : MinHeap → ℕ → ℕ → MinHeap
swap h a b = record h {
  slot = put (put h.slot a (h.slot b)) b (h.slot a);
  heap_pos = put (put h.heap_pos (h.slot b) (pos a)) (h.slot a) (pos b);
}

unfoldable pub min_heap_top : MinHeap → Option ℕ
min_heap_top h = if leb h.size 1 then none else some (h.slot 1)

-- The last timer moves to place `cur`. The timer erased may be that one, and is then told that
-- it is there.
abbrev pub fill : MinHeap → ℕ → ℕ → MinHeap
fill h timer cur =
    let last = h.slot (h.size - 1) in
    record {
      size = h.size - 1;
      slot = put h.slot cur last;
      heap_pos = put (put h.heap_pos timer (negsuc 0)) last (pos cur);
    }

module _ (stamp : ℕ → Timestamp) where
  abbrev pub earlier : ℕ → ℕ → Bool
  earlier a b = less (stamp a) (stamp b)

  unfoldable pub min_heap_shift_up : ℕ → MinHeap → ℕ → MinHeap
  min_heap_shift_up zero h cur = h
  min_heap_shift_up (suc fuel) h cur =
      let parent = cur / 2 in
      let rest = min_heap_shift_up fuel (swap h cur parent) parent in
      if parent == 0 then h else if earlier (h.slot cur) (h.slot parent) then rest else h

  -- The child that is compared with its parent.
  abbrev pub child_index : MinHeap → ℕ → ℕ
  child_index h cur =
      let left = cur * 2 in
      if ltb (left + 1) h.size && earlier (h.slot (left + 1)) (h.slot left) then left + 1 else left

  unfoldable pub min_heap_shift_down : ℕ → MinHeap → ℕ → MinHeap
  min_heap_shift_down zero h cur = h
  min_heap_shift_down (suc fuel) h cur =
      let child = child_index h cur in
      let rest = min_heap_shift_down fuel (swap h child cur) child in
      if leb h.size (cur * 2) then h else if earlier (h.slot child) (h.slot cur) then rest else h

  unfoldable pub min_heap_insert : MinHeap → ℕ → MinHeap
  min_heap_insert h timer =
      min_heap_shift_up h.size
        (record {
          size = h.size + 1;
          slot = put h.slot h.size timer;
          heap_pos = put h.heap_pos timer (pos h.size);
        })
        h.size

  abbrev pub settle : MinHeap → ℕ → MinHeap
  settle h cur =
      let parent = cur / 2 in
      if leb h.size cur
      then h
      else if not (parent == 0) && earlier (h.slot cur) (h.slot parent)
      then min_heap_shift_up h.size h cur
      else min_heap_shift_down h.size h cur

  unfoldable pub min_heap_erase : MinHeap → ℕ → MinHeap
  min_heap_erase h timer =
      if ltb_ℤ (h.heap_pos timer) (pos 0)
      then h
      else settle (fill h timer (pos_part (h.heap_pos timer))) (pos_part (h.heap_pos timer))
