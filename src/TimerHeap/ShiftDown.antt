-- ===== src/TimerHeap/ShiftDown.antt =====
-- `minHeapShiftDown` of timer_heap.cc restores the order of the heap.
use mathlib.Core.Logic.{◌≢◌}
use brickred_server.Base.{
  ℕ, zero, suc, ◌+◌, ◌*◌, ◌/◌, ◌≤◌, ◌<◌, ◌≡◌, refl, subst, sym, Bool, ◌&&◌, arith, ltb, leb, ◌==◌,
  Bool-cases, inl, inr,
}
use brickred_server.Timestamp.{Timestamp}
use brickred_server.TimerHeap.Slots.{MinHeap, swap, earlier, child_index, min_heap_shift_down}
use brickred_server.TimerHeap.HeapOrder.{
  NotAfter-refl, NotAfter-less, Holds, swap-Holds, Edge, IsHeap, IsTimerHeap, Edge-trans,
}

module _ (stamp : ℕ → Timestamp) where
  -- All is in order but the timer of one place, which may be too late.
  pub record DownFrom (h : MinHeap) (cur : ℕ) : Type 0 where
    pub others : (i : ℕ) → 2 ≤ i → i < h.size → i / 2 ≢ cur → Edge stamp h (i / 2) i
    pub around : (i : ℕ) → 2 ≤ i → i < h.size → i / 2 ≡ cur → 2 ≤ cur → Edge stamp h (cur / 2) i

  swap-DownFrom :
      (h : MinHeap) (cur child : ℕ)
      → DownFrom h cur
      → 1 ≤ cur
      → child < h.size
      → child / 2 ≡ cur
      → Edge stamp h child cur
      → ((i : ℕ) → i < h.size → i / 2 ≡ cur → Edge stamp h child i)
      → DownFrom (swap h child cur) child
  swap-DownFrom h cur child v l u c lt least = record {
    others =
        λ i p q n. ground (arith, v.others i p q, v.around i p q, v.around child, lt, least i q);
    around = λ i p q e m. ground (arith, v.others i p q);
  }

  child_index_lem :
      (h : MinHeap) (cur : ℕ)
      → cur * 2 < h.size
      → ((child_index stamp h cur / 2 ≡ cur) × (child_index stamp h cur < h.size))
        × ((i : ℕ) → i < h.size → i / 2 ≡ cur → Edge stamp h (child_index stamp h cur) i)
  child_index_lem h cur u =
      elim (Bool-cases
        (ltb (cur * 2 + 1) h.size && earlier stamp (h.slot (cur * 2 + 1)) (h.slot (cur * 2)))) [
          | inl right ↦ rw right (
            (omega arith, ground arith),
            λ i q e. ground (
              arith,
              NotAfter-refl (stamp (h.slot i)),
              NotAfter-less (stamp (h.slot (cur * 2 + 1))) (stamp (h.slot (cur * 2))),
            ),
          )
          | inr left ↦ rw left (
            (omega arith, ground arith),
            λ i q e. ground (arith, NotAfter-refl (stamp (h.slot i))),
          )
        ]

  DownFrom-IsHeap :
      (h : MinHeap) (cur : ℕ)
      → DownFrom h cur
      → ((i : ℕ) → i < h.size → i / 2 ≡ cur → Edge stamp h cur i)
      → IsHeap stamp h
  DownFrom-IsHeap h cur o last i p q = elim (Bool-cases (i / 2 == cur)) [
    | inl e ↦
        let same : i / 2 ≡ cur = ground arith in
        subst (λ j. Edge stamp h j i) (sym same) (last i q same)
    | inr d ↦ o.others i p q (λ e. ground arith)
  ]

  pub shift_down_lem :
      {member : ℕ → Bool} (fuel : ℕ) (h : MinHeap) (cur : ℕ)
      → h.size ≤ cur + fuel
      → 1 ≤ cur
      → cur < h.size
      → Holds member h
      → DownFrom h cur
      → IsTimerHeap stamp member h.size (min_heap_shift_down stamp fuel h cur)
  unfolding min_heap_shift_down
  shift_down_lem zero h cur f l u v o = absurd (omega arith)
  shift_down_lem (suc fuel) h cur f l u v o = elim (Bool-cases (leb h.size (cur * 2))) [
    | inl leaf ↦ rw leaf (record {
      holding = v;
      order = DownFrom-IsHeap h cur o (λ i q e. absurd (ground arith));
      same_size = refl;
    })
    | inr inner ↦
        let few : cur * 2 < h.size = ground arith in
        let c = child_index_lem h cur few in
        let child = child_index stamp h cur in
        elim (Bool-cases (earlier stamp (h.slot child) (h.slot cur))) [
          | inl lt ↦
              rw (inner, lt)
                (shift_down_lem fuel (swap h child cur) child (omega (arith, c.0))
                  (omega (arith, c.0)) (c.0.1)
                  (swap-Holds h child cur v (omega (arith, c.0)) (c.0.1) l u
                    (λ e. omega (arith, c.0)))
                  (swap-DownFrom h cur child o l (c.0.1) (c.0.0) (NotAfter-less _ _ lt) (c.1)))
          | inr settled ↦
              rw (inner, settled)
                (record {
                  holding = v;
                  order =
                      DownFrom-IsHeap h cur o
                        (λ i q e. Edge-trans stamp h cur child i settled (c.1 i q e));
                  same_size = refl;
                })
        ]
  ]
