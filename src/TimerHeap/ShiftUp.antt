-- ===== src/TimerHeap/ShiftUp.antt =====
-- `minHeapShiftUp` of timer_heap.cc restores the order of the heap.
use mathlib.Core.Logic.{◌≢◌}
use brickred_server.Base.{
  ℕ, zero, suc, ◌/◌, ◌≤◌, ◌<◌, ◌≡◌, refl, subst, sym, Bool, arith, ◌==◌, Bool-cases, inl, inr,
}
use brickred_server.Timestamp.{Timestamp}
use brickred_server.TimerHeap.Slots.{MinHeap, swap, earlier, min_heap_shift_up}
use brickred_server.TimerHeap.HeapOrder.{
  NotAfter-less, Holds, swap-Holds, Edge, IsHeap, IsTimerHeap, Edge-trans,
}

module _ (stamp : ℕ → Timestamp) where
  -- All is in order but the timer of one place, which may be too early.
  pub record UpTo (h : MinHeap) (cur : ℕ) : Type 0 where
    pub others : (i : ℕ) → 2 ≤ i → i < h.size → i ≢ cur → Edge stamp h (i / 2) i
    pub around : (i : ℕ) → 2 ≤ i → i < h.size → i / 2 ≡ cur → 2 ≤ cur → Edge stamp h (cur / 2) i

  swap-UpTo :
      (h : MinHeap) (cur : ℕ)
      → UpTo h cur
      → 2 ≤ cur
      → cur < h.size
      → Edge stamp h cur (cur / 2)
      → UpTo (swap h cur (cur / 2)) (cur / 2)
  swap-UpTo h cur v l u lt = record {
    others = λ i p q n.
        ground (arith, v.others i p q, v.around i p q, lt, Edge-trans stamp h cur (cur / 2) i);
    around = λ i p q e m.
        ground
          (arith, v.others i p q, v.others (cur / 2), Edge-trans stamp h (cur / 2 / 2) (cur / 2) i);
  }

  UpTo-IsHeap :
      (h : MinHeap) (cur : ℕ)
      → UpTo h cur
      → (2 ≤ cur → cur < h.size → Edge stamp h (cur / 2) cur)
      → IsHeap stamp h
  UpTo-IsHeap h cur o last i p q = elim (Bool-cases (i == cur)) [
    | inl e ↦
        let same : i ≡ cur = ground arith in
        subst (λ j. Edge stamp h (j / 2) j) (sym same) (last (omega arith) (omega arith))
    | inr d ↦ o.others i p q (λ e. ground arith)
  ]

  pub shift_up_lem :
      {member : ℕ → Bool} (fuel : ℕ) (h : MinHeap) (cur : ℕ)
      → cur ≤ fuel
      → 1 ≤ cur
      → cur < h.size
      → Holds member h
      → UpTo h cur
      → IsTimerHeap stamp member h.size (min_heap_shift_up stamp fuel h cur)
  unfolding min_heap_shift_up
  shift_up_lem zero h cur f l u v o = absurd (omega arith)
  shift_up_lem (suc fuel) h cur f l u v o = elim (Bool-cases (cur / 2 == 0)) [
    | inl root ↦ rw root (record {
      holding = v;
      order = UpTo-IsHeap h cur o (λ p q. absurd (ground arith));
      same_size = refl;
    })
    | inr below ↦
        let two : 2 ≤ cur = ground arith in
        elim (Bool-cases (earlier stamp (h.slot cur) (h.slot (cur / 2)))) [
          | inl lt ↦
              rw (below, lt)
                (shift_up_lem fuel (swap h cur (cur / 2)) (cur / 2) (omega arith) (omega arith)
                  (omega arith)
                  (swap-Holds h cur (cur / 2) v l u (omega arith) (omega arith) (λ e. omega arith))
                  (swap-UpTo h cur o two u (NotAfter-less _ _ lt)))
          | inr settled ↦
              rw (below, settled)
                (record {
                  holding = v;
                  order = UpTo-IsHeap h cur o (λ p q. settled);
                  same_size = refl;
                })
        ]
  ]
