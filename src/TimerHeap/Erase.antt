-- ===== src/TimerHeap/Erase.antt =====
-- `minHeapInsert`, `minHeapErase` and `minHeapTop` of timer_heap.cc keep the heap.
use mathlib.Core.Logic.{◌≢◌}
use brickred_server.Base.{
  ℕ, zero, suc, ◌+◌, ◌-◌, ◌/◌, ◌≤◌, ◌<◌, ◌≡◌, refl, ap, subst, ◌∙◌, none, some, ◌⊎◌, sym, Bool,
  true, false, ◌&&◌, not, arith, leb, ◌==◌, Bool-cases, inl, inr,
}
use brickred_server.Base.Int.{pos, pos_part, ltb_ℤ}
use brickred_server.Timestamp.{Timestamp}
use brickred_server.TimerHeap.Slots.{
  MinHeap, put, fill, settle, earlier, min_heap_insert, min_heap_erase, min_heap_top,
}
use brickred_server.TimerHeap.HeapOrder.{
  NotAfter, NotAfter-refl, NotAfter-less, Holds, slots_differ, Edge, IsHeap, IsTimerHeap,
  Edge-trans,
}
use brickred_server.TimerHeap.ShiftUp.{shift_up_lem}
use brickred_server.TimerHeap.ShiftDown.{shift_down_lem}

module _ (stamp : ℕ → Timestamp) (member : ℕ → Bool) where
  -- A new timer goes into the heap.
  pub min_heap_insert_lem :
      (h : MinHeap) (timer : ℕ)
      → IsTimerHeap stamp member h.size h
      → member timer ≡ false
      → IsTimerHeap stamp (put member timer true) (h.size + 1) (min_heap_insert stamp h timer)
  unfolding min_heap_insert
  min_heap_insert_lem h timer v new =
      let grown : MinHeap = record {
        size = h.size + 1;
        slot = put h.slot h.size timer;
        heap_pos = put h.heap_pos timer (pos h.size);
      } in
      let hold = v.holding in
      shift_up_lem stamp h.size grown h.size (omega arith) hold.start (omega arith)
        (record {
          start = omega arith;
          known = λ i p q. ground (arith, hold.known i p);
          placed = λ i p q. ground (arith, hold.known i p, hold.placed i p, new);
          found = λ id m. elim (Bool-cases (id == timer)) [
            | inl e ↦ record {
              index = h.size;
              positive = hold.start;
              below = omega arith;
              holds = ground arith;
            }
            | inr d ↦
                let w = hold.found id (ground arith) in
                record {
                  index = w.index;
                  positive = w.positive;
                  below = omega (arith, w.below);
                  holds = ground (arith, w.holds, w.below);
                }
          ];
        })
        (record {
          others = λ i p q d. ground (arith, v.order i p);
          around = λ i p q e t. absurd (omega arith);
        })

  fill-Holds :
      (h : MinHeap) (timer cur : ℕ)
      → Holds member h
      → 1 ≤ cur
      → cur < h.size
      → h.slot cur ≡ timer
      → Holds (put member timer false) (fill h timer cur)
  fill-Holds h timer cur v p q e = record {
    start = omega arith;
    known = λ i l u. ground (
      arith,
      v.known i l,
      v.known (h.size - 1),
      slots_differ h i cur v l,
      slots_differ h (h.size - 1) cur v,
    );
    placed = λ i l u. ground (
      arith,
      v.placed i l,
      slots_differ h i cur v l,
      slots_differ h i (h.size - 1) v l,
      slots_differ h (h.size - 1) cur v,
    );
    found = λ id m.
        let w = v.found id (ground arith) in
        elim (Bool-cases (w.index == (h.size - 1))) [
          | inl last ↦ record {
            index = cur;
            positive = p;
            below = ground (arith, w.holds, e);
            holds = ground (arith, w.holds);
          }
          | inr d ↦ record {
            index = w.index;
            positive = w.positive;
            below = ground (arith, w.below);
            holds = ground (arith, w.holds, e);
          }
        ];
  }

  module _ (h : MinHeap) (timer cur : ℕ) (v : IsTimerHeap stamp member h.size h) (p : 1 ≤ cur)
      (q : cur < h.size) where
    -- A place whose timer is replaced: all is in order but for the edges at it.
    filled-Edge :
        (i : ℕ)
        → 2 ≤ i
        → i < h.size - 1
        → i ≢ cur
        → i / 2 ≢ cur
        → Edge stamp (fill h timer cur) (i / 2) i
    filled-Edge i l u a b = ground (arith, v.order i l)

    filled_around :
        (i : ℕ)
        → 2 ≤ i
        → i < h.size - 1
        → i / 2 ≡ cur
        → 2 ≤ cur
        → Edge stamp (fill h timer cur) (cur / 2) i
    filled_around i l u e t =
        ground (arith, v.order i l, v.order cur t q, Edge-trans stamp h (cur / 2) cur i)

    settle_lem :
        h.slot cur ≡ timer
        → IsTimerHeap stamp
            (put member timer false)
            (h.size - 1)
            (settle stamp (fill h timer cur) cur)
    settle_lem e =
        let hold = fill-Holds h timer cur v.holding p q e in
        let f = fill h timer cur in
        elim (Bool-cases (leb (h.size - 1) cur)) [
          | inl last ↦ rw last (record {
            holding = hold;
            order = λ i l u. filled-Edge i l u (ground arith) (ground arith);
            same_size = refl;
          })
          | inr inner ↦
              let few : cur < h.size - 1 = ground arith in
              elim (Bool-cases
                (not (cur / 2 == 0) && earlier stamp (f.slot cur) (f.slot (cur / 2)))) [
                  | inl up ↦
                      let t : 2 ≤ cur = ground arith in
                      let lt : Edge stamp f cur (cur / 2) =
                        NotAfter-less _ _ (ground (arith, up)) in
                      rw (inner, up)
                        (shift_up_lem stamp (h.size - 1) f cur (omega arith) p few hold (record {
                          others = λ i l u d. elim (Bool-cases (i / 2 == cur)) [
                            | inl c ↦
                                let same : i / 2 ≡ cur = ground arith in
                                subst (λ j. Edge stamp f j i) (sym same)
                                  (Edge-trans stamp f cur (cur / 2) i lt
                                    (filled_around i l u same t))
                            | inr c ↦ filled-Edge i l u d (λ x. ground arith)
                          ];
                          around = filled_around;
                        }))
                  | inr down ↦
                      rw (inner, down)
                        (shift_down_lem stamp (h.size - 1) f cur (omega arith) p few hold (record {
                          others = λ i l u d. elim (Bool-cases (i == cur)) [
                            | inl c ↦
                                let same : i ≡ cur = ground arith in
                                subst (λ j. Edge stamp f (j / 2) j) (sym same)
                                  (ground (arith, down))
                            | inr c ↦ filled-Edge i l u (λ x. ground arith) d
                          ];
                          around = filled_around;
                        }))
                ]
        ]

  -- A timer of the heap leaves it.
  pub min_heap_erase_lem :
      (h : MinHeap) (timer : ℕ)
      → IsTimerHeap stamp member h.size h
      → member timer ≡ true
      → IsTimerHeap stamp (put member timer false) (h.size - 1) (min_heap_erase stamp h timer)
  unfolding min_heap_erase
  min_heap_erase_lem h timer v m =
      let w = v.holding.found timer m in
      let at : h.heap_pos timer ≡ pos w.index =
        ap h.heap_pos (sym w.holds) ∙ v.holding.placed w.index w.positive w.below in
      let here : ltb_ℤ (h.heap_pos timer) (pos 0) ≡ false = rw at (ground arith) in
      let index : pos_part (h.heap_pos timer) ≡ w.index = ap pos_part at in
      rw here (
        settle_lem h timer (pos_part (h.heap_pos timer)) v (omega (arith, index, w.positive))
          (omega (arith, index, w.below)) (ap h.slot index ∙ w.holds))

  -- No timer of the heap is earlier than the top.
  top_least :
      (h : MinHeap) (fuel i : ℕ) → IsHeap stamp h → i ≤ fuel → 1 ≤ i → i < h.size → Edge stamp h 1 i
  top_least h zero i o f p q = absurd (omega arith)
  top_least h (suc fuel) i o f p q = elim (Bool-cases (i == 1)) [
    | inl e ↦
        let same : i ≡ 1 = ground arith in
        subst (λ j. Edge stamp h 1 j) (sym same) (NotAfter-refl _)
    | inr d ↦
        Edge-trans stamp h 1 (i / 2) i
          (top_least h fuel (i / 2) o (ground arith) (ground arith) (omega arith))
          (o i (ground arith) q)
  ]

  pub min_heap_top_lem :
      (h : MinHeap)
      → IsTimerHeap stamp member h.size h
      → ((min_heap_top h ≡ none) × ((id : ℕ) → member id ≡ false))
        ⊎ ((top : ℕ) × ((min_heap_top h ≡ some top)
              × ((member top ≡ true)
                  × ((id : ℕ) → member id ≡ true → NotAfter (stamp top) (stamp id)))))
  unfolding min_heap_top
  min_heap_top_lem h v = elim (Bool-cases (leb h.size 1)) [
    | inl e ↦ inl (
      rw e refl,
      λ id. elim (Bool-cases (member id)) [
        | inl m ↦ let w = v.holding.found id m in absurd (ground (arith, w.below, w.positive))
        | inr n ↦ n
      ],
    )
    | inr d ↦ inr (
      h.slot 1,
      (
        rw d refl,
        (
          v.holding.known 1 (omega arith) (ground arith),
          λ id m.
              let w = v.holding.found id m in
              subst (λ k. NotAfter (stamp (h.slot 1)) (stamp k)) w.holds
                (top_least h h.size w.index v.order (omega (arith, w.below)) w.positive w.below),
        ),
      ),
    )
  ]
