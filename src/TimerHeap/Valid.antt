-- ===== src/TimerHeap/Valid.antt =====
-- The invariant of the timers of timer_heap.cc, kept by each operation.
use brickred_server.Base.{
  ℕ, ◌/◌, ◌≡◌, refl, subst, ◌∙◌, sym, Bool, true, false, not, ◌&&◌, arith, ◌==◌, Bool-cases, inl,
  inr,
}
use brickred_server.Base.Int.{pos, negsuc, eqb_ℤ}
use brickred_server.Timestamp.{Timestamp}
use brickred_server.Timestamp.Order.{IsNormal, add-IsNormal}
use brickred_server.TimerHeap.{
  Timer, TimerHeap, stamps, new, enter, get_timeout, drop_timer, remove_timer, again, repeat_timer,
  fire,
}
use brickred_server.TimerHeap.Slots.{MinHeap, put, min_heap_erase}
use brickred_server.TimerHeap.HeapOrder.{Holds, IsHeap, IsTimerHeap}
use brickred_server.TimerHeap.Erase.{min_heap_insert_lem, min_heap_erase_lem}

resize :
    {stamp : ℕ → Timestamp} {member : ℕ → Bool} {n : ℕ} {h : MinHeap}
    → IsTimerHeap stamp member n h
    → IsTimerHeap stamp member h.size h
resize v = record { holding = v.holding; order = v.order; same_size = refl }

restamp :
    {member : ℕ → Bool} (h : MinHeap) (stamp other : ℕ → Timestamp)
    → Holds member h
    → IsHeap stamp h
    → ((id : ℕ) → member id ≡ true → other id ≡ stamp id)
    → IsHeap other h
restamp h stamp other v o e i p q =
    rw (e _ (v.known i (omega arith) q), e _ (v.known (i / 2) (omega arith) (omega arith)))
      (o i p q)

same_members :
    {stamp : ℕ → Timestamp} {member other : ℕ → Bool} {n : ℕ} {h : MinHeap}
    → ((id : ℕ) → member id ≡ other id)
    → IsTimerHeap stamp member n h
    → IsTimerHeap stamp other n h
same_members e v = record {
  holding = record {
    start = v.holding.start;
    known = λ i p q. sym (e _) ∙ v.holding.known i p q;
    placed = v.holding.placed;
    found = λ id m. v.holding.found id (e id ∙ m);
  };
  order = v.order;
  same_size = v.same_size;
}

module _ {C : Type 0} where
  -- The heap holds the known timers, each where it says it is, no timer earlier than its parent.
  pub record IsValid (h : TimerHeap C) : Type 0 where
    pub ordered : IsTimerHeap (stamps h.timer) h.known h.heap.size h.heap
    pub normal : (id : ℕ) → h.known id ≡ true → IsNormal (stamps h.timer id)

  -- A new heap is valid.
  pub new-IsValid : (timer : ℕ → Timer C) → IsValid (new timer)
  new-IsValid timer = record {
    ordered = record {
      holding = record {
        start = omega arith;
        known = λ i p q. absurd (omega arith);
        placed = λ i p q. absurd (omega arith);
        found = λ id m. absurd (ground (arith, m));
      };
      order = λ i p q. absurd (omega arith);
      same_size = refl;
    };
    normal = λ id m. absurd (ground (arith, m));
  }

  put-IsNormal :
      (h : TimerHeap C) (id : ℕ) (t : Timer C)
      → IsValid h
      → IsNormal t.timestamp
      → (k : ℕ) → put h.known id true k ≡ true
      → IsNormal (stamps (put h.timer id t) k)
  put-IsNormal h id t v n k = elim (Bool-cases (k == id)) [
    | inl e ↦ λ m.
        let now : stamps (put h.timer id t) k ≡ t.timestamp = ground (arith, e) in
        subst IsNormal (sym now) n
    | inr d ↦ λ m.
        let same : stamps (put h.timer id t) k ≡ stamps h.timer k = ground (arith, d) in
        subst IsNormal (sym same) (v.normal k (ground (arith, m, d)))
  ]

  pub enter-IsValid :
      (h : TimerHeap C) (id : ℕ) (t : Timer C)
      → IsValid h
      → h.known id ≡ false
      → IsNormal t.timestamp
      → IsValid (enter h id t)
  enter-IsValid h id t v new n =
      let hold = v.ordered.holding in
      let timers = put h.timer id t in
      let before : MinHeap = record h.heap { heap_pos = put h.heap.heap_pos id (negsuc 0) } in
      let ready : IsTimerHeap (stamps timers) h.known h.heap.size before = record {
        holding = record {
          start = hold.start;
          known = hold.known;
          placed = λ i p q. ground (arith, hold.placed i p q, hold.known i p q, new);
          found = λ k m.
              let w = hold.found k m in
              record { index = w.index; positive = w.positive; below = w.below; holds = w.holds };
        };
        order =
            restamp h.heap (stamps h.timer) (stamps timers) hold v.ordered.order
              (λ k m. ground (m, new, arith));
        same_size = refl;
      } in
      let placed = min_heap_insert_lem (stamps timers) h.known before id ready new in
      record { ordered = resize placed; normal = put-IsNormal h id t v n }

  pub drop-IsValid :
      (h : TimerHeap C) (id : ℕ) → IsValid h → h.known id ≡ true → IsValid (drop_timer h id)
  drop-IsValid h id v m = record {
    ordered = resize (min_heap_erase_lem (stamps h.timer) h.known h.heap id v.ordered m);
    normal = λ k l. v.normal k (ground (arith, l));
  }

  repeat-IsValid :
      (h : TimerHeap C) (id : ℕ) → IsValid h → h.known id ≡ true → IsValid (repeat_timer h id)
  repeat-IsValid h id v m =
      let t = again (h.timer id) in
      let timers = put h.timer id t in
      let out = min_heap_erase_lem (stamps h.timer) h.known h.heap id v.ordered m in
      let left : IsTimerHeap (stamps timers) (put h.known id false)
          (min_heap_erase (stamps h.timer) h.heap id).size
          (min_heap_erase (stamps h.timer) h.heap id) =
        record {
          holding = out.holding;
          order =
              restamp _ (stamps h.timer) (stamps timers) out.holding out.order
                (λ k l. ground (l, arith));
          same_size = refl;
        } in
      let back : (k : ℕ) → put (put h.known id false) id true k ≡ h.known k =
        λ k. ground (arith, m) in
      let n = add-IsNormal (stamps h.timer id) (get_timeout (h.timer id)) (v.normal id m) in
      record {
        ordered = resize (
            same_members back (
              min_heap_insert_lem (stamps timers) (put h.known id false) _ id left (ground arith)));
        normal = λ k l. put-IsNormal h id t v n k (ground (arith, l));
      }

  -- A turn of `checkTimeout` keeps the invariant, whether the timer is to come again or not. It
  -- is forgotten just when it was called for the last time, and the others stay as they were.
  pub fire_lem :
      (h : TimerHeap C) (id : ℕ)
      → IsValid h
      → h.known id ≡ true
      → IsValid (fire h id)
        × (((k : ℕ)
              → (fire h id).known k
                ≡ (h.known k && not (k == id && eqb_ℤ (h.timer id).call_times (pos 1))))
            × ((k : ℕ) → (k == id) ≡ false → (fire h id).timer k ≡ h.timer k))
  unfolding fire
  fire_lem h id v m = elim (Bool-cases (eqb_ℤ (h.timer id).call_times (pos 1))) [
    | inl once ↦ rw once (drop-IsValid h id v m, ((λ k. ground arith), λ k d. refl))
    | inr more ↦ rw more (repeat-IsValid h id v m, ((λ k. ground arith), λ k d. rw d refl))
  ]

  -- `removeTimer` keeps the invariant; a known timer is forgotten, the others stay as they were.
  pub remove_timer_lem :
      (h : TimerHeap C) (id : ℕ)
      → IsValid h
      → IsValid (remove_timer h id)
        × (((k : ℕ) → (remove_timer h id).known k ≡ put h.known id false k)
            × ((remove_timer h id).timer ≡ h.timer))
  unfolding remove_timer
  remove_timer_lem h id v = elim (Bool-cases (h.known id)) [
    | inl m ↦ rw m (drop-IsValid h id v m, ((λ k. refl), refl))
    | inr new ↦ rw new (v, ((λ k. ground (arith, new)), refl))
  ]
