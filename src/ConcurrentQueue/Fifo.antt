-- ===== src/ConcurrentQueue/Fifo.antt =====
-- Runs of several threads on the queue of src/brickred/concurrent_queue.h.
use brickred_server.Base.{
  suc, ◌≤◌, ◌≡◌, ◌⊎◌, refl, sym, ap, ◌∙◌, Bool, false, Bool-cases, inl, inr, Option, none, some,
  List, [], ◌∷◌, ◌++◌, append-nil, append_assoc, length, if◌then◌else◌, arith, length-append,
}
use brickred_server.ConcurrentQueue.{
  ConcurrentQueue, full_no_lock, push, push_if_not_full, pop, pop_if_not_empty, pop_items,
}

-- A call that some thread makes.
pub data Call {ℓ} (A : Type ℓ) : Type ℓ where
  put : A → Call A
  try_put : A → Call A
  take_out : Call A
  try_take_out : Call A
  look : Call A

-- What a call puts in, what it hands out, and the queue after. A call that waits does neither.
pub record Outcome {ℓ} (A : Type ℓ) : Type ℓ where
  pub accepted : List A
  pub delivered : List A
  pub queue : ConcurrentQueue A

module _ {ℓ} {A : Type ℓ} where
  abbrev taken : ConcurrentQueue A → Option (A × ConcurrentQueue A) → Outcome A
  taken q none = record { accepted = []; delivered = []; queue = q }
  taken q (some (item, q')) = record { accepted = []; delivered = item ∷ []; queue = q' }

  abbrev put_in : ConcurrentQueue A → A → Option (ConcurrentQueue A) → Outcome A
  put_in q item none = record { accepted = []; delivered = []; queue = q }
  put_in q item (some q') = record { accepted = item ∷ []; delivered = []; queue = q' }

  abbrev tried : A → Bool × ConcurrentQueue A → Outcome A
  tried item (ok, q') = record {
    accepted = if ok then item ∷ [] else [];
    delivered = [];
    queue = q';
  }

  abbrev tried_out : Option A × ConcurrentQueue A → Outcome A
  tried_out (none, q') = record { accepted = []; delivered = []; queue = q' }
  tried_out (some item, q') = record { accepted = []; delivered = item ∷ []; queue = q' }

  unfoldable pub exec : ConcurrentQueue A → Call A → Outcome A
  unfolding push push_if_not_full pop pop_if_not_empty
  exec q (put item) = put_in q item (push q item)
  exec q (try_put item) = tried item (push_if_not_full q item)
  exec q take_out = taken q (pop q)
  exec q try_take_out = tried_out (pop_if_not_empty q)
  exec q look = record { accepted = []; delivered = []; queue = q }

  -- A run: everything that was put in and that was handed out, each in its order.
  unfoldable pub run : ConcurrentQueue A → List (Call A) → Outcome A
  unfolding exec
  run q [] = record { accepted = []; delivered = []; queue = q }
  run q (call ∷ calls) =
      let now : Outcome A = exec q call in
      let later : Outcome A = run now.queue calls in
      record {
        accepted = now.accepted ++ later.accepted;
        delivered = now.delivered ++ later.delivered;
        queue = later.queue;
      }

  -- There is no limit, or the number of items is within it.
  abbrev pub Bounded : ConcurrentQueue A → Type 0
  Bounded q = (q.is_bounded ≡ false) ⊎ (length q.items ≤ q.max_size)

  -- What one call keeps: the order of the items, the limit, and that it is not passed.
  record Keeps (q : ConcurrentQueue A) (o : Outcome A) : Type ℓ where
    order : q.items ++ o.accepted ≡ o.delivered ++ o.queue.items
    same_size : o.queue.max_size ≡ q.max_size
    same_kind : o.queue.is_bounded ≡ q.is_bounded
    within : Bounded q → Bounded o.queue

  idle : (q : ConcurrentQueue A) → Keeps q (record { accepted = []; delivered = []; queue = q })
  idle q = record {
    order = append-nil q.items;
    same_size = refl;
    same_kind = refl;
    within = λ h. h;
  }

  pushed :
      (q : ConcurrentQueue A) (item : A)
      → full_no_lock q ≡ false
      → Keeps q (record {
        accepted = item ∷ [];
        delivered = [];
        queue = record q { items = q.items ++ (item ∷ []) };
      })
  unfolding full_no_lock
  pushed q item room = record {
    order = refl;
    same_size = refl;
    same_kind = refl;
    within = λ h. elim (Bool-cases q.is_bounded) [
      | inl limited ↦ inr (ground (arith, length-append q.items (item ∷ [])))
      | inr unlimited ↦ inl unlimited
    ];
  }

  taken-Keeps :
      (q : ConcurrentQueue A) (items : List A)
      → q.items ≡ items
      → Keeps q (taken q (pop_items q items))
  unfolding pop_items
  taken-Keeps q [] e = idle q
  taken-Keeps q (x ∷ rest) e = record {
    order = append-nil q.items ∙ e;
    same_size = refl;
    same_kind = refl;
    within =
        λ h. elim h [ inl unlimited ↦ inl unlimited | inr fits ↦ inr (omega (arith, ap length e)) ];
  }

  tried_out-Keeps :
      (q : ConcurrentQueue A) (items : List A)
      → q.items ≡ items
      → Keeps q (
          tried_out
            (elim (pop_items q items) [ none ↦ (none, q) | some (item, q') ↦ (some item, q') ]))
  unfolding pop_items
  tried_out-Keeps q [] e = idle q
  tried_out-Keeps q (x ∷ rest) e = taken-Keeps q (x ∷ rest) e

  exec-Keeps : (q : ConcurrentQueue A) (call : Call A) → Keeps q (exec q call)
  unfolding exec push push_if_not_full pop pop_if_not_empty
  exec-Keeps q (put item) = elim (Bool-cases (full_no_lock q)) [
    | inl full ↦ rw full (idle q)
    | inr room ↦ rw room (pushed q item room)
  ]
  exec-Keeps q (try_put item) = elim (Bool-cases (full_no_lock q)) [
    | inl full ↦ rw full (idle q)
    | inr room ↦ rw room (pushed q item room)
  ]
  exec-Keeps q take_out = taken-Keeps q q.items refl
  exec-Keeps q try_take_out = tried_out-Keeps q q.items refl
  exec-Keeps q look = idle q

  -- In every run of calls, by whatever threads, on a queue within its limit the items come out in
  -- the order in which they went in: those that were there and those put in are those handed out
  -- and those that are left. The queue stays within its limit, and the limit stays what it was.
  pub run_fifo :
      (q : ConcurrentQueue A) (calls : List (Call A))
      → Bounded q
      → (q.items ++ (run q calls).accepted ≡ (run q calls).delivered ++ (run q calls).queue.items)
        × (Bounded (run q calls).queue × ((run q calls).queue.max_size ≡ q.max_size))
  unfolding run
  run_fifo q [] h = (append-nil q.items, (h, refl))
  run_fifo q (call ∷ calls) h =
      let now : Outcome A = exec q call in
      let kept : Keeps q now = exec-Keeps q call in
      let later = run_fifo now.queue calls (kept.within h) in
      (
        sym (append_assoc q.items now.accepted (run now.queue calls).accepted)
            ∙ ap (λ (z : List A). z ++ (run now.queue calls).accepted) kept.order
            ∙ append_assoc now.delivered now.queue.items (run now.queue calls).accepted
            ∙ ap (λ (z : List A). now.delivered ++ z) later.0
            ∙ sym (
                append_assoc now.delivered (run now.queue calls).delivered
                  (run now.queue calls).queue.items),
        (later.1.0, later.1.1 ∙ kept.same_size),
      )

  room_after_pop :
      (q q' : ConcurrentQueue A) (x : A) (items : List A)
      → q.items ≡ items
      → Bounded q
      → pop_items q items ≡ some (x, q')
      → full_no_lock q' ≡ false
  unfolding full_no_lock pop_items
  room_after_pop q q' x [] e h popped = absurd (ground arith)
  room_after_pop q q' x (y ∷ rest) e h popped =
      let after : record q { items = rest } ≡ q' =
        ap (λ (o : Option (A × ConcurrentQueue A)). elim o [ none ↦ q | some (a, b) ↦ b ]) popped in
      rw (← after) (elim h [
        | inl unlimited ↦ rw unlimited refl
        | inr fits ↦
            let room : suc (length rest) ≤ q.max_size = omega (arith, ap length e) in ground arith
      ])

  -- A thread that waits in `push` can go on after a `pop`: on a queue within its limit, `push`
  -- after a `pop` that succeeded does not wait, and puts its item behind the others.
  pub push-pop :
      (q q' : ConcurrentQueue A) (x item : A)
      → Bounded q
      → pop q ≡ some (x, q')
      → push q' item ≡ some (record q' { items = q'.items ++ (item ∷ []) })
  unfolding pop push
  push-pop q q' x item h e = rw (room_after_pop q q' x q.items refl h e) refl
