-- ===== src/TimerHeap/Adding.antt =====
-- `addTimer` of timer_heap.cc.
use brickred_server.Base.{
  ℕ, ◌*◌, ◌≡◌, refl, ap, ◌∙◌, true, false, ◌||◌, ◌⊎◌, arith, ◌==◌, Bool-cases, inl, inr,
}
use brickred_server.Base.Int.{ℤ, pos, negsuc, pos_part, ◌+ℤ◌, equal_parts}
use brickred_server.Timestamp.{Timestamp}
use brickred_server.Timestamp.Order.{IsNormal, Fits, nanos, add_lem, add-IsNormal, total_laws}
use brickred_server.TimerHeap.{Timer, TimerHeap, get_id, new_timer, add_timer}
use brickred_server.TimerHeap.Valid.{IsValid, enter-IsValid}

module _ {C : Type 0} where
  new_timer-IsNormal :
      (now : Timestamp) (timeout_ms : ℤ) (timer_cb : C) (call_times : ℤ)
      → IsNormal now
      → IsNormal (new_timer now timeout_ms timer_cb call_times).timestamp
  new_timer-IsNormal now m cb n v = add-IsNormal now (pos (pos_part m)) v

  -- The timer that `addTimer` is to make: due so many milliseconds after now, or now if the timeout
  -- is negative.
  pub record IsNewTimer (now : Timestamp) (timeout_ms : ℤ) (timer_cb : C) (call_times : ℤ)
      (t : Timer C) : Type 0 where
    pub due : nanos t.timestamp ≡ nanos now +ℤ pos (1000000 * pos_part timeout_ms)
    pub interval : t.timeout ≡ pos_part timeout_ms
    pub callback : t.timer_cb ≡ timer_cb
    pub calls : t.call_times ≡ call_times

  -- What `addTimer` leaves, and returns: -1 when the id it allots is taken, and otherwise the id of
  -- the new timer, which is known besides the old ones.
  abbrev pub IsAdded : TimerHeap C → Timestamp → ℤ → C → ℤ → TimerHeap C × ℤ → Type 0
  IsAdded h now timeout_ms timer_cb call_times (after, id) =
      IsValid after
      × (((h.known (get_id h.value) ≡ true)
            × (id ≡ negsuc 0)
            × (after ≡ record h { value = get_id h.value }))
          ⊎ ((h.known (get_id h.value) ≡ false)
              × (id ≡ pos (get_id h.value))
              × ((k : ℕ) → after.known k ≡ ((k == get_id h.value) || h.known k))
              × IsNewTimer now timeout_ms timer_cb call_times (after.timer (get_id h.value))
              × ((k : ℕ) → (k == get_id h.value) ≡ false → after.timer k ≡ h.timer k)))

  new_timer-IsNewTimer :
      (now : Timestamp) (timeout_ms : ℤ) (timer_cb : C) (call_times : ℤ)
      → IsNormal now
      → Fits now (pos (pos_part timeout_ms))
      → IsNewTimer now timeout_ms timer_cb call_times (new_timer now timeout_ms timer_cb call_times)
  new_timer-IsNewTimer now m cb n v fits = record {
    due =
        (add_lem now (pos (pos_part m)) v fits).1
        ∙ ap (λ z. nanos now +ℤ z) (equal_parts _ _ (omega total_laws));
    interval = refl;
    callback = refl;
    calls = refl;
  }

  pub add_timer-IsValid :
      (h : TimerHeap C) (now : Timestamp) (timeout_ms : ℤ) (timer_cb : C) (call_times : ℤ)
      → IsValid h
      → IsNormal now
      → IsValid ((add_timer h now timeout_ms timer_cb call_times).0)
  unfolding add_timer
  add_timer-IsValid h now m cb n v w = elim (Bool-cases (h.known (get_id h.value))) [
    | inl taken ↦ rw taken (record { ordered = v.ordered; normal = v.normal })
    | inr new ↦ rw new (
        enter-IsValid h (get_id h.value) (new_timer now m cb n) v new
          (new_timer-IsNormal now m cb n w))
  ]

  -- When now is normal and its seconds, before and after the whole seconds of the timeout are
  -- added, are strictly between the ends of int64_t, addTimer keeps a valid heap valid. If the
  -- id it allots is taken it returns -1 and changes nothing but the last id; otherwise it
  -- returns the id, and the new timer, with the callback, interval and number of calls that were
  -- given, is known besides the old ones, which stay as they were. It is due the timeout after
  -- now, or now if the timeout is negative.
  pub add_timer_lem :
      (h : TimerHeap C) (now : Timestamp) (timeout_ms : ℤ) (timer_cb : C) (call_times : ℤ)
      → IsValid h
      → IsNormal now
      → Fits now (pos (pos_part timeout_ms))
      → IsAdded h now timeout_ms timer_cb call_times
          (add_timer h now timeout_ms timer_cb call_times)
  unfolding add_timer
  add_timer_lem h now m cb n v w fits =
      let self : (get_id h.value == get_id h.value) ≡ true = ground arith in
      elim (Bool-cases (h.known (get_id h.value))) [
        | inl taken ↦
            rw taken (record { ordered = v.ordered; normal = v.normal }, inl (refl, refl, refl))
        | inr new ↦ rw new (
          enter-IsValid h (get_id h.value) (new_timer now m cb n) v new
              (new_timer-IsNormal now m cb n w),
          inr (
            refl,
            refl,
            (λ k. ground arith),
            rw self (new_timer-IsNewTimer now m cb n w fits),
            λ k d. rw d refl,
          ),
        )
      ]
