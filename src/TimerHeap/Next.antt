-- ===== src/TimerHeap/Next.antt =====
-- `getNextTimeoutMillisecond` of timer_heap.cc.
use brickred_server.Base.{
  ℕ, ◌≡◌, refl, true, false, ◌⊎◌, arith, if◌then◌else◌, Bool-cases, inl, inr,
}
use brickred_server.Base.Int.{pos, negsuc, ltb_ℤ, ◌-ℤ◌, ◌≤ℤ◌, equal_parts}
use brickred_server.Timestamp.{Timestamp, less, distance_millisecond}
use brickred_server.Timestamp.Order.{IsNormal, total_laws}
use brickred_server.Timestamp.Distance.{
  Near, millis, less-millis, not_less-millis, distance_millisecond_lem,
}
use brickred_server.TimerHeap.{TimerHeap, stamps, get_next_timeout_millisecond}
use brickred_server.TimerHeap.HeapOrder.{NotAfter}
use brickred_server.TimerHeap.Erase.{min_heap_top_lem}
use brickred_server.TimerHeap.Valid.{IsValid}

-- A moment that is not later is not due later.
pub NotAfter-millis :
    (t u : Timestamp) → IsNormal t → IsNormal u → NotAfter t u → millis t ≤ℤ millis u
NotAfter-millis t u v w h = not_less-millis u t w v h

-- The wait from `now` to a moment, none if that is past.
wait_lem :
    (now t : Timestamp)
    → IsNormal now
    → IsNormal t
    → Near now t
    → (if less t now then pos 0 else distance_millisecond now t)
      ≡ (if ltb_ℤ (millis now) (millis t) then millis t -ℤ millis now else pos 0)
wait_lem now t v w near = elim (Bool-cases (less t now)) [
  | inl past ↦
      let le = less-millis t now w v past in
      let no : ltb_ℤ (millis now) (millis t) ≡ false = ground arith in rw (past, no) refl
  | inr ahead ↦
      let ge = not_less-millis t now w v ahead in
      rw (ahead, distance_millisecond_lem now t v w near)
        (elim (Bool-cases (ltb_ℤ (millis now) (millis t))) [
          | inl lt ↦ rw lt refl
          | inr eq ↦
              let same : millis t ≤ℤ millis now = ground arith in
              rw eq (equal_parts _ _ (omega total_laws))
        ])
]

module _ {C : Type 0} where
  -- In a valid heap whose timers are due within 9 * 10 ^ 15 seconds of a normal now, the next
  -- timeout is -1 without timers; otherwise it is the wait for a timer that no other known timer
  -- precedes, in milliseconds and never negative.
  pub get_next_timeout_millisecond_lem :
      (h : TimerHeap C) (now : Timestamp)
      → IsValid h
      → IsNormal now
      → ((id : ℕ) → h.known id ≡ true → Near now (stamps h.timer id))
      → (((id : ℕ) → h.known id ≡ false) × (get_next_timeout_millisecond h now ≡ negsuc 0))
        ⊎ ((top : ℕ) × ((h.known top ≡ true)
              × (((id : ℕ)
                    → h.known id ≡ true
                    → millis (stamps h.timer top) ≤ℤ millis (stamps h.timer id))
                  × (get_next_timeout_millisecond h now ≡ (
                      if ltb_ℤ (millis now) (millis (stamps h.timer top))
                      then millis (stamps h.timer top) -ℤ millis now
                      else pos 0)))))
  unfolding get_next_timeout_millisecond
  get_next_timeout_millisecond_lem h now v w near =
      elim (min_heap_top_lem (stamps h.timer) h.known h.heap v.ordered) [
        | inl (nothing, unknown) ↦ inl (unknown, rw (get_next_timeout_millisecond, nothing) refl)
        | inr (top, (found, (m, least))) ↦ inr (
          top,
          (
            m,
            (
              (λ id k. NotAfter-millis _ _ (v.normal top m) (v.normal id k) (least id k)),
              rw (get_next_timeout_millisecond, found)
                  (wait_lem now _ w (v.normal top m) (near top m)),
            ),
          ),
        )
      ]
