-- ===== src/TimerHeap/Tests.antt =====
-- Timers of timer_heap.cc at concrete inputs.
use brickred_server.Base.{
  ℕ, ◌≤◌, ◌≡◌, refl, sym, subst, true, false, not, ◌&&◌, Option, none, some, ◌⊎◌, List, [], ◌∷◌,
  arith, ◌==◌, if◌then◌else◌, Bool-cases, inl, inr,
}
use brickred_server.Base.Int.{
  pos, negsuc, ltb_ℤ, eqb_ℤ, ◌-ℤ◌, ◌+ℤ◌, ◌≤ℤ◌, quot, rem, scale, to_int64,
}
use brickred_server.Timestamp.{Timestamp, add, millisecond_less, less, get_milli_second}
use brickred_server.Timestamp.Order.{IsNormal}
use brickred_server.Timestamp.Distance.{Near, millis}
use brickred_server.TimerHeap.{
  Timer, TimerHeap, stamps, get_id, new, add_timer, remove_timer, fire, check_timeout,
  get_next_timeout_millisecond,
}
use brickred_server.TimerHeap.Slots.{
  put, min_heap_top, min_heap_insert, min_heap_erase, min_heap_shift_up, min_heap_shift_down,
}
use brickred_server.TimerHeap.Valid.{IsValid, new-IsValid, remove_timer_lem, fire_lem}
use brickred_server.TimerHeap.Adding.{IsAdded, add_timer-IsValid, add_timer_lem}
use brickred_server.TimerHeap.Next.{get_next_timeout_millisecond_lem}
use brickred_server.TimerHeap.Timeout.{AreLast, Ends, check_timeout_lem}
use brickred_server.TimerHeap.Stuck.{IsStuck, check_timeout_never_ends}

abbrev blank : ℕ → Timer ℕ
blank id = record {
  timestamp = record { second = pos 0; nanosecond = pos 0 };
  timeout = 0;
  timer_cb = 0;
  call_times = pos 0;
}

abbrev quiet_call : ℕ → ℕ → TimerHeap ℕ → TimerHeap ℕ
quiet_call timer_cb id h = h

abbrev start : Timestamp
start = record { second = pos 1000; nanosecond = pos 998000000 }

start-IsNormal : IsNormal start
start-IsNormal = record { not_negative = refl; below = omega arith; in_range = omega arith }

abbrev none_yet : TimerHeap ℕ
none_yet = new blank

abbrev one_timer : TimerHeap ℕ
one_timer = (add_timer none_yet start (pos 5) 7 (pos 1)).0

abbrev two_timers : TimerHeap ℕ
two_timers = (add_timer one_timer start (pos 3) 8 (pos 2)).0

two_timers_ids :
    ((add_timer one_timer start (pos 3) 8 (pos 2)).1 ≡ pos 2)
    × (min_heap_top two_timers.heap ≡ some 2)
unfolding add_timer get_id min_heap_top min_heap_insert min_heap_shift_up less add quot rem scale
    ◌+ℤ◌ ◌-ℤ◌ to_int64
two_timers_ids = (refl, refl)

calls_of : Option (TimerHeap ℕ × List ℕ) → List ℕ
calls_of r = elim r [ none ↦ [] | some (h, calls) ↦ calls ]

two_timers_calls :
    calls_of (check_timeout quiet_call 4 two_timers (add start (pos 6))) ≡ 2 ∷ 1 ∷ 2 ∷ []
unfolding calls_of check_timeout fire add_timer get_id min_heap_top min_heap_insert min_heap_erase
    min_heap_shift_up min_heap_shift_down less millisecond_less get_milli_second add quot rem scale
    ◌+ℤ◌ ◌-ℤ◌ to_int64
two_timers_calls = refl

one_timer-IsValid : IsValid one_timer
one_timer-IsValid =
    add_timer-IsValid none_yet start (pos 5) 7 (pos 1) (new-IsValid blank) start-IsNormal

two_timers-IsValid : IsValid two_timers
two_timers-IsValid =
    add_timer-IsValid one_timer start (pos 3) 8 (pos 2) one_timer-IsValid start-IsNormal

known_two : two_timers.known 2 ≡ true
unfolding add_timer get_id
known_two = refl

remove_timer_lem_example :
    IsValid (remove_timer two_timers 1)
    × (((k : ℕ) → (remove_timer two_timers 1).known k ≡ put two_timers.known 1 false k)
        × ((remove_timer two_timers 1).timer ≡ two_timers.timer))
remove_timer_lem_example = remove_timer_lem two_timers 1 two_timers-IsValid

add_timer_lem_example :
    IsAdded one_timer start (pos 3) 8 (pos 2) (add_timer one_timer start (pos 3) 8 (pos 2))
add_timer_lem_example =
    add_timer_lem one_timer start (pos 3) 8 (pos 2) one_timer-IsValid start-IsNormal (omega arith)

-- The seconds of a timer that is added are near.
two_timers-Near : (id : ℕ) → two_timers.known id ≡ true → Near start (stamps two_timers.timer id)
unfolding add_timer get_id add quot rem scale ◌+ℤ◌ ◌-ℤ◌ to_int64
two_timers-Near id m = elim (Bool-cases (id == 2)) [
  | inl e ↦
      let same : id ≡ 2 = ground (arith, e) in
      subst (λ k. Near start (stamps two_timers.timer k)) (sym same) (omega arith)
  | inr d ↦ elim (Bool-cases (id == 1)) [
    | inl e ↦
        let same : id ≡ 1 = ground (arith, e) in
        subst (λ k. Near start (stamps two_timers.timer k)) (sym same) (omega arith)
    | inr n ↦ absurd (ground (arith, m, d, n))
  ]
]

fire_lem_example :
    IsValid (fire two_timers 2)
    × (((k : ℕ)
          → (fire two_timers 2).known k
            ≡ (two_timers.known k && not (k == 2 && eqb_ℤ (two_timers.timer 2).call_times (pos 1))))
        × ((k : ℕ) → (k == 2) ≡ false → (fire two_timers 2).timer k ≡ two_timers.timer k))
fire_lem_example = fire_lem two_timers 2 two_timers-IsValid known_two

next_timeout_example :
    (((id : ℕ) → two_timers.known id ≡ false)
      × (get_next_timeout_millisecond two_timers start ≡ negsuc 0))
    ⊎ ((top : ℕ) × ((two_timers.known top ≡ true)
          × (((id : ℕ)
                → two_timers.known id ≡ true
                → millis (stamps two_timers.timer top) ≤ℤ millis (stamps two_timers.timer id))
              × (get_next_timeout_millisecond two_timers start ≡ (
                  if ltb_ℤ (millis start) (millis (stamps two_timers.timer top))
                  then millis (stamps two_timers.timer top) -ℤ millis start
                  else pos 0)))))
next_timeout_example =
    get_next_timeout_millisecond_lem two_timers start two_timers-IsValid start-IsNormal
      two_timers-Near

one_timer-AreLast : (now : Timestamp) → AreLast one_timer now
unfolding add_timer get_id
one_timer-AreLast now id e = ground (arith, e)

one_timer_size : one_timer.heap.size ≤ 2
unfolding add_timer min_heap_insert min_heap_shift_up
one_timer_size = omega arith

abbrev soon : Timestamp
soon = record { second = pos 1001; nanosecond = pos 4000000 }

soon-IsNormal : IsNormal soon
soon-IsNormal = record { not_negative = refl; below = omega arith; in_range = omega arith }

check_timeout_lem_example : Ends quiet_call soon 2 one_timer
check_timeout_lem_example =
    check_timeout_lem quiet_call soon (λ timer_cb id h. refl) soon-IsNormal 2 one_timer
      one_timer_size one_timer-IsValid (one_timer-AreLast soon)

-- A timer for every 2^32 milliseconds.
abbrev slow_timer : TimerHeap ℕ
slow_timer = (add_timer none_yet start (pos 4294967296) 7 (negsuc 0)).0

abbrev much_later : Timestamp
much_later = record { second = pos 5000000; nanosecond = pos 0 }

much_later-IsNormal : IsNormal much_later
much_later-IsNormal = record { not_negative = refl; below = omega arith; in_range = omega arith }

slow_timer-IsStuck : IsStuck slow_timer much_later 1
unfolding add_timer get_id millisecond_less add quot rem scale ◌+ℤ◌ get_milli_second to_int64
slow_timer-IsStuck = record {
  valid =
      add_timer-IsValid none_yet start (pos 4294967296) 7 (negsuc 0) (new-IsValid blank)
        start-IsNormal;
  known = refl;
  idles = record { due = refl; idle = refl; forever = refl };
}

never_ends_example : check_timeout quiet_call 1000 slow_timer much_later ≡ none
never_ends_example =
    check_timeout_never_ends quiet_call much_later (λ timer_cb id h. refl) much_later-IsNormal 1000
      slow_timer 1 slow_timer-IsStuck
