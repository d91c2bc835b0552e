-- ===== src/TimerHeap.antt =====
-- src/brickred/timer_heap.cc: timers by id, with a binary heap of them by their moments. A timer
-- object is reached through its id; `known` says which ids timers_ has. A callback is a value of
-- a type `C`, and `call` of `check_timeout` is what calling it does to the heap.
pub mod Slots
pub mod HeapOrder
mod ShiftUp
mod ShiftDown
pub mod Erase
pub mod Valid
pub mod Adding
pub mod Next
pub mod Timeout
pub mod Stuck
mod Tests
use brickred_server.Base.{
  ℕ, zero, suc, ◌+◌, ◌-◌, ◌%◌, Bool, true, false, Option, none, some, List, [], ◌∷◌, ltb, ◌==◌,
  if◌then◌else◌, ◌>>=◌,
}
use brickred_server.Base.Int.{ℤ, pos, negsuc, pos_part, ◌-ℤ◌, ltb_ℤ, eqb_ℤ, sub_ℕ}
use brickred_server.Timestamp.{Timestamp, add, less, millisecond_less, distance_millisecond}
use brickred_server.TimerHeap.Slots.{
  MinHeap, put, empty, min_heap_insert, min_heap_erase, min_heap_top,
}

-- `TimerIdAllocator::getId`, from the id given last.
unfoldable pub get_id : ℕ → ℕ
get_id value = if value == 9223372036854775807 then 1 else value + 1

-- An `int64_t` that is not negative, as an `int`.
abbrev pub to_int : ℕ → ℤ
to_int n =
    let low = n % 4294967296 in if ltb low 2147483648 then pos low else negsuc (4294967295 - low)

pub record Timer (C : Type 0) : Type 0 where
  pub timestamp : Timestamp
  pub timeout : ℕ
  pub timer_cb : C
  pub call_times : ℤ

abbrev pub get_timeout : {C : Type 0} → Timer C → ℤ
get_timeout t = to_int t.timeout

pub record TimerHeap (C : Type 0) : Type 0 where
  pub value : ℕ
  pub known : ℕ → Bool
  pub timer : ℕ → Timer C
  pub heap : MinHeap

abbrev pub stamps : {C : Type 0} → (ℕ → Timer C) → ℕ → Timestamp
stamps timer id = (timer id).timestamp

module _ {C : Type 0} where
  -- The heap of `Impl::Impl`; what the objects not made yet hold is of no account.
  abbrev pub new : (ℕ → Timer C) → TimerHeap C
  new timer = record { value = 0; known = λ id. false; timer = timer; heap = empty }

  unfoldable pub get_next_timeout_millisecond : TimerHeap C → Timestamp → ℤ
  get_next_timeout_millisecond h now = elim (min_heap_top h.heap) [
    | none ↦ negsuc 0
    | some timer ↦
        if less (stamps h.timer timer) now
        then pos 0
        else distance_millisecond now (stamps h.timer timer)
  ]

  abbrev pub new_timer : Timestamp → ℤ → C → ℤ → Timer C
  new_timer now timeout_ms timer_cb call_times = record {
    timestamp = add now (pos (pos_part timeout_ms));
    timeout = pos_part timeout_ms;
    timer_cb = timer_cb;
    call_times = call_times;
  }

  -- The heap with the new timer in it. A new timer has no place in the heap yet.
  abbrev pub enter : TimerHeap C → ℕ → Timer C → TimerHeap C
  enter h timer_id timer =
      let timers = put h.timer timer_id timer in
      let before = record h.heap { heap_pos = put h.heap.heap_pos timer_id (negsuc 0) } in
      record {
        value = timer_id;
        known = put h.known timer_id true;
        timer = timers;
        heap = min_heap_insert (stamps timers) before timer_id;
      }

  unfoldable pub add_timer : TimerHeap C → Timestamp → ℤ → C → ℤ → TimerHeap C × ℤ
  add_timer h now timeout_ms timer_cb call_times =
      let timer_id = get_id h.value in
      if h.known timer_id
      then (record h { value = timer_id }, negsuc 0)
      else (enter h timer_id (new_timer now timeout_ms timer_cb call_times), pos timer_id)

  -- The timer leaves the heap and timers_.
  abbrev pub drop_timer : TimerHeap C → ℕ → TimerHeap C
  drop_timer h timer_id = record h {
    known = put h.known timer_id false;
    heap = min_heap_erase (stamps h.timer) h.heap timer_id;
  }

  unfoldable pub remove_timer : TimerHeap C → ℕ → TimerHeap C
  remove_timer h timer_id = if h.known timer_id then drop_timer h timer_id else h

  -- What a timer that stays is after its turn.
  abbrev pub again : Timer C → Timer C
  again t = record t {
    timestamp = add t.timestamp (get_timeout t);
    call_times = if ltb_ℤ (pos 0) t.call_times then t.call_times -ℤ pos 1 else t.call_times;
  }

  -- The timer leaves the heap and enters it at its new moment.
  abbrev pub repeat_timer : TimerHeap C → ℕ → TimerHeap C
  repeat_timer h timer_id =
      let timers = put h.timer timer_id (again (h.timer timer_id)) in
      record h {
        timer = timers;
        heap =
            min_heap_insert (stamps timers) (min_heap_erase (stamps h.timer) h.heap timer_id)
              timer_id;
      }

  -- One turn of the loop of `checkTimeout`, up to the callback.
  unfoldable pub fire : TimerHeap C → ℕ → TimerHeap C
  fire h timer_id =
      if eqb_ℤ (h.timer timer_id).call_times (pos 1)
      then drop_timer h timer_id
      else repeat_timer h timer_id

  -- The loop of `checkTimeout`, with the ids whose callbacks are called, in order; `none` when
  -- the fuel runs out.
  unfoldable pub check_timeout :
      (C → ℕ → TimerHeap C → TimerHeap C)
      → ℕ
      → TimerHeap C
      → Timestamp
      → Option (TimerHeap C × List ℕ)
  check_timeout call zero h now = none
  check_timeout call (suc fuel) h now = elim (min_heap_top h.heap) [
    | none ↦ some (h, [])
    | some timer_id ↦
        let called = call (h.timer timer_id).timer_cb timer_id (fire h timer_id) in
        let rest = check_timeout call fuel called now in
        if millisecond_less now (stamps h.timer timer_id)
        then some (h, [])
        else rest >>= λ r. some (r.0, timer_id ∷ r.1)
  ]
