-- ===== src/TimerHeap/Timeout.antt =====
-- `checkTimeout` of timer_heap.cc for timers that are due once.
use brickred_server.Base.{
  ℕ, zero, suc, ◌+◌, ◌≤◌, ◌≡◌, refl, ◌∙◌, sym, Bool, true, false, not, ◌&&◌, none, some, arith,
  ◌==◌, if◌then◌else◌, Bool-cases, inl, inr, List, [], ◌∷◌, All, All-map, ◌>>=◌,
}
use brickred_server.Base.Int.{pos}
use brickred_server.Timestamp.{Timestamp, millisecond_less}
use brickred_server.Timestamp.Order.{IsNormal}
use brickred_server.Timestamp.Distance.{millisecond_less_lem}
use brickred_server.TimerHeap.{TimerHeap, stamps, fire, drop_timer, check_timeout}
use brickred_server.TimerHeap.Slots.{min_heap_top}
use brickred_server.TimerHeap.HeapOrder.{NotAfter}
use brickred_server.TimerHeap.Erase.{min_heap_top_lem, min_heap_erase_lem}
use brickred_server.TimerHeap.Valid.{IsValid, drop-IsValid}
use brickred_server.TimerHeap.Next.{NotAfter-millis}

-- What is not before a moment still to come is still to come.
pub later_waits :
    (now t u : Timestamp)
    → IsNormal now
    → IsNormal t
    → IsNormal u
    → NotAfter t u
    → millisecond_less now t ≡ true
    → millisecond_less now u ≡ true
later_waits now t u a b c h k =
    let le = NotAfter-millis t u b c h in
    let first = sym (millisecond_less_lem now t a b) ∙ k in
    millisecond_less_lem now u a c ∙ ground (arith, first, le)

abbrev pub count : ℕ → List ℕ → ℕ
count id [] = 0
count id (x ∷ xs) = (if x == id then 1 else 0) + count id xs

-- No item is earlier than one before it.
abbrev pub IsSorted : (ℕ → Timestamp) → List ℕ → Type 0
IsSorted stamp [] = Unit
IsSorted stamp (x ∷ xs) = All (λ y. NotAfter (stamp x) (stamp y)) xs × IsSorted stamp xs

module _ {C : Type 0} where
  -- A known timer whose time has come.
  abbrev pub expired : TimerHeap C → Timestamp → ℕ → Bool
  expired h now id = h.known id && not (millisecond_less now (stamps h.timer id))

  -- The known timers whose time has come are called once more, and no more.
  abbrev pub AreLast : TimerHeap C → Timestamp → Type 0
  AreLast h now = (id : ℕ) → expired h now id ≡ true → (h.timer id).call_times ≡ pos 1

  -- What `check_timeout` has done when it returns.
  pub record HasFired (h : TimerHeap C) (now : Timestamp) (after : TimerHeap C) (calls : List ℕ)
      : Type 0 where
    pub valid : IsValid after
    pub forgotten :
        (id : ℕ) → after.known id ≡ (h.known id && millisecond_less now (stamps h.timer id))
    pub untouched : after.timer ≡ h.timer
    pub called : (id : ℕ) → count id calls ≡ (if expired h now id then 1 else 0)
    pub were_known : All (λ id. h.known id ≡ true) calls
    pub sorted : IsSorted (stamps h.timer) calls

  module _ (call : C → ℕ → TimerHeap C → TimerHeap C) (now : Timestamp) (fuel : ℕ)
      (h : TimerHeap C) where
    pub check_timeout_empty :
        min_heap_top h.heap ≡ none → check_timeout call (suc fuel) h now ≡ some (h, [])
    unfolding check_timeout
    check_timeout_empty e = rw (check_timeout, e) refl

    pub check_timeout_waits :
        (top : ℕ)
        → min_heap_top h.heap ≡ some top
        → millisecond_less now (stamps h.timer top) ≡ true
        → check_timeout call (suc fuel) h now ≡ some (h, [])
    unfolding check_timeout
    check_timeout_waits top e w = rw (check_timeout, e, w) refl

    pub check_timeout_fires :
        (top : ℕ)
        → min_heap_top h.heap ≡ some top
        → millisecond_less now (stamps h.timer top) ≡ false
        → check_timeout call (suc fuel) h now ≡ (
            check_timeout call fuel (call (h.timer top).timer_cb top (fire h top)) now >>= λ r.
            some (r.0, top ∷ r.1))
    unfolding check_timeout
    check_timeout_fires top e d = rw (check_timeout, e, d) refl

  fire_last :
      (h : TimerHeap C) (top : ℕ) → (h.timer top).call_times ≡ pos 1 → fire h top ≡ drop_timer h top
  unfolding fire
  fire_last h top l = rw (fire, l) refl

  module _ (call : C → ℕ → TimerHeap C → TimerHeap C) (now : Timestamp) where
    -- The loop ends within the fuel, and has done what it is for.
    abbrev pub Ends : ℕ → TimerHeap C → Type 0
    Ends fuel h =
        (after : TimerHeap C) × ((calls : List ℕ) × ((check_timeout call fuel h now
              ≡ some (after, calls))
            × HasFired h now after calls))

  module _ (call : C → ℕ → TimerHeap C → TimerHeap C) (now : Timestamp)
      (quiet : (timer_cb : C) (id : ℕ) (h : TimerHeap C) → call timer_cb id h ≡ h)
      (now_normal : IsNormal now) where
    nothing_fired :
        (h : TimerHeap C) → IsValid h → ((id : ℕ) → expired h now id ≡ false) → HasFired h now h []
    nothing_fired h v none_due = record {
      valid = v;
      forgotten = λ id. ground (arith, none_due id);
      untouched = refl;
      called = λ id. rw (none_due id) refl;
      were_known = tt;
      sorted = tt;
    }

    after_one :
        (h : TimerHeap C) (top : ℕ) (after : TimerHeap C) (calls : List ℕ)
        → expired h now top ≡ true
        → ((id : ℕ) → h.known id ≡ true → NotAfter (stamps h.timer top) (stamps h.timer id))
        → HasFired (drop_timer h top) now after calls
        → HasFired h now after (top ∷ calls)
    after_one h top after calls due least f = record {
      valid = f.valid;
      forgotten = λ id. ground (arith, f.forgotten id, due);
      untouched = f.untouched;
      called = λ id. ground (arith, f.called id, due);
      were_known = (ground (arith, due), All-map calls (λ id k. ground (arith, k)) f.were_known);
      sorted = (All-map calls (λ id k. least id (ground (arith, k))) f.were_known, f.sorted);
    }

    fired_Ends :
        (fuel : ℕ) (h : TimerHeap C) (top : ℕ)
        → min_heap_top h.heap ≡ some top
        → h.known top ≡ true
        → millisecond_less now (stamps h.timer top) ≡ false
        → AreLast h now
        → ((id : ℕ) → h.known id ≡ true → NotAfter (stamps h.timer top) (stamps h.timer id))
        → Ends call now fuel (drop_timer h top)
        → Ends call now (suc fuel) h
    fired_Ends fuel h top found m due l least (after, (calls, (run, fired))) =
        let expires : expired h now top ≡ true = ground (arith, m, due) in
        (
          after,
          (
            top ∷ calls,
            (
              check_timeout_fires call now fuel h top found due
                  ∙ rw
                      (
                        fire_last h top (l top expires),
                        quiet (h.timer top).timer_cb top (drop_timer h top),
                        run,
                      )
                      refl,
              after_one h top after calls expires least fired,
            ),
          ),
        )

    waiting_Ends :
        (fuel : ℕ) (h : TimerHeap C) (top : ℕ)
        → IsValid h
        → min_heap_top h.heap ≡ some top
        → h.known top ≡ true
        → millisecond_less now (stamps h.timer top) ≡ true
        → ((id : ℕ) → h.known id ≡ true → NotAfter (stamps h.timer top) (stamps h.timer id))
        → Ends call now (suc fuel) h
    waiting_Ends fuel h top v found m wait least = (
      h,
      (
        [],
        (
          check_timeout_waits call now fuel h top found wait,
          nothing_fired h v (λ id. elim (Bool-cases (h.known id)) [
            | inl k ↦ ground (
              arith,
              later_waits now (stamps h.timer top) (stamps h.timer id) now_normal (v.normal top m)
                  (v.normal id k) (least id k) wait,
            )
            | inr u ↦ ground (arith, u)
          ]),
        ),
      ),
    )

    -- Fuel for every place of the heap is enough, when the callbacks leave the timers alone and
    -- those that are due are called for the last time. `checkTimeout` then calls back each of
    -- these, just once and in the order of their moments, and forgets just these.
    pub check_timeout_lem :
        (fuel : ℕ) (h : TimerHeap C)
        → h.heap.size ≤ fuel
        → IsValid h
        → AreLast h now
        → Ends call now fuel h
    check_timeout_lem zero h f v l = let start = v.ordered.holding.start in absurd (omega arith)
    check_timeout_lem (suc fuel) h f v l =
        elim (min_heap_top_lem (stamps h.timer) h.known h.heap v.ordered) [
          | inl (nothing, unknown) ↦ (
            h,
            (
              [],
              (
                check_timeout_empty call now fuel h nothing,
                nothing_fired h v (λ id. ground (arith, unknown id)),
              ),
            ),
          )
          | inr (top, (found, (m, least))) ↦
              elim (Bool-cases (millisecond_less now (stamps h.timer top))) [
                | inl wait ↦ waiting_Ends fuel h top v found m wait least
                | inr due ↦
                    let dropped =
                      (min_heap_erase_lem (stamps h.timer) h.known h.heap top v.ordered
                        m).same_size in
                    let start = v.ordered.holding.start in
                    fired_Ends fuel h top found m due l least (
                      check_timeout_lem fuel (drop_timer h top) (omega (arith, dropped, start, f))
                        (drop-IsValid h top v m) (λ id e. l id (ground (arith, e))))
              ]
        ]
