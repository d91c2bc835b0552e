-- ===== src/TimerHeap/Stuck.antt =====
-- `checkTimeout` of timer_heap.cc for a timer that comes again at once.
use brickred_server.Base.{
  ℕ, zero, suc, ◌≡◌, refl, ap, subst, ◌∙◌, sym, true, false, none, arith, ◌==◌, Bool-cases, inl,
  inr,
}
use brickred_server.Base.Int.{pos, pos_part, eqb_ℤ}
use brickred_server.Timestamp.{Timestamp, less, millisecond_less, add}
use brickred_server.Timestamp.Order.{IsNormal, add_zero, add-IsNormal}
use brickred_server.TimerHeap.{Timer, TimerHeap, stamps, fire, again, get_timeout, check_timeout}
use brickred_server.TimerHeap.HeapOrder.{NotAfter}
use brickred_server.TimerHeap.Erase.{min_heap_top_lem}
use brickred_server.TimerHeap.Valid.{IsValid, fire_lem}
use brickred_server.TimerHeap.Timeout.{later_waits, check_timeout_fires}

stays_due :
    (now t u : Timestamp)
    → IsNormal now
    → IsNormal t
    → IsNormal u
    → NotAfter u t
    → millisecond_less now t ≡ false
    → millisecond_less now u ≡ false
stays_due now t u a b c h d = elim (Bool-cases (millisecond_less now u)) [
  | inl wait ↦ absurd (ground (arith, later_waits now u t a c b h wait, d))
  | inr due ↦ due
]

idle_add : (t : Timestamp) → IsNormal t → NotAfter (add t (pos 0)) t
unfolding less
idle_add t v = rw (add_zero t v) (ground arith)

module _ {C : Type 0} where
  -- A timer that is due, is to be called for ever, and whose interval is 0 as an `int`.
  pub record Idles (now : Timestamp) (t : Timer C) : Type 0 where
    pub due : millisecond_less now t.timestamp ≡ false
    pub idle : get_timeout t ≡ pos 0
    pub forever : pos_part t.call_times ≡ 0

  again-Idles :
      (now : Timestamp) (t : Timer C)
      → IsNormal now
      → IsNormal t.timestamp
      → Idles now t
      → Idles now (again t)
  again-Idles now t n v s =
      let moved : add t.timestamp (get_timeout t) ≡ add t.timestamp (pos 0) =
        ap (add t.timestamp) s.idle in
      let due : millisecond_less now (add t.timestamp (pos 0)) ≡ false =
        stays_due now t.timestamp (add t.timestamp (pos 0)) n v (add-IsNormal t.timestamp (pos 0) v)
          (idle_add t.timestamp v) s.due in
      record {
        due = ap (millisecond_less now) moved ∙ due;
        idle = s.idle;
        forever = ground (arith, s.forever);
      }

  pub record IsStuck (h : TimerHeap C) (now : Timestamp) (id : ℕ) : Type 0 where
    pub valid : IsValid h
    pub known : h.known id ≡ true
    pub idles : Idles now (h.timer id)

  again_at_once :
      (h : TimerHeap C) (now : Timestamp) (id : ℕ)
      → IsStuck h now id
      → (fire h id).timer id ≡ again (h.timer id)
  unfolding fire
  again_at_once h now id s =
      let more : eqb_ℤ (h.timer id).call_times (pos 1) ≡ false = ground (arith, s.idles.forever) in
      let self : (id == id) ≡ true = ground arith in rw (more, self) refl

  fire-IsStuck :
      (h : TimerHeap C) (now : Timestamp) (id top : ℕ)
      → IsNormal now
      → IsStuck h now id
      → h.known top ≡ true
      → IsStuck (fire h top) now id
  fire-IsStuck h now id top n s m =
      let (valid, (known, same)) = fire_lem h top s.valid m in
      elim (Bool-cases (id == top)) [
        | inl e ↦
            let here : top ≡ id = ground arith in
            let stays : (fire h id).timer id ≡ again (h.timer id) = again_at_once h now id s in
            record {
              valid = valid;
              known = known id ∙ ground (arith, s.known, s.idles.forever, here);
              idles =
                  subst (λ k. Idles now ((fire h k).timer id)) (sym here)
                    (subst (Idles now) (sym stays)
                      (again-Idles now (h.timer id) n (s.valid.normal id s.known) s.idles));
            }
        | inr d ↦ record {
          valid = valid;
          known = known id ∙ ground (arith, d, s.known);
          idles = subst (Idles now) (sym (same id d)) s.idles;
        }
      ]

  -- With such a timer `checkTimeout` never returns, whatever the other timers are, when the
  -- callbacks leave the timers alone.
  pub check_timeout_never_ends :
      (call : C → ℕ → TimerHeap C → TimerHeap C) (now : Timestamp)
      → ((timer_cb : C) (id : ℕ) (h : TimerHeap C) → call timer_cb id h ≡ h)
      → IsNormal now
      → (fuel : ℕ) (h : TimerHeap C) (id : ℕ) → IsStuck h now id
      → check_timeout call fuel h now ≡ none
  unfolding check_timeout
  check_timeout_never_ends call now quiet n zero h id s = refl
  check_timeout_never_ends call now quiet n (suc fuel) h id s =
      elim (min_heap_top_lem (stamps h.timer) h.known h.heap s.valid.ordered) [
        | inl (nothing, unknown) ↦ absurd (ground (arith, unknown id, s.known))
        | inr (top, (found, (m, least))) ↦
            let v = s.valid in
            let due : millisecond_less now (stamps h.timer top) ≡ false =
              stays_due now (stamps h.timer id) (stamps h.timer top) n (v.normal id s.known)
                (v.normal top m) (least id s.known) s.idles.due in
            check_timeout_fires call now fuel h top found due
            ∙ rw
                (
                  quiet (h.timer top).timer_cb top (fire h top),
                  check_timeout_never_ends call now quiet n fuel (fire h top) id
                      (fire-IsStuck h now id top n s m),
                )
                refl
      ]
