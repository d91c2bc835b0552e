-- ===== src/TimerHeap/HeapOrder.antt =====
-- The order of the heap of timer_heap.cc and the timers it holds.
use mathlib.Core.Logic.{◌≢◌}
use brickred_server.Base.{
  ℕ, ◌/◌, ◌≤◌, ◌<◌, ◌≡◌, ap, ◌∙◌, sym, Bool, true, false, arith, ◌==◌, Bool-cases, inl, inr,
}
use brickred_server.Base.Int.{pos, pos_part}
use brickred_server.Timestamp.{Timestamp, less}
use brickred_server.TimerHeap.Slots.{MinHeap, swap}

-- `t` is not later than `u`.
abbrev pub NotAfter : Timestamp → Timestamp → Type 0
NotAfter t u = less u t ≡ false

pub NotAfter-refl : (t : Timestamp) → NotAfter t t
unfolding less
NotAfter-refl t = ground arith

pub NotAfter-less : (t u : Timestamp) → less t u ≡ true → NotAfter t u
unfolding less
NotAfter-less t u h = ground arith

pub NotAfter-trans : (t u v : Timestamp) → NotAfter t u → NotAfter u v → NotAfter t v
unfolding less
NotAfter-trans t u v h k = ground arith

-- Where a timer is.
pub record Place (h : MinHeap) (id : ℕ) : Type 0 where
  pub index : ℕ
  pub positive : 1 ≤ index
  pub below : index < h.size
  pub holds : h.slot index ≡ id

-- The heap holds the members, each once, and their heap_pos_ says where.
pub record Holds (member : ℕ → Bool) (h : MinHeap) : Type 0 where
  pub start : 1 ≤ h.size
  pub known : (i : ℕ) → 1 ≤ i → i < h.size → member (h.slot i) ≡ true
  pub placed : (i : ℕ) → 1 ≤ i → i < h.size → h.heap_pos (h.slot i) ≡ pos i
  pub found : (id : ℕ) → member id ≡ true → Place h id

pub slots_differ :
    {member : ℕ → Bool} (h : MinHeap) (i j : ℕ)
    → Holds member h
    → 1 ≤ i
    → i < h.size
    → 1 ≤ j
    → j < h.size
    → h.slot i ≡ h.slot j
    → i ≡ j
slots_differ h i j v p q r s e =
    ap pos_part (sym (v.placed i p q) ∙ ap h.heap_pos e ∙ v.placed j r s)

pub swap-Holds :
    {member : ℕ → Bool} (h : MinHeap) (a b : ℕ)
    → Holds member h
    → 1 ≤ a
    → a < h.size
    → 1 ≤ b
    → b < h.size
    → a ≢ b
    → Holds member (swap h a b)
swap-Holds h a b v p q r s ne = record {
  start = v.start;
  known = λ i l u. ground (arith, v.known i l u, v.known a p q, v.known b r s);
  placed = λ i l u. ground (
    arith,
    v.placed i l u,
    v.placed a p q,
    v.placed b r s,
    slots_differ h i a v l u p q,
    slots_differ h i b v l u r s,
    slots_differ h a b v p q r s,
  );
  found = λ id m.
      let w = v.found id m in
      elim (Bool-cases (w.index == a)) [
        | inl e ↦ record { index = b; positive = r; below = s; holds = ground (arith, w.holds, e) }
        | inr d ↦ elim (Bool-cases (w.index == b)) [
          | inl e ↦ record {
            index = a;
            positive = p;
            below = q;
            holds = ground (arith, w.holds, e);
          }
          | inr c ↦ record {
            index = w.index;
            positive = w.positive;
            below = w.below;
            holds = ground (arith, w.holds);
          }
        ]
      ];
}

module _ (stamp : ℕ → Timestamp) where
  abbrev pub Edge : MinHeap → ℕ → ℕ → Type 0
  Edge h i j = NotAfter (stamp (h.slot i)) (stamp (h.slot j))

  -- No timer is earlier than its parent.
  abbrev pub IsHeap : MinHeap → Type 0
  IsHeap h = (i : ℕ) → 2 ≤ i → i < h.size → Edge h (i / 2) i

  -- A heap of `size` places that holds the members in order.
  pub record IsTimerHeap (member : ℕ → Bool) (size : ℕ) (h : MinHeap) : Type 0 where
    pub holding : Holds member h
    pub order : IsHeap h
    pub same_size : h.size ≡ size

  pub Edge-trans : (h : MinHeap) (i j k : ℕ) → Edge h i j → Edge h j k → Edge h i k
  Edge-trans h i j k = NotAfter-trans _ _ _
