-- ===== src/ConcurrentQueue.antt =====
-- src/brickred/concurrent_queue.h: a queue with a limit, shared by threads. Every method holds the
-- mutex while it runs, so a run of several threads is a sequence of whole calls; a call of `push`
-- or `pop` that would wait is `none`, and is made again after a notification.
pub mod Fifo
mod Tests
use brickred_server.Base.{
  ℕ, ◌≡◌, Bool, true, false, not, Option, none, some, List, [], ◌∷◌, ◌++◌, length, leb, ◌==◌,
  if◌then◌else◌,
}

-- `T item` in the queue, `max_size_` and `is_bounded_`.
pub record ConcurrentQueue {ℓ} (A : Type ℓ) : Type ℓ where
  pub items : List A
  pub max_size : ℕ
  pub is_bounded : Bool

module _ {ℓ} {A : Type ℓ} where
  unfoldable pub init : ℕ → ConcurrentQueue A
  init max_size = record { items = []; max_size = max_size; is_bounded = not (max_size == 0) }

  unfoldable pub size : ConcurrentQueue A → ℕ
  size q = length q.items

  unfoldable pub empty : ConcurrentQueue A → Bool
  empty q = length q.items == 0

  unfoldable pub full_no_lock : ConcurrentQueue A → Bool
  full_no_lock q = if not q.is_bounded then false else leb q.max_size (length q.items)

  unfoldable pub full : ConcurrentQueue A → Bool
  unfolding full_no_lock
  full q = full_no_lock q

  push_back : ConcurrentQueue A → A → ConcurrentQueue A
  push_back q item = record q { items = q.items ++ (item ∷ []) }

  unfoldable pub push : ConcurrentQueue A → A → Option (ConcurrentQueue A)
  unfolding full_no_lock push_back
  push q item = if full_no_lock q then none else some (push_back q item)

  unfoldable pub push_if_not_full : ConcurrentQueue A → A → Bool × ConcurrentQueue A
  unfolding full_no_lock push_back
  push_if_not_full q item = if full_no_lock q then (false, q) else (true, push_back q item)

  pop_items : ConcurrentQueue A → List A → Option (A × ConcurrentQueue A)
  pop_items q [] = none
  pop_items q (front ∷ rest) = some (front, record q { items = rest })

  unfoldable pub pop : ConcurrentQueue A → Option (A × ConcurrentQueue A)
  unfolding pop_items
  pop q = pop_items q q.items

  unfoldable pub pop_if_not_empty : ConcurrentQueue A → Option A × ConcurrentQueue A
  unfolding pop_items
  pop_if_not_empty q = elim (pop_items q q.items) [
    | none ↦ (none, q)
    | some (item, q') ↦ (some item, q')
  ]

  first : List A → Option A
  first [] = none
  first (front ∷ rest) = some front

  unfoldable pub peek : ConcurrentQueue A → Option A
  unfolding first
  peek q = first q.items
