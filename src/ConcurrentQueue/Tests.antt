-- ===== src/ConcurrentQueue/Tests.antt =====
-- Runs of the queue of concurrent_queue.h, and its theorems at such runs.
use brickred_server.Base.{ℕ, ◌≡◌, refl, true, none, List, [], ◌∷◌, ◌++◌, inr, arith}
use brickred_server.ConcurrentQueue.{ConcurrentQueue, push}
use brickred_server.ConcurrentQueue.Fifo.{
  Call, put, take_out, try_take_out, look, Bounded, run, run_fifo,
}

abbrev two_items : ConcurrentQueue ℕ
two_items = record { items = 7 ∷ 8 ∷ []; max_size = 2; is_bounded = true }

abbrev one_item : ConcurrentQueue ℕ
one_item = record { items = 8 ∷ []; max_size = 2; is_bounded = true }

full_waits : push two_items 9 ≡ none
unfolding push
full_waits = refl

abbrev calls : List (Call ℕ)
calls = put 9 ∷ take_out ∷ put 9 ∷ look ∷ try_take_out ∷ []

calls_deliver : (run two_items calls).delivered ≡ 7 ∷ 8 ∷ []
unfolding run
calls_deliver = refl

run_fifo_example :
    (two_items.items ++ (run two_items calls).accepted
      ≡ (run two_items calls).delivered ++ (run two_items calls).queue.items)
    × (Bounded (run two_items calls).queue
        × ((run two_items calls).queue.max_size ≡ two_items.max_size))
run_fifo_example = run_fifo two_items calls (inr (omega arith))
