-- ===== src/RankSet/Tests.antt =====
-- Sets of rank_set.h at concrete inputs.
use brickred_server.Base.{
  ℕ, ◌+◌, ◌*◌, ◌^◌, ◌≤◌, ◌≡◌, refl, true, false, Option, none, some, List, [], ◌∷◌, ltb, arith,
  drop,
}
use brickred_server.RankSet.{
  RankSet, new, size, insert, erase, erase_place, erase_tree, insert_below, follow,
}
use brickred_server.RankSet.Nodes.{
  leaf, node, search, find_node, lower_bound_node, upper_bound_node, select_node, rank_node,
  increment, decrement,
}
use brickred_server.RankSet.Rebalance.{
  erase_node_fixup, erase_turn, erase_black_left, erase_black_right, erase_last_left,
  erase_last_right,
}
use brickred_server.RankSet.Order.{IsOrder}
use brickred_server.RankSet.Valid.{IsValid, Inserts, values}
use brickred_server.RankSet.Insert.{insert_lem}
use brickred_server.RankSet.Erase.{erase_place_lem}
use brickred_server.RankSet.Run.{
  Call, insert_value, erase_value, lower_bound, upper_bound, rank, select, get_size, get_begin,
  get_rbegin, Answer, inserted_at, iterator, number, run, replay, run-replay, new-IsValid,
}
use brickred_server.RankSet.Walk.{walk, walk-lower_bound, rank-select}
use brickred_server.RankSet.Height.{depth, depth-run}

ltb-IsOrder : IsOrder ltb
ltb-IsOrder = record {
  irrefl = λ a. ground arith;
  trans = λ a b c h k. ground arith;
  negative = λ a b c h k. ground arith;
}

-- 5 at the root, 3 and 8 below it, and 7 below 8.
abbrev four : RankSet ℕ
four = record {
  parent =
      node false (node false leaf 1 3 leaf) 4 5 (node false (node true leaf 1 7 leaf) 2 8 leaf);
  left = some 3;
  right = some 8;
  node_count = 4;
}

four-IsValid : IsValid ltb four
four-IsValid = record {
  balanced = ground arith;
  black_root = refl;
  sorted = ground arith;
  counts = refl;
  least = refl;
  greatest = refl;
}

abbrev calls : List (Call ℕ)
calls =
    insert_value 5
    ∷ insert_value 3
    ∷ insert_value 8
    ∷ insert_value 1
    ∷ insert_value 2
    ∷ insert_value 9
    ∷ insert_value 3
    ∷ rank 8
    ∷ select 2
    ∷ erase_value 5
    ∷ erase_value 4
    ∷ erase_value 1
    ∷ lower_bound 4
    ∷ upper_bound 8
    ∷ get_size
    ∷ get_begin
    ∷ get_rbegin
    ∷ []

abbrev answers : Option (List (Answer ℕ) × RankSet ℕ) → List (Answer ℕ)
answers none = []
answers (some r) = r.0

-- The program itself, run on these calls.
calls_answered :
    answers (run ltb calls new)
    ≡ inserted_at 5 true
      ∷ inserted_at 3 true
      ∷ inserted_at 8 true
      ∷ inserted_at 1 true
      ∷ inserted_at 2 true
      ∷ inserted_at 9 true
      ∷ inserted_at 3 false
      ∷ number 4
      ∷ iterator (some 3)
      ∷ number 1
      ∷ number 0
      ∷ number 1
      ∷ iterator (some 8)
      ∷ iterator (some 9)
      ∷ number 4
      ∷ iterator (some 2)
      ∷ iterator (some 9)
      ∷ []
unfolding run insert erase find_node search follow insert_below lower_bound_node upper_bound_node
    select_node rank_node erase_place erase_tree increment decrement erase_node_fixup erase_turn
    erase_black_left erase_black_right erase_last_left erase_last_right
calls_answered = refl

run-replay_example :
    (s' : RankSet ℕ) × (run ltb calls new ≡ some (replay ltb calls [], s')) × IsValid ltb s'
run-replay_example = run-replay ltb-IsOrder calls new (new-IsValid ltb-IsOrder)

insert_lem_example : Inserts ltb 4 four (insert ltb 4 four)
insert_lem_example = insert_lem ltb-IsOrder 4 four four-IsValid

erase_place_lem_example :
    (s' : RankSet ℕ) × (erase_place ltb (four.parent, []) four ≡ some (s', some 7))
    × IsValid ltb s'
    × (values s' ≡ 3 ∷ 7 ∷ 8 ∷ [])
erase_place_lem_example =
    erase_place_lem ltb-IsOrder four four-IsValid false (node false leaf 1 3 leaf) 4 5
      (node false (node true leaf 1 7 leaf) 2 8 leaf) [] refl

walk-lower_bound_example :
    walk (size four) (lower_bound_node ltb 6 four.parent)
    ≡ drop (rank_node ltb 6 four.parent 0) (values four)
walk-lower_bound_example = walk-lower_bound ltb-IsOrder 6 four four-IsValid

rank-select_example : rank_node ltb 7 four.parent 0 ≡ 2
unfolding select_node
rank-select_example = rank-select ltb-IsOrder four 2 7 four-IsValid refl

depth-run_example :
    (after : RankSet ℕ) × (h : ℕ) × (run ltb calls new ≡ some (replay ltb calls [], after))
    × (depth after.parent ≤ 2 * h)
    × (2 ^ h ≤ size after + 1)
depth-run_example = depth-run ltb-IsOrder calls
