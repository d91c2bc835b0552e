-- ===== src/RankSet/Run.antt =====
-- Every sequence of calls on a valid set answers as a sorted list does.
use brickred_server.Base.{ℕ, ◌≡◌, refl, ◌∙◌, ap, Bool, Option, some, List, [], ◌∷◌, ◌>>=◌, length}
use brickred_server.RankSet.Nodes.{
  lower_bound_node, upper_bound_node, find_node, select_node, rank_node,
}
use brickred_server.RankSet.Balance.{count-length}
use brickred_server.RankSet.Order.{
  IsOrder, head?, last?, get_elem?, insert_answer, number_erased, inserted, removed, found,
  first_not_below, first_above, number_below,
}
use brickred_server.RankSet.Valid.{IsValid, values}
use brickred_server.RankSet.Lookup.{bounds_lem, rank_lem}
use brickred_server.RankSet.Bounds.{upper_bound_lem, select_node_lem}
use brickred_server.RankSet.Insert.{insert_lem}
use brickred_server.RankSet.Erase.{erase_lem}
use brickred_server.RankSet.{RankSet, new, clear, size, begin, rbegin, pointer, insert, erase}

pub data Call {ℓ} (A : Type ℓ) : Type ℓ where
  insert_value erase_value : A → Call A
  find lower_bound upper_bound : A → Call A
  rank : A → Call A
  select : ℕ → Call A
  get_size get_begin get_rbegin clear_all : Call A

pub data Answer {ℓ} (A : Type ℓ) : Type ℓ where
  inserted_at : A → Bool → Answer A
  iterator : Option A → Answer A
  number : ℕ → Answer A
  done : Answer A

module _ {ℓ} {A : Type ℓ} (less : A → A → Bool) where
  -- A call of the program, with the set that it leaves.
  unfoldable pub step : Call A → RankSet A → Option (Answer A × RankSet A)
  step (insert_value v) s = insert less v s >>= λ r. some (inserted_at r.1 r.2, r.0)
  step (erase_value v) s = erase less v s >>= λ r. some (number r.1, r.0)
  step (find v) s = some (iterator (pointer (find_node less v s.parent)), s)
  step (lower_bound v) s = some (iterator (pointer (lower_bound_node less v s.parent)), s)
  step (upper_bound v) s = some (iterator (pointer (upper_bound_node less v s.parent)), s)
  step (rank v) s = some (number (rank_node less v s.parent 0), s)
  step (select k) s = some (iterator (pointer (select_node k s.parent [])), s)
  step get_size s = some (number (size s), s)
  step get_begin s = some (iterator (begin s), s)
  step get_rbegin s = some (iterator (rbegin s), s)
  step clear_all s = some (done, clear s)

  unfoldable pub run : List (Call A) → RankSet A → Option (List (Answer A) × RankSet A)
  unfolding step
  run [] s = some ([], s)
  run (c ∷ cs) s = step c s >>= λ first. run cs first.1 >>= λ rest. some (first.0 ∷ rest.0, rest.1)

  -- The same call on the sorted list of the values.
  abbrev pub answer : Call A → List A → Answer A
  answer (insert_value v) vs =
      inserted_at (insert_answer v (found less v vs)).0 (insert_answer v (found less v vs)).1
  answer (erase_value v) vs = number (number_erased (found less v vs))
  answer (find v) vs = iterator (found less v vs)
  answer (lower_bound v) vs = iterator (first_not_below less v vs)
  answer (upper_bound v) vs = iterator (first_above less v vs)
  answer (rank v) vs = number (number_below less v vs)
  answer (select k) vs = iterator (get_elem? vs k)
  answer get_size vs = number (length vs)
  answer get_begin vs = iterator (head? vs)
  answer get_rbegin vs = iterator (last? vs)
  answer clear_all vs = done

  abbrev pub change : Call A → List A → List A
  change (insert_value v) vs = inserted less v vs
  change (erase_value v) vs = removed less v vs
  change clear_all vs = []
  change _ vs = vs

  abbrev pub replay : List (Call A) → List A → List (Answer A)
  replay [] vs = []
  replay (c ∷ cs) vs = answer c vs ∷ replay cs (change c vs)

module _ {ℓ} {A : Type ℓ} {less : A → A → Bool} (o : IsOrder less) where
  pub new-IsValid : IsValid less (new {A = A})
  new-IsValid = record {
    balanced = tt;
    black_root = refl;
    sorted = tt;
    counts = refl;
    least = refl;
    greatest = refl;
  }

  step_refines :
      (c : Call A) (s : RankSet A)
      → IsValid less s
      → (s' : RankSet A) × (step less c s ≡ some (answer less c (values s), s'))
        × IsValid less s'
        × (values s' ≡ change less c (values s))
  unfolding step
  step_refines (insert_value v) s h =
      let (s', e, h', vs) = insert_lem o v s h in (s', rw e refl, h', vs)
  step_refines (erase_value v) s h =
      let (s', e, h', vs) = erase_lem o v s h in (s', rw e refl, h', vs)
  step_refines (find v) s h = (s, rw (bounds_lem o v s.parent h.sorted).1 refl, h, refl)
  step_refines (lower_bound v) s h = (s, rw (bounds_lem o v s.parent h.sorted).0 refl, h, refl)
  step_refines (upper_bound v) s h = (s, rw (upper_bound_lem o v s.parent h.sorted) refl, h, refl)
  step_refines (rank v) s h = (s, rw (rank_lem o v s.parent h.balanced h.sorted) refl, h, refl)
  step_refines (select k) s h = (s, rw (select_node_lem k s.parent [] h.balanced) refl, h, refl)
  step_refines get_size s h =
      (s, ap (λ n. some (number n, s)) (h.counts ∙ count-length s.parent h.balanced), h, refl)
  step_refines get_begin s h = (s, ap (λ w. some (iterator w, s)) h.least, h, refl)
  step_refines get_rbegin s h = (s, ap (λ w. some (iterator w, s)) h.greatest, h, refl)
  step_refines clear_all s h = (new, refl, new-IsValid, refl)

  -- Every sequence of calls on a valid set returns, never follows a null pointer, answers as the
  -- sorted list of its values does, and leaves a valid set.
  pub run-replay :
      (cs : List (Call A)) (s : RankSet A)
      → IsValid less s
      → (s' : RankSet A) × (run less cs s ≡ some (replay less cs (values s), s')) × IsValid less s'
  unfolding run
  run-replay [] s h = (s, refl, h)
  run-replay (c ∷ cs) s h =
      let (s1, e1, h1, v1) = step_refines c s h in
      let (s2, e2, h2) = run-replay cs s1 h1 in (s2, rw (e1, e2, v1) refl, h2)
