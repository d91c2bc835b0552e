-- ===== src/Mt19937/Range.antt =====
-- Indices and ranges in src/brickred/codec/mt19937.cc.
use brickred_server.Base.{
  ℕ, zero, suc, ◌≤◌, ◌<◌, ◌≡◌, refl, ap, ◌∙◌, Bool-cases, inl, inr, List, length, leb, arith,
  length-overlay, max,
}
use brickred_server.Mt19937.{
  Impl, set, seed_words, seed, advance, mix_key, mix_index, seed_by_key, twist_loop, generate,
  next_int,
}

-- 624 words, and an index that is at most the number of words.
pub record IsSeeded (g : Impl) : Type 0 where
  pub words : length g.mt ≡ 624
  pub index : g.mti ≤ 624

length-seed_words : (n i prev : ℕ) → length (seed_words n i prev) ≡ n
unfolding seed_words
length-seed_words zero i prev = refl
length-seed_words (suc n) i prev = ap suc (length-seed_words n (suc i) _)

length-advance : (mt : List ℕ) (i : ℕ) → length (advance mt i).0 ≡ length mt
unfolding advance
length-advance mt i = elim (Bool-cases (leb 624 (suc i))) [
  | inl wraps ↦ rw wraps (length-overlay mt 0 _)
  | inr goes_on ↦ rw goes_on refl
]

length-mix_key : (k : ℕ) (key mt : List ℕ) (i j : ℕ) → length (mix_key k key mt i j).0 ≡ length mt
unfolding mix_key
length-mix_key zero key mt i j = refl
length-mix_key (suc k) key mt i j =
    length-mix_key k key _ _ _ ∙ length-advance (set mt i _) i ∙ length-overlay mt i _

length-mix_index : (k : ℕ) (mt : List ℕ) (i : ℕ) → length (mix_index k mt i) ≡ length mt
unfolding mix_index
length-mix_index zero mt i = refl
length-mix_index (suc k) mt i =
    length-mix_index k _ _ ∙ length-advance (set mt i _) i ∙ length-overlay mt i _

length-twist_loop : (n i from : ℕ) (mt : List ℕ) → length (twist_loop n i from mt) ≡ length mt
unfolding twist_loop
length-twist_loop zero i from mt = refl
length-twist_loop (suc n) i from mt =
    length-twist_loop n (suc i) (suc from) _ ∙ length-overlay mt i _

length-generate : (mt : List ℕ) → length (generate mt) ≡ length mt
unfolding generate
length-generate mt =
    length-overlay (twist_loop 396 227 0 (twist_loop 227 0 397 mt)) 623 _
    ∙ length-twist_loop 396 227 0 (twist_loop 227 0 397 mt)
    ∙ length-twist_loop 227 0 397 mt

-- Both ways of seeding make a generator of 624 words whose index is in range.
pub seed-IsSeeded : (s : ℕ) (key : List ℕ) → IsSeeded (seed s) × IsSeeded (seed_by_key key)
unfolding seed seed_by_key
seed-IsSeeded s key =
    let start : Impl = seed 19650218 in
    let mixed = mix_key (max 624 (length key)) key start.mt 1 0 in
    (
      record { words = ap suc (length-seed_words 623 1 s); index = omega arith },
      record {
        words =
            length-overlay (mix_index 623 mixed.0 mixed.1) 0 _
            ∙ length-mix_index 623 mixed.0 mixed.1
            ∙ length-mix_key (max 624 (length key)) key start.mt 1 0
            ∙ ap suc (length-seed_words 623 1 19650218);
        index = omega arith;
      },
    )

-- On a generator that has been seeded, nextInt reads inside the array: it leaves an index from 1 to
-- 624, one behind the word that was read.
pub next_int-IsSeeded : (g : Impl) → IsSeeded g → IsSeeded (next_int g).1 × (0 < (next_int g).1.mti)
unfolding next_int
next_int-IsSeeded g v = elim (Bool-cases (leb 624 g.mti)) [
  | inl used_up ↦
      rw used_up
        (record { words = length-generate g.mt ∙ v.words; index = omega arith }, omega arith)
  | inr left ↦ rw left (record { words = v.words; index = ground arith }, omega arith)
]
