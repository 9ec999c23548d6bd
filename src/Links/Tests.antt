-- ===== src/Links/Tests.antt =====
-- A list of two elements.
use cs_161_s21_problem_sets.Prelude.{
  ℕ, ◌≡◌, ◌≢◌, refl, inl, inr, [], ◌∷◌, ok, Option, arith, ◌==◌, if◌then◌else◌,
}
use cs_161_s21_problem_sets.Links.State.{Memory, insert_before, erase_links, pop_front}
use cs_161_s21_problem_sets.Links.Chain.{Mem}
use cs_161_s21_problem_sets.Links.Ring.{IsList, head_or}
use cs_161_s21_problem_sets.Links.Refine.{
  Popped, insert_before-IsList, erase_links-IsList, pop_front-IsList,
}

-- The head is at 1, an element at 2, and another at 3; 4 is not linked.
abbrev two : Memory
two = record {
  next = λ a. if a == 1 then 2 else if a == 2 then 3 else if a == 3 then 1 else 0;
  prev = λ a. if a == 1 then 3 else if a == 2 then 1 else if a == 3 then 2 else 0;
}

two-IsList : IsList two 1 (2 ∷ 3 ∷ [])
two-IsList = record {
  ring = (refl, refl, (refl, refl, (refl, refl)));
  distinct = ((λ e. ground arith, (λ e. ground arith, tt)), ((λ e. ground arith, tt), (tt, tt)));
  nonzero = λ y i e. nonzero_in y i e;
}
  where
    nonzero_in : (y : ℕ) → Mem y (1 ∷ 2 ∷ 3 ∷ []) → y ≢ 0
    nonzero_in y (inl e) z = ground arith
    nonzero_in y (inr (inl e)) z = ground arith
    nonzero_in y (inr (inr (inl e))) z = ground arith
    nonzero_in y (inr (inr (inr i))) z = elim i [ ]

insert_before-IsList_example :
    (m : Memory) × (insert_before 4 (head_or 1 (3 ∷ [])) two ≡ ok m) × IsList m 1 (2 ∷ 4 ∷ 3 ∷ [])
insert_before-IsList_example =
    insert_before-IsList two 1 (2 ∷ []) (3 ∷ []) 4 two-IsList (λ e. ground arith) refl refl

erase_links-IsList_example :
    (m : Memory) × (erase_links 2 two ≡ ok m)
    × IsList m 1 (3 ∷ [])
    × (m.next 2 ≡ 0)
    × (m.prev 2 ≡ 0)
erase_links-IsList_example = erase_links-IsList two 1 [] (3 ∷ []) 2 two-IsList

pop_front-IsList_small :
    (o : Option ℕ) × (m : Memory) × (pop_front 1 two ≡ ok (o, m)) × Popped 1 (2 ∷ 3 ∷ []) two o m
pop_front-IsList_small = pop_front-IsList two 1 (2 ∷ 3 ∷ []) two-IsList
