-- ===== src/Links/Refine.antt =====
-- The operations of `list` are those of a sequence.
use cs_161_s21_problem_sets.Prelude.{
  ℕ, ◌≡◌, ◌≢◌, refl, sym, ap, ◌∙◌, inl, inr, true, false, ◌&&◌, not, List, [], ◌∷◌, ◌++◌, arith,
  ◌==◌, subst, ok, Option, none, some,
}
use cs_161_s21_problem_sets.Links.State.{
  Memory, put, insert_before, erase_links, empty, front, push_back, pop_front,
}
use cs_161_s21_problem_sets.Links.Chain.{
  Mem, Linked-cut, Absent-Mem, put-own, last_of, prev-last_of, Mem-last_of,
}
use cs_161_s21_problem_sets.Links.Lists.{
  append_nil, Mem-left, Mem-right, Mem-insert, Mem-remove, Distinct-insert, Distinct-remove,
}
use cs_161_s21_problem_sets.Links.Ties.{tied, tie-tied, untied, bypass-untied}
use cs_161_s21_problem_sets.Links.Ring.{
  IsList, head_or, cut, glue, Cut-first, next-nonzero, unlinked-Absent, next-head_or, Mem-head_or,
  ring_tied, ring_untied, other_end,
}

-- `insert_before` of an element that is not linked, in a list in memory that holds the sequence
-- us ++ bs, before the first element of bs or before the head if bs is empty: no assertion fails,
-- and the list holds us, the element, and bs.
pub insert_before-IsList :
    (m : Memory) (h : ℕ) (us bs : List ℕ) (x : ℕ)
    → IsList m h (us ++ bs)
    → x ≢ 0
    → m.next x ≡ 0
    → m.prev x ≡ 0
    → (m' : Memory) × (insert_before x (head_or h bs) m ≡ ok m') × IsList m' h (us ++ (x ∷ bs))
unfolding insert_before
insert_before-IsList m h us bs x l nz n p =
    let q = head_or h bs in
    let a = unlinked-Absent m h (us ++ bs) x l n in
    let c = cut m h us bs l.ring in
    let before = prev-last_of m h us q (Cut-first m h us bs c) in
    let far = other_end m h us bs x l.distinct a in
    let prev_there : m.prev q ≢ 0 = λ e.
      l.nonzero (last_of h us) (Mem-left (last_of h us) (h ∷ us) bs (Mem-last_of h us))
        (sym before ∙ e) in
    let next_there : m.next q ≢ 0 = next-nonzero m h (us ++ bs) q l (Mem-head_or h us bs) in
    let t1 : (not (m.next q == 0) && not (m.prev q == 0)) ≡ true = ground arith in
    let t2 : (m.next x == 0 && m.prev x == 0) ≡ true = ground arith in
    (
      tied x (last_of h us) q m,
      rw (t1, t2) (ap (λ w. ok w) (tie-tied x q m far ∙ ap (λ k. tied x k q m) before)),
      record {
        ring = ring_tied m h us bs x l.distinct a c;
        distinct = Distinct-insert x (h ∷ us) bs l.distinct a;
        nonzero = λ y i. elim (Mem-insert y x (h ∷ us) bs i) [
          | inl e ↦ λ z. nz (sym e ∙ z)
          | inr j ↦ l.nonzero y j
        ];
      },
    )

-- `erase` of an element x of a list in memory that holds us, x and bs: no assertion fails, the
-- list holds us ++ bs, and x is not linked.
pub erase_links-IsList :
    (m : Memory) (h : ℕ) (us bs : List ℕ) (x : ℕ)
    → IsList m h (us ++ (x ∷ bs))
    → (m' : Memory) × (erase_links x m ≡ ok m')
      × IsList m' h (us ++ bs)
      × (m'.next x ≡ 0)
      × (m'.prev x ≡ 0)
unfolding erase_links
erase_links-IsList m h us bs x l =
    let (left, right) = Linked-cut m h us x bs h l.ring in
    let (d, a) = Distinct-remove x (h ∷ us) bs l.distinct in
    let before = prev-last_of m h us x left in
    let after = next-head_or m h x bs right in
    let here : Mem x (h ∷ (us ++ (x ∷ bs))) = inr (Mem-right x us (x ∷ bs) (inl refl)) in
    let next_there : m.next x ≢ 0 = next-nonzero m h (us ++ (x ∷ bs)) x l here in
    let prev_there : m.prev x ≢ 0 = λ e.
      l.nonzero (last_of h us) (Mem-left (last_of h us) (h ∷ us) (x ∷ bs) (Mem-last_of h us))
        (sym before ∙ e) in
    let other : m.prev x ≢ x = λ e.
      Absent-Mem x (last_of h us) (h ∷ (us ++ bs)) a
        (Mem-left (last_of h us) (h ∷ us) bs (Mem-last_of h us)) (sym e ∙ before) in
    let t : (not (m.next x == 0) && not (m.prev x == 0)) ≡ true = ground arith in
    let q = head_or h bs in
    (
      untied x (last_of h us) q m,
      rw t (
          ap (λ w. ok w)
            (bypass-untied x m other
              ∙ ap (λ k. untied x k (m.next x) m) before
              ∙ ap (λ k. untied x (last_of h us) k m) after)),
      record {
        ring = glue (untied x (last_of h us) q m) h us bs (ring_untied m h us bs x d a left right);
        distinct = d;
        nonzero = λ y i. l.nonzero y (Mem-remove y x (h ∷ us) bs i);
      },
      put-own x 0 (put (last_of h us) q m.next),
      put-own x 0 (put q (last_of h us) m.prev),
    )

-- `push_back` puts an element that is not linked behind the others.
pub push_back-IsList :
    (m : Memory) (h : ℕ) (xs : List ℕ) (x : ℕ)
    → IsList m h xs
    → x ≢ 0
    → m.next x ≡ 0
    → m.prev x ≡ 0
    → (m' : Memory) × (push_back h x m ≡ ok m') × IsList m' h (xs ++ (x ∷ []))
unfolding push_back
push_back-IsList m h xs x l nz n p =
    insert_before-IsList m h xs [] x (subst (λ k. IsList m h k) (sym (append_nil xs)) l) nz n p

-- What `pop_front` answers.
abbrev pub Popped : ℕ → List ℕ → Memory → Option ℕ → Memory → Type 0
Popped h [] m o m' = (o ≡ none) × (m' ≡ m)
Popped h (x ∷ xs) m o m' = (o ≡ some x) × IsList m' h xs × (m'.next x ≡ 0) × (m'.prev x ≡ 0)

-- `pop_front` of a list in memory: it answers null and changes nothing if the list is empty, and
-- else it answers the first element, the list holds the others, and that element is not linked;
-- no assertion fails.
pub pop_front-IsList :
    (m : Memory) (h : ℕ) (xs : List ℕ)
    → IsList m h xs
    → (o : Option ℕ) × (m' : Memory) × (pop_front h m ≡ ok (o, m')) × Popped h xs m o m'
unfolding pop_front front empty
pop_front-IsList m h [] l =
    let t : (m.next h == h) ≡ true = ground (arith, l.ring.0) in
    (none, m, rw (pop_front, t) refl, (refl, refl))
pop_front-IsList m h (x ∷ xs) l =
    let ne : x ≢ h = λ e. l.distinct.0.0 (sym e) in
    let t : (m.next h == h) ≡ false = ground (arith, l.ring.0) in
    let (m', e, l', n, p) = erase_links-IsList m h [] xs x l in
    (some x, m', rw (pop_front, t, l.ring.0, e) refl, (refl, l', n, p))
