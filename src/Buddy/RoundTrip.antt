-- ===== src/Buddy/RoundTrip.antt =====
-- Sequences of `kalloc` and `kfree`.
use cs_161_s21_problem_sets.Prelude.{
  ℕ, ◌+◌, ◌≤◌, ◌≡◌, refl, sym, ap, ◌∙◌, ◌⊎◌, inl, inr, true, false, ◌||◌, not, arith, ◌==◌,
  Bool-cases, subst, fun_ext, Option, none, some, ok, panic,
}
use cs_161_s21_problem_sets.Buddy.State.{Pages, on_page, alloc_block, free_block}
use cs_161_s21_problem_sets.Buddy.Lists.{InBlock}
use cs_161_s21_problem_sets.Buddy.Books.{
  IsValid, holds-cases, on_pages-in, on_pages-out, first_page, taken_and_free,
}
use cs_161_s21_problem_sets.Buddy.Alloc.{Allocated, alloc_block-cases}
use cs_161_s21_problem_sets.Buddy.Free.{Freed, free_block_lem}

-- An answer is one that `alloc_block-cases` describes.
alloc_block-Allocated :
    (n b : ℕ) (s s' : Pages)
    → n ≤ 9
    → IsValid s
    → alloc_block n s ≡ some (b, s')
    → Allocated n s b s'
alloc_block-Allocated n b s s' small valid e = elim (alloc_block-cases n s small valid) [
  | inl (none_left, _) ↦ absurd (let h : none ≡ some (b, s') = sym none_left ∙ e in ground arith)
  | inr (c, t, f, a) ↦
      let (same, same') = answer_inj (sym f ∙ e) in
      subst (λ k. Allocated n s k s') same (subst (λ u. Allocated n s c u) same' a)
]
  where
    answer_inj :
        {b c : ℕ} {s t : Pages}
        → ◌≡◌ {A = Option (ℕ × Pages)} (some (b, s)) (some (c, t))
        → (b ≡ c) × (s ≡ t)
    answer_inj e = (cc, cc)

-- Two blocks of orders up to MAX_ORDER that are handed out one after the other, from a valid page
-- map, have no page in common.
pub allocs_apart :
    (n m b c p : ℕ) (s s' s'' : Pages)
    → n ≤ 9
    → m ≤ 9
    → IsValid s
    → alloc_block n s ≡ some (b, s')
    → alloc_block m s' ≡ some (c, s'')
    → InBlock n b p
    → ¬ InBlock m c p
allocs_apart n m b c p s s' s'' small small' valid e e' i j =
    let first = alloc_block-Allocated n b s s' small valid e in
    let second = alloc_block-Allocated m c s' s'' small' first.valid e' in
    let was_free : s'.free p ≡ true =
      sym (ap (λ g. g p) second.all_free) ∙ on_pages-in m c p (λ _. true) s'.free j in
    let was_taken : s'.free p ≡ false =
      ap (λ g. g p) first.now_taken ∙ on_pages-in n b p (λ _. false) s.free i in
    absurd (ground (arith, was_free, was_taken))

-- A block that is not with the user is refused.
refused : (blk : ℕ) (s : Pages) → s.returned blk ≡ false → free_block blk s ≡ some panic
unfolding free_block
refused blk s r = let t : (s.free blk || not (s.returned blk)) ≡ true = ground arith in rw t refl

at_own : {A : Type 0} (b : ℕ) (new : A) (old : ℕ → A) → on_page b new old b ≡ new
at_own b new old = let t : (b == b) ≡ true = ground arith in rw t refl

-- A block that was returned can be freed, and freeing it a second time fails the assertion.
pub free_block-free_block :
    (blk : ℕ) (s : Pages)
    → IsValid s
    → s.returned blk ≡ true
    → (s' : Pages) × (free_block blk s ≡ some (ok s')) × (free_block blk s' ≡ some panic)
free_block-free_block blk s valid r =
    let (n, s', e, f) = free_block_lem blk s valid r in
    (s', e, refused blk s' (ap (λ g. g blk) f.now_returned ∙ at_own blk false s.returned))

-- Freeing what was handed out undoes what the handing out did to the flags.
module _ {n blk : ℕ} {s s' s'' : Pages} (valid : IsValid s) (a : Allocated n s blk s')
    (f : Freed n s' blk s'') where
  free_again : (p : ℕ) → s''.free p ≡ s.free p
  free_again p = ap (λ g. g p) f.now_free ∙ elim (holds-cases n blk p) [
    | inl i ↦
        on_pages-in n blk p (λ _. true) s'.free i
        ∙ sym (on_pages-in n blk p (λ _. true) s.free i)
        ∙ ap (λ g. g p) a.all_free
    | inr off ↦
        on_pages-out n blk p (λ _. true) s'.free off
        ∙ ap (λ g. g p) a.now_taken
        ∙ on_pages-out n blk p (λ _. false) s.free off
  ]

  was_free : s.free blk ≡ true
  was_free =
      sym (ap (λ g. g blk) a.all_free) ∙ on_pages-in n blk blk (λ _. true) s.free (first_page n blk)

  was_home : s.returned blk ≡ false
  was_home = elim (Bool-cases (s.returned blk)) [
    | inl r ↦
        let t = valid.taken blk r in
        absurd (taken_and_free was_free (t.used blk (first_page t.size blk)))
    | inr home ↦ home
  ]

  home_again : (p : ℕ) → s''.returned p ≡ s.returned p
  home_again p =
      ap (λ g. g p) (f.now_returned ∙ ap (λ g. on_page blk false g) a.now_returned)
      ∙ elim (Bool-cases (p == blk)) [
        | inl same ↦ let e : p ≡ blk = ground arith in rw same (sym (ap s.returned e ∙ was_home))
        | inr other ↦ rw other refl
      ]

-- In a valid page map, a block of an order up to MAX_ORDER that was handed out can be freed at
-- once; then every page is free or not, and returned or not, as before, and the page map is
-- valid.
pub free_block-alloc_block :
    (n : ℕ) (s : Pages)
    → n ≤ 9
    → IsValid s
    → (alloc_block n s ≡ none)
      ⊎ ((blk : ℕ) × (s' s'' : Pages) × (alloc_block n s ≡ some (blk, s'))
          × (free_block blk s' ≡ some (ok s''))
          × IsValid s''
          × (s''.free ≡ s.free)
          × (s''.returned ≡ s.returned))
free_block-alloc_block n s small valid = elim (alloc_block-cases n s small valid) [
  | inl (e, left) ↦ inl e
  | inr (blk, s', e, a) ↦
      let (m, s'', e', f) =
        free_block_lem blk s' a.valid
          (ap (λ g. g blk) a.now_returned ∙ at_own blk true s.returned) in
      let told : s'.ord blk ≡ n + 12 =
        sym (ap (λ g. g blk) a.told)
        ∙ on_pages-in n blk blk (λ _. n + 12) s'.ord (first_page n blk) in
      let f' =
        subst (λ k. Freed k s' blk s'') (let same : m ≡ n = omega (arith, told, f.order) in same)
          f in
      inr (
        blk,
        s',
        s'',
        e,
        e',
        f.valid,
        fun_ext (free_again valid a f'),
        fun_ext (home_again valid a f'),
      )
]
