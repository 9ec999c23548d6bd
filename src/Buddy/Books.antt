-- ===== src/Buddy/Books.antt =====
-- The allocator's invariant. `extra` counts, for every page, the blocks that an operation holds in its
-- hands: they are free, and on no list.
use cs_161_s21_problem_sets.Prelude.{
  ℕ, ◌+◌, ◌^◌, ◌≤◌, ◌<◌, ◌≡◌, refl, sym, ◌∙◌, ◌⊎◌, inl, inr, Bool, true, false, ◌&&◌, List, [], ◌∷◌,
  ◌++◌, arith, ltb, leb, ◌==◌, if◌then◌else◌, Bool-cases, pow_two_pos, subst,
}
use cs_161_s21_problem_sets.Buddy.State.{Pages, on_pages, with_list, push_back}
use cs_161_s21_problem_sets.Buddy.Lists.{
  Mem, Mem-append, InBlock, holds, holding, cover, holding-append, holding-one, InBlock-holds,
  holding_pos, cover-with_list, cover_pos,
}
use cs_161_s21_problem_sets.Buddy.Blocks.{Rooted, Placed, Placed-order}

abbrev pub bit : Bool → ℕ
bit b = if b then 1 else 0

-- The pages of a block have its order.
abbrev pub HasOrder : Pages → ℕ → ℕ → Type 0
HasOrder s n b = (p : ℕ) → InBlock n b p → s.ord p ≡ n + 12

-- A block that was handed out.
pub record Taken (s : Pages) (b : ℕ) : Type 0 where
  pub size : ℕ
  pub place : Placed s.r_ord s.r_page size b
  pub orders : HasOrder s size b
  pub used : (p : ℕ) → InBlock size b p → s.free p ≡ false

pub record Books (s : Pages) (extra : ℕ → ℕ) : Type 0 where
  pub roots : Rooted s.r_ord s.r_page
  pub blocks : (n b : ℕ) → Mem b (s.free_blocks n) → Placed s.r_ord s.r_page n b × HasOrder s n b
  pub covered : (p : ℕ) → cover 10 s.free_blocks p + extra p ≡ bit (s.free p)
  pub taken : (b : ℕ) → s.returned b ≡ true → Taken s b

-- Nothing is in hand: every free page is in one block of one list, and no other page is in any.
abbrev pub IsValid : Pages → Type 0
IsValid s = Books s (λ _. 0)

pub holds-cases : (n b p : ℕ) → InBlock n b p ⊎ (holds n b p ≡ 0)
holds-cases n b p = elim (Bool-cases (holds n b p == 0)) [
  | inl off ↦ inr (ground arith)
  | inr here ↦ inl (InBlock-holds n b p (ground arith))
]

pub on_pages-in {ℓ} :
    {A : Type ℓ} (n b p : ℕ) (new old : ℕ → A)
    → InBlock n b p
    → on_pages b (2 ^ n) new old p ≡ new p
on_pages-in n b p new old (lo, hi) =
    let t : (leb b p && ltb p (b + 2 ^ n)) ≡ true = ground arith in rw t refl

pub on_pages-out {ℓ} :
    {A : Type ℓ} (n b p : ℕ) (new old : ℕ → A)
    → holds n b p ≡ 0
    → on_pages b (2 ^ n) new old p ≡ old p
on_pages-out n b p new old off =
    let t : (leb b p && ltb p (b + 2 ^ n)) ≡ false = ground arith in rw t refl

pub first_page : (n b : ℕ) → InBlock n b b
first_page n b = (omega arith, omega (arith, pow_two_pos n))

bit-true : (b : Bool) → 0 < bit b → b ≡ true
bit-true true h = refl
bit-true false h = absurd (omega arith)

bit-bound : (b : Bool) → bit b ≤ 1
bit-bound true = omega arith
bit-bound false = omega arith

pub taken_and_free : {b : Bool} → b ≡ true → b ≡ false → ⊥
taken_and_free {b} e f = ground arith

module _ {s : Pages} {extra : ℕ → ℕ} (books : Books s extra) where
  -- A page in hand is free, and on no list.
  pub extra-free : (p : ℕ) → 0 < extra p → s.free p ≡ true
  extra-free p h = bit-true (s.free p) (omega (arith, books.covered p))

  pub extra-unlisted : (p : ℕ) → 0 < extra p → cover 10 s.free_blocks p ≡ 0
  extra-unlisted p h = omega (arith, books.covered p, bit-bound (s.free p))

  pub listed-unheld : (n b p : ℕ) → Mem b (s.free_blocks n) → InBlock n b p → extra p ≡ 0
  listed-unheld n b p m i =
      let (w, o) = books.blocks n b m in
      omega (
        arith,
        books.covered p,
        bit-bound (s.free p),
        cover_pos 10 n s.free_blocks p (omega (arith, Placed-order w)),
        holding_pos n b (s.free_blocks n) p m i,
      )

  -- Other orders for pages that are in hand.
  pub Books-orders :
      (ord' : ℕ → ℕ)
      → ((p : ℕ) → (ord' p ≡ s.ord p) ⊎ (0 < extra p))
      → Books (record s { ord = ord' }) extra
  Books-orders ord' kept = record {
    roots = books.roots;
    blocks = λ n b m.
        let (w, o) = books.blocks n b m in
        (
          w,
          λ p i. elim (kept p) [
            | inl e ↦ e ∙ o p i
            | inr h ↦ absurd (omega (arith, listed-unheld n b p m i))
          ],
        );
    covered = books.covered;
    taken = λ b r.
        let t = books.taken b r in
        record {
          size = t.size;
          place = t.place;
          orders = λ p i. elim (kept p) [
            | inl e ↦ e ∙ t.orders p i
            | inr h ↦ absurd (taken_and_free (extra-free p h) (t.used p i))
          ];
          used = t.used;
        };
  }

  -- A block leaves its list for the hand.
  pub Books-take :
      (n b : ℕ) (rest : List ℕ)
      → Placed s.r_ord s.r_page n b
      → ((c : ℕ) → Mem c rest → Mem c (s.free_blocks n))
      → ((p : ℕ) → holding n rest p + holds n b p ≡ holding n (s.free_blocks n) p)
      → Books
          (record s { free_blocks = with_list n rest s.free_blocks })
          (λ p. extra p + holds n b p)
  Books-take n b rest w sub count = record {
    roots = books.roots;
    blocks = λ m c h. books.blocks m c (in_old m c h);
    covered = λ p. omega (
      arith,
      books.covered p,
      count p,
      cover-with_list 10 n rest s.free_blocks p (omega (arith, Placed-order w)),
    );
    taken = λ c r.
        let t = books.taken c r in
        record { size = t.size; place = t.place; orders = t.orders; used = t.used };
  }
    where
      in_old : (m c : ℕ) → Mem c (with_list n rest s.free_blocks m) → Mem c (s.free_blocks m)
      in_old m c h = elim (Bool-cases (m == n)) [
        | inl same ↦
            let e : m ≡ n = ground arith in
            subst (λ k. Mem c (s.free_blocks k)) (sym e) (sub c (rw same at h))
        | inr other ↦ rw other at h
      ]

  -- And back.
  pub Books-put :
      (n b : ℕ) (extra' : ℕ → ℕ)
      → Placed s.r_ord s.r_page n b
      → HasOrder s n b
      → ((p : ℕ) → extra p ≡ extra' p + holds n b p)
      → Books (push_back n b s) extra'
  unfolding push_back
  Books-put n b extra' w o split = record {
    roots = books.roots;
    blocks = λ m c h. elim (in_old m c h) [
      | inl old ↦ books.blocks m c old
      | inr (em, ec) ↦ (
        subst (λ k. Placed s.r_ord s.r_page k c) (sym em)
            (subst (λ k. Placed s.r_ord s.r_page n k) (sym ec) w),
        subst (λ k. HasOrder s k c) (sym em) (subst (λ k. HasOrder s n k) (sym ec) o),
      )
    ];
    covered = λ p. omega (
      arith,
      books.covered p,
      split p,
      holding-append n (s.free_blocks n) (b ∷ []) p,
      holding-one n b p,
      cover-with_list 10 n (s.free_blocks n ++ (b ∷ [])) s.free_blocks p
          (omega (arith, Placed-order w)),
    );
    taken = λ c r.
        let t = books.taken c r in
        record { size = t.size; place = t.place; orders = t.orders; used = t.used };
  }
    where
      in_old :
          (m c : ℕ)
          → Mem c (with_list n (s.free_blocks n ++ (b ∷ [])) s.free_blocks m)
          → Mem c (s.free_blocks m) ⊎ ((m ≡ n) × (c ≡ b))
      in_old m c h = elim (Bool-cases (m == n)) [
        | inl same ↦
            let e : m ≡ n = ground arith in
            elim (Mem-append c (s.free_blocks n) (b ∷ []) (rw same at h)) [
              | inl old ↦ inl (subst (λ k. Mem c (s.free_blocks k)) (sym e) old)
              | inr (inl new) ↦ inr (e, new)
              | inr (inr none) ↦ elim none [ ]
            ]
        | inr other ↦ inl (rw other at h)
      ]

-- Another count of the same.
pub Books-recount :
    {s : Pages} {extra extra' : ℕ → ℕ}
    → Books s extra
    → ((p : ℕ) → extra' p ≡ extra p)
    → Books s extra'
Books-recount books e = record {
  roots = books.roots;
  blocks = books.blocks;
  covered = λ p. omega (arith, books.covered p, e p);
  taken = books.taken;
}
