-- ===== src/Buddy/Split.antt =====
-- Breaking a block down, and what it leaves.
use cs_161_s21_problem_sets.Prelude.{
  ℕ, zero, suc, ◌+◌, ◌^◌, ◌≡◌, refl, ◌∙◌, inl, inr, arith, pow_two_suc, pow_two_pos, subst,
}
use cs_161_s21_problem_sets.Buddy.State.{Pages, on_pages, push_back, break_once, break_down}
use cs_161_s21_problem_sets.Buddy.Lists.{holds, holds-one}
use cs_161_s21_problem_sets.Buddy.Blocks.{Placed, Placed-left, Placed-right}
use cs_161_s21_problem_sets.Buddy.Books.{
  Books, holds-cases, on_pages-in, on_pages-out, Books-orders, Books-put,
}

-- What splitting and searching leave as it was.
pub record Kept (s s' : Pages) : Type 0 where
  pub same_free : s'.free ≡ s.free
  pub same_returned : s'.returned ≡ s.returned
  pub same_r_ord : s'.r_ord ≡ s.r_ord
  pub same_r_page : s'.r_page ≡ s.r_page

pub Kept-trans : {s t u : Pages} → Kept s t → Kept t u → Kept s u
Kept-trans h k = record {
  same_free = k.same_free ∙ h.same_free;
  same_returned = k.same_returned ∙ h.same_returned;
  same_r_ord = k.same_r_ord ∙ h.same_r_ord;
  same_r_page = k.same_r_page ∙ h.same_r_page;
}

pub Placed-Kept :
    {s s' : Pages} {n b : ℕ}
    → Kept s s'
    → Placed s'.r_ord s'.r_page n b
    → Placed s.r_ord s.r_page n b
Placed-Kept {s} {s'} {n} {b} k w =
    subst (λ f. Placed f s.r_page n b) k.same_r_ord
      (subst (λ f. Placed s'.r_ord f n b) k.same_r_page w)

pub Kept-refl : {s : Pages} → Kept s s
Kept-refl = record { same_free = refl; same_returned = refl; same_r_ord = refl; same_r_page = refl }

pub halves : (n b p : ℕ) → holds (suc n) b p ≡ holds n b p + holds n (b + 2 ^ n) p
halves n b p = ground (arith, pow_two_suc n, pow_two_pos n)

break_once-Kept : (n blk : ℕ) (s : Pages) → Kept s (break_once n blk s)
unfolding break_once push_back
break_once-Kept n blk s = record {
  same_free = refl;
  same_returned = refl;
  same_r_ord = refl;
  same_r_page = refl;
}

break_once-Books :
    (n blk : ℕ) (s : Pages)
    → Books s (holds (suc n) blk)
    → Placed s.r_ord s.r_page (suc n) blk
    → Books (break_once n blk s) (holds n blk)
unfolding break_once
break_once-Books n blk s books w =
    let right = blk + 2 ^ n in
    let marked = Books-orders books (on_pages right (2 ^ n) (λ _. n + 12) s.ord) (λ p.
      elim (holds-cases n right p) [
        | inl i ↦ inr (omega (arith, halves n blk p, holds-one n right p i))
        | inr off ↦ inl (on_pages-out n right p (λ _. n + 12) s.ord off)
      ]) in
    Books-put marked n right (holds n blk) (Placed-right books.roots w)
      (λ p i. on_pages-in n right p (λ _. n + 12) s.ord i) (halves n blk)

Placed-break_once :
    (n blk k b : ℕ) (s : Pages)
    → Placed s.r_ord s.r_page k b
    → Placed (break_once n blk s).r_ord (break_once n blk s).r_page k b
unfolding break_once push_back
Placed-break_once n blk k b s w = w

pub break_down-Books :
    (d n m blk : ℕ) (s : Pages)
    → m ≡ n + d
    → Books s (holds m blk)
    → Placed s.r_ord s.r_page m blk
    → Books (break_down d n blk s) (holds n blk)
      × Kept s (break_down d n blk s)
      × Placed s.r_ord s.r_page n blk
unfolding break_down
break_down-Books zero n m blk s e books w =
    let e' : m ≡ n = omega (arith, e) in
    (
      subst (λ k. Books s (holds k blk)) e' books,
      Kept-refl,
      subst (λ k. Placed s.r_ord s.r_page k blk) e' w,
    )
break_down-Books (suc d) n m blk s e books w =
    let e' : m ≡ suc (n + d) = omega (arith, e) in
    let step = break_once-Kept (n + d) blk s in
    let broken =
      break_once-Books (n + d) blk s (subst (λ k. Books s (holds k blk)) e' books)
        (subst (λ k. Placed s.r_ord s.r_page k blk) e' w) in
    let half = Placed-left (subst (λ k. Placed s.r_ord s.r_page k blk) e' w) in
    let (rest, kept, place) =
      break_down-Books d n (n + d) blk (break_once (n + d) blk s) refl broken
        (Placed-break_once (n + d) blk (n + d) blk s half) in
    (rest, Kept-trans step kept, Placed-Kept step place)
