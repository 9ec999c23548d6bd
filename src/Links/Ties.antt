-- ===== src/Links/Ties.antt =====
-- What the assignments of an insertion and of an erasure make of a chain.
use cs_161_s21_problem_sets.Prelude.{ℕ, ◌≡◌, ◌≢◌, sym, ap, ◌∙◌, List, [], ◌∷◌, ◌++◌}
use cs_161_s21_problem_sets.Links.State.{Memory, put, tie, bypass, reset_links}
use cs_161_s21_problem_sets.Links.Chain.{
  Absent, Distinct, Linked, Absent-Mem, put-own, put-other, last_of, Mem-last_of,
}

-- The memory after an insertion between `p` and `q`.
abbrev pub tied : ℕ → ℕ → ℕ → Memory → Memory
tied x p q m = record { next = put p x (put x q m.next); prev = put q x (put x p m.prev) }

pub tie-tied : (x q : ℕ) (m : Memory) → q ≢ x → tie x q m ≡ tied x (m.prev q) q m
unfolding tie
tie-tied x q m ne =
    ap (λ p. record { next = put p x (put x q m.next); prev = put q x (put x (m.prev q) m.prev) })
      (put-other x (m.prev q) m.prev q ne)

-- The edge to `q` becomes one to `x`, and one from `x` to `q`.
pub Linked-tied :
    (m : Memory) (a : ℕ) (xs : List ℕ) (q x : ℕ)
    → Linked m a xs q
    → Distinct (a ∷ xs)
    → Absent q xs
    → Absent x (a ∷ xs)
    → q ≢ x
    → Linked (tied x (last_of a xs) q m) a (xs ++ (x ∷ [])) q
Linked-tied m a [] q x (n, p) d off (ne, _) qx = (
  put-own a x (put x q m.next),
  put-other q x (put x a m.prev) x (λ e. qx (sym e)) ∙ put-own x a m.prev,
  (put-other a x (put x q m.next) x ne ∙ put-own x q m.next, put-own q x (put x a m.prev)),
)
Linked-tied m a (y ∷ ys) q x (n, p, h) (ad, d) (qy, off) (ne, absent) qx = (
  put-other (last_of y ys) x (put x q m.next) a
        (Absent-Mem a (last_of y ys) (y ∷ ys) ad (Mem-last_of y ys))
      ∙ put-other x q m.next a (λ e. ne (sym e))
      ∙ n,
  put-other q x (put x (last_of y ys) m.prev) y (λ e. qy (sym e))
      ∙ put-other x (last_of y ys) m.prev y (λ e. absent.0 (sym e))
      ∙ p,
  Linked-tied m y ys q x h d off absent qx,
)

-- The memory after an erasure between `p` and `q`.
abbrev pub untied : ℕ → ℕ → ℕ → Memory → Memory
untied x p q m = record { next = put x 0 (put p q m.next); prev = put x 0 (put q p m.prev) }

pub bypass-untied :
    (x : ℕ) (m : Memory)
    → m.prev x ≢ x
    → reset_links x (bypass x m) ≡ untied x (m.prev x) (m.next x) m
unfolding bypass reset_links
bypass-untied x m ne =
    let same : put (m.prev x) (m.next x) m.next x ≡ m.next x =
      put-other (m.prev x) (m.next x) m.next x (λ e. ne (sym e)) in
    ap
      (λ q. record {
        next = put x 0 (put (m.prev x) (m.next x) m.next);
        prev = put x 0 (put q (m.prev x) m.prev);
      })
      same

pub Linked-untied :
    (m : Memory) (a : ℕ) (xs : List ℕ) (q x : ℕ)
    → Linked m a xs x
    → Distinct (a ∷ xs)
    → Absent q xs
    → Absent x (a ∷ xs)
    → q ≢ x
    → Linked (untied x (last_of a xs) q m) a xs q
Linked-untied m a [] q x (n, p) d off (ne, _) qx = (
  put-other x 0 (put a q m.next) a (λ e. ne (sym e)) ∙ put-own a q m.next,
  put-other x 0 (put q a m.prev) q qx ∙ put-own q a m.prev,
)
Linked-untied m a (y ∷ ys) q x (n, p, h) (ad, d) (qy, off) (ne, absent) qx = (
  put-other x 0 (put (last_of y ys) q m.next) a (λ e. ne (sym e))
      ∙ put-other (last_of y ys) q m.next a
          (Absent-Mem a (last_of y ys) (y ∷ ys) ad (Mem-last_of y ys))
      ∙ n,
  put-other x 0 (put q (last_of y ys) m.prev) y (λ e. absent.0 (sym e))
      ∙ put-other q (last_of y ys) m.prev y (λ e. qy (sym e))
      ∙ p,
  Linked-untied m y ys q x h d off absent qx,
)
