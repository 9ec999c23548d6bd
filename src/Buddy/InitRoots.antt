-- ===== src/Buddy/InitRoots.antt =====
-- The inner loop of `init_kalloc`: a range becomes roots, the largest first.
use cs_161_s21_problem_sets.Prelude.{
  ℕ, zero, suc, ◌+◌, ◌-◌, ◌*◌, ◌/◌, ◌^◌, ◌≤◌, ◌<◌, ◌≡◌, refl, ap, ◌∙◌, inl, inr, Bool, true, false,
  ◌&&◌, arith, ltb, leb, ◌==◌, if◌then◌else◌, Bool-cases, pow_two_suc, pow_two_add, pow_two_le,
  subst, ok,
}
use cs_161_s21_problem_sets.Buddy.State.{Pages}
use cs_161_s21_problem_sets.Buddy.Order.{largest_fitting_ord, largest_fitting_ord_bounds}
use cs_161_s21_problem_sets.Buddy.Init.{pgmap_size, add_root, add_roots}
use cs_161_s21_problem_sets.Buddy.InitValid.{Built, add_root-Built}

pub Built-later : {cur : ℕ} {s : Pages} (next : ℕ) → cur ≤ next → Built cur s → Built next s
Built-later {cur} {s} next le built = record {
  valid = built.valid;
  home = built.home;
  free_below = λ p h. built.free_below p (omega arith);
  ord_below = λ p h. built.ord_below p (omega arith);
  page_below = λ p h. built.page_below p (omega arith);
  ends = λ p lt lo hi. elim (Bool-cases (ltb p cur)) [
    | inl t ↦ let old = built.ends p (let e : p < cur = ground arith in e) lo hi in omega arith
    | inr t ↦
        let ge : cur ≤ p = ground arith in
        let one : 2 ^ (s.r_ord p - 12) ≡ 1 = ap (λ k. 2 ^ (k - 12)) (built.ord_below p ge) in
        omega (arith, one, built.page_below p ge)
  ];
}

-- The pages from `page` on, `k` of them, are free, and the others as before.
abbrev pub FreesRange : ℕ → ℕ → Pages → Pages → Type 0
FreesRange page k s s' =
    (p : ℕ) → s'.free p ≡ (if leb page p && ltb p (page + k) then true else s.free p)

abbrev RunsTo : ℕ → ℕ → ℕ → Pages → Type 0
RunsTo fuel page k s =
    (s' : Pages) × (add_roots fuel (page * 4096) (k * 4096) s ≡ ok s')
    × Built (page + k) s'
    × FreesRange page k s s'

frees_both :
    (page m k p : ℕ) (old : Bool)
    → m ≤ k
    → (if leb (page + m) p && ltb p (page + m + (k - m))
        then true
        else if leb page p && ltb p (page + m)
        then true
        else old)
      ≡ (if leb page p && ltb p (page + k) then true else old)
frees_both page m k p old le = ground arith

exponent_above : (a o : ℕ) → 2 ^ a < 2 ^ suc o → a ≤ o
exponent_above a o h = elim (Bool-cases (ltb o a)) [
  | inl below ↦ absurd (omega (arith, pow_two_le (suc o) a (let lt : o < a = ground arith in lt)))
  | inr at_least ↦ ground arith
]

pub exponent_under : (a o : ℕ) → 2 ^ o < 2 ^ suc a → o ≤ a
exponent_under a o h = elim (Bool-cases (ltb a o)) [
  | inl above ↦ absurd (omega (arith, pow_two_le (suc a) o (let lt : a < o = ground arith in lt)))
  | inr at_most ↦ ground arith
]

-- The order that the largest block of `k` pages has.
record Fits (k n : ℕ) : Type 0 where
  found : largest_fitting_ord 64 (k * 4096) 1 ≡ n + 12
  few : n ≤ 9
  inside : 2 ^ n ≤ k
  most : k < 2 * 2 ^ n

fits : (k : ℕ) → 0 < k → k < 1024 → (n : ℕ) × Fits k n
fits k pos small =
    let (o, e, low, high) =
      largest_fitting_ord_bounds 64 (k * 4096) 0 (omega arith) (omega arith) in
    let least : 12 ≤ o = exponent_above 12 o (omega (arith, high)) in
    let most : o ≤ 21 = exponent_under 21 o (omega (arith, low)) in
    let size : 2 ^ o ≡ 4096 * 2 ^ (o - 12) =
      ap (λ j. 2 ^ j) (let split : o ≡ o - 12 + 12 = omega arith in split)
      ∙ pow_two_add (o - 12) 12 in
    (
      o - 12,
      record {
        found = omega (arith, e);
        few = omega arith;
        inside = omega (arith, size, low);
        most = omega (arith, size, high, pow_two_suc o);
      },
    )

-- One round.
add_roots-round :
    (fuel page k n : ℕ) (s : Pages)
    → Fits k n
    → (k * 4096 == 0) ≡ false
    → page + k ≤ 512
    → add_roots (suc fuel) (page * 4096) (k * 4096) s
      ≡ add_roots fuel ((page + 2 ^ n) * 4096) ((k - 2 ^ n) * 4096) (add_root n page s)
unfolding add_roots
add_roots-round fuel page k n s f more room =
    let size : 2 ^ (n + 12) ≡ 4096 * 2 ^ n = pow_two_add n 12 in
    let test : (leb 12 (n + 12) && leb (n + 12) 21) ≡ true = ground (arith, f.few) in
    let in_map : leb (page + 2 ^ n) pgmap_size ≡ true = ground (arith, f.inside) in
    let index : n + 12 - 12 ≡ n = omega arith in
    let at : page * 4096 / 4096 ≡ page = omega arith in
    let next : page * 4096 + 2 ^ (n + 12) ≡ (page + 2 ^ n) * 4096 = omega (arith, size) in
    let left : k * 4096 - 2 ^ (n + 12) ≡ (k - 2 ^ n) * 4096 = omega (arith, size, f.inside) in
    rw (more, f.found, test, index, at, in_map, next, left) refl

after_round :
    (fuel page k n : ℕ) (s : Pages)
    → Fits k n
    → (k * 4096 == 0) ≡ false
    → page + k ≤ 512
    → RunsTo fuel (page + 2 ^ n) (k - 2 ^ n) (add_root n page s)
    → RunsTo (suc fuel) page k s
unfolding add_root
after_round fuel page k n s f more room (s', e, built, frees) = (
  s',
  add_roots-round fuel page k n s f more room ∙ e,
  (let end : page + 2 ^ n + (k - 2 ^ n) ≡ page + k = omega (arith, f.inside) in
      subst (λ j. Built j s') end built),
  λ p. frees p ∙ frees_both page (2 ^ n) k p (s.free p) f.inside,
)

-- The remainder is less than half of the power of two that bounds it.
Fits-rest : (fuel k n : ℕ) → Fits k n → k * 4096 < 2 ^ suc fuel → (k - 2 ^ n) * 4096 < 2 ^ fuel
Fits-rest fuel k n f enough =
    let size : 2 ^ (n + 12) ≡ 4096 * 2 ^ n = pow_two_add n 12 in
    let small = exponent_under fuel (n + 12) (omega (arith, size, f.inside)) in
    omega (arith, size, f.inside, f.most, pow_two_le (n + 12) fuel small)

pub add_roots_lem :
    (fuel cur page k : ℕ) (s : Pages)
    → page + k ≤ 512
    → k * 4096 < 2 ^ fuel
    → cur ≤ page
    → Built cur s
    → RunsTo fuel page k s
unfolding add_roots
add_roots_lem zero cur page k s room enough le built =
    (s, refl, Built-later (page + k) (omega arith) built, λ p. ground arith)
add_roots_lem (suc fuel) cur page k s room enough le built = elim (Bool-cases (k * 4096 == 0)) [
  | inl none ↦ (s, rw none refl, Built-later (page + k) (omega arith) built, λ p. ground arith)
  | inr more ↦
      let (n, f) = fits k (ground arith) (omega arith) in
      let rest =
        add_roots_lem fuel (page + 2 ^ n) (page + 2 ^ n) (k - 2 ^ n) (add_root n page s)
          (omega (arith, f.inside)) (Fits-rest fuel k n f enough) (omega arith)
          (add_root-Built built n page f.few le) in
      after_round fuel page k n s f more room rest
]
