-- ===== src/Blocks/Search.antt =====
-- `find_lsb` and `find_lsz` find the first bit of the value wanted.
use cs_161_s21_problem_sets.Prelude.{
  ℕ, zero, suc, ◌+◌, ◌-◌, ◌*◌, ◌/◌, ◌%◌, ◌^◌, ◌≤◌, ◌<◌, ◌≡◌, ◌≢◌, refl, sym, ap, ap₂, subst, ◌∙◌,
  inl, inr, Bool, true, false, not, Option, none, some, arith, ltb, ◌==◌, if◌then◌else◌, min,
  Bool-cases, Option-cases,
}
use cs_161_s21_problem_sets.Blocks.Bits.{Words, bit, first_bit, find_word, find_bit}

-- The first place from `k` on, below `k + n`, with the value wanted, or that there is none.
abbrev First : (ℕ → Bool) → Bool → ℕ → ℕ → Option ℕ → Type 0
First word want k n none = (j : ℕ) → k ≤ j → j < k + n → word j ≢ want
First word want k n (some x) =
    (k ≤ x) × (x < k + n) × (word x ≡ want) × ((j : ℕ) → k ≤ j → j < x → word j ≢ want)

other_value : (b want : Bool) → (if want then b else not b) ≡ false → b ≢ want
other_value b want h e = ground arith

this_value : (b want : Bool) → (if want then b else not b) ≡ true → b ≡ want
this_value b want h = ground arith

before_too :
    (word : ℕ → Bool) (want : Bool) (k x : ℕ)
    → word k ≢ want
    → ((j : ℕ) → k + 1 ≤ j → j < x → word j ≢ want)
    → (j : ℕ) → k ≤ j
    → j < x
    → word j ≢ want
before_too word want k x ne h j lo hi = elim (Bool-cases (j == k)) [
  | inl e ↦ let e' : j ≡ k = ground arith in rw e' ne
  | inr off ↦ h j (ground arith) hi
]

First-cons :
    (word : ℕ → Bool) (want : Bool) (k n : ℕ) (o : Option ℕ)
    → word k ≢ want
    → First word want (k + 1) n o
    → First word want k (suc n) o
First-cons word want k n none ne h =
    λ j lo hi. before_too word want k (k + 1 + n) ne h j lo (omega arith)
First-cons word want k n (some x) ne (lo, hi, at, h) =
    (omega arith, omega arith, at, before_too word want k x ne h)

first_bit-First :
    (n : ℕ) (word : ℕ → Bool) (want : Bool) (k : ℕ) → First word want k n (first_bit n word want k)
unfolding first_bit
first_bit-First zero word want k = λ j lo hi. absurd (omega arith)
first_bit-First (suc n) word want k = elim (Bool-cases (if want then word k else not (word k))) [
  | inl hit ↦
      rw hit
        (omega arith, omega arith, this_value (word k) want hit, λ j lo hi. absurd (omega arith))
  | inr miss ↦ rw miss (
      First-cons word want k n (first_bit n word want (k + 1)) (other_value (word k) want miss)
        (first_bit-First n word want (k + 1)))
]

-- `x` is the first bit with the value wanted from `i` on and below `last`, or `last` if there is none.
pub record Finds (v : Words) (want : Bool) (i last x : ℕ) : Type 0 where
  pub above : i ≤ x
  pub below : x ≤ last
  pub here : x < last → bit v x ≡ want
  pub before : (j : ℕ) → i ≤ j → j < x → bit v j ≢ want

bit_of_word : (v : Words) (w j : ℕ) → w * 64 ≤ j → j < w * 64 + 64 → bit v j ≡ v w (j - w * 64)
bit_of_word v w j lo hi = ap₂ v (omega arith) (omega arith)

find_word_past :
    (fuel : ℕ) (v : Words) (want : Bool) (i last off : ℕ)
    → last ≤ i
    → find_word fuel v want i last off ≡ last
unfolding find_word
find_word_past zero v want i last off h = refl
find_word_past (suc fuel) v want i last off h =
    let e : ltb i last ≡ false = ground arith in rw e refl

find_word-hit :
    (fuel : ℕ) (v : Words) (want : Bool) (i last off k : ℕ)
    → i < last
    → first_bit (64 - off) (v (i / 64)) want off ≡ some k
    → find_word (suc fuel) v want i last off ≡ min last (i + k)
unfolding find_word
find_word-hit fuel v want i last off k h e =
    let t : ltb i last ≡ true = ground arith in rw (t, e) refl

find_word-miss :
    (fuel : ℕ) (v : Words) (want : Bool) (i last off : ℕ)
    → i < last
    → first_bit (64 - off) (v (i / 64)) want off ≡ none
    → find_word (suc fuel) v want i last off ≡ find_word fuel v want (i + 64) last 0
unfolding find_word
find_word-miss fuel v want i last off h e =
    let t : ltb i last ≡ true = ground arith in rw (t, e) refl

-- The bits of a word from `off` on.
module _ (v : Words) (want : Bool) (w last off : ℕ) (small : off < 64)
    (le : w * 64 + off ≤ last) where
  Finds-hit :
      (k : ℕ)
      → First (v w) want off (64 - off) (some k)
      → Finds v want (w * 64 + off) last (min last (w * 64 + k))
  Finds-hit k (lo, hi, at, h) = record {
    above = omega arith;
    below = omega arith;
    here = λ lt.
        let e : min last (w * 64 + k) ≡ w * 64 + k = omega arith in
        let z : w * 64 + k - w * 64 ≡ k = omega arith in
        rw e (bit_of_word v w (w * 64 + k) (omega arith) (omega arith) ∙ ap (v w) z ∙ at);
    before = λ j lo' hi' e.
        h (j - w * 64) (omega arith) (omega arith)
          (sym (bit_of_word v w j (omega arith) (omega arith)) ∙ e);
  }

  not_in_word :
      First (v w) want off (64 - off) none
      → (j : ℕ) → w * 64 + off ≤ j
      → j < w * 64 + 64
      → bit v j ≢ want
  not_in_word h j lo hi e =
      h (j - w * 64) (omega arith) (omega arith)
        (sym (bit_of_word v w j (omega arith) (omega arith)) ∙ e)

  Finds-past :
      First (v w) want off (64 - off) none
      → last < w * 64 + 64
      → Finds v want (w * 64 + off) last last
  Finds-past h end = record {
    above = le;
    below = omega arith;
    here = λ lt. absurd (omega arith);
    before = λ j lo hi. not_in_word h j lo (omega arith);
  }

  Finds-more :
      (x : ℕ)
      → First (v w) want off (64 - off) none
      → Finds v want (w * 64 + 64) last x
      → Finds v want (w * 64 + off) last x
  Finds-more x h f = record {
    above = omega (arith, f.above);
    below = f.below;
    here = f.here;
    before = λ j lo hi. elim (Bool-cases (ltb j (w * 64 + 64))) [
      | inl low ↦ not_in_word h j lo (ground arith)
      | inr high ↦ f.before j (ground arith) hi
    ];
  }

First-at :
    (v : Words) (want : Bool) (w off : ℕ) (o : Option ℕ)
    → first_bit (64 - off) (v (w * 64 / 64)) want off ≡ o
    → First (v w) want off (64 - off) o
First-at v want w off o e =
    let at : w * 64 / 64 ≡ w = omega arith in
    rw (← e, at) (first_bit-First (64 - off) (v w) want off)

find_word-Finds :
    (fuel : ℕ) (v : Words) (want : Bool) (w last off : ℕ)
    → off < 64
    → w * 64 + off ≤ last
    → last < w * 64 + fuel * 64
    → Finds v want (w * 64 + off) last (find_word fuel v want (w * 64) last off)
find_word-Finds zero v want w last off small le room = absurd (omega arith)
find_word-Finds (suc fuel) v want w last off small le room = elim (Bool-cases (ltb (w * 64) last)) [
  | inr stop ↦
      let past : last ≤ w * 64 = ground arith in
      rw (find_word_past (suc fuel) v want (w * 64) last off past) (record {
        above = le;
        below = omega arith;
        here = λ lt. absurd (omega arith);
        before = λ j lo hi. absurd (omega arith);
      })
  | inl on ↦
      let lt : w * 64 < last = ground arith in
      elim (Option-cases (first_bit (64 - off) (v (w * 64 / 64)) want off)) [
        | inr (k, e) ↦
            rw (find_word-hit fuel v want (w * 64) last off k lt e)
              (Finds-hit v want w last off small le k (First-at v want w off (some k) e))
        | inl e ↦
            let none_here = First-at v want w off none e in
            rw (find_word-miss fuel v want (w * 64) last off lt e)
              (elim (Bool-cases (ltb last (w * 64 + 64))) [
                | inl end ↦
                    let past : last ≤ w * 64 + 64 = ground arith in
                    rw (find_word_past fuel v want (w * 64 + 64) last 0 past)
                      (Finds-past v want w last off small le none_here (ground arith))
                | inr more ↦
                    let next : (w + 1) * 64 ≡ w * 64 + 64 = omega arith in
                    let start : (w + 1) * 64 + 0 ≡ w * 64 + 64 = omega arith in
                    let f =
                      find_word-Finds fuel v want (w + 1) last 0 (omega arith) (ground arith)
                        (omega arith) in
                    Finds-more v want w last off small le _ none_here (rw (start, next) at f)
              ])
      ]
]

-- `find_lsb(i, n)`, or `find_lsz`, in a view of at most 2 ^ 32 bits that has bit i or ends there,
-- returns the first bit with the value wanted among the n from i on that the view has, or the end
-- of these.
pub find_bit-Finds :
    (v : Words) (size : ℕ) (want : Bool) (i n : ℕ)
    → i ≤ size
    → size ≤ 2 ^ 32
    → Finds v want i (min (size - i) n + i) (find_bit v size want i n)
unfolding find_bit
find_bit-Finds v size want i n le small =
    let last : min ((size + 2 ^ 64 - i) % 2 ^ 64) n + i ≡ min (size - i) n + i = omega arith in
    let word : i - i % 64 ≡ (i / 64) * 64 = omega arith in
    let start : (i / 64) * 64 + i % 64 ≡ i = omega arith in
    subst (Finds v want i (min (size - i) n + i))
      (sym (ap₂ (λ l s. find_word (suc l) v want s l (i % 64)) last word))
      (rw start at (
        find_word-Finds (suc (min (size - i) n + i)) v want (i / 64) (min (size - i) n + i) (i % 64)
          (omega arith) (omega arith) (omega arith)))
