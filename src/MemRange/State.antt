-- ===== src/MemRange/State.antt =====
-- `memrangeset<maxsize>` and its operations. The array `r_` is two functions of the index, `addr` and
-- `kind`; a failed assertion is a panic.
use cs_161_s21_problem_sets.Prelude.{
  ℕ, zero, suc, ◌+◌, ◌-◌, Bool, true, false, ◌&&◌, ◌||◌, not, Outcome, ok, assert, ◌>>=◌, ◌>>◌, ltb,
  leb, ◌==◌, if◌then◌else◌,
}

pub record Ranges : Type 0 where
  pub n : ℕ
  pub addr : ℕ → ℕ
  pub kind : ℕ → ℕ

abbrev pub put : (ℕ → ℕ) → ℕ → ℕ → ℕ → ℕ
put f i v k = if i == k then v else f k

-- `memmove(&r_[dst], &r_[src], cnt * sizeof(memrange))`, on one of the two functions.
abbrev pub shift : (ℕ → ℕ) → ℕ → ℕ → ℕ → ℕ → ℕ
shift f dst src cnt k = if leb dst k && ltb k (dst + cnt) then f (src + (k - dst)) else f k

-- The constructor. What lies behind the end is not initialized; 0 stands for it.
unfoldable pub init : ℕ → Ranges
init limit = record { n = 1; addr = put (λ _. 0) 1 limit; kind = λ _. 0 }

abbrev pub limit : Ranges → ℕ
limit r = r.addr r.n

-- The loop of `find`, also the second loop of `set`: from `i` on while `i < n_` and `a` is not below
-- the next address.
unfoldable pub find_from : ℕ → Ranges → ℕ → ℕ → ℕ
find_from zero r a i = i
find_from (suc fuel) r a i =
    let rest = find_from fuel r a (i + 1) in if ltb i r.n && leb (r.addr (i + 1)) a then rest else i

-- `find`: the index of the range; `n_` rounds are all that the loop can make.
unfoldable pub find : Ranges → ℕ → ℕ
unfolding find_from
find r a = find_from r.n r a 0

-- `type`
unfoldable pub type_of : Ranges → ℕ → Outcome ℕ
unfolding find
type_of r a = do assert (not (find r a == r.n)); ok (r.kind (find r a))

-- What `split` makes of the array.
unfoldable pub split_at : Ranges → ℕ → ℕ → Ranges
split_at r i a = record {
  n = r.n + 1;
  addr = put (shift r.addr (i + 2) (i + 1) (r.n - i)) (i + 1) a;
  kind = put (shift r.kind (i + 2) (i + 1) (r.n - i)) (i + 1) (r.kind i);
}

unfoldable pub split : ℕ → Ranges → ℕ → ℕ → Outcome Ranges
unfolding split_at
split maxsize r i a = do
  assert (ltb i r.n && leb (r.n + 1) maxsize)
  assert (ltb (r.addr i) a && ltb a (r.addr (i + 1)))
  ok (split_at r i a)

-- The first loop of `set`, which trusts that `first` is below the limit.
unfoldable pub lower_from : ℕ → Ranges → ℕ → ℕ → ℕ
lower_from zero r first i = i
lower_from (suc fuel) r first i =
    let rest = lower_from fuel r first (i + 1) in if leb (r.addr (i + 1)) first then rest else i

-- The locals of `set`, with the array.
pub record Plan : Type 0 where
  pub r : Ranges
  pub i : ℕ
  pub j : ℕ
  pub first : ℕ
  pub last : ℕ

-- "try consolidating range": at the left.
unfoldable pub step_back : Ranges → ℕ → ℕ → ℕ → ℕ
step_back r i first t = if first == r.addr i && (ltb 0 i && r.kind (i - 1) == t) then i - 1 else i

unfoldable pub widen_first : Ranges → ℕ → ℕ → ℕ → ℕ
widen_first r i first t = if r.kind i == t then r.addr i else first

-- At the right: take in the next range, or move its start.
unfoldable pub widen_last : Ranges → ℕ → ℕ → ℕ → ℕ → ℕ → Plan
widen_last r i j first last t =
    if ltb j r.n && r.kind j == t
    then record { r = r; i = i; j = j + 1; first = first; last = r.addr (j + 1) }
    else if ltb i j && first == r.addr i
    then record {
      r = record r { addr = put r.addr j last };
      i = i;
      j = j;
      first = first;
      last = last;
    }
    else record { r = r; i = i; j = j; first = first; last = last }

-- "split range at left and right"
unfoldable pub split_first : ℕ → Plan → Outcome Plan
unfolding split
split_first maxsize p =
    if p.first == p.r.addr p.i
    then ok p
    else (do r' ← split maxsize p.r p.i p.first; ok (record p { r = r'; i = p.i + 1; j = p.j + 1 }))

unfoldable pub split_last : ℕ → Plan → Outcome Plan
unfolding split
split_last maxsize p =
    if p.last == p.r.addr p.j
    then ok p
    else (do r' ← split maxsize p.r p.j p.last; ok (record p { r = r'; j = p.j + 1 }))

-- "assign new range"
unfoldable pub assign : Plan → ℕ → Outcome Ranges
assign p t = do
  assert (p.r.addr p.i == p.first && p.r.addr p.j == p.last)
  let r' = record p.r { kind = put p.r.kind p.i t }
  if ltb (p.i + 1) p.j
      then ok (record {
        n = r'.n - (p.j - (p.i + 1));
        addr = shift r'.addr (p.i + 1) p.j (r'.n + 1 - p.j);
        kind = shift r'.kind (p.i + 1) p.j (r'.n + 1 - p.j);
      })
      else ok r'

-- The number of ranges that the splits would make.
abbrev pub needed : Plan → ℕ
needed p =
    p.r.n + (if p.first == p.r.addr p.i then 0 else 1) + (if p.last == p.r.addr p.j then 0 else 1)

-- The part of `set` behind the search, on a plan.
unfoldable pub carry_out : ℕ → Plan → ℕ → Outcome (Bool × Ranges)
unfolding split_first split_last assign
carry_out maxsize p t = if ltb maxsize (needed p) then ok (false, p.r) else (do
  p1 ← split_first maxsize p
  p2 ← split_last maxsize p1
  r' ← assign p2 t
  ok (true, r'))

-- The search of `set`, with its assertions.
unfoldable pub locate : Ranges → ℕ → ℕ → ℕ → Outcome Plan
unfolding lower_from find_from step_back widen_first widen_last
locate r first last t = do
  let i0 = lower_from r.n r first 0
  assert (ltb i0 r.n && (leb (r.addr i0) first && ltb first (r.addr (i0 + 1))))
  let i = step_back r i0 first t
  let first' = widen_first r i first t
  let j = find_from r.n r last i
  assert (leb j r.n && (leb (r.addr j) last && (j == r.n || ltb last (r.addr (j + 1)))))
  ok (widen_last r i j first' last t)

-- `set`: whether it succeeded, and the array.
unfoldable pub set : ℕ → Ranges → ℕ → ℕ → ℕ → Outcome (Bool × Ranges)
unfolding locate carry_out
set maxsize r first last t = do
  assert (leb first last && leb last (limit r))
  if first == last then ok (true, r) else (do p ← locate r first last t; carry_out maxsize p t)
