-- ===== src/Strings/Copy.antt =====
-- `strlen`, `strnlen`, `strcpy`, `strncpy` and `strchr` on the memory. A loop that only a NUL ends runs on
-- fuel.
use cs_161_s21_problem_sets.Prelude.{
  ℕ, zero, suc, ◌+◌, ◌-◌, ◌%◌, ◌≤◌, ◌<◌, ◌≡◌, refl, ap, sym, ◌∙◌, ◌⊎◌, inl, inr, true, false, ◌&&◌,
  ◌||◌, Option, none, some, arith, ltb, leb, ◌==◌, if◌then◌else◌, Bool-cases,
}
use cs_161_s21_problem_sets.Memory.Copy.{Mem, store}

unfoldable pub strlen : ℕ → Mem → ℕ → Option ℕ
strlen zero m s = none
strlen (suc fuel) m s =
    let rest = strlen fuel m (s + 1) in
    if m s == 0 then some 0 else elim rest [ none ↦ none | some n ↦ some (n + 1) ]

unfoldable pub strnlen : ℕ → Mem → ℕ → ℕ
strnlen zero m s = 0
strnlen (suc n) m s = let rest = strnlen n m (s + 1) in if m s == 0 then 0 else suc rest

unfoldable pub strcpy : ℕ → Mem → ℕ → ℕ → Option Mem
strcpy zero m dst src = none
strcpy (suc fuel) m dst src =
    let m' = store m dst (m src) in
    let rest = strcpy fuel m' (dst + 1) (src + 1) in if m' dst == 0 then some m' else rest

-- The second loop of `strncpy`.
unfoldable pub pad : ℕ → Mem → ℕ → Mem
pad zero m d = m
pad (suc n) m d = pad n (store m d 0) (d + 1)

unfoldable pub strncpy : ℕ → Mem → ℕ → ℕ → Mem
unfolding pad
strncpy zero m dst src = m
strncpy (suc n) m dst src =
    let rest = strncpy n (store m dst (m src)) (dst + 1) (src + 1) in
    if m src == 0 then pad (suc n) m dst else rest

-- The address found, none for a null pointer; the outer none is that the fuel ran out.
unfoldable pub strchr : ℕ → Mem → ℕ → ℕ → Option (Option ℕ)
strchr zero m s c = none
strchr (suc fuel) m s c =
    let rest = strchr fuel m (s + 1) c in
    if m s == 0 || m s == c % 256
    then (if m s == c % 256 then some (some s) else some none)
    else rest

pad_lem : (n : ℕ) (m : Mem) (d a : ℕ) → pad n m d a ≡ (if leb d a && ltb a (d + n) then 0 else m a)
unfolding pad
pad_lem zero m d a = ground arith
pad_lem (suc n) m d a = ground (arith, pad_lem n (store m d 0) (d + 1) a)

strnlen-store :
    (n : ℕ) (m : Mem) (s d v : ℕ)
    → (d < s) ⊎ (s + n ≤ d)
    → strnlen n (store m d v) s ≡ strnlen n m s
unfolding strnlen
strnlen-store zero m s d v h = refl
strnlen-store (suc n) m s d v h =
    let ih = strnlen-store n m (s + 1) d v (omega arith) in
    let same : store m d v s ≡ m s = ground arith in rw (same, ih) refl

-- What `strncpy` leaves at the address `a`: of `k` bytes of the string, and of NULs behind them.
abbrev pub padded : Mem → ℕ → ℕ → ℕ → ℕ → ℕ → ℕ
padded m dst src n k a =
    if leb dst a && ltb a (dst + n)
    then (if ltb (a - dst) k then m (src + (a - dst)) else 0)
    else m a

strncpy-nul :
    (n : ℕ) (m : Mem) (dst src : ℕ)
    → (m src == 0) ≡ true
    → (strncpy (suc n) m dst src ≡ pad (suc n) m dst) × (strnlen (suc n) m src ≡ 0)
unfolding strncpy strnlen
strncpy-nul n m dst src e = (rw e refl, rw e refl)

strncpy-byte :
    (n : ℕ) (m : Mem) (dst src : ℕ)
    → (m src == 0) ≡ false
    → (strncpy (suc n) m dst src ≡ strncpy n (store m dst (m src)) (dst + 1) (src + 1))
      × (strnlen (suc n) m src ≡ suc (strnlen n m (src + 1)))
unfolding strncpy strnlen
strncpy-byte n m dst src e = (rw e refl, rw e refl)

strncpy_nothing : (m : Mem) (dst src : ℕ) → strncpy 0 m dst src ≡ m
unfolding strncpy
strncpy_nothing m dst src = refl

-- `strncpy` between ranges of n bytes that do not overlap copies the string up to its NUL, or n
-- bytes of it, fills the rest of the n bytes with NULs, and writes nothing else.
pub strncpy_lem :
    (n : ℕ) (m : Mem) (dst src a : ℕ)
    → (dst + n ≤ src) ⊎ (src + n ≤ dst)
    → strncpy n m dst src a ≡ padded m dst src n (strnlen n m src) a
strncpy_lem zero m dst src a h =
    ap (λ f. f a) (strncpy_nothing m dst src) ∙ nothing (strnlen 0 m src)
  where
    nothing : (k : ℕ) → m a ≡ padded m dst src 0 k a
    nothing k = ground arith
strncpy_lem (suc n) m dst src a h = elim (Bool-cases (m src == 0)) [
  | inl nul ↦
      let (e, z) = strncpy-nul n m dst src nul in
      ap (λ f. f a) e ∙ pad_lem (suc n) m dst a ∙ zeros z
  | inr byte ↦
      let (e, z) = strncpy-byte n m dst src byte in
      let k = strnlen n m (src + 1) in
      let ih = strncpy_lem n (store m dst (m src)) (dst + 1) (src + 1) a (omega arith) in
      let frame = strnlen-store n m (src + 1) dst (m src) (omega arith) in
      ap (λ f. f a) e
      ∙ ih
      ∙ ap (λ k. padded (store m dst (m src)) (dst + 1) (src + 1) n k a) frame
      ∙ next k
      ∙ ap (λ k. padded m dst src (suc n) k a) (sym z)
]
  where
    zeros :
        strnlen (suc n) m src ≡ 0
        → (if leb dst a && ltb a (dst + suc n) then 0 else m a)
          ≡ padded m dst src (suc n) (strnlen (suc n) m src) a
    zeros z = rw z (ground arith)

    next :
        (k : ℕ)
        → padded (store m dst (m src)) (dst + 1) (src + 1) n k a
          ≡ padded m dst src (suc n) (suc k) a
    next k = ground arith
