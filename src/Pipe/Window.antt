-- ===== src/Pipe/Window.antt =====
-- The bytes that a ring of 256 holds, oldest first.
use cs_161_s21_problem_sets.Prelude.{
  ℕ, zero, suc, ◌+◌, ◌-◌, ◌%◌, ◌≤◌, ◌<◌, ◌≡◌, ◌≢◌, refl, ap, ap₂, ◌∙◌, List, [], ◌∷◌, ◌++◌, arith,
  length,
}
use cs_161_s21_problem_sets.Pipe.State.{Bbuf, cap, update, store_bytes, load_bytes}
use native.Mathlib.Nat.{add-zero}
use mathlib.Core.List.{append_assoc, append-nil}

-- the `n` bytes from index `h` on, going round at 256
abbrev pub window : (ℕ → ℕ) → ℕ → ℕ → List ℕ
window buf h zero = []
window buf h (suc n) = buf (h % cap) ∷ window buf (h + 1) n

abbrev pub contents : Bbuf → List ℕ
contents b = window b.bbuf b.pos b.len

pub length-window : (buf : ℕ → ℕ) (h n : ℕ) → length (window buf h n) ≡ n
length-window buf h zero = refl
length-window buf h (suc n) = ap suc (length-window buf (h + 1) n)

-- Only the start modulo 256 counts.
pub window_mod : (buf : ℕ → ℕ) (h k n : ℕ) → h % cap ≡ k % cap → window buf h n ≡ window buf k n
window_mod buf h k zero e = refl
window_mod buf h k (suc n) e = ap₂ ◌∷◌ (ap buf e) (window_mod buf (h + 1) (k + 1) n (omega arith))

-- A write behind the window does not touch it.
window-update :
    (buf : ℕ → ℕ) (x n h m i : ℕ)
    → n ≤ m
    → m < cap
    → i ≡ (h + m) % cap
    → window (update buf i x) h n ≡ window buf h n
window-update buf x zero h m i le lt e = refl
window-update buf x (suc n) h m i le lt e =
    let ne : i ≢ h % cap = omega arith in
    ap₂ ◌∷◌ (ground arith)
      (window-update buf x n (h + 1) (m - 1) i (omega arith) (omega arith) (omega arith))

-- The byte behind the window joins it.
window-snoc :
    (buf : ℕ → ℕ) (n h : ℕ) → window buf h (suc n) ≡ window buf h n ++ buf ((h + n) % cap) ∷ []
window-snoc buf zero h = ap (λ k. buf k ∷ []) (omega arith)
window-snoc buf (suc n) h =
    ap (λ l. buf (h % cap) ∷ l)
      (window-snoc buf n (h + 1) ∙ ap (λ k. window buf (h + 1) n ++ buf k ∷ []) (omega arith))

window-update_end :
    (buf : ℕ → ℕ) (x n h i : ℕ)
    → n < cap
    → i ≡ (h + n) % cap
    → window (update buf i x) h (suc n) ≡ window buf h n ++ x ∷ []
window-update_end buf x n h i lt e =
    window-snoc (update buf i x) n h
    ∙ ap₂ (λ l k. l ++ k ∷ []) (window-update buf x n h n i (omega arith) lt e) (ground arith)

-- Bytes stored behind the window, up to the end of the array at most, extend it in order.
pub window-store_bytes :
    (buf : ℕ → ℕ) (h n i : ℕ) (xs : List ℕ)
    → i ≡ (h + n) % cap
    → i + length xs ≤ cap
    → n + length xs ≤ cap
    → window (store_bytes buf i xs) h (n + length xs) ≡ window buf h n ++ xs
unfolding store_bytes
window-store_bytes buf h n i [] e a b = rw (append-nil, add-zero)
window-store_bytes buf h n i (x ∷ []) e a b =
    rw (let s : n + 1 ≡ suc n = omega arith in s) (window-update_end buf x n h i (omega arith) e)
window-store_bytes buf h n i (x ∷ y ∷ ys) e a b =
    rw (let s : n + suc (suc (length ys)) ≡ suc n + suc (length ys) = omega arith in s) (
      window-store_bytes (update buf i x) h (suc n) (i + 1) (y ∷ ys) (omega arith) (omega arith)
        (omega arith)
      ∙ ap (λ l. l ++ y ∷ ys) (window-update_end buf x n h i (omega arith) e)
      ∙ append_assoc (window buf h n) (x ∷ []) (y ∷ ys))

-- Bytes loaded from the front are the front of the window, and the rest is what stays.
pub window-load_bytes :
    (buf : ℕ → ℕ) (h n m : ℕ)
    → h + n ≤ cap
    → window buf h (n + m) ≡ load_bytes buf h n ++ window buf (h + n) m
unfolding load_bytes
window-load_bytes buf h zero m a = rw (let s : 0 + m ≡ m = omega arith in s, add-zero)
window-load_bytes buf h (suc n) m a = rw (let s : suc n + m ≡ suc (n + m) = omega arith in s) (
    ap₂ ◌∷◌ (ap buf (omega arith)) (
      window-load_bytes buf (h + 1) n m (omega arith)
      ∙ ap (λ k. load_bytes buf (h + 1) n ++ window buf k m) (omega arith)))
