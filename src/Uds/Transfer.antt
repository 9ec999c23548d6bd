-- ===== src/Uds/Transfer.antt =====
-- A successful `read`: the server gets the client's file.
use cs_161_s21_problem_sets.Prelude.{
  ℕ, zero, suc, ◌+◌, ◌≤◌, ◌<◌, ◌≡◌, ◌≢◌, refl, ◌⊎◌, inl, inr, true, false, Option, none, some, ok,
  ◌==◌, Bool-cases, Option-cases, arith, ap, sym, ◌∙◌,
}
use cs_161_s21_problem_sets.Errno.{count, fail, mfile}
use cs_161_s21_problem_sets.Uds.Reach.{read_after-hand_over}
use cs_161_s21_problem_sets.Uds.State.{
  Uds, Files, is_set, timeout, timed_out, open_fd_from, find_open_fd, choose_fd, install, take_over,
  hand_over, read_after,
}

-- What the search for an open descriptor answers.
abbrev pub FirstOpen : (ℕ → Option ℕ) → ℕ → ℕ → Option ℕ → Type 0
FirstOpen table n fd none = (k : ℕ) → fd ≤ k → k < fd + n → is_set (table k) ≡ true
FirstOpen table n fd (some k) =
    (fd ≤ k)
    × (k < fd + n)
    × (table k ≡ none)
    × ((m : ℕ) → fd ≤ m → m < k → is_set (table m) ≡ true)

empty_slot : (o : Option ℕ) → is_set o ≡ false → o ≡ none
empty_slot none e = refl
empty_slot (some x) e = cc

FirstOpen-cons :
    (table : ℕ → Option ℕ) (n fd : ℕ) (o : Option ℕ)
    → is_set (table fd) ≡ true
    → FirstOpen table n (fd + 1) o
    → FirstOpen table (suc n) fd o
FirstOpen-cons table n fd none e h = λ k lo hi. elim (Bool-cases (k == fd)) [
  | inl same ↦ let e' : k ≡ fd = ground arith in rw e' e
  | inr off ↦ h k (ground arith) (omega arith)
]
FirstOpen-cons table n fd (some k) e (lo, hi, h, before) = (
  omega arith,
  omega arith,
  h,
  λ m lo' hi'. elim (Bool-cases (m == fd)) [
    | inl same ↦ let e' : m ≡ fd = ground arith in rw e' e
    | inr off ↦ before m (ground arith) hi'
  ],
)

open_fd_from-FirstOpen :
    (n : ℕ) (table : ℕ → Option ℕ) (fd : ℕ) → FirstOpen table n fd (open_fd_from n table fd)
unfolding open_fd_from
open_fd_from-FirstOpen zero table fd = λ k lo hi. absurd (omega arith)
open_fd_from-FirstOpen (suc n) table fd = elim (Bool-cases (is_set (table fd))) [
  | inl used ↦ rw used (
      FirstOpen-cons table n fd (open_fd_from n table (fd + 1)) used
        (open_fd_from-FirstOpen n table (fd + 1)))
  | inr open_here ↦
      rw open_here
        (omega arith, omega arith, empty_slot (table fd) open_here, λ m lo hi. absurd (omega arith))
]

-- The descriptor that the client used, if it is free, and else the lowest free one from 3 to 7.
abbrev pub Chosen : (ℕ → Option ℕ) → ℕ → ℕ → Type 0
Chosen table fd newfd =
    ((is_set (table fd) ≡ false) × (newfd ≡ fd))
    ⊎ ((is_set (table fd) ≡ true)
        × (3 ≤ newfd)
        × (newfd < 8)
        × ((k : ℕ) → 3 ≤ k → k < newfd → is_set (table k) ≡ true))

-- The descriptor chosen is empty; if none is, the one that the client used and 3 to 7 are all taken.
choose_fd_lem :
    (table : ℕ → Option ℕ) (fd : ℕ)
    → ((choose_fd table fd ≡ none)
        × (is_set (table fd) ≡ true)
        × ((k : ℕ) → 3 ≤ k → k < 8 → is_set (table k) ≡ true))
      ⊎ ((newfd : ℕ) × (choose_fd table fd ≡ some newfd)
          × (table newfd ≡ none)
          × Chosen table fd newfd)
unfolding choose_fd find_open_fd
choose_fd_lem table fd = elim (Bool-cases (is_set (table fd))) [
  | inr open_here ↦
      inr (fd, rw open_here refl, empty_slot (table fd) open_here, inl (open_here, refl))
  | inl used ↦ elim (Option-cases (open_fd_from 5 table 3)) [
    | inl e ↦ inl (rw used e, used, rw e at (open_fd_from-FirstOpen 5 table 3))
    | inr (newfd, e) ↦
        let (lo, hi, h, before) : FirstOpen table 5 3 (some newfd) =
          rw e at (open_fd_from-FirstOpen 5 table 3) in
        inr (newfd, rw used e, h, inr (used, lo, omega arith, before))
  ]
]

hand_over-at :
    (c p fd vn : ℕ) (s : Uds) (w : Files)
    → s.client ≡ some c
    → s.server ≡ some p
    → s.fd ≡ some fd
    → w.fdtable c fd ≡ some vn
    → hand_over s w ≡ ok (take_over p fd vn s w)
unfolding hand_over
hand_over-at c p fd vn s w e f g h =
    let same : record s { fd = some fd; server = some p; client = some c } ≡ s =
      rw (e, f, g) refl in
    rw (e, hand_over, g, h, f) (ap (λ t. ok (take_over p fd vn t w)) (sym same))

take_over-full :
    (p fd vn : ℕ) (s : Uds) (w : Files)
    → choose_fd (w.fdtable p) fd ≡ none
    → take_over p fd vn s w ≡ (fail mfile, s, w)
unfolding take_over
take_over-full p fd vn s w e = rw (e, take_over) refl

take_over-runs :
    (p fd vn newfd : ℕ) (s : Uds) (w : Files)
    → choose_fd (w.fdtable p) fd ≡ some newfd
    → take_over p fd vn s w
      ≡ (count newfd, record s { fd = none; received = true }, install w p newfd vn)
unfolding take_over
take_over-runs p fd vn newfd s w e = rw (e, take_over) refl

-- The table of `p` has `vn` at `newfd`, which was empty, and `vn` one reference more; all else in the
-- tables and the counts is as it was.
pub record Installed (w w' : Files) (p newfd vn : ℕ) : Type 0 where
  pub was_empty : w.fdtable p newfd ≡ none
  pub slot : w'.fdtable p newfd ≡ some vn
  pub other_slots : (q fd : ℕ) → (q ≢ p) ⊎ (fd ≢ newfd) → w'.fdtable q fd ≡ w.fdtable q fd
  pub counted : w'.refcount vn ≡ w.refcount vn + 1
  pub other_counts : (n : ℕ) → n ≢ vn → w'.refcount n ≡ w.refcount n

install-Installed :
    (w : Files) (p newfd vn : ℕ)
    → w.fdtable p newfd ≡ none
    → Installed w (install w p newfd vn) p newfd vn
install-Installed w p newfd vn e = record {
  was_empty = e;
  slot = ground arith;
  other_slots = λ q fd ne. ground arith;
  counted = ground arith;
  other_counts = λ n ne. ground arith;
}

-- `read` in time, on an accepting socket over which the client has sent the descriptor of an open
-- file: the server gets the file, at the same descriptor if that is free and else at the lowest
-- free one from 3 to 7, nobody loses a file, and the socket can carry the next one; or all of
-- these descriptors are taken, the read answers E_MFILE and changes nothing.
pub read_after_transfer :
    (c p fd vn start_time end_time : ℕ) (s : Uds) (w : Files)
    → s.accepting ≡ true
    → s.received ≡ false
    → s.client ≡ some c
    → s.server ≡ some p
    → s.fd ≡ some fd
    → w.fdtable c fd ≡ some vn
    → end_time < start_time + timeout
    → ((newfd : ℕ) × (w' : Files) × (read_after start_time end_time s w
          ≡ ok (count newfd, record s { fd = none; received = true }, w'))
        × Installed w w' p newfd vn
        × Chosen (w.fdtable p) fd newfd)
      ⊎ ((read_after start_time end_time s w ≡ ok (fail mfile, s, w))
          × (is_set (w.fdtable p fd) ≡ true)
          × ((k : ℕ) → 3 ≤ k → k < 8 → is_set (w.fdtable p k) ≡ true))
read_after_transfer c p fd vn start_time end_time s w on sent is_c is_p at held in_time =
    let soon : timed_out start_time end_time ≡ false = ground arith in
    let go =
      read_after-hand_over start_time end_time s w on soon sent
      ∙ hand_over-at c p fd vn s w is_c is_p at held in
    elim (choose_fd_lem (w.fdtable p) fd) [
      | inl (e, used, all) ↦ inr (go ∙ ap ok (take_over-full p fd vn s w e), used, all)
      | inr (newfd, e, free, where_to) ↦ inl (
        newfd,
        install w p newfd vn,
        go ∙ ap ok (take_over-runs p fd vn newfd s w e),
        install-Installed w p newfd vn free,
        where_to,
      )
    ]
