-- ===== src/Uds/Reach.antt =====
-- What holds of a socket after any halves of calls, by any processes, in any order.
use cs_161_s21_problem_sets.Prelude.{
  ℕ, ◌≡◌, refl, inl, inr, true, false, ◌||◌, not, Option, none, some, List, [], ◌∷◌, Outcome, ok,
  panic, ◌>>=◌, Bool-cases, Option-cases, arith,
}
use cs_161_s21_problem_sets.Errno.{IoResult, fail, badconn, sock_timeout}
use cs_161_s21_problem_sets.Uds.State.{
  Uds, Files, fresh, is_set, timed_out, Entry, returns, goes_on, bind, listen, accept_entry,
  connect_after, close, write_after, choose_fd, take_over, hand_over, read_after,
}

-- The halves of calls that can change a socket.
pub data Call : Type 0 where
  binds : Option ℕ → Call
  listens : Call
  accepts : Call
  connects : ℕ → ℕ → ℕ → Call
  closes : ℕ → Call
  writes : ℕ → ℕ → ℕ → Call
  reads : ℕ → ℕ → Call

abbrev pub left_by : Entry → Uds
left_by (returns r s) = s
left_by (goes_on sleeps s) = s

abbrev pub socket_of : IoResult × Uds × Files → Uds × Files
socket_of (r, s, w) = (s, w)

unfoldable pub step : Call → Uds × Files → Outcome (Uds × Files)
step (binds p) (s, w) = ok ((bind p s).1, w)
step listens (s, w) = ok ((listen s).1, w)
step accepts (s, w) = ok (left_by (accept_entry s), w)
step (connects p start_time end_time) (s, w) = ok ((connect_after p start_time end_time s).1, w)
step (closes p) (s, w) = ok ((close p s).1, w)
step (writes fd start_time end_time) (s, w) = ok ((write_after fd start_time end_time s).1, w)
step (reads start_time end_time) (s, w) = do
  r ← read_after start_time end_time s w
  ok (socket_of r)

unfoldable pub run : List Call → Uds × Files → Outcome (Uds × Files)
unfolding step
run [] sw = ok sw
run (c ∷ cs) sw = do sw' ← step c sw; run cs sw'

-- Who accepts listens, who listens is bound, and a file that waits to be received is there.
pub record IsValid (s : Uds) : Type 0 where
  pub listens_first : (not s.accepting || s.listening) ≡ true
  pub bound_first : (not s.listening || is_set s.server) ≡ true
  pub pending : (s.received || is_set s.fd) ≡ true

bind-IsValid : (p : Option ℕ) (s : Uds) → IsValid s → IsValid (bind p s).1
unfolding bind
bind-IsValid none s v = v
bind-IsValid (some p) s v = ground (arith, v.listens_first, v.bound_first, v.pending)

listen-IsValid : (s : Uds) → IsValid s → IsValid (listen s).1
unfolding listen
listen-IsValid s v = ground (arith, v.listens_first, v.bound_first, v.pending)

accept_entry-IsValid : (s : Uds) → IsValid s → IsValid (left_by (accept_entry s))
unfolding accept_entry
accept_entry-IsValid s v = ground (arith, v.listens_first, v.bound_first, v.pending)

connect_after-IsValid :
    (p start_time end_time : ℕ) (s : Uds)
    → IsValid s
    → IsValid (connect_after p start_time end_time s).1
unfolding connect_after
connect_after-IsValid p start_time end_time s v =
    ground (arith, v.listens_first, v.bound_first, v.pending)

close-IsValid : (p : ℕ) (s : Uds) → IsValid s → IsValid (close p s).1
unfolding close
close-IsValid p s v = ground (arith, v.listens_first, v.bound_first, v.pending)

write_after-IsValid :
    (fd start_time end_time : ℕ) (s : Uds)
    → IsValid s
    → IsValid (write_after fd start_time end_time s).1
unfolding write_after
write_after-IsValid fd start_time end_time s v =
    ground (arith, v.listens_first, v.bound_first, v.pending)

-- Whatever a read returns, it leaves a valid socket.
abbrev Leaves : Outcome (IoResult × Uds × Files) → Type 0
Leaves panic = Unit {0}
Leaves (ok (r, s, w)) = IsValid s

abbrev emptied : Uds → Uds
emptied s = record s { fd = none; received = true }

emptied-IsValid : (s : Uds) → IsValid s → IsValid (emptied s)
emptied-IsValid s v = record {
  listens_first = v.listens_first;
  bound_first = v.bound_first;
  pending = refl;
}

take_over-Leaves :
    (p fd vn : ℕ) (s : Uds) (w : Files) → IsValid s → Leaves (ok (take_over p fd vn s w))
unfolding take_over
take_over-Leaves p fd vn s w v = elim (Option-cases (choose_fd (w.fdtable p) fd)) [
  | inl e ↦ rw (e, take_over) v
  | inr (newfd, e) ↦ rw (e, take_over) (emptied-IsValid s v)
]

hand_over-Leaves : (s : Uds) (w : Files) → IsValid s → Leaves (hand_over s w)
unfolding hand_over
hand_over-Leaves s w v = elim (Option-cases s.client) [
  | inl e ↦ rw (e, hand_over) tt
  | inr (c, e) ↦ elim (Option-cases s.fd) [
    | inl f ↦ rw (e, hand_over, f) tt
    | inr (fd, f) ↦ elim (Option-cases (w.fdtable c fd)) [
      | inl g ↦ rw (e, hand_over, f, g) (emptied-IsValid s v)
      | inr (vn, g) ↦ elim (Option-cases s.server) [
        | inl h ↦ rw (e, hand_over, f, g, h) tt
        | inr (p, h) ↦ rw (e, hand_over, f, g, h) (take_over-Leaves p fd vn s w v)
      ]
    ]
  ]
]

-- The results by which `read` ends before it takes a file over.
read_after-shut :
    (start_time end_time : ℕ) (s : Uds) (w : Files)
    → s.accepting ≡ false
    → read_after start_time end_time s w ≡ ok (fail badconn, s, w)
unfolding read_after
read_after-shut start_time end_time s w e = simp (e) refl

read_after-late :
    (start_time end_time : ℕ) (s : Uds) (w : Files)
    → s.accepting ≡ true
    → timed_out start_time end_time ≡ true
    → read_after start_time end_time s w ≡ ok (fail sock_timeout, emptied s, w)
unfolding read_after
read_after-late start_time end_time s w e f = simp (e, f) refl

read_after-nothing :
    (start_time end_time : ℕ) (s : Uds) (w : Files)
    → s.accepting ≡ true
    → timed_out start_time end_time ≡ false
    → s.received ≡ true
    → read_after start_time end_time s w ≡ panic
unfolding read_after
read_after-nothing start_time end_time s w e f g = simp (e, f, g) refl

pub read_after-hand_over :
    (start_time end_time : ℕ) (s : Uds) (w : Files)
    → s.accepting ≡ true
    → timed_out start_time end_time ≡ false
    → s.received ≡ false
    → read_after start_time end_time s w ≡ hand_over s w
unfolding read_after
read_after-hand_over start_time end_time s w e f g = simp (e, f, g) refl

read_after-Leaves :
    (start_time end_time : ℕ) (s : Uds) (w : Files)
    → IsValid s
    → Leaves (read_after start_time end_time s w)
read_after-Leaves start_time end_time s w v = elim (Bool-cases s.accepting) [
  | inr shut ↦ rw (read_after-shut start_time end_time s w shut) v
  | inl on ↦ elim (Bool-cases (timed_out start_time end_time)) [
    | inl late ↦ rw (read_after-late start_time end_time s w on late) (emptied-IsValid s v)
    | inr in_time ↦ elim (Bool-cases s.received) [
      | inl nothing ↦ rw (read_after-nothing start_time end_time s w on in_time nothing) tt
      | inr sent ↦
          rw (read_after-hand_over start_time end_time s w on in_time sent) (hand_over-Leaves s w v)
    ]
  ]
]

abbrev Holds : Outcome (Uds × Files) → Type 0
Holds panic = Unit {0}
Holds (ok (s, w)) = IsValid s

Holds-read : (o : Outcome (IoResult × Uds × Files)) → Leaves o → Holds (o >>= λ r. ok (socket_of r))
Holds-read panic h = tt
Holds-read (ok (r, s, w)) h = h

step-Holds : (c : Call) (s : Uds) (w : Files) → IsValid s → Holds (step c (s, w))
unfolding step
step-Holds (binds p) s w v = bind-IsValid p s v
step-Holds listens s w v = listen-IsValid s v
step-Holds accepts s w v = accept_entry-IsValid s v
step-Holds (connects p start_time end_time) s w v = connect_after-IsValid p start_time end_time s v
step-Holds (closes p) s w v = close-IsValid p s v
step-Holds (writes fd start_time end_time) s w v = write_after-IsValid fd start_time end_time s v
step-Holds (reads start_time end_time) s w v =
    Holds-read (read_after start_time end_time s w) (read_after-Leaves start_time end_time s w v)

Holds-next :
    (o : Outcome (Uds × Files)) (next : Uds × Files → Outcome (Uds × Files))
    → Holds o
    → ((s : Uds) (w : Files) → IsValid s → Holds (next (s, w)))
    → Holds (o >>= next)
Holds-next panic next h rest = tt
Holds-next (ok (s, w)) next h rest = rest s w h

run-Holds : (cs : List Call) (s : Uds) (w : Files) → IsValid s → Holds (run cs (s, w))
unfolding run
run-Holds [] s w v = v
run-Holds (c ∷ cs) s w v =
    Holds-next (step c (s, w)) (run cs) (step-Holds c s w v) (λ s' w'. run-Holds cs s' w')

-- After any halves of calls on a fresh socket, by any processes and in any order: if the socket
-- is accepting it listens, if it listens a server is bound, and if a file waits to be received
-- its descriptor is there.
pub run-IsValid_uds :
    (cs : List Call) (w : Files) {s : Uds} {w' : Files} → run cs (fresh, w) ≡ ok (s, w') → IsValid s
run-IsValid_uds cs w {s} {w'} e =
    rw e at
      (run-Holds cs fresh w (record { listens_first = refl; bound_first = refl; pending = refl }))
