-- ===== src/Uds/State.antt =====
-- `uds` and its operations, over the file descriptor tables of the processes.
use cs_161_s21_problem_sets.Prelude.{
  ℕ, zero, suc, ◌+◌, Bool, true, false, ◌&&◌, ◌||◌, not, Option, none, some, Outcome, ok, panic,
  leb, ◌==◌, if◌then◌else◌,
}
use cs_161_s21_problem_sets.Errno.{
  IoResult, count, fail, badf, badconn, fault, inval, mfile, perm, sock_taken, sock_timeout,
}

-- A process is a number, a null pointer is none, and so is the `fd_` -1.
pub record Uds : Type 0 where
  pub fd : Option ℕ
  pub listening : Bool
  pub accepting : Bool
  pub received : Bool
  pub server : Option ℕ
  pub client : Option ℕ

abbrev pub fresh : Uds
fresh = record {
  fd = none;
  listening = false;
  accepting = false;
  received = true;
  server = none;
  client = none;
}

-- The `fdtable_` of every process, and the `refcount_` of every vnode.
pub record Files : Type 0 where
  pub fdtable : ℕ → ℕ → Option ℕ
  pub refcount : ℕ → ℕ

abbrev pub is_set : Option ℕ → Bool
is_set none = false
is_set (some p) = true

abbrev pub is_proc : ℕ → Option ℕ → Bool
is_proc p none = false
is_proc p (some q) = p == q

abbrev pub connected : Uds → Bool
connected s = is_set s.client

-- UDS_TIMEOUT
abbrev pub timeout : ℕ
timeout = 100

abbrev pub timed_out : ℕ → ℕ → Bool
timed_out start_time end_time = leb (start_time + timeout) end_time

-- The first half of a call: it returns, or goes on, after a sleep or without one.
pub data Entry : Type 0 where
  returns : IoResult → Uds → Entry
  goes_on : (sleeps : Bool) → Uds → Entry

unfoldable pub bind : Option ℕ → Uds → IoResult × Uds
bind none s = (fail fault, s)
bind (some p) s =
    if is_set s.server then (fail mfile, s) else (count 0, record s { server = some p })

unfoldable pub listen : Uds → IoResult × Uds
listen s = if is_set s.server then (count 0, record s { listening = true }) else (fail badconn, s)

unfoldable pub accept_entry : Uds → Entry
accept_entry s =
    if s.listening
    then goes_on (not (connected s)) (record s { accepting = true })
    else returns (fail badconn) s

abbrev pub accept_wakes : ℕ → ℕ → Uds → Bool
accept_wakes start_time end_time s = connected s || timed_out start_time end_time

unfoldable pub accept_after : ℕ → ℕ → Uds → IoResult
accept_after start_time end_time s =
    if not (connected s)
    then fail badconn
    else if timed_out start_time end_time
    then fail sock_timeout
    else count 0

unfoldable pub connect_entry : Option ℕ → Uds → Entry
connect_entry none s = returns (fail fault) s
connect_entry (some p) s =
    if connected s
    then returns (fail sock_taken) s
    else if s.listening
    then goes_on (not s.accepting) s
    else returns (fail badconn) s

abbrev pub connect_wakes : ℕ → ℕ → Uds → Bool
connect_wakes start_time end_time s = s.accepting || timed_out start_time end_time

unfoldable pub connect_after : ℕ → ℕ → ℕ → Uds → IoResult × Uds
connect_after p start_time end_time s =
    if not s.accepting
    then (fail badconn, s)
    else if timed_out start_time end_time
    then (fail sock_timeout, s)
    else (count 0, record s { client = some p })

unfoldable pub close : ℕ → Uds → IoResult × Uds
close p s =
    if is_proc p s.server
    then (count 0, record s { server = none; accepting = false; listening = false })
    else if is_proc p s.client
    then (count 0, record s { client = none })
    else (fail inval, s)

unfoldable pub write_entry : ℕ → Uds → Entry
write_entry p s =
    if not (is_proc p s.client)
    then returns (fail perm) s
    else if not s.accepting || not (connected s)
    then returns (fail badconn) s
    else goes_on (not s.received) s

abbrev pub write_wakes : ℕ → ℕ → Uds → Bool
write_wakes start_time end_time s = not s.received || timed_out start_time end_time

unfoldable pub write_after : ℕ → ℕ → ℕ → Uds → IoResult × Uds
write_after fd start_time end_time s =
    if not s.accepting || not (connected s)
    then (fail badconn, s)
    else if timed_out start_time end_time
    then (fail sock_timeout, record s { received = true })
    else (count 0, record s { fd = some fd; received = false })

unfoldable pub read_entry : ℕ → Uds → Entry
read_entry p s =
    if not (is_proc p s.server)
    then returns (fail perm) s
    else if not s.accepting
    then returns (fail badconn) s
    else goes_on s.received s

abbrev pub read_wakes : ℕ → ℕ → Uds → Bool
read_wakes start_time end_time s = not s.received || timed_out start_time end_time

-- The loop of `find_open_fd(false, 0)`: the `n` descriptors from `fd` on.
unfoldable pub open_fd_from : ℕ → (ℕ → Option ℕ) → ℕ → Option ℕ
open_fd_from zero table fd = none
open_fd_from (suc n) table fd =
    let rest = open_fd_from n table (fd + 1) in if is_set (table fd) then rest else some fd

unfoldable pub find_open_fd : (ℕ → Option ℕ) → Option ℕ
unfolding open_fd_from
find_open_fd table = open_fd_from 5 table 3

-- The descriptor that the server gets; none is E_MFILE.
unfoldable pub choose_fd : (ℕ → Option ℕ) → ℕ → Option ℕ
unfolding find_open_fd
choose_fd table fd = if is_set (table fd) then find_open_fd table else some fd

abbrev pub install : Files → ℕ → ℕ → ℕ → Files
install w p newfd vn = record {
  fdtable = λ q fd. if q == p && fd == newfd then some vn else w.fdtable q fd;
  refcount = λ n. if n == vn then w.refcount n + 1 else w.refcount n;
}

-- The part of `read` that puts the vnode `vn`, the client's at `fd`, into the server's table.
unfoldable pub take_over : ℕ → ℕ → ℕ → Uds → Files → IoResult × Uds × Files
unfolding choose_fd
take_over p fd vn s w = elim (choose_fd (w.fdtable p) fd) [
  | none ↦ (fail mfile, s, w)
  | some newfd ↦ (count newfd, record s { fd = none; received = true }, install w p newfd vn)
]

-- A null client or server is dereferenced there, and `fd_` is an index; that is a panic here.
unfoldable pub hand_over : Uds → Files → Outcome (IoResult × Uds × Files)
unfolding take_over
hand_over s w = elim s.client [
  | none ↦ panic
  | some c ↦ (elim s.fd [
    | none ↦ panic
    | some fd ↦ (elim (w.fdtable c fd) [
      | none ↦ ok (fail badf, record s { fd = none; received = true }, w)
      | some vn ↦ (elim s.server [ none ↦ panic | some p ↦ ok (take_over p fd vn s w) ])
    ])
  ])
]

unfoldable pub read_after : ℕ → ℕ → Uds → Files → Outcome (IoResult × Uds × Files)
unfolding hand_over
read_after start_time end_time s w =
    if not s.accepting
    then ok (fail badconn, s, w)
    else if timed_out start_time end_time
    then ok (fail sock_timeout, record s { fd = none; received = true }, w)
    else if not s.received
    then hand_over s w
    else panic
