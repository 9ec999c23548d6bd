-- ===== src/Uds/Faults.antt =====
-- Sequences of calls on the socket in which the code does not do what its comments say.
use cs_161_s21_problem_sets.Prelude.{
  ℕ, ◌+◌, ◌≤◌, ◌<◌, ◌≡◌, ◌≢◌, refl, ◌∙◌, true, false, none, some, panic, arith,
}
use cs_161_s21_problem_sets.Errno.{count, fail, badconn}
use cs_161_s21_problem_sets.Uds.State.{
  Uds, Files, connected, timeout, timed_out, goes_on, accept_entry, accept_wakes, accept_after,
  connect_entry, connect_after, close, write_entry, write_wakes, write_after, read_entry, hand_over,
  read_after,
}
use cs_161_s21_problem_sets.Uds.Reach.{left_by, read_after-hand_over}

-- A file that the server has not received yet does not make the client's next `write` wait: the
-- call means to sleep, but its condition holds at once, and the descriptor that was sent is
-- replaced.
pub write_replaces :
    (c fd start_time : ℕ) (s : Uds)
    → s.accepting ≡ true
    → s.client ≡ some c
    → s.received ≡ false
    → (write_entry c s ≡ goes_on true s)
      × (write_wakes start_time start_time s ≡ true)
      × (write_after fd start_time start_time s ≡ (count 0, record s { fd = some fd }))
unfolding write_entry write_after
write_replaces c fd start_time s on is_c sent =
    (ground (arith, on, is_c, sent), ground (arith, sent), ground (arith, on, is_c, sent))

hand_over-no_client : (s : Uds) (w : Files) → s.client ≡ none → hand_over s w ≡ panic
unfolding hand_over
hand_over-no_client s w e = rw (e, hand_over) refl

close-client :
    (c p : ℕ) (s : Uds)
    → s.client ≡ some c
    → s.server ≡ some p
    → p ≢ c
    → close c s ≡ (count 0, record s { client = none })
unfolding close
close-client c p s is_c is_p ne = ground (arith, is_c, is_p, ne)

read_entry-goes_on :
    (p : ℕ) (s : Uds)
    → s.server ≡ some p
    → s.accepting ≡ true
    → s.received ≡ false
    → read_entry p s ≡ goes_on false s
unfolding read_entry
read_entry-goes_on p s is_p on sent = ground (arith, is_p, on, sent)

-- A client that sends a file and closes the socket before the server, another process, reads: the
-- server's `read` goes on without sleeping and dereferences the null pointer to the client.
pub read_after-close :
    (c p start_time : ℕ) (s : Uds) (w : Files)
    → s.accepting ≡ true
    → s.client ≡ some c
    → s.server ≡ some p
    → p ≢ c
    → s.received ≡ false
    → (read_entry p (close c s).1 ≡ goes_on false (close c s).1)
      × (read_after start_time start_time (close c s).1 w ≡ panic)
read_after-close c p start_time s w on is_c is_p ne sent =
    let soon : timed_out start_time start_time ≡ false = ground arith in
    rw (close-client c p s is_c is_p ne) (
      read_entry-goes_on p (record s { client = none }) is_p on sent,
      read_after-hand_over start_time start_time (record s { client = none }) w on soon sent
          ∙ hand_over-no_client (record s { client = none }) w refl,
    )

connect_entry-sleeps :
    (c : ℕ) (s : Uds)
    → s.listening ≡ true
    → s.accepting ≡ false
    → s.client ≡ none
    → connect_entry (some c) s ≡ goes_on true s
unfolding connect_entry
connect_entry-sleeps c s li no_acc no_client = ground (arith, li, no_acc, no_client)

accept_entry-left :
    (s : Uds) → s.listening ≡ true → left_by (accept_entry s) ≡ record s { accepting = true }
unfolding accept_entry
accept_entry-left s li = ground (arith, li)

connect_after-runs :
    (c start_time end_time : ℕ) (s : Uds)
    → s.accepting ≡ true
    → end_time < start_time + timeout
    → connect_after c start_time end_time s ≡ (count 0, record s { client = some c })
unfolding connect_after
connect_after-runs c start_time end_time s on in_time = ground (arith, on, in_time)

-- Two clients that wait in `connect` on a listening socket until the server accepts are both
-- told, if they wake in time, that they are connected, and the second one has replaced the first.
pub connect_twice :
    (c1 c2 start_time end_time : ℕ) (s : Uds)
    → s.listening ≡ true
    → s.accepting ≡ false
    → s.client ≡ none
    → end_time < start_time + timeout
    → (connect_entry (some c1) s ≡ goes_on true s)
      × (connect_entry (some c2) s ≡ goes_on true s)
      × ((s1 s2 : Uds) × (connect_after c1 start_time end_time (left_by (accept_entry s))
            ≡ (count 0, s1))
          × (connect_after c2 start_time end_time s1 ≡ (count 0, s2))
          × (s1.client ≡ some c1)
          × (s2.client ≡ some c2))
connect_twice c1 c2 start_time end_time s li no_acc no_client in_time =
    let s0 = record s { accepting = true } in
    let e = accept_entry-left s li in
    (
      connect_entry-sleeps c1 s li no_acc no_client,
      connect_entry-sleeps c2 s li no_acc no_client,
      (
        record s0 { client = some c1 },
        record s0 { client = some c2 },
        rw e (connect_after-runs c1 start_time end_time s0 refl in_time),
        connect_after-runs c2 start_time end_time (record s0 { client = some c1 }) refl in_time,
        refl,
        refl,
      ),
    )

-- An `accept` for which no client has come when it wakes has timed out, and yet it answers
-- E_BADCONN.
pub accept_after-timeout :
    (start_time end_time : ℕ) (s : Uds)
    → connected s ≡ false
    → accept_wakes start_time end_time s ≡ true
    → (start_time + timeout ≤ end_time) × (accept_after start_time end_time s ≡ fail badconn)
unfolding accept_after
accept_after-timeout start_time end_time s no_one wakes = ground arith
