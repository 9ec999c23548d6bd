-- ===== src/Uds/Tests.antt =====
-- The theorems on the socket at a server 1 and the clients 2 and 3.
use cs_161_s21_problem_sets.Prelude.{
  ℕ, ◌+◌, ◌≤◌, ◌<◌, ◌≡◌, ◌⊎◌, refl, true, false, ◌&&◌, none, some, List, [], ◌∷◌, ok, panic, ◌==◌,
  if◌then◌else◌, arith,
}
use cs_161_s21_problem_sets.Errno.{count, fail, mfile, badconn}
use cs_161_s21_problem_sets.Uds.State.{
  Uds, Files, fresh, is_set, timeout, goes_on, accept_entry, accept_after, connect_entry, bind,
  listen, connect_after, close, write_entry, write_wakes, write_after, read_entry, read_after,
}
use cs_161_s21_problem_sets.Uds.Reach.{
  Call, binds, listens, accepts, connects, writes, left_by, run, IsValid, run-IsValid_uds,
}
use cs_161_s21_problem_sets.Uds.Transfer.{Installed, Chosen, read_after_transfer}
use cs_161_s21_problem_sets.Uds.Faults.{
  write_replaces, read_after-close, connect_twice, accept_after-timeout,
}

-- The client 2 has the file 9 open at its descriptor 4.
abbrev files : Files
files = record {
  fdtable = λ p fd. if p == 2 && fd == 4 then some 9 else none;
  refcount = λ n. if n == 9 then 1 else 0;
}

abbrev sent : Uds
sent = record {
  fd = some 4;
  listening = true;
  accepting = true;
  received = false;
  server = some 1;
  client = some 2;
}

abbrev calls : List Call
calls = binds (some 1) ∷ listens ∷ accepts ∷ connects 2 0 5 ∷ writes 4 6 6 ∷ []

runs_to_sent : run calls (fresh, files) ≡ ok (sent, files)
unfolding run bind listen accept_entry connect_after write_after
runs_to_sent = refl

run-IsValid_uds_example : IsValid sent
run-IsValid_uds_example = run-IsValid_uds calls files runs_to_sent

read_after_transfer_example :
    ((newfd : ℕ) × (w' : Files) × (read_after 7 7 sent files
        ≡ ok (count newfd, record sent { fd = none; received = true }, w'))
      × Installed files w' 1 newfd 9
      × Chosen (files.fdtable 1) 4 newfd)
    ⊎ ((read_after 7 7 sent files ≡ ok (fail mfile, sent, files))
        × (is_set (files.fdtable 1 4) ≡ true)
        × ((k : ℕ) → 3 ≤ k → k < 8 → is_set (files.fdtable 1 k) ≡ true))
read_after_transfer_example =
    read_after_transfer 2 1 4 9 7 7 sent files refl refl refl refl refl refl (omega arith)

write_replaces_example :
    (write_entry 2 sent ≡ goes_on true sent)
    × (write_wakes 7 7 sent ≡ true)
    × (write_after 5 7 7 sent ≡ (count 0, record sent { fd = some 5 }))
write_replaces_example = write_replaces 2 5 7 sent refl refl refl

read_after-close_example :
    (read_entry 1 (close 2 sent).1 ≡ goes_on false (close 2 sent).1)
    × (read_after 7 7 (close 2 sent).1 files ≡ panic)
read_after-close_example = read_after-close 2 1 7 sent files refl refl refl (omega arith) refl

abbrev quiet : Uds
quiet = record fresh { listening = true; server = some 1 }

connect_twice_small :
    (connect_entry (some 2) quiet ≡ goes_on true quiet)
    × (connect_entry (some 3) quiet ≡ goes_on true quiet)
    × ((s1 s2 : Uds) × (connect_after 2 0 5 (left_by (accept_entry quiet)) ≡ (count 0, s1))
        × (connect_after 3 0 5 s1 ≡ (count 0, s2))
        × (s1.client ≡ some 2)
        × (s2.client ≡ some 3))
connect_twice_small = connect_twice 2 3 0 5 quiet refl refl refl (omega arith)

accept_after-timeout_small : (0 + timeout ≤ 120) × (accept_after 0 120 quiet ≡ fail badconn)
accept_after-timeout_small = accept_after-timeout 0 120 quiet refl refl
