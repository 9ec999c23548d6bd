-- ===== src/Errno.antt =====
-- The error codes that the modelled code returns (lib.hh); a caller sees them as negative numbers.
use cs_161_s21_problem_sets.Prelude.{ℕ}

pub data Errno : Type 0 where
  badf nospc pipe inval mfile fault badconn sock_timeout sock_taken perm fbig tpipe spipe noent
        name_too_long :
      Errno

-- What a read or write returns: a number of bytes or an error.
pub data IoResult : Type 0 where
  count : ℕ → IoResult
  fail : Errno → IoResult
