-- ===== src/Initfs/State.antt =====
-- The lookup of a name. A name is the list of its bytes before the NUL; `initfs` is the list of the
-- names of its entries, the empty one for an entry that is not used.
use cs_161_s21_problem_sets.Prelude.{
  ℕ, zero, suc, ◌+◌, ◌-◌, Bool, true, false, ◌&&◌, not, Option, none, some, List, [], ◌∷◌, min, leb,
  ◌==◌, if◌then◌else◌, length, take, drop, set,
}
use cs_161_s21_problem_sets.Errno.{Errno, noent, nospc, name_too_long}
use cs_161_s21_problem_sets.Strings.Order.{head_byte}

abbrev pub namesize : ℕ
namesize = 64

-- `empty`
abbrev pub is_empty : List ℕ → Bool
is_empty f = head_byte f == 0

-- `memcmp(f->name_, name, n) == 0 && f->name_[n] == 0`; what lies behind a NUL is not compared with a
-- byte of the name, none of which is NUL, and 0 stands for it.
unfoldable pub agrees : ℕ → List ℕ → List ℕ → Bool
agrees zero f name = head_byte f == 0
agrees (suc n) f name =
    let rest = agrees n (drop 1 f) (drop 1 name) in head_byte f == head_byte name && rest

-- What the loop ends with: the entry found, or the first one that is not used.
pub data Scan : Type 0 where
  hit : ℕ → Scan
  miss : Option ℕ → Scan

abbrev pub or_first : Option ℕ → ℕ → Option ℕ
or_first none i = some i
or_first (some j) i = some j

unfoldable pub scan : List (List ℕ) → List ℕ → ℕ → ℕ → Option ℕ → Scan
unfolding agrees
scan [] name n i empty = miss empty
scan (f ∷ fs) name n i empty =
    if not (is_empty f) && agrees n f name
    then hit i
    else scan fs name n (i + 1) (if is_empty f then or_first empty i else empty)

-- What `initfs_lookup` returns: an index, of a file that was there or of a new one, or an error.
pub data Lookup : Type 0 where
  found : ℕ → Lookup
  created : ℕ → Lookup
  error : Errno → Lookup

abbrev pub name_length : List ℕ → ℕ
name_length name = min (length name) (namesize - 1)

-- The rest of the function, behind the loop.
unfoldable pub after_scan : List (List ℕ) → List ℕ → Bool → Scan → Lookup × List (List ℕ)
after_scan fs name create (hit i) = (found i, fs)
after_scan fs name false (miss empty) = (error noent, fs)
after_scan fs name true (miss none) = (error nospc, fs)
after_scan fs name true (miss (some i)) =
    if leb namesize (name_length name)
    then (error name_too_long, fs)
    else (created i, set fs i (take (name_length name) name))

unfoldable pub initfs_lookup : List (List ℕ) → List ℕ → Bool → Lookup × List (List ℕ)
unfolding scan after_scan
initfs_lookup fs name create = after_scan fs name create (scan fs name (name_length name) 0 none)
