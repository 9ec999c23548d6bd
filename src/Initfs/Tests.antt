-- ===== src/Initfs/Tests.antt =====
-- The theorems on the lookup at three entries, of which the middle one is not used.
use cs_161_s21_problem_sets.Prelude.{ℕ, ◌≡◌, refl, true, false, List, [], ◌∷◌, arith, replicate}
use cs_161_s21_problem_sets.Strings.Order.{NoNul}
use cs_161_s21_problem_sets.Initfs.State.{found, created, initfs_lookup}
use cs_161_s21_problem_sets.Initfs.Find.{AllNames}
use cs_161_s21_problem_sets.Initfs.Lookup.{key_of, Answers, initfs_lookup_lem, lookup_created}

abbrev a : List ℕ
a = b'a' ∷ []

abbrev b : List ℕ
b = b'b' ∷ []

abbrev entries : List (List ℕ)
entries = a ∷ [] ∷ a ∷ []

a-NoNul : NoNul a
a-NoNul = (omega arith, tt)

b-NoNul : NoNul b
b-NoNul = (omega arith, tt)

entries-AllNames : AllNames entries
entries-AllNames = (a-NoNul, (tt, (a-NoNul, tt)))

initfs_lookup_lem_example : Answers entries (key_of b) true (initfs_lookup entries b true)
initfs_lookup_lem_example = initfs_lookup_lem entries b true entries-AllNames b-NoNul (omega arith)

creates_b : initfs_lookup entries b true ≡ (created 1, a ∷ b ∷ a ∷ [])
unfolding initfs_lookup
creates_b = refl

-- A name of 65 bytes finds the file whose name is its first 63.
finds_cut : (initfs_lookup (replicate 63 b'a' ∷ []) (replicate 65 b'a') true).0 ≡ found 0
unfolding initfs_lookup
finds_cut = refl

lookup_created_example : initfs_lookup (a ∷ b ∷ a ∷ []) b false ≡ (found 1, a ∷ b ∷ a ∷ [])
lookup_created_example =
    lookup_created entries (a ∷ b ∷ a ∷ []) b 1 entries-AllNames b-NoNul (omega arith) creates_b
