-- ===== src/Eclib/Strings/Tests.antt =====
-- Strings at which the results apply.
use e_comos.Prelude.{ℕ, some, List, [], ◌∷◌}
use e_comos.Eclib.Strings.{eclib_strstr}
use e_comos.Eclib.Strings.Find.{FirstOccurrence, eclib_strstr-FirstOccurrence}

abbrev abc : List ℕ
abc = b'a' ∷ b'b' ∷ b'c' ∷ []

eclib_strstr-FirstOccurrence_example :
    FirstOccurrence (b'b' ∷ []) abc (eclib_strstr (some abc) (some (b'b' ∷ [])))
eclib_strstr-FirstOccurrence_example = eclib_strstr-FirstOccurrence abc b'b' []
