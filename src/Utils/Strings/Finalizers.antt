-- ===== src/Utils/Strings/Finalizers.antt =====
-- `RemoveString` on the finalizers of an object.
use l2s_m.Base.{◌≡◌, refl, false, List, [], ◌∷◌, if◌then◌else◌, Text, text_eq, text_eq_iff, arith}
use l2s_m.Utils.Strings.{remove_string, contains}

-- After RemoveString a list contains a text exactly if it did before and the text is not the
-- removed one.
pub contains-remove_string :
    (slice : List Text) (s t : Text)
    → contains (remove_string slice s) t ≡ (if text_eq s t then false else contains slice t)
unfolding contains remove_string
contains-remove_string [] s t = ground arith
contains-remove_string (item ∷ slice) s t = ground (
  arith,
  text_eq_iff item s,
  text_eq_iff item t,
  text_eq_iff s t,
  contains-remove_string slice s t,
)

-- A list that lacks the string stays as it is.
pub remove_string_absent :
    (slice : List Text) (s : Text) → contains slice s ≡ false → remove_string slice s ≡ slice
unfolding contains remove_string
remove_string_absent [] s h = refl
remove_string_absent (item ∷ slice) s h = ground (arith, remove_string_absent slice s)
