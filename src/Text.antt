-- ===== src/Text.antt =====
-- Text as the list of its character codes, for the parts of the program that walk through it.
use Prim.Native.Char.{code}
use mathlib.Core.Option
use hybrid_ftp.Base.{
  ℕ, suc, String, ◌≡◌, refl, Bool, true, false, ◌&&◌, Option, none, some, List, [], ◌∷◌, arith,
  ◌==◌, if◌then◌else◌, take, drop,
}

abbrev pub Text : Type 0
Text = List ℕ

-- The codes of a literal.
abbrev pub text : String → Text
text String.[] = []
text (String.◌∷◌ c s) = code c ∷ text s

unfoldable pub same : Text → Text → Bool
same [] [] = true
same [] (b ∷ bs) = false
same (a ∷ as') [] = false
same (a ∷ as') (b ∷ bs) = (a == b) && same as' bs

pub same→eq : (a b : Text) → same a b ≡ true → a ≡ b
unfolding same
same→eq [] [] h = refl
same→eq [] (b ∷ bs) h = cc
same→eq (a ∷ as') [] h = cc
same→eq (a ∷ as') (b ∷ bs) h = ground (arith, same→eq as' bs)

pub same_refl : (a : Text) → same a a ≡ true
unfolding same
same_refl [] = refl
same_refl (a ∷ as') = ground (arith, same_refl as')

abbrev pub is_empty : Text → Bool
is_empty [] = true
is_empty (c ∷ cs) = false

-- `find_first_not_of` and `find_last_not_of` of a set of characters; `none` is `npos`.
unfoldable pub find_first_not_of : (ℕ → Bool) → Text → Option ℕ
find_first_not_of set [] = none
find_first_not_of set (c ∷ cs) = if set c then Option.map suc (find_first_not_of set cs) else some 0

unfoldable pub find_last_not_of : (ℕ → Bool) → Text → Option ℕ
find_last_not_of set [] = none
find_last_not_of set (c ∷ cs) = elim (find_last_not_of set cs) [
  | some i ↦ some (suc i)
  | none ↦ if set c then none else some 0
]

unfoldable pub substr : Text → ℕ → ℕ → Text
substr s pos count = take count (drop pos s)
