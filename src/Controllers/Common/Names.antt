-- ===== src/Controllers/Common/Names.antt =====
-- Lists of names without repetition, and the names that `contains` finds in a list.
use kata_operator.Base.{
  ◌≡◌, refl, String, false, ◌||◌, List, [], ◌∷◌, ◌++◌, ◌==◌, string_eq, arith, eq_iff,
}
use kata_operator.Controllers.Common.{contains}

-- no name stands twice in the list
abbrev pub IsDistinct : List String → Type 0
IsDistinct [] = Unit
IsDistinct (x ∷ xs) = (contains xs x ≡ false) × IsDistinct xs

pub contains-append :
    (xs ys : List String) (n : String) → contains (xs ++ ys) n ≡ (contains xs n || contains ys n)
unfolding contains
contains-append [] ys n = refl
contains-append (x ∷ xs) ys n = ground (arith, contains-append xs ys n)

pub contains-one : (x n : String) → contains (x ∷ []) n ≡ (x == n)
unfolding contains
contains-one x n = ground arith

pub IsDistinct-snoc :
    (xs : List String) (n : String)
    → contains xs n ≡ false
    → IsDistinct xs
    → IsDistinct (xs ++ n ∷ [])
unfolding contains
IsDistinct-snoc [] n new d = (refl, tt)
IsDistinct-snoc (x ∷ xs) n new d = (
  ground (arith, contains-append xs (n ∷ []) x, contains-one n x, eq_iff x n, eq_iff n x, d.0),
  IsDistinct-snoc xs n (ground arith) d.1,
)
