-- ===== src/Daemon/Fleet/Counting.antt =====
-- The laws of the ledger, and of the lists of names that the status keeps.
use kata_operator.Base.{
  ◌≡◌, refl, ℕ, suc, ◌+◌, ◌≤◌, String, Bool, true, false, List, [], ◌∷◌, ◌==◌, string_eq,
  if◌then◌else◌, length, arith, eq_iff, Bool-cases, inl, inr,
}
use kata_operator.Controllers.Common.{contains}
use kata_operator.Controllers.Common.Names.{IsDistinct}
use kata_operator.Daemon.Status.{remove_first}
use kata_operator.Daemon.Fleet.{Phase, idle, is_known, Ledger, phase_of, set_phase, number}

pub phase_of-set_phase :
    (m n : String) (p : Phase) (l : Ledger)
    → phase_of m (set_phase n p l) ≡ (if n == m then p else phase_of m l)
unfolding phase_of set_phase
phase_of-set_phase m n p [] = refl
phase_of-set_phase m n p ((k, q) ∷ l) =
    ground (arith, phase_of-set_phase m n p l, eq_iff k n, eq_iff k m, eq_iff n m)

abbrev pub weight : (Phase → Bool) → Phase → ℕ
weight test p = if test p then 1 else 0

module _ (test : Phase → Bool) where
  pub number-set_phase :
      (n : String) (p : Phase) (l : Ledger)
      → test idle ≡ false
      → number test (set_phase n p l) + weight test (phase_of n l) ≡ number test l + weight test p
  unfolding number set_phase phase_of
  number-set_phase n p [] e = ground arith
  number-set_phase n p ((k, q) ∷ l) e = ground (arith, number-set_phase n p l e)

  pub weight-le-number :
      (n : String) (l : Ledger) → test idle ≡ false → weight test (phase_of n l) ≤ number test l
  unfolding number phase_of
  weight-le-number n [] e = ground arith
  weight-le-number n ((k, q) ∷ l) e = ground (arith, weight-le-number n l e)

-- A move of a node that is known already lets no new one in.
pub known-set_phase :
    (n : String) (p : Phase) (l : Ledger)
    → is_known p ≡ true
    → is_known (phase_of n l) ≡ true
    → number is_known (set_phase n p l) ≡ number is_known l
known-set_phase n p l e q = ground (arith, number-set_phase is_known n p l refl, e, q)

pub number_mono :
    (test other : Phase → Bool) (l : Ledger)
    → ((p : Phase) → test p ≡ true → other p ≡ true)
    → number test l ≤ number other l
unfolding number
number_mono test other [] h = omega arith
number_mono test other ((k, p) ∷ l) h = ground (arith, number_mono test other l h, h p)

pub contains-remove_first :
    (n m : String) (xs : List String)
    → IsDistinct xs
    → contains (remove_first n xs) m ≡ (if n == m then false else contains xs m)
unfolding contains remove_first
contains-remove_first n m [] d = ground arith
contains-remove_first n m (x ∷ xs) d =
    ground (arith, contains-remove_first n m xs d.1, eq_iff x n, eq_iff x m, eq_iff n m, d.0)

pub IsDistinct-remove_first :
    (n : String) (xs : List String) → IsDistinct xs → IsDistinct (remove_first n xs)
unfolding remove_first
IsDistinct-remove_first n [] d = tt
IsDistinct-remove_first n (x ∷ xs) d = elim (Bool-cases (x == n)) [
  | inl same ↦ rw same d.1
  | inr differs ↦
      rw differs
        (ground (arith, contains-remove_first n x xs d.1, d.0), IsDistinct-remove_first n xs d.1)
]

pub length-remove_first :
    (n : String) (xs : List String)
    → contains xs n ≡ true
    → suc (length (remove_first n xs)) ≡ length xs
unfolding contains remove_first
length-remove_first n [] h = cc
length-remove_first n (x ∷ xs) h = ground (arith, length-remove_first n xs)

-- A list without repetition is no longer than one that has all its names.
pub length_mono :
    (xs ys : List String)
    → IsDistinct xs
    → IsDistinct ys
    → ((m : String) → contains xs m ≡ true → contains ys m ≡ true)
    → length xs ≤ length ys
unfolding contains
length_mono [] ys d e h = omega arith
length_mono (x ∷ xs) ys d e h =
    let there : contains ys x ≡ true = h x (ground (arith, eq_iff x x)) in
    let rest : (m : String) → contains xs m ≡ true → contains (remove_first x ys) m ≡ true =
      λ m c. ground (arith, contains-remove_first x m ys e, eq_iff x m, h m, c, d.0) in
    omega (
      arith,
      length_mono xs (remove_first x ys) d.1 (IsDistinct-remove_first x ys e) rest,
      length-remove_first x ys there,
    )
