-- ===== src/Daemon/Fleet/Lists.antt =====
-- Lists of the names of the nodes in a phase, and what a move of a node does to them.
use kata_operator.Base.{
  ◌≡◌, sym, ◌∙◌, String, Bool, true, false, List, [], ◌∷◌, ◌++◌, string_eq, length, length-append,
  arith, eq_iff,
}
use kata_operator.Controllers.Common.{contains}
use kata_operator.Controllers.Common.Names.{
  IsDistinct, contains-append, contains-one, IsDistinct-snoc,
}
use kata_operator.Daemon.Status.{remove_first}
use kata_operator.Daemon.Fleet.{Phase, idle, Ledger, phase_of, set_phase, number}
use kata_operator.Daemon.Fleet.Counting.{
  phase_of-set_phase, number-set_phase, contains-remove_first, IsDistinct-remove_first,
  length-remove_first,
}

-- The names in the list are those of the nodes in a phase with the test, each once.
pub record Lists (test : Phase → Bool) (l : Ledger) (names : List String) : Type 0 where
  pub distinct : IsDistinct names
  pub exact : (n : String) → contains names n ≡ test (phase_of n l)
  pub counted : length names ≡ number test l

module _ (test : Phase → Bool) (quiet : test idle ≡ false) (n : String) (p : Phase) (l : Ledger)
    (names : List String) where
  -- A node that enters the phase is appended.
  pub Lists-enter :
      test (phase_of n l) ≡ false
      → test p ≡ true
      → Lists test l names
      → Lists test (set_phase n p l) (names ++ n ∷ [])
  Lists-enter out into k = record {
    distinct = IsDistinct-snoc names n (k.exact n ∙ out) k.distinct;
    exact = λ m. ground (
      arith,
      contains-append names (n ∷ []) m,
      contains-one n m,
      phase_of-set_phase m n p l,
      k.exact m,
      eq_iff n m,
    );
    counted =
        ground (arith, length-append names (n ∷ []), number-set_phase test n p l quiet, k.counted);
  }

  -- A node that leaves the phase is removed.
  pub Lists-leave :
      test (phase_of n l) ≡ true
      → test p ≡ false
      → Lists test l names
      → Lists test (set_phase n p l) (remove_first n names)
  Lists-leave into out k = record {
    distinct = IsDistinct-remove_first n names k.distinct;
    exact = λ m. ground (
      arith,
      contains-remove_first n m names k.distinct,
      phase_of-set_phase m n p l,
      k.exact m,
      eq_iff n m,
    );
    counted = ground (
      arith,
      length-remove_first n names (k.exact n ∙ into),
      number-set_phase test n p l quiet,
      k.counted,
    );
  }

  -- A node that does not change under the test changes nothing.
  pub Lists-same :
      test (phase_of n l) ≡ test p → Lists test l names → Lists test (set_phase n p l) names
  Lists-same same k = record {
    distinct = k.distinct;
    exact = λ m. ground (arith, phase_of-set_phase m n p l, k.exact m, same, eq_iff n m);
    counted = ground (arith, number-set_phase test n p l quiet, k.counted, same);
  }

  pub Lists-stay :
      test (phase_of n l) ≡ false
      → test p ≡ false
      → Lists test l names
      → Lists test (set_phase n p l) names
  Lists-stay out still = Lists-same (out ∙ sym still)
