-- ===== src/Controllers/Kubernetes/Watch.antt =====
-- The requests of SetupWithManager of controllers/kubernetes_controller.go: what a change of a node
-- asks for.
use kata_operator.Base.{
  ◌≡◌, refl, ℕ, zero, suc, ◌+◌, String, List, [], ◌∷◌, ◌++◌, length, arith, ◌==◌, string_eq,
  if◌then◌else◌,
}
use kata_operator.Api.Kata.{KataConfig}
use kata_operator.Api.Errors.{Result, ok, err}

-- `make([]reconcile.Request, n)`: requests for the empty name
unfoldable pub empty_requests : ℕ → List String
empty_requests zero = []
empty_requests (suc n) = "" ∷ empty_requests n

-- the requests that the loop appends
unfoldable pub named_requests : List KataConfig → List String
named_requests [] = []
named_requests (kataconfig ∷ items) = kataconfig.metadata.name ∷ named_requests items

unfoldable pub to_requests : Result (List KataConfig) → List String
unfolding empty_requests named_requests
to_requests (err _) = []
to_requests (ok items) = empty_requests (length items) ++ named_requests items

-- how often a name stands in a list
abbrev pub times : String → List String → ℕ
times name [] = 0
times name (x ∷ xs) = let rest = times name xs in if x == name then suc rest else rest

-- how many of the resources have the name
abbrev pub resources_named : String → List KataConfig → ℕ
resources_named name [] = 0
resources_named name (kataconfig ∷ items) =
    let rest = resources_named name items in
    if kataconfig.metadata.name == name then suc rest else rest

times-append :
    (name : String) (xs ys : List String) → times name (xs ++ ys) ≡ times name xs + times name ys
times-append name [] ys = omega arith
times-append name (x ∷ xs) ys = ground (arith, times-append name xs ys)

times-empty_requests :
    (name : String) (n : ℕ) → times name (empty_requests n) ≡ (if "" == name then n else 0)
unfolding empty_requests
times-empty_requests name zero = ground arith
times-empty_requests name (suc n) = ground (arith, times-empty_requests name n)

times-named_requests :
    (name : String) (items : List KataConfig)
    → times name (named_requests items) ≡ resources_named name items
unfolding named_requests
times-named_requests name [] = refl
times-named_requests name (x ∷ items) = ground (arith, times-named_requests name items)

-- A change of a node asks for each name once for every listed resource that has it, and beside that
-- for the empty name once for every listed resource. It asks for nothing else.
pub times-to_requests :
    (name : String) (items : List KataConfig)
    → times name (to_requests (ok items))
      ≡ resources_named name items + (if "" == name then length items else 0)
unfolding to_requests
times-to_requests name items = omega (
  arith,
  times-append name (empty_requests (length items)) (named_requests items),
  times-empty_requests name (length items),
  times-named_requests name items,
)
