-- ===== src/Controllers/Reconciler/Traced.antt =====
-- The state of a reconciler with all of its calls so far.
use kata_operator.Base.{◌≡◌, ap, List, ◌∷◌}
use kata_operator.Api.Kata.{KataConfig}
use kata_operator.Api.Errors.{Result}
use kata_operator.Effect.Keeps.{Ensures}
use kata_operator.Cluster.Calls.{Call}
use kata_operator.Controllers.Reconciler.{Reconciler, current, ask}

-- The resource at hand, and the calls made, newest first.
pub record Is {W : Type 0} (kc : KataConfig) (calls : List Call) (s : Reconciler W) : Type 0 where
  pub resource : s.kata_config ≡ kc
  pub trace : s.calls ≡ calls

module _ {W R A : Type 0} {kc : KataConfig} {l : List Call} {E : Reconciler W → Type 0} where
  pub Is-ask :
      {G : Result A → Type 0} (f : W → Result A × W) (note : Result A → Call)
      → ((w : W) → G (f w).0)
      → Ensures (Is kc l) (ask {R = R} f note) (λ a s. G a × Is kc (note a ∷ l) s) E
  unfolding ask
  Is-ask f note g = record {
    at = λ s h. (
      g s.world,
      record { resource = h.resource; trace = ap (λ t. note (f s.world).0 ∷ t) h.trace },
    );
  }

  pub Is-call :
      (f : W → Result A × W) (note : Result A → Call)
      → Ensures (Is kc l) (ask {R = R} f note) (λ a. Is kc (note a ∷ l)) E
  unfolding ask
  Is-call f note = record {
    at = λ s h. record { resource = h.resource; trace = ap (λ t. note (f s.world).0 ∷ t) h.trace };
  }

module _ {W R : Type 0} {kc : KataConfig} {l : List Call} {E : Reconciler W → Type 0} where
  pub Is-current : Ensures (Is {W = W} kc l) (current {R = R}) (λ now s. (now ≡ kc) × Is kc l s) E
  unfolding current
  Is-current = record { at = λ s h. (h.resource, h) }
