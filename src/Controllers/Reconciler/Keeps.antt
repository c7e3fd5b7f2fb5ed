-- ===== src/Controllers/Reconciler/Keeps.antt =====
-- What the calls of a reconciler keep: a property of the calls made so far that every call but an
-- update of the resource keeps.
use mathlib.Core.List.{Memᴰ}
use kata_operator.Base.{◌≡◌, refl, ℕ, Bool, true, false, List, ◌∷◌}
use kata_operator.Api.Kata.{KataConfig}
use kata_operator.Api.Errors.{Result}
use kata_operator.Effect.Keeps.{Keeps, Keeps-pure, Keeps-abort, keeps_rules, Ensures}
use kata_operator.Cluster.{Cluster}
use kata_operator.Cluster.Calls.{Call, updated_kata_config}
use kata_operator.Controllers.Reconciler.{
  Reconciler, ClientSet, no_client_set, client_set, current, assign, ask, update_status, sleep,
  make_if_nil, ensure_client_set, through, usable_client_set, match_labels,
}

-- Is the call an update of the resource, other than of its status?
abbrev pub is_update : Call → Bool
is_update (updated_kata_config _ _) = true
is_update _ = false

-- The property holds of the calls made so far.
pub record OnCalls {W : Type 0} (P : List Call → Type 0) (s : Reconciler W) : Type 0 where
  pub made : P s.calls

-- A property of calls that every further call but an update keeps.
pub record IsStable (P : List Call → Type 0) : Type 0 where
  pub grow : (x : Call) (l : List Call) → is_update x ≡ false → P l → P (x ∷ l)

module _ {W R : Type 0} {P : List Call → Type 0} where
  pub Keeps-current : Keeps (OnCalls P) (current {W = W} {R = R})
  unfolding current
  Keeps-current = record { at = λ s h. h }

  pub Keeps-assign : (f : KataConfig → KataConfig) → Keeps (OnCalls P) (assign {W = W} {R = R} f)
  unfolding assign
  Keeps-assign f = record { at = λ s h. record { made = h.made } }

  pub Keeps-match_labels : Keeps (OnCalls P) (match_labels {W = W} {R = R})
  unfolding match_labels
  Keeps-match_labels = search keeps_rules

  Keeps-through : (x : ClientSet) → Keeps (OnCalls P) (through {W = W} {R = R} x)
  unfolding through
  Keeps-through client_set = Keeps-pure tt
  Keeps-through _ = Keeps-abort

  pub Keeps-usable_client_set : Keeps (OnCalls P) (usable_client_set {W = W} {R = R})
  unfolding usable_client_set
  Keeps-usable_client_set = record { at = λ s. (Keeps-through s.clientset).at s }

  pub Keeps-ask :
      {A : Type 0} (f : W → Result A × W) (note : Result A → Call)
      → IsStable P
      → ((a : Result A) → is_update (note a) ≡ false)
      → Keeps (OnCalls P) (ask {R = R} f note)
  unfolding ask
  Keeps-ask f note p quiet = record {
    at = λ s h. record { made = p.grow (note (f s.world).0) s.calls (quiet (f s.world).0) h.made };
  }

module _ {W : Type 0} (c : Cluster W) {R : Type 0} {P : List Call → Type 0} where
  pub Keeps-update_status : IsStable P → Keeps (OnCalls P) (update_status c {R = R})
  unfolding update_status
  Keeps-update_status p = record { at = λ s h. record { made = p.grow _ s.calls refl h.made } }

  pub Keeps-sleep : (n : ℕ) → IsStable P → Keeps (OnCalls P) (sleep c {R = R} n)
  unfolding sleep
  Keeps-sleep n p = record { at = λ s h. record { made = p.grow _ s.calls refl h.made } }

  Keeps-make_if_nil : (x : ClientSet) → IsStable P → Keeps (OnCalls P) (make_if_nil c {R = R} x)
  unfolding make_if_nil
  Keeps-make_if_nil no_client_set p = record {
    at = λ s h. record { made = p.grow _ s.calls refl h.made };
  }
  Keeps-make_if_nil _ p = record { at = λ s h. h }

  pub Keeps-ensure_client_set : IsStable P → Keeps (OnCalls P) (ensure_client_set c {R = R})
  unfolding ensure_client_set
  Keeps-ensure_client_set p = record { at = λ s. (Keeps-make_if_nil s.clientset p).at s }

pub ruleset call_rules = (
  keeps_rules, Keeps-current, Keeps-assign, Keeps-match_labels, Keeps-usable_client_set, Keeps-ask,
  Keeps-update_status, Keeps-sleep, Keeps-ensure_client_set,
)

module _ {W R A : Type 0} {P : List Call → Type 0} {E : Reconciler W → Type 0} where
  -- After a call, its record is among the calls made.
  pub Ensures-ask :
      (f : W → Result A × W) (note : Result A → Call)
      → IsStable P
      → ((a : Result A) → is_update (note a) ≡ false)
      → Ensures (OnCalls P) (ask {R = R} f note) (λ a. OnCalls (λ l. P l × Memᴰ (note a) l)) E
  unfolding ask
  Ensures-ask f note p quiet = record {
    at = λ s h. record {
      made = (p.grow (note (f s.world).0) s.calls (quiet (f s.world).0) h.made, Memᴰ.head refl);
    };
  }
