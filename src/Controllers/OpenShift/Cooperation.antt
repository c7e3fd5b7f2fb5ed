-- ===== src/Controllers/OpenShift/Cooperation.antt =====
-- Answers that a handler hopes for, a cluster that gives them to a deletion, and the rules for code
-- that then neither returns early nor panics.
use mathlib.Core.Path.{subst}
use kata_operator.Base.{◌≡◌, ap, Bool, true, false, List, [], ◌∷◌, ℕ, String}
use kata_operator.Api.Kata.{KataConfig}
use kata_operator.Api.Objects.{DaemonSet, MachineConfigPool, Ignition, Node}
use kata_operator.Api.Errors.{Error, Result, ok, err, is_not_found}
use kata_operator.Effect.{Outcome, done, exit, panic, Exec, pure, or_return, when, for_each}
use kata_operator.Effect.Keeps.{After, Ensures, Ensures-bind, Ensures-when}
use kata_operator.Cluster.{Cluster}
use kata_operator.Cluster.Calls.{Call}
use kata_operator.Controllers.Reconciler.{
  Reply, reply_done, Reconciler, ClientSet, nil_client_set, client_set, current, ask, sleep,
}
use kata_operator.Controllers.OpenShift.Queries.{uses_runtime_class}

-- the answer is no error, and its value has `Q`
abbrev pub Succeeds : {A : Type 0} → (A → Type 0) → Result A → Type 0
Succeeds Q (ok x) = Q x
Succeeds Q (err e) = ⊥

-- the object is there or not found; the question did not fail
abbrev pub IsAnswered : {A : Type 0} → Result A → Type 0
IsAnswered (ok _) = Unit
IsAnswered (err e) = is_not_found e ≡ true

-- the machines of the pool are all ready
abbrev pub InStep : MachineConfigPool → Type 0
InStep mcp = mcp.ready_machine_count ≡ mcp.machine_count

-- Every call succeeds, all pools are in step, no pod uses the runtime class of the resource, and
-- an update is answered with the finalizers that were sent.
pub record Cooperates {W : Type 0} (c : Cluster W) (runtime_class : String) : Type 0 where
  pub pods : (w : W) → Succeeds (λ l. uses_runtime_class runtime_class l ≡ false) (c.list_pods w).0
  pub pools : (name : String) (w : W) → Succeeds InStep (c.get_machine_config_pool name w).0
  pub daemon_sets :
      (name namespace : String) (w : W) → IsAnswered (c.get_daemon_set name namespace w).0
  pub creates : (ds : DaemonSet) (w : W) → Succeeds (λ _. Unit) (c.create_daemon_set ds w).0
  pub deletes : (ds : DaemonSet) (w : W) → Succeeds (λ _. Unit) (c.delete_daemon_set ds w).0
  pub machine_configs : (name : String) (w : W) → IsAnswered (c.get_machine_config name w).0
  pub marshals : (x : Ignition) → Succeeds (λ _. Unit) (c.marshal x)
  pub nodes : (name : String) (w : W) → Succeeds (λ _. Unit) (c.get_node name w).0
  pub node_updates : (node : Node) (w : W) → Succeeds (λ _. Unit) (c.update_node node w).0
  pub client_sets : (w : W) → Succeeds (λ _. Unit) (c.get_client_set w).0
  pub statuses :
      (kc : KataConfig) (w : W)
      → Succeeds
          (λ answer. answer.metadata.finalizers ≡ kc.metadata.finalizers)
          (c.update_kata_config_status kc w).0
  pub updates :
      (kc : KataConfig) (w : W)
      → Succeeds
          (λ answer. answer.metadata.finalizers ≡ kc.metadata.finalizers)
          (c.update_kata_config kc w).0

-- the resource at hand, and a client set that is not the nil pointer
pub record Calm {W : Type 0} (Q : KataConfig → Type 0) (usable : ClientSet → Type 0)
    (s : Reconciler W) : Type 0 where
  pub resource : Q s.kata_config
  pub set : usable s.clientset

-- the resource at hand is `kc`
abbrev pub Has : {W : Type 0} → KataConfig → Reconciler W → Type 0
Has kc = Calm (λ k. k ≡ kc) (λ _. Unit)

abbrev pub NotNil : ClientSet → Type 0
NotNil nil_client_set = ⊥
NotNil _ = Unit

abbrev pub IsMade : ClientSet → Type 0
IsMade client_set = Unit
IsMade _ = ⊥

abbrev pub Never : {W : Type 0} → Reconciler W → Type 0
Never s = ⊥

module _ {W R A : Type 0} {Q : KataConfig → Type 0} {usable : ClientSet → Type 0} where
  -- a call leaves the resource and the client set alone
  pub Calm-ask :
      {G : Result A → Type 0} (f : W → Result A × W) (note : Result A → Call)
      → ((w : W) → G (f w).0)
      → Ensures (Calm Q usable) (ask {R = R} f note) (λ a s. G a × Calm Q usable s) Never
  unfolding ask
  Calm-ask f note g = record {
    at = λ s h. (g s.world, record { resource = h.resource; set = h.set });
  }

module _ {W R : Type 0} {Q : KataConfig → Type 0} {usable : ClientSet → Type 0} where
  pub Calm-current :
      Ensures {S = Reconciler W}
        (Calm Q usable)
        (current {R = R})
        (λ kc s. Q kc × Calm Q usable s)
        Never
  unfolding current
  Calm-current = record { at = λ s h. (h.resource, h) }

  pub Calm-sleep :
      (c : Cluster W) (n : ℕ)
      → Ensures (Calm Q usable) (sleep c {R = R} n) (λ _. Calm Q usable) Never
  unfolding sleep
  Calm-sleep c n = record { at = λ s h. record { resource = h.resource; set = h.set } }

module _ {S R A : Type 0} {P : S → Type 0} where
  -- what is known of a value, for the code after it
  pub Ensures-given :
      {G : Type 0} {m : Exec S R A} {T : A → S → Type 0} {E : S → Type 0}
      → (G → Ensures P m T E)
      → Ensures (λ s. G × P s) m T E
  Ensures-given k = record { at = λ s (g, h). (k g).at s h }

  pub Ensures-gives :
      {Q : A → Type 0} {E : S → Type 0} (a : A)
      → Q a
      → Ensures P (pure {R = R} a) (λ x s. Q x × P s) E
  unfolding pure
  Ensures-gives a q = record { at = λ s h. (q, h) }

  pub Ensures-ok :
      {Q : A → Type 0} (e : Error → R) (a : Result A)
      → Ensures (λ s. Succeeds Q a × P s) (or_return e a) (λ x s. Q x × P s) (λ s. ⊥)
  unfolding pure
  Ensures-ok e (ok x) = record { at = λ s h. h }
  Ensures-ok e (err x) = record { at = λ s (g, h). absurd g }

module _ {S R : Type 0} {P E : S → Type 0} where
  pub Ensures-skip :
      (b : Bool) (m : Exec S R (Unit {0})) → b ≡ false → Ensures P (when b m) (λ _. P) E
  unfolding pure
  Ensures-skip true m e = cc
  Ensures-skip false m e = record { at = λ s h. h }

  pub Ensures-goes_on :
      (b : Bool) (m : Exec S R (Unit {0}))
      → (b ≡ true → Ensures P m (λ _. P) E)
      → Ensures P (when b m) (λ _. P) E
  Ensures-goes_on b m k = Ensures-when b m k (λ _ s h. h)

module _ {S R A : Type 0} {P E : S → Type 0} where
  pub Ensures-for_each :
      (list : List A) (body : A → Exec S R (Unit {0}))
      → ((a : A) → Ensures P (body a) (λ _. P) E)
      → Ensures P (for_each list body) (λ _. P) E
  unfolding for_each pure
  Ensures-for_each [] body k = record { at = λ s h. h }
  Ensures-for_each (a ∷ rest) body k = Ensures-bind _ _ (k a) (λ _. Ensures-for_each rest body k)

-- a handler that goes on to its end, with the answer for it
pub finished :
    {S : Type 0} (Q : Reply → S → Type 0) (o : Outcome Reply Reply) (s : S)
    → ((reply : Reply) → Q reply s → reply ≡ reply_done)
    → After Q (λ _. ⊥) o s
    → (o ≡ done reply_done) × Q reply_done s
finished Q (done reply) s k q = (ap done (k reply q), subst (λ r. Q r s) (k reply q) q)
finished Q (exit reply) s k q = absurd q
finished Q panic s k q = absurd q
