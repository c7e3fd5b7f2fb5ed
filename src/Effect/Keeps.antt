-- ===== src/Effect/Keeps.antt =====
-- Rules for code in the monad of Effect: what it keeps however it ends, and what it ensures when it
-- goes on to its end.
use kata_operator.Base.{
  ◌≡◌, refl, Bool, true, false, Option, none, some, List, [], ◌∷◌, if◌then◌else◌,
}
use kata_operator.Api.Errors.{Error, Result, ok, err}
use kata_operator.Effect.{
  Outcome, done, exit, panic, Exec, pure, return, abort, called, result, continue, ◌>>=◌, or_return,
  deref, when, for_each,
}

-- `m` keeps `P`, whether it goes on, returns or panics
pub record Keeps {S R A : Type 0} (P : S → Type 0) (m : Exec S R A) : Type 0 where
  pub at : (s : S) → P s → P (m s).1

module _ {S R A : Type 0} {P : S → Type 0} where
  pub Keeps-pure : (a : A) → Keeps P (pure {R = R} a)
  unfolding pure
  Keeps-pure a = record { at = λ s h. h }

  pub Keeps-return : (r : R) → Keeps P (return {A = A} r)
  unfolding return
  Keeps-return r = record { at = λ s h. h }

  pub Keeps-abort : Keeps P (abort {R = R} {A = A})
  unfolding abort
  Keeps-abort = record { at = λ s h. h }

  pub Keeps-called : (m : Exec S A A) → Keeps P m → Keeps P (called {R = R} m)
  unfolding called
  Keeps-called m k = record { at = k.at }

  pub Keeps-or_return : (e : Error → R) (x : Result A) → Keeps P (or_return e x)
  Keeps-or_return e (ok a) = Keeps-pure a
  Keeps-or_return e (err x) = Keeps-return (e x)

  pub Keeps-deref : (o : Option A) → Keeps P (deref {R = R} o)
  Keeps-deref none = Keeps-abort
  Keeps-deref (some a) = Keeps-pure a

  pub Keeps-if :
      (b : Bool) (m n : Exec S R A) → Keeps P m → Keeps P n → Keeps P (if b then m else n)
  Keeps-if true m n km kn = km
  Keeps-if false m n km kn = kn

module _ {S R : Type 0} {P : S → Type 0} where
  pub Keeps-when :
      (b : Bool) (m : Exec S R (Unit {0})) → (b ≡ true → Keeps P m) → Keeps P (when b m)
  Keeps-when true m km = km refl
  Keeps-when false m km = record { at = λ s h. unfold pure in h }

module _ {S R A B : Type 0} {P : S → Type 0} where
  Keeps-continue :
      (r : Outcome R A) (f : A → Exec S R B) (s : S)
      → ((a : A) → Keeps P (f a))
      → P s
      → P (continue r f s).1
  Keeps-continue (done a) f s kf h = (kf a).at s h
  Keeps-continue (exit r) f s kf h = h
  Keeps-continue panic f s kf h = h

  pub Keeps-bind :
      (first : Exec S R A) (next : A → Exec S R B)
      → Keeps P first
      → ((a : A) → Keeps P (next a))
      → Keeps P (first >>= next)
  unfolding ◌>>=◌
  Keeps-bind first next kept goes_on = record {
    at = λ s p. Keeps-continue (first s).0 next (first s).1 goes_on (kept.at s p);
  }

module _ {S R A : Type 0} {P : S → Type 0} where
  pub Keeps-for_each :
      (list : List A) (body : A → Exec S R (Unit {0}))
      → ((a : A) → Keeps P (body a))
      → Keeps P (for_each list body)
  unfolding for_each
  Keeps-for_each [] body k = Keeps-pure tt
  Keeps-for_each (a ∷ rest) body k = Keeps-bind (body a) _ (k a) (λ _. Keeps-for_each rest body k)

pub ruleset keeps_rules = (
  Keeps-pure, Keeps-return, Keeps-abort, Keeps-called, Keeps-or_return, Keeps-deref, Keeps-if,
  Keeps-when, Keeps-bind, Keeps-for_each,
)

-- What holds after a run: `Q` of its value where it goes on, `E` where it returns or panics.
abbrev pub After : {S R A : Type 0} → (A → S → Type 0) → (S → Type 0) → Outcome R A → S → Type 0
After Q E (done a) s = Q a s
After Q E (exit r) s = E s
After Q E panic s = E s

pub record Ensures {S R A : Type 0} (P : S → Type 0) (m : Exec S R A) (Q : A → S → Type 0)
    (E : S → Type 0) : Type 0 where
  pub at : (s : S) → P s → After Q E (m s).0 (m s).1

After-kept :
    {S R A : Type 0} (P E : S → Type 0) (r : Outcome R A) (s : S)
    → (P s → E s)
    → P s
    → After (λ _. P) E r s
After-kept P E (done a) s e h = h
After-kept P E (exit r) s e h = e h
After-kept P E panic s e h = e h

module _ {S R A : Type 0} {P E : S → Type 0} where
  pub Ensures-kept : (m : Exec S R A) → ((s : S) → P s → E s) → Keeps P m → Ensures P m (λ _. P) E
  Ensures-kept m e k = record {
    at = λ s h. let (r, s') = m s in After-kept P E r s' (e s') (k.at s h);
  }

module _ {S R A : Type 0} {P E : S → Type 0} where
  pub Ensures-pure : (a : A) → Ensures P (pure {R = R} a) (λ _. P) E
  unfolding pure
  Ensures-pure a = record { at = λ s h. h }

module _ {S R A : Type 0} {P E : S → Type 0} {Q : A → S → Type 0} where
  pub Ensures-return : (r : R) → ((s : S) → P s → E s) → Ensures P (return r) Q E
  unfolding return
  Ensures-return r e = record { at = e }

module _ {S R A B : Type 0} {E : S → Type 0} {Q : A → S → Type 0} {T : B → S → Type 0} where
  After-continue :
      (r : Outcome R A) (f : A → Exec S R B) (s : S)
      → ((a : A) → Ensures (Q a) (f a) T E)
      → After Q E r s
      → After T E (continue r f s).0 (continue r f s).1
  After-continue (done a) f s kf h = (kf a).at s h
  After-continue (exit r) f s kf h = h
  After-continue panic f s kf h = h

module _ {S R A B : Type 0} {P E : S → Type 0} {Q : A → S → Type 0} {T : B → S → Type 0} where
  pub Ensures-bind :
      (m : Exec S R A) (f : A → Exec S R B)
      → Ensures P m Q E
      → ((a : A) → Ensures (Q a) (f a) T E)
      → Ensures P (m >>= f) T E
  unfolding ◌>>=◌
  Ensures-bind m f km kf = record {
    at = λ s h. let (r, s') = m s in After-continue r f s' kf (km.at s h);
  }

After-called :
    {S A : Type 0} (R : Type 0) (Q : A → S → Type 0) (E : S → Type 0) (r : Outcome A A) (s : S)
    → After Q (λ _. ⊥) r s
    → After Q E (result {R = R} r) s
After-called R Q E (done a) s q = q
After-called R Q E (exit a) s q = absurd q
After-called R Q E panic s q = absurd q

module _ {S R A : Type 0} {P E : S → Type 0} {Q : A → S → Type 0} where
  pub Ensures-or_return :
      (e : Error → R) (x : Result A)
      → ((a : A) (s : S) → x ≡ ok a → P s → Q a s)
      → ((s : S) → P s → E s)
      → Ensures P (or_return e x) Q E
  unfolding pure return
  Ensures-or_return e (ok a) q out = record { at = λ s h. q a s refl h }
  Ensures-or_return e (err x) q out = record { at = λ s h. out s h }

  pub Ensures-deref :
      (o : Option A)
      → ((a : A) (s : S) → o ≡ some a → P s → Q a s)
      → ((s : S) → P s → E s)
      → Ensures P (deref {R = R} o) Q E
  unfolding pure abort
  Ensures-deref none q out = record { at = λ s h. out s h }
  Ensures-deref (some a) q out = record { at = λ s h. q a s refl h }

  pub Ensures-if :
      (b : Bool) (m n : Exec S R A)
      → (b ≡ true → Ensures P m Q E)
      → (b ≡ false → Ensures P n Q E)
      → Ensures P (if b then m else n) Q E
  Ensures-if true m n km kn = km refl
  Ensures-if false m n km kn = kn refl

  -- A call of a function that neither returns early nor panics outside `Q`.
  pub Ensures-called :
      (m : Exec S A A)
      → ((s : S) → P s → After Q E (result {R = R} (m s).0) (m s).1)
      → Ensures P (called {R = R} m) Q E
  unfolding called
  Ensures-called m k = record { at = k }

  -- a call of a function that goes on to its end
  pub Ensures-calls : (m : Exec S A A) → Ensures P m Q (λ s. ⊥) → Ensures P (called {R = R} m) Q E
  unfolding called
  Ensures-calls m k = record { at = λ s h. let (r, s') = m s in After-called R Q E r s' (k.at s h) }

module _ {S R : Type 0} {P E Q : S → Type 0} where
  pub Ensures-when :
      (b : Bool) (m : Exec S R (Unit {0}))
      → (b ≡ true → Ensures P m (λ _. Q) E)
      → (b ≡ false → (s : S) → P s → Q s)
      → Ensures P (when b m) (λ _. Q) E
  unfolding pure
  Ensures-when true m km out = km refl
  Ensures-when false m km out = record { at = λ s h. out refl s h }

After-weaken :
    {S R A : Type 0} (Q : A → S → Type 0) (E E' : S → Type 0) (r : Outcome R A) (s : S)
    → (E s → E' s)
    → After Q E r s
    → After Q E' r s
After-weaken Q E E' (done a) s w h = h
After-weaken Q E E' (exit r) s w h = w h
After-weaken Q E E' panic s w h = w h

module _ {S R A : Type 0} {P : S → Type 0} {Q : A → S → Type 0} where
  pub Ensures-weaken :
      {E E' : S → Type 0} {m : Exec S R A}
      → ((s : S) → E s → E' s)
      → Ensures P m Q E
      → Ensures P m Q E'
  Ensures-weaken {E} {E'} {m} w k = record {
    at = λ s h. After-weaken Q E E' (m s).0 (m s).1 (w (m s).1) (k.at s h);
  }

pub After-map :
    {S R A : Type 0} (Q Q' : A → S → Type 0) (E : S → Type 0) (r : Outcome R A) (s : S)
    → ((a : A) (s : S) → Q a s → Q' a s)
    → After Q E r s
    → After Q' E r s
After-map Q Q' E (done a) s w h = w a s h
After-map Q Q' E (exit r) s w h = h
After-map Q Q' E panic s w h = h

After-both :
    {S R A : Type 0} (Q Q' : A → S → Type 0) (E : S → Type 0) (r : Outcome R A) (s : S)
    → After Q E r s
    → After Q' E r s
    → After (λ a t. Q a t × Q' a t) E r s
After-both Q Q' E (done a) s h h' = (h, h')
After-both Q Q' E (exit r) s h h' = h
After-both Q Q' E panic s h h' = h

module _ {S R A : Type 0} {P E : S → Type 0} {Q Q' : A → S → Type 0} {m : Exec S R A} where
  pub Ensures-map : ((a : A) (s : S) → Q a s → Q' a s) → Ensures P m Q E → Ensures P m Q' E
  Ensures-map w k = record { at = λ s h. After-map Q Q' E (m s).0 (m s).1 w (k.at s h) }

  pub Ensures-both : Ensures P m Q E → Ensures P m Q' E → Ensures P m (λ a s. Q a s × Q' a s) E
  Ensures-both k k' = record {
    at = λ s h. After-both Q Q' E (m s).0 (m s).1 (k.at s h) (k'.at s h);
  }

module _ {S R A : Type 0} {P P' E : S → Type 0} {Q : A → S → Type 0} {m : Exec S R A} where
  pub Ensures-from : ((s : S) → P s → P' s) → Ensures P' m Q E → Ensures P m Q E
  Ensures-from w k = record { at = λ s h. k.at s (w s h) }

-- what holds however the run ends
pub After-always :
    {S R A : Type 0} (E : S → Type 0) (r : Outcome R A) (s : S) → After (λ _. E) E r s → E s
After-always E (done a) s h = h
After-always E (exit r) s h = h
After-always E panic s h = h

After-join :
    {S R A : Type 0} (Q Q' : A → S → Type 0) (E : S → Type 0) (r : Outcome R A) (s : S)
    → After Q (λ _. ⊥) r s
    → After Q' E r s
    → After (λ a t. Q a t × Q' a t) (λ _. ⊥) r s
After-join Q Q' E (done a) s h h' = (h, h')
After-join Q Q' E (exit r) s h h' = h
After-join Q Q' E panic s h h' = h

-- what is known of code that goes on to its end, beside that it does
pub Ensures-join :
    {S R A : Type 0} {P E : S → Type 0} {Q Q' : A → S → Type 0} {m : Exec S R A}
    → Ensures P m Q (λ _. ⊥)
    → Ensures P m Q' E
    → Ensures P m (λ a s. Q a s × Q' a s) (λ _. ⊥)
Ensures-join {E} {Q} {Q'} {m} k k' = record {
  at = λ s h. After-join Q Q' E (m s).0 (m s).1 (k.at s h) (k'.at s h);
}

module _ {S R A G : Type 0} {P : G → S → Type 0} where
  -- a value that the code before has found
  pub Ensures-where :
      {m : Exec S R A} {T : A → S → Type 0} {E : S → Type 0}
      → ((g : G) → Ensures (P g) m T E)
      → Ensures (λ s. (g : G) × P g s) m T E
  Ensures-where k = record { at = λ s (g, h). (k g).at s h }
