-- ===== src/Controllers/OpenShift/Oldest/Search.antt =====
-- The loop of isOldestCR over the listed resources.
use mathlib.Core.List.{Memᴰ}
use mathlib.Core.Option.{some-injective, none-ne-some}
use mathlib.Core.Path.{subst}
use kata_operator.Base.{
  ◌≡◌, refl, sym, ap, ◌∙◌, ℕ, ◌≤◌, String, Bool, true, false, ◌⊎◌, ◌↔◌, inl, inr, Option, none,
  some, List, [], ◌∷◌, ◌==◌, string_eq, arith, All, ltb, ltb→lt, ltb→le, Bool-cases, not,
}
use kata_operator.Api.Kata.{KataConfig}
use kata_operator.Cluster.{Cluster, OrdersTime}
use kata_operator.Controllers.OpenShift.Oldest.{created, older, oldest_other}

-- Does the listed resource have another name?
abbrev pub is_other : String → KataConfig → Bool
is_other name item = not (item.metadata.name == name)

-- `o` is one of the listed others, and none of them was created before it.
pub record IsOldestOther (name : String) (items : List KataConfig) (o : KataConfig) : Type 0 where
  pub listed : Memᴰ o items
  pub other : is_other name o ≡ true
  pub oldest : All (λ item. is_other name item ≡ true → created o ≤ created item) items

-- what the loop has found, started from `best`
abbrev Found : String → Option KataConfig → List KataConfig → Option KataConfig → Type 0
Found name best items none = (best ≡ none) × All (λ item. is_other name item ≡ false) items
Found name best items (some o) =
    ((best ≡ some o) ⊎ (Memᴰ o items × (is_other name o ≡ true)))
    × All (λ item. is_other name item ≡ true → created o ≤ created item) items
    × ((b : KataConfig) → best ≡ some b → created o ≤ created b)

-- a bound on a date, along an equation of values
le_of_some :
    (o b : KataConfig) (n : ℕ)
    → ◌≡◌ {A = Option KataConfig} (some o) (some b)
    → n ≤ created o
    → n ≤ created b
le_of_some o b n e h = subst (λ x. n ≤ created x) (some-injective o b e) h

-- The loop passes over a resource with this name.
Found-skip :
    (name : String) (best : Option KataConfig) (item : KataConfig) (items : List KataConfig)
    (r : Option KataConfig)
    → is_other name item ≡ false
    → Found name best items r
    → Found name best (item ∷ items) r
Found-skip name best item items none e h = (h.0, (e, h.1))
Found-skip name best item items (some o) e h =
    (elim h.0 [ inl b ↦ inl b | inr m ↦ inr (Memᴰ.tail m.0, m.1) ], (λ t. cc, h.1), h.2)

module _ (before : ℕ → ℕ → Bool) (ordered : (a b : ℕ) → before a b ≡ ltb a b) where
  older_lem :
      (best : Option KataConfig) (item : KataConfig)
      → (created (older before best item) ≤ created item)
        × ((b : KataConfig) → best ≡ some b → created (older before best item) ≤ created b)
        × ((older before best item ≡ item) ⊎ (best ≡ some (older before best item)))
  unfolding older
  older_lem none item = (omega arith, λ b e. cc, inl refl)
  older_lem (some o) item = elim (Bool-cases (ltb (created o) (created item))) [
    | inl lt ↦
        rw (ordered, lt)
          (
            omega (arith, ltb→lt (created o) (created item) lt),
            λ b e. le_of_some o b _ e (omega arith),
            inr refl,
          )
    | inr ge ↦
        rw (ordered, ge)
          (omega arith, λ b e. le_of_some o b _ e (ltb→le (created o) (created item) ge), inl refl)
  ]

  -- The loop goes on with the older one.
  Found-take :
      (name : String) (best : Option KataConfig) (item : KataConfig) (items : List KataConfig)
      (r : Option KataConfig)
      → is_other name item ≡ true
      → Found name (some (older before best item)) items r
      → Found name best (item ∷ items) r
  Found-take name best item items none e h = cc (h.0)
  Found-take name best item items (some o) e h =
      let (le_item, le_best, from) = older_lem best item in
      let below : created o ≤ created (older before best item) = h.2 _ refl in
      (
        elim h.0 [
          | inl b ↦ elim from [
            | inl p ↦
                let same : o ≡ item = sym (some-injective _ o b) ∙ p in
                inr (Memᴰ.head same, subst (λ x. is_other name x ≡ true) (sym same) e)
            | inr p ↦ inl (p ∙ b)
          ]
          | inr m ↦ inr (Memᴰ.tail m.0, m.1)
        ],
        (λ t. omega arith, h.1),
        λ b q. omega (arith, le_best b q),
      )

  Found-oldest_other :
      (name : String) (best : Option KataConfig) (items : List KataConfig)
      → Found name best items (oldest_other before name best items)
  unfolding oldest_other
  Found-oldest_other name none [] = (refl, tt)
  Found-oldest_other name (some b) [] = (inl refl, tt, λ x e. le_of_some b x _ e (omega arith))
  Found-oldest_other name best (item ∷ items) = elim (Bool-cases (item.metadata.name == name)) [
    | inl same ↦
        rw same
          (Found-skip name best item items _ (ap not same) (Found-oldest_other name best items))
    | inr differs ↦ rw differs (
        Found-take name best item items _ (ap not differs)
          (Found-oldest_other name (some (older before best item)) items))
  ]

started_at_none :
    (name : String) (items : List KataConfig) (o : KataConfig)
    → Found name none items (some o)
    → Memᴰ o items × (is_other name o ≡ true)
started_at_none name items o found = elim found.0 [ inl b ↦ absurd (none-ne-some o b) | inr m ↦ m ]

not_other :
    (name : String) (items : List KataConfig) (o : KataConfig)
    → All (λ item. is_other name item ≡ false) items
    → Memᴰ o items
    → is_other name o ≡ false
not_other name [] o a m = elim m [ ]
not_other name (item ∷ items) o a (Memᴰ.head e) = subst (λ x. is_other name x ≡ false) (sym e) a.0
not_other name (item ∷ items) o a (Memᴰ.tail m) = not_other name items o a.1 m

none-Found :
    (name : String) (items : List KataConfig) (r : Option KataConfig)
    → All (λ item. is_other name item ≡ false) items
    → Found name none items r
    → r ≡ none
none-Found name items none a found = refl
none-Found name items (some o) a found =
    let (m, e) = started_at_none name items o found in cc (not_other name items o a m)

-- The loop of isOldestCR returns one of the listed resources with another name, and none of those
-- was created before it. Time.Before is supposed to order the dates.
pub oldest_other_sound :
    {W : Type 0} (c : Cluster W)
    → OrdersTime c
    → (name : String) (items : List KataConfig) (o : KataConfig)
    → oldest_other c.before name none items ≡ some o
    → IsOldestOther name items o
oldest_other_sound c t name items o e =
    let found : Found name none items (some o) =
      subst (Found name none items) e (Found-oldest_other c.before t.before_lem name none items) in
    record {
      listed = (started_at_none name items o found).0;
      other = (started_at_none name items o found).1;
      oldest = found.1;
    }

-- The loop of isOldestCR returns none exactly when every listed resource has this name; the code
-- then reads through a nil pointer. Time.Before is supposed to order the dates.
pub oldest_other-eq-none_iff :
    {W : Type 0} (c : Cluster W)
    → OrdersTime c
    → (name : String) (items : List KataConfig)
    → (oldest_other c.before name none items ≡ none)
      ↔ All (λ item. is_other name item ≡ false) items
oldest_other-eq-none_iff c t name items =
    (λ e. (subst (Found name none items) e found).1, λ a. none-Found name items _ a found)
  where
    found : Found name none items (oldest_other c.before name none items)
    found = Found-oldest_other c.before t.before_lem name none items
