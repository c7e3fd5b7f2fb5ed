-- ===== src/Daemon/Version/RoundTrip.antt =====
-- A reader of the text that getClusterVersion makes of a version.
use mathlib.Core.List.{append_assoc, append-nil}
use kata_operator.Base.{
  Bool-cases, inl, inr, ◌≡◌, refl, sym, ap, ◌∙◌, ℕ, zero, suc, ◌+◌, ◌-◌, ◌*◌, ◌/◌, ◌%◌, ◌^◌, ◌<◌,
  ◌≤◌, List, [], ◌∷◌, ◌++◌, ltb, nat_beq, if◌then◌else◌, All, arith,
}
use kata_operator.Base.Text.{
  Bytes, decimal, sprint_items, sprint, replace, trim_left, trim_right, trim, drop_last,
}
use kata_operator.Daemon.Version.{version_text}

-- Reads numbers with a dot between them, after `n` of the first one.
unfoldable pub read_numbers : Bytes → ℕ → List ℕ
read_numbers [] n = n ∷ []
read_numbers (c ∷ s) n =
    let rest = read_numbers s (if nat_beq c b'.' then 0 else n * 10 + (c - b'0')) in
    if nat_beq c b'.' then n ∷ rest else rest

-- 10 to the power of the number of digits
abbrev limit : ℕ → ℕ
limit zero = 1
limit (suc k) = 10 * limit k

abbrev IsDigit : ℕ → Type 0
IsDigit c = (b'0' ≤ c) × (c ≤ b'9')

-- a byte that the replacement and the trimming leave
abbrev IsKept : ℕ → Type 0
IsKept c = (c ≤ b'9') × (b'.' ≤ c)

read-digit :
    (c n : ℕ) (s : Bytes)
    → IsDigit c
    → read_numbers (c ∷ s) n ≡ read_numbers s (n * 10 + (c - b'0'))
unfolding read_numbers
read-digit c n s d = ground arith

read-decimal :
    (k n : ℕ) (s : Bytes) → n < limit k → read_numbers (decimal k n ++ s) 0 ≡ read_numbers s n
unfolding decimal
read-decimal zero n s fits = ap (read_numbers s) (omega arith)
read-decimal (suc k) n s fits = elim (Bool-cases (ltb n 10)) [
  | inl small ↦
      rw small (read-digit (b'0' + n) 0 s (ground arith) ∙ ap (read_numbers s) (omega arith))
  | inr large ↦ rw large (
      ap (λ (t : Bytes). read_numbers t 0)
        (append_assoc (decimal k (n / 10)) ((b'0' + n % 10) ∷ []) s)
      ∙ read-decimal k (n / 10) ((b'0' + n % 10) ∷ s) (omega arith)
      ∙ read-digit (b'0' + n % 10) (n / 10) s (omega arith)
      ∙ ap (read_numbers s) (omega arith))
]

read-dot : (n : ℕ) (s : Bytes) → read_numbers (b'.' ∷ s) n ≡ n ∷ read_numbers s 0
unfolding read_numbers
read-dot n s = refl

All-append : (P : ℕ → Type 0) (xs ys : Bytes) → All P xs → All P ys → All P (xs ++ ys)
All-append P [] ys a b = b
All-append P (x ∷ xs) ys a b = (a.0, All-append P xs ys a.1 b)

decimal-IsDigit : (k n : ℕ) → All IsDigit (decimal k n)
unfolding decimal
decimal-IsDigit zero n = tt
decimal-IsDigit (suc k) n = elim (Bool-cases (ltb n 10)) [
  | inl small ↦ rw small (ground arith)
  | inr large ↦ rw large (
      All-append IsDigit (decimal k (n / 10)) ((b'0' + n % 10) ∷ []) (decimal-IsDigit k (n / 10))
        (omega arith))
]

replace-append :
    (xs ys : Bytes) → replace b' ' b'.' (xs ++ ys) ≡ replace b' ' b'.' xs ++ replace b' ' b'.' ys
unfolding replace
replace-append [] ys = refl
replace-append (x ∷ xs) ys =
    ap (λ (t : Bytes). (if nat_beq x b' ' then b'.' else x) ∷ t) (replace-append xs ys)

replace-digits : (xs : Bytes) → All IsDigit xs → replace b' ' b'.' xs ≡ xs
unfolding replace
replace-digits [] d = refl
replace-digits (x ∷ xs) d = ground (arith, replace-digits xs)

replace-space : (ys : Bytes) → replace b' ' b'.' (b' ' ∷ ys) ≡ b'.' ∷ replace b' ' b'.' ys
unfolding replace
replace-space ys = refl

drop_last-kept : (x : ℕ) (xs : Bytes) → IsKept x → drop_last x xs ≡ x ∷ xs
drop_last-kept x [] k = ground arith
drop_last-kept x (y ∷ xs) k = refl

trim_right-kept : (xs : Bytes) → All IsKept xs → trim_right (xs ++ b']' ∷ []) ≡ xs
unfolding trim_right
trim_right-kept [] k = refl
trim_right-kept (x ∷ xs) k = ap (drop_last x) (trim_right-kept xs k.1) ∙ drop_last-kept x xs k.0

trim_left-kept : (x : ℕ) (xs : Bytes) → IsKept x → trim_left (x ∷ xs) ≡ x ∷ xs
unfolding trim_left
trim_left-kept x xs k = ground arith

trim_left-bracket : (xs : Bytes) → trim_left (b'[' ∷ xs) ≡ trim_left xs
unfolding trim_left
trim_left-bracket xs = refl

trim-kept : (xs : Bytes) → All IsKept xs → trim (b'[' ∷ (xs ++ b']' ∷ [])) ≡ xs
unfolding trim
trim-kept [] k = unfold trim_left trim_right in refl
trim-kept (x ∷ xs) k =
    ap trim_right
      (trim_left-bracket (x ∷ (xs ++ b']' ∷ [])) ∙ trim_left-kept x (xs ++ b']' ∷ []) k.0)
    ∙ trim_right-kept (x ∷ xs) k

digits-IsKept : (xs : Bytes) → All IsDigit xs → All IsKept xs
digits-IsKept [] d = tt
digits-IsKept (x ∷ xs) d = ((d.0.1, omega arith), digits-IsKept xs d.1)

-- the text between the brackets, with dots
-- three numbers in decimal, of at most twenty digits each, with dots between them
abbrev dotted : ℕ → ℕ → ℕ → Bytes
dotted a b c = decimal 20 a ++ b'.' ∷ (decimal 20 b ++ b'.' ∷ decimal 20 c)

replace-dotted :
    (xs ys : Bytes)
    → All IsDigit xs
    → replace b' ' b'.' (xs ++ b' ' ∷ ys) ≡ xs ++ b'.' ∷ replace b' ' b'.' ys
replace-dotted xs ys d =
    replace-append xs (b' ' ∷ ys)
    ∙ ap (λ (t : Bytes). t ++ replace b' ' b'.' (b' ' ∷ ys)) (replace-digits xs d)
    ∙ ap (λ (t : Bytes). xs ++ t) (replace-space ys)

replace-items : (a b c : ℕ) → replace b' ' b'.' (sprint_items (a ∷ b ∷ c ∷ [])) ≡ dotted a b c
unfolding sprint_items
replace-items a b c =
    replace-dotted (decimal 20 a) _ (decimal-IsDigit 20 a)
    ∙ ap (λ (t : Bytes). decimal 20 a ++ b'.' ∷ t)
        (replace-dotted (decimal 20 b) (decimal 20 c) (decimal-IsDigit 20 b)
          ∙ ap (λ (t : Bytes). decimal 20 b ++ b'.' ∷ t)
              (replace-digits (decimal 20 c) (decimal-IsDigit 20 c)))

replace-brackets :
    (xs : Bytes)
    → replace b' ' b'.' (b'[' ∷ (xs ++ b']' ∷ [])) ≡ b'[' ∷ (replace b' ' b'.' xs ++ b']' ∷ [])
replace-brackets xs = unfold replace in ap (λ (t : Bytes). b'[' ∷ t) (replace-append xs (b']' ∷ []))

dotted-IsKept : (a b c : ℕ) → All IsKept (dotted a b c)
dotted-IsKept a b c =
    All-append IsKept (decimal 20 a) _ (kept a)
      (omega arith, All-append IsKept (decimal 20 b) _ (kept b) (omega arith, kept c))
  where
    kept : (n : ℕ) → All IsKept (decimal 20 n)
    kept n = digits-IsKept (decimal 20 n) (decimal-IsDigit 20 n)

-- The text of a version is its three numbers in decimal, of at most twenty digits each, with dots
-- between them and nothing else: the replacement of the spaces and the trimming of the brackets
-- turn what fmt.Sprint prints of a slice into the tag of the payload.
version_text_lem : (a b c : ℕ) → version_text (a, b, c) ≡ dotted a b c
unfolding version_text
version_text_lem a b c =
    ap trim (
      unfold sprint in
      replace-brackets (sprint_items (a ∷ b ∷ c ∷ []))
      ∙ ap (λ (t : Bytes). b'[' ∷ (t ++ b']' ∷ [])) (replace-items a b c))
    ∙ trim-kept (dotted a b c) (dotted-IsKept a b c)

-- The three numbers of a version are read back from its text: numbers of Go's int64, each in
-- decimal, with dots between them.
pub read_numbers-version_text :
    (a b c : ℕ)
    → a < 2 ^ 63
    → b < 2 ^ 63
    → c < 2 ^ 63
    → read_numbers (version_text (a, b, c)) 0 ≡ a ∷ b ∷ c ∷ []
read_numbers-version_text a b c small_a small_b small_c =
    ap (λ (t : Bytes). read_numbers t 0) (version_text_lem a b c)
    ∙ read-decimal 20 a _ (omega arith)
    ∙ read-dot a _
    ∙ ap (λ (l : List ℕ). a ∷ l)
        (read-decimal 20 b _ (omega arith)
          ∙ read-dot b _
          ∙ ap (λ (l : List ℕ). b ∷ l) (read-last c (omega arith)))
  where
    read-last : (n : ℕ) → n < limit 20 → read_numbers (decimal 20 n) 0 ≡ n ∷ []
    read-last n fits =
        ap (λ (t : Bytes). read_numbers t 0) (sym (append-nil (decimal 20 n)))
        ∙ read-decimal 20 n [] fits
        ∙ unfold read_numbers in refl
