-- ===== src/Base/Text.antt =====
-- ASCII texts as the lists of their bytes, with the functions of Go's fmt and strings on them that
-- the program uses.
use Prim.Native.Nat.{ℕ, zero, suc, ◌+◌, ◌/◌, ◌%◌}
use Prim.Native.Char.{code}
use Prim.Native.String.{String, [] as empty, ◌∷◌ as cons}
use mathlib.Core.Bool.{Bool, ◌||◌}
use mathlib.Core.List.{List, [], ◌∷◌, ◌++◌}
use kata_operator.Base.Tests.{ltb, nat_beq, if◌then◌else◌}

abbrev pub Bytes : Type 0
Bytes = List ℕ

unfoldable pub codes : String → Bytes
codes empty = []
codes (cons c s) = code c ∷ codes s

-- A number in decimal, with a bound on its digits: Go's integers have at most 20.
unfoldable pub decimal : ℕ → ℕ → Bytes
decimal zero n = []
decimal (suc bound) n =
    let first = decimal bound (n / 10) in
    if ltb n 10 then (b'0' + n) ∷ [] else first ++ (b'0' + n % 10) ∷ []

-- fmt.Sprint of the numbers of a slice, with a space between
unfoldable pub sprint_items : List ℕ → Bytes
unfolding decimal
sprint_items [] = []
sprint_items (n ∷ []) = decimal 20 n
sprint_items (n ∷ m ∷ rest) = decimal 20 n ++ b' ' ∷ sprint_items (m ∷ rest)

-- fmt.Sprint of a slice of numbers
unfoldable pub sprint : List ℕ → Bytes
unfolding sprint_items
sprint numbers = b'[' ∷ (sprint_items numbers ++ b']' ∷ [])

-- strings.Replace(s, old, new, -1), for one byte
unfoldable pub replace : ℕ → ℕ → Bytes → Bytes
replace old new [] = []
replace old new (c ∷ s) = (if nat_beq c old then new else c) ∷ replace old new s

-- is the byte one of the cutset "[]"?
abbrev pub is_bracket : ℕ → Bool
is_bracket c = nat_beq c b'[' || nat_beq c b']'

unfoldable pub trim_left : Bytes → Bytes
trim_left [] = []
trim_left (c ∷ s) = let rest = trim_left s in if is_bracket c then rest else c ∷ s

abbrev pub drop_last : ℕ → Bytes → Bytes
drop_last c [] = if is_bracket c then [] else c ∷ []
drop_last c (d ∷ s) = c ∷ d ∷ s

unfoldable pub trim_right : Bytes → Bytes
trim_right [] = []
trim_right (c ∷ s) = drop_last c (trim_right s)

-- strings.Trim(s, "[]")
unfoldable pub trim : Bytes → Bytes
unfolding trim_left trim_right
trim s = trim_right (trim_left s)
