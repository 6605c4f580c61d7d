-- ===== src/Time/Text.antt =====
-- The texts of src/timestamp.rs as lists of code points, and what it uses of `str`. A number parsed as
-- `i32` is a word of 32 bits, with the highest bit for a minus.
use Prim.Native.Char.{code}
use fura.Base.{
  ℕ, ◌+◌, ◌-◌, ◌*◌, ◌%◌, ◌^◌, ◌≡◌, ◌≢◌, refl, Bool, false, not, ◌&&◌, Option, none, some, List, [],
  ◌∷◌, ◌++◌, String, arith, ltb, leb, ◌==◌, if◌then◌else◌, All, ==_refl,
}

abbrev pub Text : Type 0
Text = List ℕ

abbrev pub codes : String → Text
codes String.[] = []
codes (String.◌∷◌ c s) = code c ∷ codes s

abbrev pub Lacks : ℕ → Text → Type 0
Lacks c = All (λ x. x ≢ c)

-- `split_once`
unfoldable pub split_once : ℕ → Text → Option (Text × Text)
split_once c [] = none
split_once c (x ∷ s) =
    let rest = split_once c s in
    if x == c then some ([], s) else elim rest [ none ↦ none | some (p, q) ↦ some (x ∷ p, q) ]

abbrev pub onto_first : ℕ → List Text → List Text
onto_first x [] = (x ∷ []) ∷ []
onto_first x (p ∷ ps) = (x ∷ p) ∷ ps

-- The parts that `split` gives.
unfoldable pub split : ℕ → Text → List Text
split c [] = [] ∷ []
split c (x ∷ s) = let rest = split c s in if x == c then [] ∷ rest else onto_first x rest

-- `strip_suffix` of one character
unfoldable pub strip_suffix : ℕ → Text → Option Text
strip_suffix c [] = none
strip_suffix c (x ∷ []) = if x == c then some [] else none
strip_suffix c (x ∷ y ∷ s) = elim (strip_suffix c (y ∷ s)) [ none ↦ none | some p ↦ some (x ∷ p) ]

abbrev pub is_ascii_digit : ℕ → Bool
is_ascii_digit x = leb b'0' x && leb x b'9'

-- The digits from a number on, up to a limit.
unfoldable pub digits : ℕ → ℕ → Text → Option ℕ
digits limit n [] = some n
digits limit n (x ∷ s) =
    let next = n * 10 + (x - b'0') in
    let rest = digits limit next s in
    if not (is_ascii_digit x) then none else if ltb limit next then none else rest

unfoldable pub some_digits : ℕ → Text → Option ℕ
unfolding digits
some_digits limit [] = none
some_digits limit (x ∷ s) = digits limit 0 (x ∷ s)

-- `parse::<u32>`
unfoldable pub parse_u32 : Text → Option ℕ
unfolding some_digits
parse_u32 [] = none
parse_u32 (x ∷ s) =
    if x == b'+' then some_digits (2 ^ 32 - 1) s else some_digits (2 ^ 32 - 1) (x ∷ s)

-- `parse::<i32>`
unfoldable pub parse_i32 : Text → Option ℕ
unfolding some_digits
parse_i32 [] = none
parse_i32 (x ∷ s) =
    if x == b'+'
    then some_digits (2 ^ 31 - 1) s
    else if x == b'-'
    then elim (some_digits (2 ^ 31) s) [ none ↦ none | some n ↦ some ((2 ^ 32 - n) % 2 ^ 32) ]
    else some_digits (2 ^ 31 - 1) (x ∷ s)

pub ==_ne : (a b : ℕ) → a ≢ b → (a == b) ≡ false
==_ne a b h = ground arith

pub split_once-append : (c : ℕ) (p s : Text) → Lacks c p → split_once c (p ++ c ∷ s) ≡ some (p, s)
unfolding split_once
split_once-append c [] s h = ground (arith, ==_refl c)
split_once-append c (x ∷ p) s (h, hs) = rw (==_ne x c h, split_once-append c p s hs) refl

pub split_once-Lacks : (c : ℕ) (s : Text) → Lacks c s → split_once c s ≡ none
unfolding split_once
split_once-Lacks c [] h = refl
split_once-Lacks c (x ∷ s) (h, hs) = rw (==_ne x c h, split_once-Lacks c s hs) refl

pub split-append : (c : ℕ) (p s : Text) → Lacks c p → split c (p ++ c ∷ s) ≡ p ∷ split c s
unfolding split
split-append c [] s h = ground (arith, ==_refl c)
split-append c (x ∷ p) s (h, hs) = rw (==_ne x c h, split-append c p s hs) refl

pub split-Lacks : (c : ℕ) (s : Text) → Lacks c s → split c s ≡ s ∷ []
unfolding split
split-Lacks c [] h = refl
split-Lacks c (x ∷ s) (h, hs) = rw (==_ne x c h, split-Lacks c s hs) refl
