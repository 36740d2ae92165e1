-- ===== src/Compare/Scanf.antt =====
-- `sscanf` for the formats of `cond_formats`: `%u`, `%x` and single characters between them.
use vyatta_cfg.Prelude.{
  ℕ, ◌+◌, ◌-◌, ◌*◌, ◌%◌, ◌^◌, Bool, true, false, ◌&&◌, ◌||◌, List, [], ◌∷◌, Option, none, some,
  Bytes, ltb, leb, ◌==◌, if◌then◌else◌,
}

pub data Directive : Type 0 where
  unsigned hex : Directive
  lit : ℕ → Directive

-- `isdigit`
unfoldable pub is_digit : ℕ → Bool
is_digit c = leb b'0' c && leb c b'9'

-- `tolower`
unfoldable pub tolower : ℕ → ℕ
tolower c = if leb b'A' c && leb c b'Z' then c + 32 else c

-- The value of a digit in base ten or sixteen.
unfoldable pub digit_in : ℕ → ℕ → Option ℕ
unfolding is_digit tolower
digit_in base c =
    let d = tolower c in
    if is_digit d
    then some (d - b'0')
    else if ltb 10 base && leb b'a' d && leb d b'f'
    then some (d - b'a' + 10)
    else none

-- `isspace`
unfoldable pub is_space : ℕ → Bool
is_space c = c == 32 || (leb 9 c && leb c 13)

unfoldable pub skip_spaces : Bytes → Bytes
skip_spaces [] = []
skip_spaces (c ∷ s) = if is_space c then skip_spaces s else c ∷ s

-- The number that the leading digits give, whether there are any, and what follows.
unfoldable pub read_digits : ℕ → Bytes → ℕ → Bool → ℕ × Bool × Bytes
read_digits base [] n seen = (n, seen, [])
read_digits base (c ∷ s) n seen = elim (digit_in base c) [
  | none ↦ (n, seen, c ∷ s)
  | some d ↦ read_digits base s (n * base + d) true
]

-- The conversion to `unsigned long`, cut to an `unsigned int`; too large a number is `ULONG_MAX`.
unfoldable pub to_unsigned : Bool → ℕ → ℕ
to_unsigned negative n =
    if leb (2 ^ 64) n then 2 ^ 32 - 1 else if negative then (2 ^ 64 - n) % 2 ^ 32 else n % 2 ^ 32

-- "0x" in front of hexadecimal digits
unfoldable pub skip_prefix : ℕ → Bytes → Bytes
skip_prefix base (c ∷ x ∷ s) =
    if ltb 10 base && c == b'0' && (x == b'x' || x == b'X') then s else c ∷ x ∷ s
skip_prefix base s = s

unfoldable pub read_signed : ℕ → Bool → Bytes → Option (ℕ × Bytes)
read_signed base negative s =
    let (n, seen, rest) = read_digits base (skip_prefix base s) 0 false in
    if seen then some (to_unsigned negative n, rest) else none

-- One conversion: spaces, a sign, digits.
unfoldable pub read_number : ℕ → Bytes → Option (ℕ × Bytes)
read_number base s = elim (skip_spaces s) [
  | [] ↦ none
  | c ∷ r ↦
      if c == b'-'
      then read_signed base true r
      else if c == b'+'
      then read_signed base false r
      else read_signed base false (c ∷ r)
]

-- The numbers that are stored, in order: scanning ends where the text does not fit.
unfoldable pub conversions : List Directive → Bytes → List ℕ
conversions [] s = []
conversions (lit c ∷ ds) [] = []
conversions (lit c ∷ ds) (d ∷ s) = let rest = conversions ds s in if c == d then rest else []
conversions (unsigned ∷ ds) s = elim (read_number 10 s) [
  | none ↦ []
  | some (n, r) ↦ n ∷ conversions ds r
]
conversions (hex ∷ ds) s = elim (read_number 16 s) [
  | none ↦ []
  | some (n, r) ↦ n ∷ conversions ds r
]

-- `sscanf`; `none` is a result of 0 or `EOF`.
unfoldable pub sscanf : List Directive → Bytes → Option (List ℕ)
sscanf ds s = elim (conversions ds s) [ [] ↦ none | n ∷ ns ↦ some (n ∷ ns) ]
