-- ===== src/Compare/Ipv6.antt =====
-- `scan_ipv6` of src/cliexec/cli_new.c.
pub mod Groups
pub mod Address
use vyatta_cfg.Compare.Scanf.{is_digit, tolower}
use vyatta_cfg.Prelude.{
  ℕ, zero, suc, ◌+◌, ◌-◌, ◌*◌, ◌/◌, ◌%◌, ◌^◌, Bool, true, false, not, ◌&&◌, ◌||◌, List, [], ◌∷◌,
  ◌++◌, Option, none, some, Bytes, ltb, leb, ◌==◌, if◌then◌else◌, take, drop, replicate, get_or,
  starts_with, str,
}

-- The local variables. `num` is kept as the bits of an `int`, and `dot_dot_pos` is `none` for -1.
pub record Scan : Type 0 where
  pub num : ℕ
  pub num_cnt : ℕ
  pub dot_dot_pos : Option ℕ
  pub dot_cnt : ℕ
  pub base : ℕ
  pub total : ℕ
  pub parts : List ℕ

abbrev pub scan_start : Scan
scan_start = record {
  num = 0;
  num_cnt = 0;
  dot_dot_pos = none;
  dot_cnt = 0;
  base = 16;
  total = 8;
  parts = replicate 9 0;
}

-- `parts[i] = n`: there are nine cells.
unfoldable pub set_part : List ℕ → ℕ → ℕ → Option (List ℕ)
set_part [] i n = none
set_part (p ∷ ps) zero n = some (n ∷ ps)
set_part (p ∷ ps) (suc i) n = elim (set_part ps i n) [ none ↦ none | some qs ↦ some (p ∷ qs) ]

-- A digit; a byte below `a` - 10 that is none would make `num` negative, and is not in the domain.
unfoldable pub add_digit : Scan → ℕ → Option Scan
add_digit s b =
    let c = tolower b in
    if is_digit c
    then some (record s { num = (s.num * s.base + (c - b'0')) % 2 ^ 32 })
    else if ltb (c + 10) b'a'
    then none
    else some (record s { num = (s.num * s.base + (c + 10 - b'a')) % 2 ^ 32 })

-- "combine two decimal if needed"
unfoldable pub combine : Scan → Option Scan
combine s = elim s.num_cnt [
  | suc (suc n) ↦
      elim (set_part s.parts n ((get_or s.parts n 0 * 256 + get_or s.parts (suc n) 0) % 2 ^ 32)) [
        | none ↦ none
        | some parts ↦ some (record s { num_cnt = suc n; parts = parts })
      ]
  | _ ↦ none
]

-- "close the number", for the separator `c`, 0 at the end
unfoldable pub close : ℕ → Scan → Option Scan
close c s = elim (set_part s.parts s.num_cnt s.num) [
  | none ↦ none
  | some parts ↦
      let closed = record s { num = 0; num_cnt = s.num_cnt + 1; parts = parts } in
      if s.dot_cnt == 2 || (s.dot_cnt == 3 && (c == 0 || c == b'/'))
      then combine closed
      else some closed
]

-- `case '.'`
unfoldable pub dot : Scan → Scan
dot s =
    if s.dot_cnt == 0
    then record s {
      num = s.num / 256 * 100 + s.num % 256 / 16 * 10 + s.num % 16;
      base = 10;
      dot_cnt = s.dot_cnt + 1;
    }
    else record s { dot_cnt = s.dot_cnt + 1 }

abbrev pub is_separator : ℕ → Bool
is_separator c = c == b'.' || c == b':' || c == b'/'

-- The switch on a byte that is no `::`, and the end of the pass.
unfoldable pub scan_byte : ℕ → Scan → Option Scan
scan_byte c s =
    if c == b'.'
    then close c (dot s)
    else if c == b':'
    then close c s
    else if c == b'/'
    then close c (record s { base = 10; total = 9 })
    else add_digit s c

-- The loop. At `::` both bytes are passed.
unfoldable pub scan_loop : Bytes → Scan → Option Scan
scan_loop [] s = close 0 s
scan_loop (c ∷ []) s = elim (scan_byte c s) [ none ↦ none | some s' ↦ close 0 s' ]
scan_loop (c ∷ d ∷ rest) s = elim (c == b':' && d == b':') [
  | true ↦ elim (close b':' (record s { dot_dot_pos = some (s.num_cnt + 1) })) [
    | none ↦ none
    | some s' ↦ scan_loop rest s'
  ]
  | false ↦ elim (scan_byte c s) [ none ↦ none | some s' ↦ scan_loop (d ∷ rest) s' ]
]

-- "replace '::' with 0s": the numbers behind `pos` move to the end, or by as many cells to the
-- front as there are too many of them.
unfoldable pub fill_gap : Scan → List ℕ
fill_gap s = elim s.dot_dot_pos [
  | none ↦ s.parts
  | some pos ↦
      if ltb s.total s.num_cnt
      then take (pos - (s.num_cnt - s.total)) s.parts
        ++ (drop pos (take s.num_cnt s.parts) ++ drop s.total s.parts)
      else take pos s.parts
        ++ (replicate (s.total - s.num_cnt) 0
            ++ (drop pos (take s.num_cnt s.parts) ++ drop s.total s.parts))
]

-- `scan_ipv6` on zeroed parts: the nine cells afterwards, `none` after a write behind them.
unfoldable pub scan_ipv6 : Bytes → Option (List ℕ)
scan_ipv6 val =
    let p = if starts_with (str ".wh.") val then drop 4 val else val in
    elim (scan_loop p scan_start) [ none ↦ none | some s ↦ some (fill_gap s) ]
