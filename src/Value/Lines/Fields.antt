-- ===== src/Value/Lines/Fields.antt =====
-- The pieces of a text between its newlines, and the loop of `char2val_text` that stores them.
use vyatta_cfg.Prelude.{
  ℕ, zero, suc, ◌+◌, ◌≤◌, ◌<◌, ◌≡◌, inl, inr, refl, ap, ◌∙◌, List, [], ◌∷◌, ◌++◌, map, Option, none,
  some, Bytes, length, take, store-map-some, length-append, arith, append_assoc, ◌==◌,
  if◌then◌else◌, ==_iff, Bool-cases, Option-cases, drop, append-nil,
}
use vyatta_cfg.Value.{ok, count_newlines, before_newline, after_newline, fill_lines}

abbrev pub cons_head : ℕ → List Bytes → List Bytes
cons_head c [] = (c ∷ []) ∷ []
cons_head c (l ∷ ls) = (c ∷ l) ∷ ls

-- The pieces between the newlines of a text, one more than there are newlines.
unfoldable pub fields : Bytes → List Bytes
fields [] = [] ∷ []
fields (c ∷ s) = if c == b'\n' then [] ∷ fields s else cons_head c (fields s)

-- The lines with a newline between each two.
abbrev pub join_lines : List Bytes → Bytes
join_lines [] = []
join_lines (l ∷ []) = l
join_lines (l ∷ m ∷ ls) = l ++ (b'\n' ∷ join_lines (m ∷ ls))

abbrev pub fields_behind : Option Bytes → List Bytes
fields_behind none = []
fields_behind (some rest) = fields rest

pub fields_lem : (s : Bytes) → fields s ≡ before_newline s ∷ fields_behind (after_newline s)
unfolding fields before_newline after_newline
fields_lem [] = refl
fields_lem (c ∷ s) = elim (Bool-cases (c == b'\n')) [
  | inl e ↦ rw e
  | inr e ↦ rw e (rw (fields_lem s))
]

pub length-cons_head :
    (c : ℕ) (ls : List Bytes) → 0 < length ls → length (cons_head c ls) ≡ length ls
length-cons_head c [] h = absurd (omega arith)
length-cons_head c (l ∷ ls) h = refl

pub length-fields : (s : Bytes) → length (fields s) ≡ count_newlines s + 1
unfolding fields count_newlines
length-fields [] = omega arith
length-fields (c ∷ s) = elim (Bool-cases (c == b'\n')) [
  | inl e ↦ rw e (omega (arith, length-fields s))
  | inr e ↦ rw e (
      omega
        (arith, length-fields s, length-cons_head c (fields s) (omega (arith, length-fields s))))
]

-- The loop stores the first pieces, as many as it has rounds, if there are so many.
pub fill_lines_lem :
    (rounds : ℕ) (xs : List Bytes) (cp : Bytes) (rest : List (Option Bytes))
    → rounds ≤ count_newlines cp + 1
    → rounds ≤ length rest
    → fill_lines rounds (length xs) cp (map some xs ++ rest)
      ≡ ok (map some (xs ++ take rounds (fields cp)) ++ drop rounds rest)
unfolding fill_lines
fill_lines_lem zero xs cp rest le fits = rw append-nil
fill_lines_lem (suc rounds) xs cp [] le fits = absurd (omega arith)
fill_lines_lem (suc rounds) xs cp (y ∷ r) le fits =
    let stored = store-map-some xs y r (before_newline cp) in
    let pieces = fields_lem cp in
    let count = length-fields cp in
    elim (Option-cases (after_newline cp)) [
      | inl last ↦
          let one : fields cp ≡ before_newline cp ∷ [] = fields_lem cp ∙ rw last in
          let none_left : rounds ≡ 0 = omega (arith, count, ap length one) in
          rw (stored, last, none_left, one, fill_lines)
      | inr (cp', more) ↦
          let parts : fields cp ≡ before_newline cp ∷ fields cp' = fields_lem cp ∙ rw more in
          let ih =
            fill_lines_lem rounds (xs ++ (before_newline cp ∷ [])) cp' r
              (omega (arith, count, length-fields cp', ap length parts)) (omega arith) in
          rw (stored, more, parts, fill_lines) (rw (append_assoc, length-append) at ih)
    ]

pub join-cons_head : (c : ℕ) (ls : List Bytes) → join_lines (cons_head c ls) ≡ c ∷ join_lines ls
join-cons_head c [] = refl
join-cons_head c (l ∷ []) = refl
join-cons_head c (l ∷ m ∷ ls) = refl

pub join-nil : (ls : List Bytes) → 0 < length ls → join_lines ([] ∷ ls) ≡ b'\n' ∷ join_lines ls
join-nil [] h = absurd (omega arith)
join-nil (l ∷ ls) h = refl

pub take-cons_head :
    (n c : ℕ) (ls : List Bytes)
    → 0 < length ls
    → 0 < n
    → take n (cons_head c ls) ≡ cons_head c (take n ls)
take-cons_head zero c ls h p = absurd (omega arith)
take-cons_head (suc n) c [] h p = absurd (omega arith)
take-cons_head (suc n) c (l ∷ ls) h p = refl

pub length-take_pos : (n : ℕ) (ls : List Bytes) → 0 < length ls → 0 < n → 0 < length (take n ls)
length-take_pos zero ls h p = absurd (omega arith)
length-take_pos (suc n) [] h p = absurd (omega arith)
length-take_pos (suc n) (l ∷ ls) h p = omega arith

pub take-length : (n : ℕ) (ls : List Bytes) → n ≡ length ls → take n ls ≡ ls
take-length zero [] e = refl
take-length zero (l ∷ ls) e = absurd (omega arith)
take-length (suc n) [] e = refl
take-length (suc n) (l ∷ ls) e = ap (◌∷◌ l) (take-length n ls (omega arith))

pub length-take : (n : ℕ) (ls : List Bytes) → n ≤ length ls → length (take n ls) ≡ n
length-take zero ls e = refl
length-take (suc n) [] e = absurd (omega arith)
length-take (suc n) (l ∷ ls) e = omega (arith, length-take n ls)

pub join-fields : (s : Bytes) → join_lines (fields s) ≡ s
unfolding fields
join-fields [] = refl
join-fields (c ∷ s) = elim (Bool-cases (c == b'\n')) [
  | inl e ↦ rw e (
      join-nil (fields s) (omega (arith, length-fields s))
      ∙ cc (join-fields s, (==_iff c b'\n').0 e))
  | inr e ↦ rw e (join-cons_head c (fields s) ∙ ap (◌∷◌ c) (join-fields s))
]
