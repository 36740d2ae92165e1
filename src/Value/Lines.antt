-- ===== src/Value/Lines.antt =====
-- `char2val_text` splits a text into its lines.
pub mod Fields
use vyatta_cfg.Prelude.{
  ℕ, zero, suc, ◌+◌, ◌-◌, ◌*◌, ◌/◌, ◌≤◌, ◌<◌, ◌≡◌, ◌⊎◌, inl, inr, refl, sym, ap, ◌∙◌, true, false,
  List, [], ◌∷◌, ◌++◌, map, Option, none, some, Bytes, length, replicate, take, store-map-some,
  length-append, length-replicate, arith, append_assoc, ◌==◌, if◌then◌else◌, ==_iff, Bool-cases,
  Option-cases, drop, append-nil,
}
use native.Mathlib.Decide.{ℕ_discrete}
use vyatta_cfg.Value.{
  text_value, error_type, Value, ok, multi_alloc, count_newlines, open_ended, line_count,
  before_newline, after_newline, fill_lines, char2val_text, contents,
}
use vyatta_cfg.Value.Append.{contents_filled}
use vyatta_cfg.Value.Lines.Fields.{
  cons_head, fields, join_lines, fields_behind, fields_lem, length-cons_head, length-fields,
  fill_lines_lem, join-cons_head, join-nil, take-cons_head, length-take_pos, take-length,
  length-take, join-fields,
}

abbrev pub AllPlain : List Bytes → Type 0
AllPlain [] = Unit
AllPlain (l ∷ ls) = (count_newlines l ≡ 0) × AllPlain ls

closed_pos : (c : ℕ) (s : Bytes) → open_ended (c ∷ s) ≡ false → 0 < count_newlines (c ∷ s)
unfolding open_ended count_newlines
closed_pos c [] h = ground arith
closed_pos c (d ∷ s) h = omega (arith, closed_pos d s h)

module _ (c : ℕ) (s : Bytes) where
  step_newline :
      c == b'\n' ≡ true
      → (fields (c ∷ s) ≡ [] ∷ fields s) × (count_newlines (c ∷ s) ≡ suc (count_newlines s))
  unfolding fields count_newlines
  step_newline e = (rw e, rw e (omega arith))

  step_other :
      c == b'\n' ≡ false
      → (fields (c ∷ s) ≡ cons_head c (fields s)) × (count_newlines (c ∷ s) ≡ count_newlines s)
  unfolding fields count_newlines
  step_other e = (rw e, rw e (omega arith))

closed_end : (c : ℕ) → open_ended (c ∷ []) ≡ false → c == b'\n' ≡ true
unfolding open_ended
closed_end c h = ground arith

open_ended-cons : (c d : ℕ) (s : Bytes) → open_ended (c ∷ d ∷ s) ≡ open_ended (d ∷ s)
unfolding open_ended
open_ended-cons c d s = refl

join-take_newline :
    join_lines (take (suc (count_newlines [])) ([] ∷ fields [])) ++ (b'\n' ∷ []) ≡ b'\n' ∷ []
unfolding fields count_newlines
join-take_newline = refl

-- A text that ends with a newline: the last piece, which is empty, is left out.
join-take_closed :
    (c : ℕ) (s : Bytes)
    → open_ended (c ∷ s) ≡ false
    → join_lines (take (count_newlines (c ∷ s)) (fields (c ∷ s))) ++ (b'\n' ∷ []) ≡ c ∷ s
join-take_closed c [] h =
    let (f, n) = step_newline c [] (closed_end c h) in
    rw (f, n) (join-take_newline ∙ ap (λ x. x ∷ []) (sym ((==_iff c b'\n').0 (closed_end c h))))
join-take_closed c (d ∷ s) h =
    let h' = sym (open_ended-cons c d s) ∙ h in
    let ih = join-take_closed d s h' in
    let some_field : 0 < length (fields (d ∷ s)) = omega (arith, length-fields (d ∷ s)) in
    let pos = closed_pos d s h' in
    elim (Bool-cases (c == b'\n')) [
      | inl e ↦
          let (f, n) = step_newline c (d ∷ s) e in
          rw (f, n)
            (rw
              (join-nil (take (count_newlines (d ∷ s)) (fields (d ∷ s)))
                (length-take_pos _ _ some_field pos))
              (rw ((==_iff c b'\n').0 e) (ap (◌∷◌ b'\n') ih)))
      | inr e ↦
          let (f, n) = step_other c (d ∷ s) e in
          rw (f, n)
            (rw (take-cons_head _ c (fields (d ∷ s)) some_field pos)
              (rw join-cons_head (ap (◌∷◌ c) ih)))
    ]

abbrev lines : Bytes → List Bytes
lines value = take (line_count value) (fields value)

line_count-le : (s : Bytes) → line_count s ≤ count_newlines s + 1
unfolding line_count
line_count-le s = ground arith

open_count : (s : Bytes) → open_ended s ≡ true → line_count s ≡ count_newlines s + 1
unfolding line_count
open_count s h = ground arith

closed_count :
    (s : Bytes) → open_ended s ≡ false → 0 < count_newlines s → line_count s ≡ count_newlines s
unfolding line_count
closed_count s h p = ground arith

line_count_pos : (s : Bytes) → 0 < line_count s
unfolding line_count
line_count_pos s = ground arith

cells_enough : (n : ℕ) → n ≤ (n + multi_alloc - 1) / multi_alloc * multi_alloc
cells_enough n = omega arith

lines_one : (value : Bytes) → line_count value ≡ 1 → lines value ≡ before_newline value ∷ []
lines_one value e = rw (e, fields_lem)

char2val_text-lines :
    (value : Bytes) → (v : Value) × (char2val_text true value ≡ ok v) × (contents v ≡ lines value)
unfolding char2val_text contents
char2val_text-lines value = elim (ℕ_discrete (line_count value) 1) [
  | yes one ↦ (
    record text_value { val = some (before_newline value) },
    ground (arith, one),
    sym (lines_one value one),
  )
  | no many ↦
      let n = line_count value in
      let cells = (n + multi_alloc - 1) / multi_alloc * multi_alloc in
      let spare = replicate {A = Option Bytes} cells none in
      let stored =
        fill_lines_lem n [] value spare (line_count-le value)
          (omega (arith, cells_enough n, length-replicate {A = Option Bytes} cells none)) in
      let held = contents_filled n (lines value) (drop n spare) (
        omega (
          arith,
          length-take n (fields value) (omega (arith, line_count-le value, length-fields value)),
        )) in
      (
        record text_value {
          cnt = n;
          vals = map some (lines value) ++ drop n spare;
          val_types = replicate cells (some error_type);
        },
        ground (arith, stored, many),
        ground (arith, held, line_count_pos value),
      )
]

lines_nil : lines [] ≡ [] ∷ []
unfolding line_count open_ended count_newlines fields
lines_nil = refl

-- The lines of a text give the text back.
join-lines :
    (value : Bytes)
    → (join_lines (lines value) ≡ value) ⊎ (join_lines (lines value) ++ (b'\n' ∷ []) ≡ value)
join-lines [] = inl (ap join_lines lines_nil)
join-lines (c ∷ s) = elim (Bool-cases (open_ended (c ∷ s))) [
  | inl o ↦ inl (
      rw
        (take-length (line_count (c ∷ s)) (fields (c ∷ s))
          (open_count (c ∷ s) o ∙ sym (length-fields (c ∷ s))))
        (join-fields (c ∷ s)))
  | inr o ↦ inr (rw (closed_count (c ∷ s) o (closed_pos c s o)) (join-take_closed c s o))
]

plain_cons :
    (c : ℕ) (l : Bytes) → c == b'\n' ≡ false → count_newlines l ≡ 0 → count_newlines (c ∷ l) ≡ 0
unfolding count_newlines
plain_cons c l e h = rw e (omega arith)

plain_nil : count_newlines [] ≡ 0
unfolding count_newlines
plain_nil = refl

AllPlain-cons_head :
    (c : ℕ) (ls : List Bytes) → c == b'\n' ≡ false → AllPlain ls → AllPlain (cons_head c ls)
AllPlain-cons_head c [] e h = (plain_cons c [] e plain_nil, tt)
AllPlain-cons_head c (l ∷ ls) e h = (plain_cons c l e h.0, h.1)

AllPlain-fields : (s : Bytes) → AllPlain (fields s)
unfolding fields
AllPlain-fields [] = (plain_nil, tt)
AllPlain-fields (c ∷ s) = elim (Bool-cases (c == b'\n')) [
  | inl e ↦ rw e (plain_nil, AllPlain-fields s)
  | inr e ↦ rw e (AllPlain-cons_head c (fields s) e (AllPlain-fields s))
]

AllPlain-take : (n : ℕ) (ls : List Bytes) → AllPlain ls → AllPlain (take n ls)
AllPlain-take zero ls h = tt
AllPlain-take (suc n) [] h = tt
AllPlain-take (suc n) (l ∷ ls) h = (h.0, AllPlain-take n ls h.1)

-- With memory at hand, `char2val_text` succeeds on every text: no write leaves the array and its
-- assertion holds. The value has as many strings as the text has lines, none of them with a
-- newline, and with newlines between them they are the text, up to a newline at its end.
pub char2val_text-join_lines :
    (value : Bytes)
    → (v : Value) × (char2val_text true value ≡ ok v)
      × (length (contents v) ≡ line_count value)
      × AllPlain (contents v)
      × ((join_lines (contents v) ≡ value) ⊎ (join_lines (contents v) ++ (b'\n' ∷ []) ≡ value))
char2val_text-join_lines value =
    let (v, done, same) = char2val_text-lines value in
    (
      v,
      done,
      rw same
          (length-take _ (fields value) (omega (arith, line_count-le value, length-fields value))),
      rw same (AllPlain-take _ (fields value) (AllPlain-fields value)),
      rw same (join-lines value),
    )
