-- ===== src/Compare/Decimal.antt =====
-- Numbers in decimal: what `sscanf` reads and how `val_cmp` orders them.
use vyatta_cfg.Compare.Scanf.{
  Directive, unsigned, lit, digit_in, is_space, skip_spaces, read_digits, to_unsigned, skip_prefix,
  read_signed, read_number, conversions, sscanf,
}
use vyatta_cfg.Compare.{
  Cond, in_cond, Sign, same, less, greater, Pass, go, stop, is_in, satisfies, sign_of, compare_as,
  cmp_parts, operands, own_type, differs, is_count_test, right_loop, left_loop, val_cmp,
}
use vyatta_cfg.Prelude.Outcome.{value}
use vyatta_cfg.Prelude.{
  ℕ, ◌+◌, ◌*◌, ◌^◌, ◌<◌, ◌≡◌, refl, sym, ap, ◌∙◌, true, false, List, [], ◌∷◌, ◌++◌, none, some,
  Bytes, arith, append-nil,
}
use vyatta_cfg.Value.{Value, int_type}

-- A numeral: its first digit and the others.
pub record Numeral : Type 0 where
  pub first : ℕ
  pub others : List ℕ

abbrev pub AreDigits : List ℕ → Type 0
AreDigits [] = Unit
AreDigits (d ∷ ds) = (d < 10) × AreDigits ds

abbrev pub horner : ℕ → List ℕ → ℕ
horner n [] = n
horner n (d ∷ ds) = horner (n * 10 + d) ds

abbrev pub number : Numeral → ℕ
number m = horner m.first m.others

abbrev pub digits_text : List ℕ → Bytes
digits_text [] = []
digits_text (d ∷ ds) = (b'0' + d) ∷ digits_text ds

abbrev pub text : Numeral → Bytes
text m = (b'0' + m.first) ∷ digits_text m.others

-- A numeral of digits that an `unsigned int` holds.
pub record IsUnsigned (m : Numeral) : Type 0 where
  pub digits : AreDigits (m.first ∷ m.others)
  pub fits : number m < 2 ^ 32

-- What follows a numeral does not go on with a digit.
abbrev pub NoDigit : Bytes → Type 0
NoDigit [] = Unit
NoDigit (c ∷ s) = digit_in 10 c ≡ none

digit_in-char : (d : ℕ) → d < 10 → digit_in 10 (b'0' + d) ≡ some d
unfolding digit_in
digit_in-char d h = ground arith

read_digits-rest :
    (n : ℕ) (rest : Bytes) → NoDigit rest → read_digits 10 rest n true ≡ (n, true, rest)
unfolding read_digits
read_digits-rest n [] h = refl
read_digits-rest n (c ∷ s) h = rw (h, read_digits)

read_digits-text :
    (ds : List ℕ) (n : ℕ) (rest : Bytes)
    → AreDigits ds
    → NoDigit rest
    → read_digits 10 (digits_text ds ++ rest) n true ≡ (horner n ds, true, rest)
unfolding read_digits
read_digits-text [] n rest h o = read_digits-rest n rest o
read_digits-text (d ∷ ds) n rest h o =
    rw (digit_in-char d h.0, read_digits) (read_digits-text ds (n * 10 + d) rest h.1 o)

skip_spaces-digit : (d : ℕ) (s : Bytes) → d < 10 → skip_spaces ((b'0' + d) ∷ s) ≡ (b'0' + d) ∷ s
unfolding skip_spaces is_space
skip_spaces-digit d s h = ground arith

skip_prefix_ten : (s : Bytes) → skip_prefix 10 s ≡ s
unfolding skip_prefix
skip_prefix_ten [] = refl
skip_prefix_ten (c ∷ []) = refl
skip_prefix_ten (c ∷ d ∷ s) = refl

to_unsigned_small : (n : ℕ) → n < 2 ^ 32 → to_unsigned false n ≡ n
unfolding to_unsigned
to_unsigned_small n h = ground arith

first_digit :
    (d : ℕ) (s : Bytes) → d < 10 → read_digits 10 ((b'0' + d) ∷ s) 0 false ≡ read_digits 10 s d true
unfolding read_digits
first_digit d s h =
    rw (digit_in-char d h, read_digits) (ap (λ n. read_digits 10 s n true) (omega arith))

read_signed-text :
    (m : Numeral) (rest : Bytes)
    → IsUnsigned m
    → NoDigit rest
    → read_signed 10 false (text m ++ rest) ≡ some (number m, rest)
unfolding read_signed
read_signed-text m rest u o =
    let read =
      first_digit m.first (digits_text m.others ++ rest) u.digits.0
      ∙ read_digits-text m.others m.first rest u.digits.1 o in
    rw (skip_prefix_ten, read, read_signed) (rw (to_unsigned_small (number m) u.fits) refl)

read_number-text :
    (m : Numeral) (rest : Bytes)
    → IsUnsigned m
    → NoDigit rest
    → read_number 10 (text m ++ rest) ≡ some (number m, rest)
unfolding read_number
read_number-text m rest u o =
    let h : m.first < 10 = u.digits.0 in
    ground (
      arith,
      skip_spaces-digit m.first (digits_text m.others ++ rest) h,
      read_signed-text m rest u o,
    )

pub conversions-number :
    (m : Numeral) (ds : List Directive) (rest : Bytes)
    → IsUnsigned m
    → NoDigit rest
    → conversions (unsigned ∷ ds) (text m ++ rest) ≡ number m ∷ conversions ds rest
unfolding conversions
conversions-number m ds rest u o = rw (read_number-text m rest u o, conversions)

pub conversions-lit :
    (c : ℕ) (ds : List Directive) (s : Bytes) → conversions (lit c ∷ ds) (c ∷ s) ≡ conversions ds s
unfolding conversions
conversions-lit c ds s = ground arith

pub conversions_nil : (s : Bytes) → conversions [] s ≡ []
unfolding conversions
conversions_nil s = refl

pub sscanf-number :
    (m : Numeral) → IsUnsigned m → sscanf (unsigned ∷ []) (text m) ≡ some (number m ∷ [])
unfolding sscanf
sscanf-number m u =
    let read = conversions-number m [] [] u tt ∙ ap (λ ns. number m ∷ ns) (conversions_nil []) in
    rw ((sym (ap (conversions (unsigned ∷ [])) (append-nil (text m))) ∙ read), sscanf)

compare_as_int :
    (m n : Numeral)
    → IsUnsigned m
    → IsUnsigned n
    → compare_as int_type none (text m) (text n) same ≡ value (sign_of (number m) (number n))
unfolding compare_as cmp_parts
compare_as_int m n u v = rw (sscanf-number m u, sscanf-number n v) (ground arith)

-- Two values of one string each.
pub val_cmp_single :
    (left right : Value) (cond : Cond) (l r : Bytes) (s : Sign)
    → left.cnt ≡ 0
    → right.cnt ≡ 0
    → left.val ≡ some l
    → right.val ≡ some r
    → is_count_test left right cond ≡ false
    → compare_as left.val_type none l r same ≡ value s
    → val_cmp left right cond ≡ value (satisfies cond s)
unfolding val_cmp left_loop right_loop operands own_type vyatta_cfg.Compare.compare_pass
val_cmp_single left right cond l r s nl nr hl hr plain e = ground arith

-- Values of one decimal numeral each, below 2 ^ 32: `val_cmp` compares the numbers.
pub val_cmp-int :
    (left right : Value) (cond : Cond) (m n : Numeral)
    → left.val_type ≡ int_type
    → left.cnt ≡ 0
    → right.cnt ≡ 0
    → left.val ≡ some (text m)
    → right.val ≡ some (text n)
    → IsUnsigned m
    → IsUnsigned n
    → is_count_test left right cond ≡ false
    → val_cmp left right cond ≡ value (satisfies cond (sign_of (number m) (number n)))
val_cmp-int left right cond m n t nl nr hl hr u v plain =
    val_cmp_single left right cond (text m) (text n) _ nl nr hl hr plain
      (rw t (compare_as_int m n u v))
