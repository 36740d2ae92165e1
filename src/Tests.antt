-- ===== src/Tests.antt =====
-- Runs of the model on small inputs, and the theorems at concrete values: values, comparison and
-- expansion.
pub mod Remote
pub mod Expressions
pub mod References
pub mod Interfaces
use vyatta_cfg.Compare.Decimal.{Numeral, text, val_cmp-int}
use vyatta_cfg.Compare.Ipv4.{Ipv4, dotted, val_cmp-ipv4}
use vyatta_cfg.Compare.Ipv6.Address.{scan_ipv6-groups, side}
use vyatta_cfg.Compare.Ipv6.Groups.{Group, one, two, three, four, groups_text, group_value}
use vyatta_cfg.Compare.Ipv6.{scan_ipv6}
use vyatta_cfg.Compare.Scanf.{is_digit}
use vyatta_cfg.Compare.Multi.{all, any, last_of, val_cmp-text_all, val_cmp-text_in}
use vyatta_cfg.Compare.{
  Cond, lt_cond, ne_cond, in_cond, satisfies, strcmp, sign_of, val_cmp, operands, own_type,
  is_count_test,
}
use vyatta_cfg.Expand.Pieces.{Piece, plain, self, ref, source, meaning, expand_string-pieces}
use vyatta_cfg.Expand.{Env, Buffer, done, expand_string, is_reference, is_self}
use vyatta_cfg.Prelude.Outcome.{value}
use vyatta_cfg.Prelude.{
  ℕ, zero, suc, ◌+◌, ◌≡◌, ◌⊎◌, inl, inr, refl, Bool, true, false, List, [], ◌∷◌, ◌++◌, map, Option,
  none, some, Bytes, str, str_eq, length, replicate, starts_with, arith,
}
use vyatta_cfg.Value.Append.{IsList, single, IsSingle, add_val-contents}
use vyatta_cfg.Value.Lines.Fields.{join_lines}
use vyatta_cfg.Value.Lines.{AllPlain, char2val_text-join_lines}
use vyatta_cfg.Value.{
  Value, ok, str2val, add_val, contents, char2val_text, line_count, zeroed, text_type, int_type,
  ipv4_type,
}

-- Values

abbrev value_a : Value
value_a = str2val (str "a")

abbrev value_b : Value
value_b = str2val (str "b")

str2val-IsSingle : (s : Bytes) → IsSingle (str2val s) s
unfolding str2val
str2val-IsSingle s = record { own = refl; no_cnt = refl; held = refl }

add_val-contents_example :
    (w : Value) × (add_val true true value_a value_b ≡ ok (w, record value_b { free_me = false }))
    × (contents w ≡ contents value_a ++ (str "b" ∷ []))
    × IsList w (contents value_a ++ (str "b" ∷ []))
add_val-contents_example =
    add_val-contents value_a value_b (single (str2val-IsSingle (str "a")))
      (str2val-IsSingle (str "b"))

char2val_text-join_lines_example :
    (v : Value) × (char2val_text true (str "one\n\ntwo\n") ≡ ok v)
    × (length (contents v) ≡ line_count (str "one\n\ntwo\n"))
    × AllPlain (contents v)
    × ((join_lines (contents v) ≡ str "one\n\ntwo\n")
        ⊎ (join_lines (contents v) ++ (b'\n' ∷ []) ≡ str "one\n\ntwo\n"))
char2val_text-join_lines_example = char2val_text-join_lines (str "one\n\ntwo\n")

-- Comparison

abbrev multi : Value
multi = record zeroed {
  val_type = text_type;
  cnt = 2;
  vals = some (str "a") ∷ some (str "b") ∷ [];
  val_types = some text_type ∷ some text_type ∷ [];
}

abbrev other : Value
other = record zeroed { val_type = text_type; val = some (str "b") }

own_type-other : (i : ℕ) → own_type other i ≡ none
unfolding own_type
own_type-other i = refl

val_cmp-text_all_example : val_cmp multi other ne_cond ≡ value false
unfolding operands own_type is_count_test satisfies strcmp
val_cmp-text_all_example =
    val_cmp-text_all multi other ne_cond (str "a") (str "b") (str "b" ∷ []) [] refl refl refl
      (λ i. refl) refl refl

abbrev two_digits : ℕ → ℕ → Numeral
two_digits d e = record { first = d; others = e ∷ [] }

abbrev one_digit : ℕ → Numeral
one_digit d = record { first = d; others = [] }

abbrev int_of : Numeral → Value
int_of m = record zeroed { val_type = int_type; val = some (text m) }

val_cmp-int_example : val_cmp (int_of (one_digit 9)) (int_of (two_digits 1 0)) lt_cond ≡ value true
unfolding is_count_test satisfies
val_cmp-int_example =
    val_cmp-int (int_of (one_digit 9)) (int_of (two_digits 1 0)) lt_cond (one_digit 9)
      (two_digits 1 0) refl refl refl refl refl
      (record { digits = (omega arith, tt); fits = omega arith })
      (record { digits = (omega arith, (omega arith, tt)); fits = omega arith }) refl

abbrev address_of : ℕ → Ipv4
address_of d = record { a = two_digits 1 0; b = one_digit 0; c = one_digit 0; d = one_digit d }

abbrev ipv4_of : Ipv4 → Value
ipv4_of i = record zeroed { val_type = ipv4_type; val = some (dotted i) }

val_cmp-ipv4_example :
    val_cmp (ipv4_of (address_of 1)) (ipv4_of (address_of 2)) lt_cond ≡ value true
unfolding is_count_test satisfies
val_cmp-ipv4_example =
    val_cmp-ipv4 (ipv4_of (address_of 1)) (ipv4_of (address_of 2)) lt_cond (address_of 1)
      (address_of 2) refl refl refl refl refl
      (record {
        digits_a = (omega arith, (omega arith, tt));
        digits_b = (omega arith, tt);
        digits_c = (omega arith, tt);
        digits_d = (omega arith, tt);
        octet_a = omega arith;
        octet_b = omega arith;
        octet_c = omega arith;
        octet_d = omega arith;
      })
      (record {
        digits_a = (omega arith, (omega arith, tt));
        digits_b = (omega arith, tt);
        digits_c = (omega arith, tt);
        digits_d = (omega arith, tt);
        octet_a = omega arith;
        octet_b = omega arith;
        octet_c = omega arith;
        octet_d = omega arith;
      })
      refl

-- Fe80::1
scan_ipv6-groups_example :
    scan_ipv6
      (groups_text (four b'F' b'e' b'8' b'0' ∷ []) ++ (b':' ∷ b':' ∷ groups_text (one b'1' ∷ [])))
    ≡ some (
        side (four b'F' b'e' b'8' b'0' ∷ [])
        ++ (replicate 6 0 ++ (side (one b'1' ∷ []) ++ (0 ∷ []))))
unfolding is_digit
scan_ipv6-groups_example =
    scan_ipv6-groups (four b'F' b'e' b'8' b'0' ∷ []) (one b'1' ∷ []) ((refl, refl, refl, refl), tt)
      (refl, tt) (omega arith)

-- Expansion

abbrev sample_env : Env
sample_env = record { memory = λ n. true; at_string = str "x"; var_ref = λ path. some (str "v") }

expand_string-pieces_example :
    (b : Buffer) × (expand_string sample_env 0 0
        (source (plain 33 ∷ self ∷ ref b'/' (str "p") ∷ []))
      ≡ value (done b))
    × (b.out ≡ meaning sample_env (plain 33 ∷ self ∷ ref b'/' (str "p") ∷ []))
unfolding is_reference is_self starts_with
expand_string-pieces_example =
    expand_string-pieces sample_env (λ n. refl) (plain 33) (self ∷ ref b'/' (str "p") ∷ []) 0
      (refl, (refl, refl, tt))

-- "a" is not among the strings of the right value, and the result is true.
val_cmp-text_in_example : val_cmp multi other in_cond ≡ value true
unfolding operands own_type str_eq
val_cmp-text_in_example =
    val_cmp-text_in multi other (str "a") (str "b") (str "b" ∷ []) [] refl refl refl (λ i. refl)
