-- ===== src/Compare/Ipv4.antt =====
-- Comparison of dotted IPv4 addresses.
use vyatta_cfg.Compare.Scanf.{Directive, unsigned, lit, digit_in, conversions, sscanf}
use vyatta_cfg.Compare.{
  Cond, Sign, same, less, greater, satisfies, sign_of, compare_as, cmp_parts, is_count_test,
  val_cmp,
}
use native.Mathlib.Decide.{dec_lt}
use vyatta_cfg.Prelude.Outcome.{value}
use vyatta_cfg.Prelude.{
  ℕ, ◌+◌, ◌*◌, ◌^◌, ◌<◌, ◌≡◌, refl, sym, ap, ◌∙◌, false, List, [], ◌∷◌, ◌++◌, none, some, Bytes,
  if◌then◌else◌, arith, ltb, append-nil,
}
use vyatta_cfg.Value.{Value, ipv4_type}
use vyatta_cfg.Compare.Decimal.{
  Numeral, AreDigits, number, text, IsUnsigned, NoDigit, conversions-number, conversions-lit,
  conversions_nil, val_cmp_single,
}

-- A dotted address.
pub record Ipv4 : Type 0 where
  pub a : Numeral
  pub b : Numeral
  pub c : Numeral
  pub d : Numeral

pub record IsIpv4 (i : Ipv4) : Type 0 where
  pub digits_a : AreDigits (i.a.first ∷ i.a.others)
  pub digits_b : AreDigits (i.b.first ∷ i.b.others)
  pub digits_c : AreDigits (i.c.first ∷ i.c.others)
  pub digits_d : AreDigits (i.d.first ∷ i.d.others)
  pub octet_a : number i.a < 256
  pub octet_b : number i.b < 256
  pub octet_c : number i.c < 256
  pub octet_d : number i.d < 256

abbrev pub dotted : Ipv4 → Bytes
dotted i = text i.a ++ (b'.' ∷ (text i.b ++ (b'.' ∷ (text i.c ++ (b'.' ∷ text i.d)))))

-- The address as a number of 32 bits.
abbrev pub address : Ipv4 → ℕ
address i = number i.a * 2 ^ 24 + number i.b * 2 ^ 16 + number i.c * 2 ^ 8 + number i.d

IsUnsigned-octet : (m : Numeral) → AreDigits (m.first ∷ m.others) → number m < 256 → IsUnsigned m
IsUnsigned-octet m h o = record { digits = h; fits = omega arith }

NoDigit-dot : (s : Bytes) → NoDigit (b'.' ∷ s)
unfolding digit_in
NoDigit-dot s = refl

abbrev formats : List Directive
formats = unsigned ∷ lit b'.' ∷ unsigned ∷ lit b'.' ∷ unsigned ∷ lit b'.' ∷ unsigned ∷ []

sscanf-dotted :
    (i : Ipv4)
    → IsIpv4 i
    → sscanf formats (dotted i) ≡ some (number i.a ∷ number i.b ∷ number i.c ∷ number i.d ∷ [])
unfolding sscanf
sscanf-dotted i h =
    let last =
      conversions-number i.d [] [] (IsUnsigned-octet i.d h.digits_d h.octet_d) tt
      ∙ ap (λ ns. number i.d ∷ ns) (conversions_nil []) in
    let last' = sym (ap (conversions (unsigned ∷ [])) (append-nil (text i.d))) ∙ last in
    let third =
      conversions-number i.c _ _ (IsUnsigned-octet i.c h.digits_c h.octet_c)
        (NoDigit-dot (text i.d))
      ∙ ap (λ ns. number i.c ∷ ns) (conversions-lit b'.' (unsigned ∷ []) (text i.d) ∙ last') in
    let r2 = text i.c ++ (b'.' ∷ text i.d) in
    let r1 = text i.b ++ (b'.' ∷ r2) in
    let second =
      conversions-number i.b (lit b'.' ∷ unsigned ∷ lit b'.' ∷ unsigned ∷ []) (b'.' ∷ r2)
        (IsUnsigned-octet i.b h.digits_b h.octet_b) (NoDigit-dot r2)
      ∙ ap (λ ns. number i.b ∷ ns)
          (conversions-lit b'.' (unsigned ∷ lit b'.' ∷ unsigned ∷ []) r2 ∙ third) in
    let first =
      conversions-number i.a _ _ (IsUnsigned-octet i.a h.digits_a h.octet_a) (NoDigit-dot r1)
      ∙ ap (λ ns. number i.a ∷ ns)
          (conversions-lit b'.' (unsigned ∷ lit b'.' ∷ unsigned ∷ lit b'.' ∷ unsigned ∷ []) r1
            ∙ second) in
    rw (first, sscanf)

abbrev lexicographic : ℕ → ℕ → Sign → Sign
lexicographic a b s = if ltb b a then greater else if ltb a b then less else s

wider : (w m n z v : ℕ) → m < n → z < w → m * w + z < n * w + v
wider w m n z v l k = grind arith

-- The leading digit of a number in base `w` decides first.
sign_of-digit :
    (w a b x y : ℕ)
    → x < w
    → y < w
    → sign_of (a * w + x) (b * w + y) ≡ lexicographic a b (sign_of x y)
sign_of-digit w a b x y hx hy = elim (dec_lt a b) [
  | yes h ↦ ground (arith, wider w a b x y h hx)
  | no h ↦ elim (dec_lt b a) [
    | yes h' ↦ ground (arith, wider w b a y x h' hy)
    | no h' ↦ let e : a ≡ b = omega arith in rw e (ground arith)
  ]
]

last_octet : (d d' : ℕ) → lexicographic d d' same ≡ sign_of d d'
last_octet d d' = ground arith

-- Four octets compared one by one, and as one number.
cmp_parts-address :
    (a b c d a' b' c' d' : ℕ) (xs ys : List ℕ)
    → a < 256
    → b < 256
    → c < 256
    → d < 256
    → a' < 256
    → b' < 256
    → c' < 256
    → d' < 256
    → cmp_parts 4 (a ∷ b ∷ c ∷ d ∷ xs) (a' ∷ b' ∷ c' ∷ d' ∷ ys) same
      ≡ sign_of
          (a * 2 ^ 24 + b * 2 ^ 16 + c * 2 ^ 8 + d)
          (a' * 2 ^ 24 + b' * 2 ^ 16 + c' * 2 ^ 8 + d')
unfolding cmp_parts
cmp_parts-address a b c d a' b' c' d' xs ys ha hb hc hd ha' hb' hc' hd' =
    let low = sign_of-digit (2 ^ 8) c c' d d' hd hd' in
    let mid =
      sign_of-digit (2 ^ 16) b b' (c * 2 ^ 8 + d) (c' * 2 ^ 8 + d') (omega arith) (omega arith) in
    let high =
      sign_of-digit (2 ^ 24) a a' (b * 2 ^ 16 + (c * 2 ^ 8 + d)) (b' * 2 ^ 16 + (c' * 2 ^ 8 + d'))
        (omega arith) (omega arith) in
    let l : a * 2 ^ 24 + b * 2 ^ 16 + c * 2 ^ 8 + d ≡ a * 2 ^ 24 + (b * 2 ^ 16 + (c * 2 ^ 8 + d)) =
      omega arith in
    let r : a' * 2 ^ 24 + b' * 2 ^ 16 + c' * 2 ^ 8 + d'
        ≡ a' * 2 ^ 24 + (b' * 2 ^ 16 + (c' * 2 ^ 8 + d')) =
      omega arith in
    ap (λ s. lexicographic a a' (lexicographic b b' (lexicographic c c' s))) (last_octet d d')
    ∙ ap (λ s. lexicographic a a' (lexicographic b b' s)) (sym low)
    ∙ ap (lexicographic a a') (sym mid)
    ∙ sym (rw (l, r) high)

compare_as_ipv4 :
    (i j : Ipv4)
    → IsIpv4 i
    → IsIpv4 j
    → compare_as ipv4_type none (dotted i) (dotted j) same ≡ value (sign_of (address i) (address j))
unfolding compare_as
compare_as_ipv4 i j h k =
    rw (sscanf-dotted i h, sscanf-dotted j k)
      (ap value (
        cmp_parts-address _ _ _ _ _ _ _ _ (0 ∷ 0 ∷ 0 ∷ 0 ∷ 0 ∷ []) (0 ∷ 0 ∷ 0 ∷ 0 ∷ 0 ∷ [])
          h.octet_a h.octet_b h.octet_c h.octet_d k.octet_a k.octet_b k.octet_c k.octet_d))

-- Values of one dotted IPv4 address each: `val_cmp` orders them as the numbers of 32 bits that they
-- are.
pub val_cmp-ipv4 :
    (left right : Value) (cond : Cond) (i j : Ipv4)
    → left.val_type ≡ ipv4_type
    → left.cnt ≡ 0
    → right.cnt ≡ 0
    → left.val ≡ some (dotted i)
    → right.val ≡ some (dotted j)
    → IsIpv4 i
    → IsIpv4 j
    → is_count_test left right cond ≡ false
    → val_cmp left right cond ≡ value (satisfies cond (sign_of (address i) (address j)))
val_cmp-ipv4 left right cond i j t nl nr hl hr u v plain =
    val_cmp_single left right cond (dotted i) (dotted j) _ nl nr hl hr plain
      (rw t (compare_as_ipv4 i j u v))
