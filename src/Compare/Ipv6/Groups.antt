-- ===== src/Compare/Ipv6/Groups.antt =====
-- Groups of hexadecimal digits, as text, and how the scanner reads one of them.
use vyatta_cfg.Compare.Scanf.{is_digit, tolower}
use vyatta_cfg.Compare.Ipv6.{Scan, set_part, add_digit, close, scan_byte, scan_loop}
use vyatta_cfg.Prelude.{
  ℕ, suc, ◌+◌, ◌-◌, ◌*◌, ◌%◌, ◌^◌, ◌<◌, ◌≡◌, refl, ap, ◌∙◌, false, List, [], ◌∷◌, ◌++◌, Option,
  some, Bytes, leb, ◌&&◌, ◌||◌, Bool, true, ◌==◌, if◌then◌else◌, replicate, length, arith,
  length-append,
}

-- A group of one to four hexadecimal digits, as their bytes.
pub data Group : Type 0 where
  one : ℕ → Group
  two : ℕ → ℕ → Group
  three : ℕ → ℕ → ℕ → Group
  four : ℕ → ℕ → ℕ → ℕ → Group

abbrev pub is_hex : ℕ → Bool
is_hex c = is_digit c || (leb b'a' c && leb c b'f') || (leb b'A' c && leb c b'F')

-- The value of a digit; letters of either case have the same.
abbrev pub hex_value : ℕ → ℕ
hex_value c = if is_digit c then c - b'0' else if leb b'a' c then c + 10 - b'a' else c + 10 - b'A'

abbrev pub IsGroup : Group → Type 0
IsGroup (one a) = is_hex a ≡ true
IsGroup (two a b) = (is_hex a ≡ true) × (is_hex b ≡ true)
IsGroup (three a b c) = (is_hex a ≡ true) × (is_hex b ≡ true) × (is_hex c ≡ true)
IsGroup (four a b c d) =
    (is_hex a ≡ true) × (is_hex b ≡ true) × (is_hex c ≡ true) × (is_hex d ≡ true)

abbrev pub AreGroups : List Group → Type 0
AreGroups [] = Unit
AreGroups (g ∷ gs) = IsGroup g × AreGroups gs

abbrev pub group_value : Group → ℕ
group_value (one a) = hex_value a
group_value (two a b) = hex_value a * 16 + hex_value b
group_value (three a b c) = hex_value a * 256 + hex_value b * 16 + hex_value c
group_value (four a b c d) = hex_value a * 4096 + hex_value b * 256 + hex_value c * 16 + hex_value d

abbrev pub group_text : Group → Bytes
group_text (one a) = a ∷ []
group_text (two a b) = a ∷ b ∷ []
group_text (three a b c) = a ∷ b ∷ c ∷ []
group_text (four a b c d) = a ∷ b ∷ c ∷ d ∷ []

-- Groups with a colon between each two.
abbrev pub groups_text : List Group → Bytes
groups_text [] = []
groups_text (g ∷ []) = group_text g
groups_text (g ∷ h ∷ gs) = group_text g ++ (b':' ∷ groups_text (h ∷ gs))

-- The local variables after the numbers `done`.
abbrev pub scanned : List ℕ → Option ℕ → ℕ → Scan
scanned done pos num = record {
  num = num;
  num_cnt = length done;
  dot_dot_pos = pos;
  dot_cnt = 0;
  base = 16;
  total = 8;
  parts = done ++ replicate (9 - length done) 0;
}

pub hex_ne : (d : ℕ) → is_hex d ≡ true → d == b':' ≡ false
unfolding is_digit
hex_ne d h = ground arith

pub hex_ne_dot : (d : ℕ) → is_hex d ≡ true → d == b'.' ≡ false
unfolding is_digit
hex_ne_dot d h = ground arith

hex_value_lt : (d : ℕ) → is_hex d ≡ true → hex_value d < 16
unfolding is_digit
hex_value_lt d h = ground arith

module _ (done : List ℕ) (pos : Option ℕ) where
  scan_byte-hex :
      (d num : ℕ)
      → is_hex d ≡ true
      → scan_byte d (scanned done pos num)
        ≡ some (scanned done pos ((num * 16 + hex_value d) % 2 ^ 32))
  unfolding scan_byte add_digit is_digit tolower
  scan_byte-hex d num h = ground arith

  scan-hex :
      (d num : ℕ) (rest : Bytes)
      → is_hex d ≡ true
      → scan_loop (d ∷ rest) (scanned done pos num)
        ≡ scan_loop rest (scanned done pos ((num * 16 + hex_value d) % 2 ^ 32))
  unfolding scan_loop
  scan-hex d num [] h = rw (scan_byte-hex d num h, scan_loop)
  scan-hex d num (c ∷ rest) h = rw (hex_ne d h, scan_loop) (rw (scan_byte-hex d num h) refl)

  pub scan-group :
      (g : Group) (rest : Bytes)
      → IsGroup g
      → scan_loop (group_text g ++ rest) (scanned done pos 0)
        ≡ scan_loop rest (scanned done pos (group_value g))
  scan-group (one a) rest h =
      scan-hex a 0 rest h
      ∙ ap (λ n. scan_loop rest (scanned done pos n)) (omega (arith, hex_value_lt a h))
  scan-group (two a b) rest h =
      scan-hex a 0 _ h.0
      ∙ scan-hex b _ rest h.1
      ∙ ap (λ n. scan_loop rest (scanned done pos n))
          (omega (arith, hex_value_lt a h.0, hex_value_lt b h.1))
  scan-group (three a b c) rest h =
      scan-hex a 0 _ h.0
      ∙ scan-hex b _ _ h.1
      ∙ scan-hex c _ rest h.2
      ∙ ap (λ n. scan_loop rest (scanned done pos n))
          (omega (arith, hex_value_lt a h.0, hex_value_lt b h.1, hex_value_lt c h.2))
  scan-group (four a b c d) rest h =
      scan-hex a 0 _ h.0
      ∙ scan-hex b _ _ h.1
      ∙ scan-hex c _ _ h.2
      ∙ scan-hex d _ rest h.3
      ∙ ap (λ n. scan_loop rest (scanned done pos n))
          (omega
            (arith, hex_value_lt a h.0, hex_value_lt b h.1, hex_value_lt c h.2, hex_value_lt d h.3))

set_part_lem :
    (done : List ℕ) (y n : ℕ) (r : List ℕ)
    → set_part (done ++ (y ∷ r)) (length done) n ≡ some ((done ++ (n ∷ [])) ++ r)
unfolding set_part
set_part_lem [] y n r = refl
set_part_lem (x ∷ done) y n r = rw (set_part_lem done y n r)

-- A number is closed while a cell is free.
pub close-scanned :
    (c : ℕ) (done : List ℕ) (pos : Option ℕ) (n : ℕ)
    → length done < 9
    → close c (scanned done pos n) ≡ some (scanned (done ++ (n ∷ [])) pos 0)
unfolding close
close-scanned c done pos n h =
    let more : 9 - length done ≡ suc (8 - length done) = omega arith in
    let stored : set_part (done ++ replicate (9 - length done) 0) (length done) n
        ≡ some ((done ++ (n ∷ [])) ++ replicate (8 - length done) 0) =
      rw more (set_part_lem done 0 n (replicate (8 - length done) 0)) in
    let len : length (done ++ (n ∷ [])) ≡ length done + 1 = length-append done (n ∷ []) in
    let less : 9 - (length done + 1) ≡ 8 - length done = omega arith in
    rw (stored, close) (rw (len, less) refl)
