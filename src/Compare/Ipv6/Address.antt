-- ===== src/Compare/Ipv6/Address.antt =====
-- Whole addresses: what `scan_ipv6` makes of groups of digits with one `::` among them.
use vyatta_cfg.Compare.Ipv6.{Scan, scan_start, scan_byte, scan_loop, fill_gap, scan_ipv6}
use vyatta_cfg.Compare.Ipv6.Groups.{
  Group, one, two, three, four, IsGroup, AreGroups, group_value, hex_ne, hex_ne_dot, group_text,
  groups_text, scanned, scan-group, close-scanned,
}
use vyatta_cfg.Prelude.{
  ℕ, zero, suc, ◌+◌, ◌-◌, ◌<◌, ◌≤◌, ◌≡◌, refl, sym, ap, ◌∙◌, false, List, [], ◌∷◌, ◌++◌, map,
  Option, none, some, Bytes, ltb, ◌==◌, replicate, take, drop, length, arith, append_assoc,
  append-nil, length-append, length-map, starts_with, str,
}

-- The first byte of a group is not a colon.
abbrev first_byte : Group → ℕ
first_byte (one a) = a
first_byte (two a b) = a
first_byte (three a b c) = a
first_byte (four a b c d) = a

abbrev other_bytes : Group → Bytes
other_bytes (one a) = []
other_bytes (two a b) = b ∷ []
other_bytes (three a b c) = b ∷ c ∷ []
other_bytes (four a b c d) = b ∷ c ∷ d ∷ []

group_text-cons : (g : Group) → group_text g ≡ first_byte g ∷ other_bytes g
group_text-cons (one a) = refl
group_text-cons (two a b) = refl
group_text-cons (three a b c) = refl
group_text-cons (four a b c d) = refl

first_byte_ne :
    (g : Group) → IsGroup g → (first_byte g == b':' ≡ false) × (first_byte g == b'.' ≡ false)
first_byte_ne (one a) h = (hex_ne a h, hex_ne_dot a h)
first_byte_ne (two a b) h = (hex_ne a h.0, hex_ne_dot a h.0)
first_byte_ne (three a b c) h = (hex_ne a h.0, hex_ne_dot a h.0)
first_byte_ne (four a b c d) h = (hex_ne a h.0, hex_ne_dot a h.0)

groups_text-cons :
    (g : Group) (gs : List Group) (rest : Bytes)
    → (r : Bytes) × (groups_text (g ∷ gs) ++ rest ≡ first_byte g ∷ r)
groups_text-cons g [] rest = (other_bytes g ++ rest, ap (λ t. t ++ rest) (group_text-cons g))
groups_text-cons g (h ∷ gs) rest =
    (_, ap (λ t. (t ++ (b':' ∷ groups_text (h ∷ gs))) ++ rest) (group_text-cons g))

module _ (done : List ℕ) (pos : Option ℕ) (n : ℕ) (room : length done < 9) where
  -- A single colon closes a number.
  scan-colon :
      (c : ℕ) (rest : Bytes)
      → c == b':' ≡ false
      → scan_loop (b':' ∷ c ∷ rest) (scanned done pos n)
        ≡ scan_loop (c ∷ rest) (scanned (done ++ (n ∷ [])) pos 0)
  unfolding scan_loop scan_byte
  scan-colon c rest h = rw (h, scan_loop) (rw (close-scanned b':' done pos n room) refl)

  -- Two colons close a number and note the place.
  scan-colons :
      (rest : Bytes)
      → scan_loop (b':' ∷ b':' ∷ rest) (scanned done pos n)
        ≡ scan_loop rest (scanned (done ++ (n ∷ [])) (some (length done + 1)) 0)
  unfolding scan_loop
  scan-colons rest = rw (close-scanned b':' done (some (length done + 1)) n room, scan_loop) refl

  scan_end : scan_loop [] (scanned done pos n) ≡ some (scanned (done ++ (n ∷ [])) pos 0)
  unfolding scan_loop
  scan_end = close-scanned 0 done pos n room

-- The groups up to the last, which is read and not yet closed.
scan-groups :
    (done : List ℕ) (pos : Option ℕ) (g : Group) (gs : List Group) (rest : Bytes)
    → AreGroups (g ∷ gs)
    → length done + length (g ∷ gs) ≤ 9
    → (init : List ℕ) × (last : ℕ) × (done ++ map group_value (g ∷ gs) ≡ init ++ (last ∷ []))
      × (scan_loop (groups_text (g ∷ gs) ++ rest) (scanned done pos 0)
          ≡ scan_loop rest (scanned init pos last))
scan-groups done pos g [] rest h le = (done, group_value g, refl, scan-group done pos g rest h.0)
scan-groups done pos g (k ∷ gs) rest h le =
    let v = group_value g in
    let (init, last, split, ih) =
      scan-groups (done ++ (v ∷ [])) pos k gs rest h.1
        (omega (arith, length-append done (v ∷ []))) in
    let (r, shape) = groups_text-cons k gs rest in
    let colon = scan-colon done pos v (omega arith) (first_byte k) r (first_byte_ne k h.1.0).0 in
    (
      init,
      last,
      sym (append_assoc done (v ∷ []) (map group_value (k ∷ gs))) ∙ split,
      rw (append_assoc) (scan-group done pos g _ h.0 ∙ rw shape (colon ∙ rw (← shape) ih)),
    )

-- The numbers on one side of `::`: none written stands for one 0.
abbrev pub side : List Group → List ℕ
side [] = 0 ∷ []
side (g ∷ gs) = map group_value (g ∷ gs)

-- From the start up to the `::`.
scan-left :
    (xs : List Group) (rest : Bytes)
    → AreGroups xs
    → length xs ≤ 9
    → scan_loop (groups_text xs ++ (b':' ∷ b':' ∷ rest)) scan_start
      ≡ scan_loop rest (scanned (side xs) (some (length (side xs))) 0)
scan-left [] rest h le = scan-colons [] none 0 (omega arith) rest
scan-left (g ∷ gs) rest h le =
    let (init, last, split, read) = scan-groups [] none g gs (b':' ∷ b':' ∷ rest) h (omega arith) in
    let len = length-append init (last ∷ []) in
    let colons =
      scan-colons init none last (omega (arith, ap length split, len, length-map group_value gs))
        rest in
    read
    ∙ colons
    ∙ ap (λ n. scan_loop rest (scanned (init ++ (last ∷ [])) (some n) 0)) (sym len)
    ∙ ap (λ d. scan_loop rest (scanned d (some (length d)) 0)) (sym split)

-- From behind the `::` to the end.
scan-right :
    (done : List ℕ) (pos : Option ℕ) (ys : List Group)
    → AreGroups ys
    → length done + length (side ys) ≤ 9
    → scan_loop (groups_text ys) (scanned done pos 0) ≡ some (scanned (done ++ side ys) pos 0)
scan-right done pos [] h le = scan_end done pos 0 (omega arith)
scan-right done pos (g ∷ gs) h le =
    let (init, last, split, read) =
      scan-groups done pos g gs [] h (omega (arith, length-map group_value gs)) in
    let len = length-append init (last ∷ []) in
    let whole = length-append done (map group_value (g ∷ gs)) in
    let ended = scan_end init pos last (omega (arith, ap length split, len, whole)) in
    ap (λ t. scan_loop t (scanned done pos 0)) (sym (append-nil (groups_text (g ∷ gs))))
    ∙ read
    ∙ ended
    ∙ ap (λ d. some (scanned d pos 0)) (sym split)

take-append {ℓ} : {A : Type ℓ} (xs ys : List A) → take (length xs) (xs ++ ys) ≡ xs
take-append [] ys = refl
take-append (x ∷ xs) ys = ap (◌∷◌ x) (take-append xs ys)

drop-append {ℓ} : {A : Type ℓ} (xs ys : List A) → drop (length xs) (xs ++ ys) ≡ ys
drop-append [] ys = refl
drop-append (x ∷ xs) ys = drop-append xs ys

-- One cell is left behind `n` numbers, or fewer, in an array of one more.
drop_spare :
    (n : ℕ) (all : List ℕ)
    → length all ≤ n
    → drop n (all ++ replicate (suc n - length all) 0) ≡ 0 ∷ []
drop_spare zero [] h = refl
drop_spare zero (x ∷ all) h = absurd (omega arith)
drop_spare (suc n) [] h =
    let e : suc (suc n) - 0 ≡ suc (suc n) = omega arith in
    let e' : suc n ≡ suc n - 0 = omega arith in
    ap (λ k. drop (suc n) (replicate k 0)) e
    ∙ ap (λ k. drop n (replicate k 0)) e'
    ∙ drop_spare n [] (omega arith)
drop_spare (suc n) (x ∷ all) h =
    let e : suc (suc n) - suc (length all) ≡ suc n - length all = omega arith in
    rw e (drop_spare n all (omega arith))

all_le : (left right : List ℕ) → length left + length right ≤ 8 → length (left ++ right) ≤ 8
all_le left right le = omega (arith, length-append left right)

fill_gap_lem :
    (left right : List ℕ)
    → length left + length right ≤ 8
    → fill_gap (scanned (left ++ right) (some (length left)) 0)
      ≡ left ++ (replicate (8 - (length left + length right)) 0 ++ (right ++ (0 ∷ [])))
unfolding fill_gap
fill_gap_lem left right le =
    let all = left ++ right in
    let zeros : List ℕ = replicate (9 - length all) 0 in
    let len = length-append left right in
    let fits : ltb 8 (length (left ++ right)) ≡ false = ground (arith, length-append left right) in
    let front : take (length left) (all ++ zeros) ≡ left =
      ap (take (length left)) (append_assoc left right zeros) ∙ take-append left (right ++ zeros) in
    let back : drop (length left) (take (length all) (all ++ zeros)) ≡ right =
      ap (drop (length left)) (take-append all zeros) ∙ drop-append left right in
    let rest : drop 8 (all ++ zeros) ≡ 0 ∷ [] = drop_spare 8 all (all_le left right le) in
    rw fits (rw (front, back, rest) (rw len refl))

not_dot : (c : ℕ) (r : Bytes) → c == b'.' ≡ false → starts_with (str ".wh.") (c ∷ r) ≡ false
unfolding starts_with
not_dot c r h = ground arith

scan_ipv6_of_loop :
    (val : Bytes) (s : Scan)
    → starts_with (str ".wh.") val ≡ false
    → scan_loop val scan_start ≡ some s
    → scan_ipv6 val ≡ some (fill_gap s)
unfolding scan_ipv6
scan_ipv6_of_loop val s plain read = ground arith

hex_text_plain :
    (xs : List Group) (rest : Bytes)
    → AreGroups xs
    → starts_with (str ".wh.") (groups_text xs ++ (b':' ∷ rest)) ≡ false
unfolding starts_with
hex_text_plain [] rest h = refl
hex_text_plain (g ∷ gs) rest h =
    let (r, shape) = groups_text-cons g gs (b':' ∷ rest) in
    rw shape (ground (arith, first_byte_ne g h.0))

-- On an address of groups of one to four hexadecimal digits, letters of either case, `xs`, `::`, and
-- groups `ys`, without a dotted tail or a prefix length, at most eight groups in all where an empty
-- side counts for one, `scan_ipv6` writes nothing outside of the nine cells. It gives the
-- groups of the left side, as many zeros as are missing to eight, the groups of the right side,
-- and a zero in the cell for a prefix length.
pub scan_ipv6-groups :
    (xs ys : List Group)
    → AreGroups xs
    → AreGroups ys
    → length (side xs) + length (side ys) ≤ 8
    → scan_ipv6 (groups_text xs ++ (b':' ∷ b':' ∷ groups_text ys))
      ≡ some (
          side xs
          ++ (replicate (8 - (length (side xs) + length (side ys))) 0 ++ (side ys ++ (0 ∷ []))))
scan_ipv6-groups xs ys hx hy le =
    let plain = hex_text_plain xs (b':' ∷ groups_text ys) hx in
    let left = scan-left xs (groups_text ys) hx (side_length xs le) in
    let right = scan-right (side xs) (some (length (side xs))) ys hy (omega arith) in
    scan_ipv6_of_loop _ _ plain (left ∙ right) ∙ ap some (fill_gap_lem (side xs) (side ys) le)
  where
    side_length : (xs : List Group) → length (side xs) + length (side ys) ≤ 8 → length xs ≤ 9
    side_length [] h = omega arith
    side_length (g ∷ gs) h = omega (arith, length-map group_value gs)

-- All eight groups written out.
scan_ipv6_full :
    (g : Group) (gs : List Group)
    → AreGroups (g ∷ gs)
    → length gs ≡ 7
    → scan_ipv6 (groups_text (g ∷ gs)) ≡ some (map group_value (g ∷ gs) ++ (0 ∷ []))
unfolding fill_gap
scan_ipv6_full g gs h len =
    let (r, shape) = groups_text-cons g gs [] in
    let read = scan-right [] none (g ∷ gs) h (omega (arith, length-map group_value gs)) in
    let plain : starts_with (str ".wh.") (groups_text (g ∷ gs)) ≡ false =
      ap (starts_with (str ".wh.")) (sym (append-nil _) ∙ shape)
      ∙ not_dot (first_byte g) r (first_byte_ne g h.0).1 in
    let one : 9 - length (map group_value (g ∷ gs)) ≡ 1 =
      omega (arith, length-map group_value gs) in
    scan_ipv6_of_loop _ _ plain read
    ∙ ap (λ k. some (map group_value (g ∷ gs) ++ replicate k 0)) one
