-- ===== src/Expand/Refused.antt =====
-- `expand_string` where memory is refused, and the call after it.
use vyatta_cfg.Expand.{
  Buffer, Env, next, failed, delta, grow, write, is_reference, pass_in, pass, expand_loop,
  expand_string,
}
use vyatta_cfg.Prelude.Outcome.{value, undefined, ◌>>=◌}
use vyatta_cfg.Prelude.{
  ℕ, zero, suc, ◌+◌, ◌-◌, ◌<◌, ◌≤◌, ◌≡◌, refl, ◌∙◌, inl, inr, Bool, true, false, not, ◌&&◌, [], ◌∷◌,
  ◌++◌, Bytes, length, length-append, leb, ltb, ◌==◌, starts_with, arith, Bool-cases,
}

-- No byte of a text is a `$`.
abbrev pub no_dollar : Bytes → Bool
no_dollar [] = true
no_dollar (c ∷ s) = not (c == b'$') && no_dollar s

is_reference-plain : (c : ℕ) (s : Bytes) → c == b'$' ≡ false → is_reference (c ∷ s) ≡ false
unfolding is_reference starts_with
is_reference-plain c s h = ground arith

-- A pass on a plain byte with room for two, as the buffer is believed to have.
pass-byte :
    (e : Env) (c : ℕ) (s : Bytes) (b : Buffer)
    → c == b'$' ≡ false
    → 1 < b.left
    → pass e c s b ≡ (do b' ← write (c ∷ []) 0 b; value (next s b'))
unfolding pass pass_in
pass-byte e c s b h room =
    let large : leb b.left 1 ≡ false = ground arith in
    rw (pass, large) (rw (pass_in, is_reference-plain c s h) refl)

abbrev after_byte : ℕ → Buffer → Buffer
after_byte c b = record b { out = b.out ++ (c ∷ []); left = b.left - 1 }

write-fits :
    (c : ℕ) (b : Buffer) → length b.out < b.alloc → write (c ∷ []) 0 b ≡ value (after_byte c b)
unfolding write
write-fits c b h = ground arith

write-behind :
    (s : Bytes) (nulls : ℕ) (b : Buffer)
    → b.alloc < length b.out + length s + nulls
    → write s nulls b ≡ undefined
unfolding write
write-behind s nulls b h = ground arith

length-after_byte : (c : ℕ) (b : Buffer) → length (after_byte c b).out ≡ length b.out + 1
length-after_byte c b = length-append b.out (c ∷ [])

pass-fits :
    (e : Env) (c : ℕ) (s : Bytes) (b : Buffer)
    → c == b'$' ≡ false
    → 1 < b.left
    → length b.out < b.alloc
    → pass e c s b ≡ value (next s (after_byte c b))
pass-fits e c s b plain room fits =
    rw (pass-byte e c s b plain room) (rw (write-fits c b fits) refl)

pass-behind :
    (e : Env) (c : ℕ) (s : Bytes) (b : Buffer)
    → c == b'$' ≡ false
    → 1 < b.left
    → length b.out ≡ b.alloc
    → pass e c s b ≡ undefined
pass-behind e c s b plain room full =
    rw (pass-byte e c s b plain room) (rw (write-behind (c ∷ []) 0 b (omega arith)) refl)

-- A plain byte, with another behind it.
loop-byte :
    (fuel : ℕ) (e : Env) (c d : ℕ) (s : Bytes) (b : Buffer)
    → c == b'$' ≡ false
    → 1 < b.left
    → length b.out < b.alloc
    → expand_loop (suc fuel) e c (d ∷ s) b ≡ expand_loop fuel e d s (after_byte c b)
unfolding expand_loop
loop-byte fuel e c d s b plain room fits =
    rw (expand_loop, pass-fits e c (d ∷ s) b plain room fits) refl

-- Memory is refused when the buffer has room for one byte.
refuses :
    (fuel : ℕ) (e : Env) (c : ℕ) (s : Bytes) (b : Buffer)
    → no_dollar (c ∷ s) ≡ true
    → e.memory (b.len + delta) ≡ false
    → length b.out + b.left ≡ b.alloc
    → b.left ≤ length s + 1
    → length s < fuel
    → (b' : Buffer) × (expand_loop fuel e c s b ≡ value (failed b'))
      × (b'.len ≡ b.len + delta)
      × (b'.alloc ≡ b.alloc)
unfolding expand_loop pass grow
refuses zero e c s b plain no_m tight more le = absurd (omega arith)
refuses (suc fuel) e c [] b plain no_m tight more le =
    let small : leb b.left 1 ≡ true = ground arith in
    (record b { len = b.len + delta }, rw (expand_loop, pass, small, grow, no_m) refl, refl, refl)
refuses (suc fuel) e c (d ∷ s) b plain no_m tight more le = elim (Bool-cases (leb b.left 1)) [
  | inl small ↦
      (record b { len = b.len + delta }, rw (expand_loop, pass, small, grow, no_m) refl, refl, refl)
  | inr large ↦
      let room : 1 < b.left = ground arith in
      let (b', ran, len, alloc) =
        refuses fuel e d s (after_byte c b) (ground arith) no_m
          (omega (arith, length-after_byte c b)) (omega arith) (omega arith) in
      (b', loop-byte fuel e c d s b (ground arith) room (omega arith) ∙ ran, len, alloc)
]

-- A length that was raised in vain: the end of the buffer is not seen.
overruns :
    (fuel : ℕ) (e : Env) (c : ℕ) (s : Bytes) (b : Buffer)
    → no_dollar (c ∷ s) ≡ true
    → length b.out + b.left ≡ b.alloc + delta
    → length b.out ≤ b.alloc
    → b.alloc ≤ length b.out + length s + 1
    → length s < fuel
    → expand_loop fuel e c s b ≡ undefined
unfolding expand_loop
overruns zero e c s b plain raised within long le = absurd (omega arith)
overruns (suc fuel) e c [] b plain raised within long le =
    elim (Bool-cases (ltb (length b.out) b.alloc)) [
      | inl inside ↦
          let full = write-behind [] 1 (after_byte c b) (ground (arith, length-after_byte c b)) in
          rw (expand_loop, pass-fits e c [] b (ground arith) (ground arith) (ground arith))
            (rw full refl)
      | inr at_end ↦
          rw (expand_loop, pass-behind e c [] b (ground arith) (ground arith) (ground arith)) refl
    ]
overruns (suc fuel) e c (d ∷ s) b plain raised within long le =
    elim (Bool-cases (ltb (length b.out) b.alloc)) [
      | inl inside ↦
          let len = length-after_byte c b in
          let room : 1 < b.left = ground arith in
          loop-byte fuel e c d s b (ground arith) room (ground arith)
          ∙ overruns fuel e d s (after_byte c b) (ground arith) (omega (arith, len))
              (ground (arith, len)) (omega (arith, len)) (omega arith)
      | inr at_end ↦
          rw (expand_loop, pass-behind e c (d ∷ s) b (ground arith) (ground arith) (ground arith))
            refl
    ]

-- A text without a `$` that does not fit into the buffer with its terminating zero, where memory
-- for 512 more bytes is refused: the first call ends with -1 and leaves the length 512 above what
-- is allocated, and a second call for the same text writes behind the buffer, whatever memory
-- there is then.
pub expand_string-refused :
    (e later : Env) (n c : ℕ) (s : Bytes)
    → no_dollar (c ∷ s) ≡ true
    → n ≤ length (c ∷ s)
    → e.memory (n + delta) ≡ false
    → (b : Buffer) × (expand_string e n n (c ∷ s) ≡ value (failed b))
      × (expand_string later b.len b.alloc (c ∷ s) ≡ undefined)
unfolding expand_string
expand_string-refused e later n c s plain long no_m =
    let (b, first, len, alloc) =
      refuses (length (c ∷ s)) e c s (record { len = n; alloc = n; left = n; out = [] }) plain no_m
        (omega arith) (omega arith) (omega arith) in
    (
      b,
      first,
      overruns (length (c ∷ s)) later c s
          (record { len = b.len; alloc = b.alloc; left = b.len; out = [] }) plain
          (omega (arith, len, alloc)) (omega arith) (omega (arith, alloc)) (omega arith),
    )
