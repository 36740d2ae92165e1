-- ===== src/Expand/Total.antt =====
-- `expand_string` on any string but the empty one: how it ends.
use vyatta_cfg.Expand.Room.{IsTight, IsReady, write_lem, written, put_byte-IsReady}
use vyatta_cfg.Expand.{
  Buffer, Env, Step, next, error, Grown, enlarged, no_memory, Expanded, done, failed, delta, grow,
  write, grow_for, before_paren, after_paren, is_reference, is_self, put_reference, put_value,
  pass_in, pass, expand_loop, expand_string,
}
use vyatta_cfg.Prelude.Outcome.{Outcome, value, exited, undefined, ◌>>=◌}
use vyatta_cfg.Prelude.{
  ℕ, zero, suc, ◌+◌, ◌-◌, ◌++◌, ◌<◌, ◌≤◌, ◌≡◌, ◌⊎◌, refl, inl, inr, [], ◌∷◌, Option, none, some,
  Bytes, length, drop, arith, Bool-cases, false, ltb, leb, ◌==◌,
}

-- The length is what is allocated, or by `EXE_STRING_DELTA` more where `realloc` has failed.
pub data IsLeft (e : Env) (b : Buffer) : Type 0 where
  whole : b.len ≡ b.alloc → IsLeft e b
  raised : b.len ≡ b.alloc + delta → e.memory b.len ≡ false → IsLeft e b

-- How a pass ends: at a shorter rest, with -1, or in `exit`.
data Passed (e : Env) (n : ℕ) : Outcome Step → Type 0 where
  advanced :
      {rest : Bytes} {b : Buffer} {out : Bytes}
      → IsReady b out
      → length rest ≤ n
      → Passed e n (value (next rest b))
  refused : {b : Buffer} → IsLeft e b → Passed e n (value (error b))
  stopped : Passed e n exited

-- Room is refused, or the result holds.
abbrev HasRoom : Env → ℕ → Grown → Type 0
HasRoom e len o =
    ((b : Buffer) × (o ≡ no_memory b) × IsLeft e b)
    ⊎ ((b : Buffer) × (o ≡ enlarged b) × IsTight b × (len < b.left))

grow-HasRoom : (e : Env) (b : Buffer) → IsTight b → HasRoom e (b.left + 511) (grow e b)
unfolding grow
grow-HasRoom e b h = elim (Bool-cases (e.memory (b.len + delta))) [
  | inl yes_m ↦ inr (
    record b { len = b.len + delta; alloc = b.len + delta; left = b.left + delta },
    rw (grow, yes_m) refl,
    record { whole = refl; rest = omega (arith, h.whole, h.rest) },
    omega arith,
  )
  | inr no_m ↦
      inl (
        record b { len = b.len + delta },
        rw (grow, no_m) refl,
        raised (omega (arith, h.whole)) no_m,
      )
]

-- The fuel is enough: every round makes more room.
grow_for-HasRoom :
    (rounds : ℕ) (e : Env) (len : ℕ) (b : Buffer)
    → IsTight b
    → len < b.left + rounds
    → HasRoom e len (grow_for rounds e len b)
unfolding grow_for
grow_for-HasRoom zero e len b h m = inr (b, refl, h, omega arith)
grow_for-HasRoom (suc rounds) e len b h m = elim (Bool-cases (ltb b.left (len + 1))) [
  | inl small ↦ elim (grow-HasRoom e b h) [
    | inl (b', none_left, l) ↦ inl (b', rw (grow_for, small, none_left) refl, l)
    | inr (b', grown, h', more) ↦ elim (grow_for-HasRoom rounds e len b' h' (omega arith)) [
      | inl (b'', none_left, l) ↦ inl (b'', rw (grow_for, small, grown) none_left, l)
      | inr (b'', last, h'', enough) ↦ inr (b'', rw (grow_for, small, grown) last, h'', enough)
    ]
  ]
  | inr large ↦ inr (b, rw (grow_for, large) refl, h, ground arith)
]

put_value-Passed :
    (e : Env) (n : ℕ) (cp rest : Bytes) (b : Buffer)
    → IsTight b
    → length rest ≤ n
    → Passed e n (put_value e cp rest b)
unfolding put_value
put_value-Passed e n cp rest b h le =
    elim (grow_for-HasRoom (length cp + 1) e (length cp) b h (omega arith)) [
      | inl (b', none_left, l) ↦ rw (put_value, none_left) (refused l)
      | inr (b', grown, h', enough) ↦
          rw (put_value, grown)
            (rw (write_lem cp 1 b' h' (omega arith)) (advanced (written cp b' h' enough) le))
    ]

length-drop_le : (k : ℕ) (s : Bytes) → length (drop k s) ≤ length s
length-drop_le zero s = omega arith
length-drop_le (suc k) [] = omega arith
length-drop_le (suc k) (c ∷ s) = omega (arith, length-drop_le k s)

abbrev HasRest : Bytes → Type 0
HasRest s =
    (after_paren s ≡ none)
    ⊎ ((rest : Bytes) × (after_paren s ≡ some rest) × (length rest ≤ length s))

after_paren-HasRest : (s : Bytes) → HasRest s
unfolding after_paren
after_paren-HasRest [] = inl refl
after_paren-HasRest (c ∷ s) = elim (Bool-cases (c == b')')) [
  | inl here ↦ inr (s, rw (after_paren, here) refl, omega arith)
  | inr further ↦ elim (after_paren-HasRest s) [
    | inl missing ↦ inl (rw (after_paren, further) missing)
    | inr (rest, behind, le) ↦ inr (rest, rw (after_paren, further) behind, omega arith)
  ]
]

named_value-Passed :
    (e : Env) (n : ℕ) (cp : Option Bytes) (rest : Bytes) (b : Buffer)
    → IsTight b
    → length rest ≤ n
    → Passed e n (elim cp [ none ↦ put_value e [] rest b | some v ↦ put_value e v rest b ])
named_value-Passed e n none rest b h le = put_value-Passed e n [] rest b h le
named_value-Passed e n (some v) rest b h le = put_value-Passed e n v rest b h le

named-Passed :
    (e : Env) (n : ℕ) (name rest : Bytes) (b : Buffer)
    → IsTight b
    → length rest ≤ n
    → Passed e n (elim name [
      | [] ↦ exited
      | c ∷ s ↦ elim (e.var_ref (c ∷ s)) [
        | none ↦ put_value e [] rest b
        | some v ↦ put_value e v rest b
      ]
    ])
named-Passed e n [] rest b h le = stopped
named-Passed e n (c ∷ s) rest b h le = named_value-Passed e n (e.var_ref (c ∷ s)) rest b h le

put_reference-Passed :
    (e : Env) (n : ℕ) (path : Bytes) (b : Buffer)
    → IsTight b
    → length path ≤ n
    → Passed e n (put_reference e path b)
unfolding put_reference
put_reference-Passed e n path b h le = elim (Bool-cases (is_self path)) [
  | inl to_self ↦
      rw (put_reference, to_self)
        (put_value-Passed e n e.at_string (drop 2 path) b h (omega (arith, length-drop_le 2 path)))
  | inr other ↦ elim (after_paren-HasRest path) [
    | inl missing ↦ rw (put_reference, other, missing) (refused (whole h.whole))
    | inr (rest, behind, shorter) ↦
        rw (put_reference, other, behind)
          (named-Passed e n (before_paren path) rest b h (omega arith))
  ]
]

pass_in-Passed :
    (e : Env) (c : ℕ) (s : Bytes) (b : Buffer)
    → IsTight b
    → 1 < b.left
    → Passed e (length s) (pass_in e c s b)
unfolding pass_in
pass_in-Passed e c s b h room = elim (Bool-cases (is_reference (c ∷ s))) [
  | inl reference ↦
      rw (pass_in, reference)
        (put_reference-Passed e (length s) (drop 4 s) b h (length-drop_le 4 s))
  | inr byte ↦
      let (b', put, ready) = put_byte-IsReady c s b h room in
      rw (pass_in, byte) (rw put (advanced ready (omega arith)))
]

pass-Passed :
    (e : Env) (c : ℕ) (s : Bytes) (b : Buffer) → IsTight b → Passed e (length s) (pass e c s b)
unfolding pass
pass-Passed e c s b h = elim (Bool-cases (leb b.left 1)) [
  | inl small ↦ elim (grow-HasRoom e b h) [
    | inl (b', none_left, l) ↦ rw (pass, small, none_left) (refused l)
    | inr (b', grown, h', more) ↦ rw (pass, small, grown) (pass_in-Passed e c s b' h' (omega arith))
  ]
  | inr large ↦ rw (pass, large) (pass_in-Passed e c s b h (ground arith))
]

-- A run that has ended: with a text in a buffer whose length is what is allocated, with -1, or in `exit`.
pub data Ended (e : Env) : Outcome Expanded → Type 0 where
  returned : (b : Buffer) → b.len ≡ b.alloc → Ended e (value (done b))
  given_up : (b : Buffer) → IsLeft e b → Ended e (value (failed b))
  left : Ended e exited

closed_whole :
    (b : Buffer) (out : Bytes)
    → IsReady b out
    → (b' : Buffer) × (write [] 1 b ≡ value b') × (b'.len ≡ b'.alloc)
closed_whole b out r = (
  record b { out = b.out ++ []; left = b.left - 0 },
  write_lem [] 1 b r.tight r.place,
  r.tight.whole,
)

-- The loop with what a pass gave, for a loop that ends at every shorter rest.
loop_behind :
    (fuel : ℕ) (e : Env) (o : Outcome Step)
    → ((d : ℕ) (r : Bytes) (b : Buffer)
        → IsTight b
        → length r < fuel
        → Ended e (expand_loop fuel e d r b))
    → Passed e fuel o
    → Ended e (elim o [
      | value (next (d ∷ r) b') ↦ expand_loop fuel e d r b'
      | value (next [] b') ↦ do b'' ← write [] 1 b'; value (done b'')
      | value (error b') ↦ value (failed b')
      | exited ↦ exited
      | undefined ↦ undefined
    ])
loop_behind fuel e _ ends (advanced {rest = []} {b} {out} ready le) =
    let (b'', closed, tight) = closed_whole b out ready in rw closed (returned b'' tight)
loop_behind fuel e _ ends (advanced {rest = d ∷ r} {b} ready le) =
    ends d r b ready.tight (omega arith)
loop_behind fuel e _ ends (refused {b} l) = given_up b l
loop_behind fuel e _ ends stopped = left

weaken-Passed : (e : Env) (n m : ℕ) {o : Outcome Step} → n ≤ m → Passed e n o → Passed e m o
weaken-Passed e n m le (advanced ready shorter) = advanced ready (omega arith)
weaken-Passed e n m le (refused l) = refused l
weaken-Passed e n m le stopped = stopped

expand_loop-Ended :
    (fuel : ℕ) (e : Env) (c : ℕ) (s : Bytes) (b : Buffer)
    → IsTight b
    → length s < fuel
    → Ended e (expand_loop fuel e c s b)
unfolding expand_loop
expand_loop-Ended zero e c s b h le = absurd (omega arith)
expand_loop-Ended (suc fuel) e c s b h le =
    loop_behind fuel e (pass e c s b)
      (λ d r b' h' shorter. expand_loop-Ended fuel e d r b' h' shorter)
      (weaken-Passed e (length s) fuel (omega arith) (pass-Passed e c s b h))

-- Whatever memory `realloc` finds and whatever the variables are, `expand_string` ends on every
-- string that is not empty, from a buffer whose length `exe_string_len` is what is allocated: with
-- `VTWERR_OK`, and the length again is what is allocated; with -1, and it is, or it is 512 more
-- where memory of that length was refused; or in `exit`. No byte is written outside of the buffer,
-- and the fuel of the loops, the length of the string and of each value, is enough. A buffer whose
-- length is more than what is allocated is not among those it may start from.
pub expand_string-Ended : (e : Env) (n c : ℕ) (s : Bytes) → Ended e (expand_string e n n (c ∷ s))
unfolding expand_string
expand_string-Ended e n c s =
    expand_loop-Ended (length (c ∷ s)) e c s (record { len = n; alloc = n; left = n; out = [] })
      (record { whole = refl; rest = omega arith }) (omega arith)
