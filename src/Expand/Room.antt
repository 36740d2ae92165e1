-- ===== src/Expand/Room.antt =====
-- The buffer of `expand_string` while memory is at hand: no write leaves it.
use vyatta_cfg.Expand.{
  Buffer, Env, next, enlarged, delta, grow, write, grow_for, put_value, pass, pass_in,
}
use vyatta_cfg.Prelude.Outcome.{value, ◌>>=◌}
use vyatta_cfg.Prelude.{
  ℕ, zero, suc, ◌+◌, ◌-◌, ◌*◌, ◌<◌, ◌≤◌, ◌≡◌, refl, ◌∙◌, subst, inl, inr, true, [], ◌∷◌, ◌++◌,
  Bytes, ltb, leb, length, arith, length-append, append-nil, Bool-cases,
}

-- The length that is known is what is allocated, and `left` is what is left of it.
pub record IsTight (b : Buffer) : Type 0 where
  pub whole : b.len ≡ b.alloc
  pub rest : length b.out + b.left ≡ b.alloc

-- The state at the end of a pass: the terminating zero has a place.
pub record IsReady (b : Buffer) (out : Bytes) : Type 0 where
  pub tight : IsTight b
  pub place : 0 < b.left
  pub holds : b.out ≡ out

pub write_lem :
    (s : Bytes) (nulls : ℕ) (b : Buffer)
    → IsTight b
    → length s + nulls ≤ b.left
    → write s nulls b ≡ value (record b { out = b.out ++ s; left = b.left - length s })
unfolding write
write_lem s nulls b h fits = ground (arith, h.rest)

pub written :
    (s : Bytes) (b : Buffer)
    → IsTight b
    → length s < b.left
    → IsReady (record b { out = b.out ++ s; left = b.left - length s }) (b.out ++ s)
written s b h fits = record {
  tight = record { whole = h.whole; rest = omega (arith, h.rest, length-append b.out s) };
  place = omega arith;
  holds = refl;
}

-- A single byte, where there is room for it and for the end.
pub put_byte-IsReady :
    (c : ℕ) (rest : Bytes) (b : Buffer)
    → IsTight b
    → 1 < b.left
    → (b' : Buffer) × ((do b' ← write (c ∷ []) 0 b; value (next rest b')) ≡ value (next rest b'))
      × IsReady b' (b.out ++ (c ∷ []))
put_byte-IsReady c rest b h fits = (
  record b { out = b.out ++ (c ∷ []); left = b.left - length (c ∷ []) },
  rw (write_lem (c ∷ []) 0 b h (omega arith)) refl,
  written (c ∷ []) b h (omega arith),
)

pub write_end :
    (b : Buffer) (out : Bytes)
    → IsReady b out
    → (b' : Buffer) × (write [] 1 b ≡ value b') × (b'.out ≡ out)
write_end b out r = (
  record b { out = b.out ++ []; left = b.left - 0 },
  write_lem [] 1 b r.tight r.place,
  append-nil b.out ∙ r.holds,
)

module _ (e : Env) (memory : (n : ℕ) → e.memory n ≡ true) where
  grow-IsTight :
      (b : Buffer)
      → IsTight b
      → (b' : Buffer) × (grow e b ≡ enlarged b')
        × IsTight b'
        × (b'.left ≡ b.left + delta)
        × (b'.out ≡ b.out)
  unfolding grow
  grow-IsTight b h = (
    record b { len = b.len + delta; alloc = b.len + delta; left = b.left + delta },
    rw (memory (b.len + delta), grow),
    record { whole = refl; rest = omega (arith, h.whole, h.rest) },
    refl,
    refl,
  )

  grow_for-IsTight :
      (rounds len : ℕ) (b : Buffer)
      → IsTight b
      → len < b.left + delta * rounds
      → (b' : Buffer) × (grow_for rounds e len b ≡ enlarged b')
        × IsTight b'
        × (len < b'.left)
        × (b'.out ≡ b.out)
  unfolding grow_for
  grow_for-IsTight zero len b h m = (b, refl, h, omega arith, refl)
  grow_for-IsTight (suc rounds) len b h m = elim (Bool-cases (ltb b.left (len + 1))) [
    | inl small ↦
        let (b', grown, h', left, out) = grow-IsTight b h in
        let (b'', more, h'', enough, out') =
          grow_for-IsTight rounds len b' h' (omega (arith, left)) in
        (b'', rw (small, grown, grow_for) more, h'', enough, out' ∙ out)
    | inr large ↦ (b, rw (large, grow_for), h, ground arith, refl)
  ]

  pub put_value-IsReady :
      (cp rest : Bytes) (b : Buffer)
      → IsTight b
      → (b' : Buffer) × (put_value e cp rest b ≡ value (next rest b')) × IsReady b' (b.out ++ cp)
  unfolding put_value
  put_value-IsReady cp rest b h =
      let (b', grown, h', enough, out) =
        grow_for-IsTight (length cp + 1) (length cp) b h (omega arith) in
      (
        record b' { out = b'.out ++ cp; left = b'.left - length cp },
        rw (grown, put_value) (rw (write_lem cp 1 b' h' (omega arith)) refl),
        subst
            (λ o. IsReady (record b' { out = b'.out ++ cp; left = b'.left - length cp }) (o ++ cp))
            out (written cp b' h' enough),
      )

  -- The test at the head of a pass leaves room for a byte and the end.
  pub roomy :
      (b : Buffer)
      → IsTight b
      → (b' : Buffer) × ((c : ℕ) (s : Bytes) → pass e c s b ≡ pass_in e c s b')
        × IsTight b'
        × (1 < b'.left)
        × (b'.out ≡ b.out)
  unfolding pass
  roomy b h = elim (Bool-cases (leb b.left 1)) [
    | inl small ↦
        let (b', grown, h', left, out) = grow-IsTight b h in
        (b', λ c s. rw (small, grown, pass), h', omega (arith, left), out)
    | inr large ↦ (b, λ c s. rw (large, pass), h, ground arith, refl)
  ]
