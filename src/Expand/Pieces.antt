-- ===== src/Expand/Pieces.antt =====
-- Strings as plain bytes and references, and what `expand_string` makes of them.
use vyatta_cfg.Expand.Room.{IsTight, IsReady, put_value-IsReady, put_byte-IsReady, roomy, write_end}
use vyatta_cfg.Expand.{
  Buffer, Env, next, Expanded, done, write, before_paren, after_paren, marker, is_reference,
  is_self, put_reference, put_value, pass_in, pass, expand_loop, expand_string,
}
use vyatta_cfg.Prelude.Outcome.{Outcome, value, ◌>>=◌}
use vyatta_cfg.Prelude.{
  ℕ, zero, suc, ◌≤◌, ◌≡◌, refl, sym, ap, ◌∙◌, subst, Bool, true, false, List, [], ◌∷◌, ◌++◌, Option,
  none, some, Bytes, str, ◌==◌, ◌&&◌, not, length, arith, length-append, append_assoc, append-nil,
  starts_with,
}

-- A byte, `$VAR(@)`, or a reference to the path that begins with the byte and goes on with the text.
pub data Piece : Type 0 where
  plain : ℕ → Piece
  self : Piece
  ref : ℕ → Bytes → Piece

abbrev pub piece_source : Piece → Bytes
piece_source (plain c) = c ∷ []
piece_source self = str "$VAR(@)"
piece_source (ref c name) = marker ++ (c ∷ (name ++ (b')' ∷ [])))

abbrev pub source : List Piece → Bytes
source [] = []
source (plain c ∷ ps) = c ∷ source ps
source (self ∷ ps) = str "$VAR(@)" ++ source ps
source (ref c name ∷ ps) = marker ++ (c ∷ (name ++ (b')' ∷ source ps)))

abbrev pub found : Option Bytes → Bytes
found none = []
found (some s) = s

abbrev pub meaning : Env → List Piece → Bytes
meaning e [] = []
meaning e (plain c ∷ ps) = c ∷ meaning e ps
meaning e (self ∷ ps) = e.at_string ++ meaning e ps
meaning e (ref c name ∷ ps) = found (e.var_ref (c ∷ name)) ++ meaning e ps

abbrev pub no_paren : Bytes → Bool
no_paren [] = true
no_paren (c ∷ s) = not (c == b')') && no_paren s

-- A plain byte begins no reference; a path has no `)` and is not `@` alone.
abbrev pub ArePieces : List Piece → Type 0
ArePieces [] = Unit
ArePieces (plain c ∷ ps) = (is_reference (c ∷ source ps) ≡ false) × ArePieces ps
ArePieces (self ∷ ps) = ArePieces ps
ArePieces (ref c name ∷ ps) =
    (no_paren (c ∷ name) ≡ true)
    × (is_self (c ∷ (name ++ (b')' ∷ source ps))) ≡ false)
    × ArePieces ps

pub before_paren_lem : (s rest : Bytes) → no_paren s ≡ true → before_paren (s ++ (b')' ∷ rest)) ≡ s
unfolding before_paren
before_paren_lem [] rest h = refl
before_paren_lem (c ∷ s) rest h = ground (arith, before_paren_lem s rest)

pub after_paren_lem :
    (s rest : Bytes) → no_paren s ≡ true → after_paren (s ++ (b')' ∷ rest)) ≡ some rest
unfolding after_paren
after_paren_lem [] rest h = refl
after_paren_lem (c ∷ s) rest h = ground (arith, after_paren_lem s rest)

is_reference-marker : (c d : ℕ) (s : Bytes) → is_reference (marker ++ (c ∷ d ∷ s)) ≡ true
unfolding is_reference starts_with
is_reference-marker c d s = ground arith

name_cons : (name rest : Bytes) → (d : ℕ) × (s : Bytes) × (name ++ (b')' ∷ rest) ≡ d ∷ s)
name_cons [] rest = (b')', rest, refl)
name_cons (d ∷ name) rest = (d, name ++ (b')' ∷ rest), refl)

is_reference-path :
    (c : ℕ) (name s : Bytes) → is_reference (marker ++ (c ∷ (name ++ (b')' ∷ s)))) ≡ true
is_reference-path c name s =
    let (d, r, shape) = name_cons name s in rw shape (is_reference-marker c d r)

put_reference-ref :
    (e : Env) (c : ℕ) (name s : Bytes) (b : Buffer)
    → no_paren (c ∷ name) ≡ true
    → is_self (c ∷ (name ++ (b')' ∷ s))) ≡ false
    → put_reference e (c ∷ (name ++ (b')' ∷ s))) b ≡ put_value e (found (e.var_ref (c ∷ name))) s b
unfolding put_reference
put_reference-ref e c name s b no_p not_self =
    let behind = after_paren_lem (c ∷ name) s no_p in
    let front = before_paren_lem (c ∷ name) s no_p in ground (arith, behind, front)

-- A pass can begin on any buffer, and the string can end where there is a place for the zero.
abbrev Begins : List Piece → Buffer → Bytes → Type 0
Begins [] b out = IsReady b out
Begins (p ∷ ps) b out = IsTight b × (b.out ≡ out)

begins : (ps : List Piece) {b : Buffer} {out : Bytes} → IsReady b out → Begins ps b out
begins [] r = r
begins (p ∷ ps) r = (r.tight, r.holds)

-- The loop at a rest of the string, which may be empty.
abbrev run_at : ℕ → Env → Bytes → Buffer → Outcome Expanded
run_at fuel e [] b = do b' ← write [] 1 b; value (done b')
run_at fuel e (c ∷ s) b = expand_loop fuel e c s b

loop_step :
    (fuel : ℕ) (e : Env) (c : ℕ) (s : Bytes) (b : Buffer) (rest : Bytes) {b' : Buffer}
    → pass e c s b ≡ value (next rest b')
    → expand_loop (suc fuel) e c s b ≡ run_at fuel e rest b'
unfolding expand_loop
loop_step fuel e c s b [] p = rw (p, expand_loop)
loop_step fuel e c s b (d ∷ rest) p = rw (p, expand_loop)

abbrev fresh : ℕ → Buffer
fresh n = record { len = n; alloc = n; left = n; out = [] }

fresh_begins : (n : ℕ) → IsTight (fresh n) × (◌≡◌ {A = Bytes} [] [])
fresh_begins n = (record { whole = refl; rest = omega arith }, refl)

module _ (e : Env) (memory : (n : ℕ) → e.memory n ≡ true) where
  pass-plain :
      (c : ℕ) (s : Bytes) (b : Buffer)
      → is_reference (c ∷ s) ≡ false
      → IsTight b
      → (b' : Buffer) × (pass e c s b ≡ value (next s b')) × IsReady b' (b.out ++ (c ∷ []))
  unfolding pass_in
  pass-plain c s b o h =
      let (b₁, head, h₁, room, out) = roomy e memory b h in
      let (b₂, put, ready) = put_byte-IsReady c s b₁ h₁ room in
      (b₂, head c s ∙ rw (o, pass_in) put, subst (λ o. IsReady b₂ (o ++ (c ∷ []))) out ready)

  pass_self :
      (s : Bytes) (b : Buffer)
      → IsTight b
      → (b' : Buffer) × (pass e b'$' (str "VAR(@)" ++ s) b ≡ value (next s b'))
        × IsReady b' (b.out ++ e.at_string)
  unfolding pass_in put_reference is_self starts_with
  pass_self s b h =
      let (b₁, head, h₁, room, out) = roomy e memory b h in
      let (b₂, put, ready) = put_value-IsReady e memory e.at_string s b₁ h₁ in
      (
        b₂,
        head b'$' (str "VAR(@)" ++ s) ∙ rw (is_reference-marker b'@' b')' s, pass_in) put,
        subst (λ o. IsReady b₂ (o ++ e.at_string)) out ready,
      )

  pass-ref :
      (c : ℕ) (name s : Bytes) (b : Buffer)
      → no_paren (c ∷ name) ≡ true
      → is_self (c ∷ (name ++ (b')' ∷ s))) ≡ false
      → IsTight b
      → (b' : Buffer) × (pass e b'$' (str "VAR(" ++ (c ∷ (name ++ (b')' ∷ s)))) b
          ≡ value (next s b'))
        × IsReady b' (b.out ++ found (e.var_ref (c ∷ name)))
  unfolding pass_in
  pass-ref c name s b no_p not_self h =
      let (b₁, head, h₁, room, out) = roomy e memory b h in
      let cp = found (e.var_ref (c ∷ name)) in
      let (b₂, put, ready) = put_value-IsReady e memory cp s b₁ h₁ in
      (
        b₂,
        head b'$' (str "VAR(" ++ (c ∷ (name ++ (b')' ∷ s))))
            ∙ rw (is_reference-path c name s, pass_in)
                (put_reference-ref e c name s b₁ no_p not_self ∙ put),
        subst (λ o. IsReady b₂ (o ++ cp)) out ready,
      )

  run_pieces :
      (ps : List Piece) (fuel : ℕ) (b : Buffer) (out : Bytes)
      → ArePieces ps
      → Begins ps b out
      → length (source ps) ≤ fuel
      → (b' : Buffer) × (run_at fuel e (source ps) b ≡ value (done b'))
        × (b'.out ≡ out ++ meaning e ps)
  run_pieces [] fuel b out h r le =
      let (b', end, same) = write_end b out r in (b', rw end, same ∙ sym (append-nil out))
  run_pieces (p ∷ ps) zero b out h r le = absurd (no_fuel p le)
    where
      no_fuel : (p : Piece) → length (source (p ∷ ps)) ≤ 0 → ⊥
      no_fuel (plain c) le = omega arith
      no_fuel self le = omega arith
      no_fuel (ref c name) le = omega arith
  run_pieces (plain c ∷ ps) (suc fuel) b out h r le =
      let (b₁, passed, ready) = pass-plain c (source ps) b h.0 r.0 in
      let (b₂, ran, same) =
        run_pieces ps fuel b₁ (b.out ++ (c ∷ [])) h.1 (begins ps ready) (omega arith) in
      (
        b₂,
        loop_step fuel e c (source ps) b (source ps) passed ∙ ran,
        same
            ∙ ap (λ o. (o ++ (c ∷ [])) ++ meaning e ps) r.1
            ∙ append_assoc out (c ∷ []) (meaning e ps),
      )
  run_pieces (self ∷ ps) (suc fuel) b out h r le =
      let (b₁, passed, ready) = pass_self (source ps) b r.0 in
      let (b₂, ran, same) =
        run_pieces ps fuel b₁ (b.out ++ e.at_string) h (begins ps ready) (omega arith) in
      (
        b₂,
        loop_step fuel e b'$' _ b (source ps) passed ∙ ran,
        same
            ∙ ap (λ o. (o ++ e.at_string) ++ meaning e ps) r.1
            ∙ append_assoc out e.at_string (meaning e ps),
      )
  run_pieces (ref c name ∷ ps) (suc fuel) b out h r le =
      let cp = found (e.var_ref (c ∷ name)) in
      let (b₁, passed, ready) = pass-ref c name (source ps) b h.0 h.1 r.0 in
      let (b₂, ran, same) =
        run_pieces ps fuel b₁ (b.out ++ cp) h.2 (begins ps ready)
          (omega (arith, length-append name (b')' ∷ source ps))) in
      (
        b₂,
        loop_step fuel e b'$' _ b (source ps) passed ∙ ran,
        same ∙ ap (λ o. (o ++ cp) ++ meaning e ps) r.1 ∙ append_assoc out cp (meaning e ps),
      )

  -- A string made of bytes that begin no reference, of `$VAR(@)` and of references `$VAR(path)`,
  -- with at least one of them: with memory at hand, from a buffer as long as what is
  -- allocated, `expand_string` ends with `VTWERR_OK`, no write leaves the buffer, and `exe_string` is the
  -- string with each reference replaced by its value, by nothing where there is none.
  pub expand_string-pieces :
      (p : Piece) (ps : List Piece) (n : ℕ)
      → ArePieces (p ∷ ps)
      → (b : Buffer) × (expand_string e n n (source (p ∷ ps)) ≡ value (done b))
        × (b.out ≡ meaning e (p ∷ ps))
  unfolding expand_string
  expand_string-pieces (plain c) ps n h =
      run_pieces (plain c ∷ ps) (length (source (plain c ∷ ps))) (fresh n) [] h (fresh_begins n)
        (omega arith)
  expand_string-pieces self ps n h =
      run_pieces (self ∷ ps) (length (source (self ∷ ps))) (fresh n) [] h (fresh_begins n)
        (omega arith)
  expand_string-pieces (ref c name) ps n h =
      run_pieces (ref c name ∷ ps) (length (source (ref c name ∷ ps))) (fresh n) [] h
        (fresh_begins n) (omega arith)
