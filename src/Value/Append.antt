-- ===== src/Value/Append.antt =====
-- `add_val` stays within its arrays and adds one string.
use vyatta_cfg.Prelude.{
  ℕ, zero, suc, ◌+◌, ◌-◌, ◌*◌, ◌/◌, ◌%◌, ◌≤◌, ◌<◌, ◌≡◌, ◌≢◌, refl, sym, ap, ◌∙◌, subst, true, false,
  List, [], ◌∷◌, ◌++◌, map, Option, none, some, Bytes, length, replicate, store, realloc,
  store-map-some, length-append, length-map, length-replicate, arith, append_assoc,
}
use native.Mathlib.Decide.{ℕ_discrete}
use vyatta_cfg.Value.{
  Value, ValType, ok, multi_alloc, grown, put_val, convert, add_val, filled, contents,
}

-- The cells to spare in an array of `n` strings whose size is a multiple of `multi_alloc`.
abbrev pub room : ℕ → ℕ
room n = (n + multi_alloc - 1) / multi_alloc * multi_alloc - n

-- The array holds `xs` in its first cells, and at least `k` more cells are allocated.
pub record Holds {ℓ} {A : Type ℓ} (cells : List (Option A)) (xs : List A) (k : ℕ) : Type ℓ where
  pub rest : List (Option A)
  pub split : cells ≡ map some xs ++ rest
  pub spare : k ≤ length rest

module _ {ℓ} {A : Type ℓ} where
  Holds-weaken :
      {cells : List (Option A)} {xs : List A} {k : ℕ} (j : ℕ)
      → Holds cells xs k
      → j ≤ k
      → Holds cells xs j
  Holds-weaken j h le = record { rest = h.rest; split = h.split; spare = omega (arith, h.spare) }

  Holds-store-rest :
      (cells rest : List (Option A)) (xs : List A) (k : ℕ) (a : A)
      → cells ≡ map some xs ++ rest
      → suc k ≤ length rest
      → (cells' : List (Option A)) × (store cells (length xs) a ≡ some cells')
        × Holds cells' (xs ++ (a ∷ [])) k
  Holds-store-rest cells [] xs k a e le = absurd (omega arith)
  Holds-store-rest cells (y ∷ r) xs k a e le = (
    map some (xs ++ (a ∷ [])) ++ r,
    rw e (store-map-some xs y r a),
    record { rest = r; split = refl; spare = omega arith },
  )

  Holds-store :
      {cells : List (Option A)} {xs : List A} {k : ℕ} (a : A)
      → Holds cells xs (suc k)
      → (cells' : List (Option A)) × (store cells (length xs) a ≡ some cells')
        × Holds cells' (xs ++ (a ∷ [])) k
  Holds-store {cells} {xs} {k} a h = Holds-store-rest cells h.rest xs k a h.split h.spare

  Holds-realloc :
      {cells : List (Option A)} {xs : List A} {k : ℕ} (n : ℕ)
      → Holds cells xs k
      → Holds (realloc (length xs + n) cells) xs n
  Holds-realloc {cells} {xs} n h = record {
    rest = h.rest ++ replicate (length xs + n - length cells) none;
    split =
        rw (← append_assoc) (ap (λ c. c ++ replicate (length xs + n - length cells) none) h.split);
    spare =
        let whole : length cells ≡ length xs + length h.rest =
          ap length h.split
          ∙ length-append (map some xs) h.rest
          ∙ omega (arith, length-map some xs) in
        omega (
          arith,
          length-append h.rest (replicate (length xs + n - length cells) none),
          length-replicate {A = Option A} (length xs + n - length cells) none,
        );
  }

-- One string, `cnt` 0, whatever the arrays are.
pub record IsSingle (v : Value) (s : Bytes) : Type 0 where
  pub own : v.free_me ≡ true
  pub no_cnt : v.cnt ≡ 0
  pub held : v.val ≡ some s

-- The strings `ss` in an array with the types `ts` beside them.
pub record IsMulti (v : Value) (ss : List Bytes) (ts : List ValType) (k : ℕ) : Type 0 where
  pub own : v.free_me ≡ true
  pub counted : v.cnt ≡ length ss
  pub typed : v.cnt ≡ length ts
  pub cells : Holds v.vals ss k
  pub type_cells : Holds v.val_types ts k

put_val_lem :
    (v second : Value) {ss : List Bytes} {ts : List ValType} {k : ℕ} {s : Bytes}
    → IsMulti v ss ts (suc k)
    → IsSingle second s
    → (w : Value) × (put_val v second ≡ ok (w, record second { free_me = false }))
      × IsMulti w (ss ++ (s ∷ [])) (ts ++ (second.val_type ∷ [])) k
unfolding put_val
put_val_lem v second {ss} {ts} {k} {s} m g =
    let (vals, stored, h) = Holds-store s m.cells in
    let (types, stored', h') = Holds-store second.val_type m.type_cells in
    let at_cnt = subst (λ n. store v.vals n s ≡ some vals) (sym m.counted) stored in
    let at_cnt' =
      subst (λ n. store v.val_types n second.val_type ≡ some types) (sym m.typed) stored' in
    (
      record v { vals = vals; val_types = types; cnt = v.cnt + 1 },
      ground (arith, g.held, at_cnt, at_cnt'),
      record {
        own = m.own;
        counted = omega (arith, m.counted, length-append ss (s ∷ []));
        typed = omega (arith, m.typed, length-append ts (second.val_type ∷ []));
        cells = h;
        type_cells = h';
      },
    )

convert_lem :
    (v : Value) {s : Bytes} {k : ℕ}
    → v.free_me ≡ true
    → v.val ≡ some s
    → Holds v.vals [] (suc k)
    → Holds v.val_types [] (suc k)
    → (w : Value) × (convert v ≡ ok w) × IsMulti w (s ∷ []) (v.val_type ∷ []) k
unfolding convert
convert_lem v {s} own held h h' =
    let (vals, stored, cells) = Holds-store s h in
    let (types, stored', type_cells) = Holds-store v.val_type h' in
    (
      record v { vals = vals; val_types = types; cnt = 1; val = none },
      ground (arith, stored, stored'),
      record { own = own; counted = refl; typed = refl; cells = cells; type_cells = type_cells },
    )

grown-Holds {ℓ} :
    {A : Type ℓ} {cells : List (Option A)} {xs : List A} {k : ℕ} (n : ℕ)
    → n ≡ length xs
    → Holds cells xs k
    → Holds (realloc (n + multi_alloc) cells) xs 5
grown-Holds {cells = cells} {xs} n e h =
    subst (λ m. Holds (realloc (m + multi_alloc) cells) xs 5) (sym e) (Holds-realloc 5 h)

Holds-nil {ℓ} : {A : Type ℓ} (cells : List (Option A)) → Holds cells [] 0
Holds-nil cells = record { rest = cells; split = refl; spare = omega arith }

-- A value that `add_val` may extend, with its strings.
pub data IsList (v : Value) : List Bytes → Type 0 where
  single : {s : Bytes} → IsSingle v s → IsList v (s ∷ [])
  multi :
      {ss : List Bytes} {ts : List ValType}
      → IsMulti v ss ts (room (length ss))
      → 0 < length ss
      → IsList v ss

pub contents_filled :
    (n : ℕ) (ss : List Bytes) (rest : List (Option Bytes))
    → n ≡ length ss
    → filled n (map some ss ++ rest) ≡ ss
contents_filled zero [] rest e = refl
contents_filled zero (s ∷ ss) rest e = absurd (omega arith)
contents_filled (suc n) [] rest e = absurd (omega arith)
contents_filled (suc n) (s ∷ ss) rest e = ap (◌∷◌ s) (contents_filled n ss rest (omega arith))

pub contents-IsList : {v : Value} {ss : List Bytes} → IsList v ss → contents v ≡ ss
unfolding contents
contents-IsList (single g) = ground (arith, g.held)
contents-IsList {v} (multi {ss} m p) =
    ground (arith, contents_filled (length ss) ss m.cells.rest refl, m.counted, m.cells.split)

room-suc : (n : ℕ) → n % 5 ≢ 0 → room n ≡ suc (room (n + 1))
room-suc n h = omega arith

room_full : (n : ℕ) → n % 5 ≡ 0 → room (n + 1) ≡ 4
room_full n h = omega arith

weaken-IsMulti :
    {v : Value} {ss : List Bytes} {ts : List ValType} {k : ℕ} (j : ℕ)
    → IsMulti v ss ts k
    → j ≤ k
    → IsMulti v ss ts j
weaken-IsMulti j m le = record {
  own = m.own;
  counted = m.counted;
  typed = m.typed;
  cells = Holds-weaken j m.cells le;
  type_cells = Holds-weaken j m.type_cells le;
}

-- `add_val` with memory at hand never leaves its arrays, and the strings of the first value
-- afterwards are those it had and the one of the second, which gives its string away.
pub add_val-IsList :
    (first second : Value) {ss : List Bytes} {s : Bytes}
    → IsList first ss
    → IsSingle second s
    → (w : Value) × (add_val true true first second ≡ ok (w, record second { free_me = false }))
      × IsList w (ss ++ (s ∷ []))
unfolding add_val
add_val-IsList first second {s = t} (single {s} h) g =
    let (f, converted, m) =
      convert_lem (grown first) h.own h.held (grown-Holds first.cnt h.no_cnt (Holds-nil first.vals))
        (grown-Holds first.cnt h.no_cnt (Holds-nil first.val_types)) in
    let (w, put, m') = put_val_lem f second {k = 3} m g in
    (w, ground (arith, converted, put), multi m' (omega arith))
add_val-IsList first second {s = t} (multi {ss} {ts} m p) g = elim (ℕ_discrete (length ss % 5) 0) [
  | yes full ↦
      let (w, put, m') =
        put_val_lem (grown first) second {k = 4}
          (record {
            own = m.own;
            counted = m.counted;
            typed = m.typed;
            cells = grown-Holds first.cnt m.counted m.cells;
            type_cells = grown-Holds first.cnt m.typed m.type_cells;
          })
          g in
      (
        w,
        ground (arith, put, m.counted, full),
        multi
            (weaken-IsMulti _ m'
              (omega (arith, room_full (length ss) full, length-append ss (t ∷ []))))
            (omega (arith, length-append ss (t ∷ []))),
      )
  | no more ↦
      let (w, put, m') =
        put_val_lem first second {k = room (length ss + 1)}
          (weaken-IsMulti _ m (omega (arith, room-suc (length ss) more))) g in
      (
        w,
        ground (arith, put, m.counted, more),
        multi (weaken-IsMulti _ m' (omega (arith, length-append ss (t ∷ []))))
            (omega (arith, length-append ss (t ∷ []))),
      )
]

-- With memory at hand, `add_val` succeeds on every value that holds a list of strings, and on
-- every second value that holds one string, also where the two types differ, which it does not
-- compare: it makes no write outside of its arrays, the first
-- value then stands for its strings followed by the string of the second, which no longer owns it,
-- and may be extended again.
pub add_val-contents :
    (first second : Value) {ss : List Bytes} {s : Bytes}
    → IsList first ss
    → IsSingle second s
    → (w : Value) × (add_val true true first second ≡ ok (w, record second { free_me = false }))
      × (contents w ≡ contents first ++ (s ∷ []))
      × IsList w (contents first ++ (s ∷ []))
add_val-contents first second {ss} {s} h g =
    let (w, done, l) = add_val-IsList first second h g in
    (w, done, rw (contents-IsList h) (contents-IsList l), rw (contents-IsList h) l)
