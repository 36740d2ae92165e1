-- ===== src/Client/Paths.antt =====
-- The paths of a rename or a copy: src/client/transaction.c. The vectors of argz are lists; a call
-- of argz fails only for want of memory, which is at hand. How `argz_create_sep` cuts a text into
-- elements is the parameter `create_sep`.
use vyatta_cfg.Prelude.{
  ℕ, zero, suc, ◌+◌, ◌-◌, ◌%◌, ◌^◌, ◌<◌, ◌≡◌, refl, sym, ap, List, [], ◌∷◌, ◌++◌, append_assoc,
  Option, none, some, Bytes, arith, length, length-append,
}

-- `argz_pop`: without the last element.
unfoldable pub argz_pop : List Bytes → List Bytes
argz_pop [] = []
argz_pop (e ∷ []) = []
argz_pop (e ∷ f ∷ es) = e ∷ argz_pop (f ∷ es)

-- The first loop of `split_path`: `n` elements are copied; the result has those and what follows.
unfoldable pub copy_elements : ℕ → List Bytes → Option (List Bytes × List Bytes)
copy_elements zero es = some ([], es)
copy_elements (suc n) [] = none
copy_elements (suc n) (e ∷ es) = elim (copy_elements n es) [
  | none ↦ none
  | some (es', rest) ↦ some (e ∷ es', rest)
]

-- The second loop: `n` more elements are passed, and the last one is kept.
unfoldable pub pass_elements : ℕ → Bytes → List Bytes → Option Bytes
pass_elements zero next es = some next
pass_elements (suc n) next [] = none
pass_elements (suc n) next (e ∷ es) = pass_elements n e es

-- `split_path`: `from` and `to`; `count - 3` is unsigned.
unfoldable pub split_path : List Bytes → Option (List Bytes × List Bytes)
split_path es = elim (copy_elements ((length es + (2 ^ 64 - 3)) % 2 ^ 64) es) [
  | none ↦ none
  | some (new_to, rest) ↦ elim (pass_elements 3 [] rest) [
    | none ↦ none
    | some last ↦ some (argz_pop (argz_pop es), new_to ++ (last ∷ []))
  ]
]

-- `argz_stringify` with a slash.
unfoldable pub stringify : List Bytes → Bytes
stringify [] = []
stringify (e ∷ []) = e
stringify (e ∷ f ∷ es) = e ++ (b'/' ∷ stringify (f ∷ es))

unfoldable pub make_paths : (ℕ → Bytes → List Bytes) → Bytes → Option (Bytes × Bytes)
make_paths create_sep path = elim (split_path (create_sep b'/' path)) [
  | none ↦ none
  | some (from, to) ↦ some (stringify ([] ∷ from), stringify ([] ∷ to))
]

copy_elements-append : (es fs : List Bytes) → copy_elements (length es) (es ++ fs) ≡ some (es, fs)
unfolding copy_elements
copy_elements-append [] fs = refl
copy_elements-append (e ∷ es) fs = rw (copy_elements-append es fs)

argz_pop-append : (es : List Bytes) (e : Bytes) → argz_pop (es ++ (e ∷ [])) ≡ es
unfolding argz_pop
argz_pop-append [] e = refl
argz_pop-append (d ∷ []) e = refl
argz_pop-append (d ∷ c ∷ es) e = ap (◌∷◌ d) (argz_pop-append (c ∷ es) e)

copy_elements_short : (n : ℕ) (es : List Bytes) → length es < n → copy_elements n es ≡ none
unfolding copy_elements
copy_elements_short zero es h = absurd (omega arith)
copy_elements_short (suc n) [] h = refl
copy_elements_short (suc n) (e ∷ es) h = rw (copy_elements_short n es (omega arith))

split_path-three :
    (es : List Bytes) (old qualifier new : Bytes)
    → length es < 2 ^ 64
    → split_path (es ++ (old ∷ qualifier ∷ new ∷ [])) ≡ some (es ++ (old ∷ []), es ++ (new ∷ []))
unfolding split_path pass_elements
split_path-three es old qualifier new h =
    let three = old ∷ qualifier ∷ new ∷ [] in
    let count : (length (es ++ three) + (2 ^ 64 - 3)) % 2 ^ 64 ≡ length es =
      omega (arith, length-append es three) in
    let pops : argz_pop (argz_pop (es ++ three)) ≡ es ++ (old ∷ []) = rw (
      sym (append_assoc es (old ∷ qualifier ∷ []) (new ∷ [])),
      argz_pop-append (es ++ (old ∷ qualifier ∷ [])) new,
      sym (append_assoc es (old ∷ []) (qualifier ∷ [])),
      argz_pop-append (es ++ (old ∷ [])) qualifier,
    ) in
    rw (split_path, count, copy_elements-append es three, pops)

split_path_short : (es : List Bytes) → length es < 3 → split_path es ≡ none
unfolding split_path
split_path_short es h =
    let failed : copy_elements ((length es + (2 ^ 64 - 3)) % 2 ^ 64) es ≡ none =
      copy_elements_short _ es (omega arith) in
    rw (split_path, failed)

-- A path whose last three elements are the old name, a word and the new name is made into the path of
-- the old name and that of the new one, each with a leading slash and behind the same elements, and
-- the word is in neither; a path of less than three elements is refused. The elements are those that
-- `argz_create_sep` finds, and there are less than 2^64 of them.
pub make_paths-three :
    (create_sep : ℕ → Bytes → List Bytes) (path : Bytes) (es : List Bytes)
    (old qualifier new : Bytes)
    → length es < 2 ^ 64
    → create_sep b'/' path ≡ es ++ (old ∷ qualifier ∷ new ∷ [])
    → (make_paths create_sep path
        ≡ some (stringify ([] ∷ es ++ (old ∷ [])), stringify ([] ∷ es ++ (new ∷ []))))
      × ((short : Bytes) → length (create_sep b'/' short) < 3 → make_paths create_sep short ≡ none)
unfolding make_paths
make_paths-three create_sep path es old qualifier new h found = (
  rw (make_paths, found, split_path-three es old qualifier new h),
  λ short few. rw (make_paths, split_path_short (create_sep b'/' short) few),
)
