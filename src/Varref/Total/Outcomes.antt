-- ===== src/Varref/Total/Outcomes.antt =====
-- Outcomes that are values, for the paths of src/cliexec/cstore-varref.cpp.
use vyatta_cfg.Cpath.{Uri, Cpath, push, pop, nth, url_escape, escaped, to_path_string}
use vyatta_cfg.Prelude.Outcome.{Outcome, value, ◌>>=◌}
use vyatta_cfg.Prelude.{
  ℕ, zero, suc, ◌+◌, ◌*◌, ◌<◌, ◌≤◌, ◌≡◌, Bool, true, false, List, [], ◌∷◌, ◌++◌, Bytes, arith, leb,
  length, if◌then◌else◌,
}
use vyatta_cfg.Varref.{Added, both}

-- The text of a component fits, with its zero, into the bytes that are asked for.
abbrev pub Fits : Uri → Bytes → Type 0
Fits uri c = length (uri.escape c) + 1 ≤ length c * 6

abbrev pub AllFit : Uri → List Bytes → Type 0
AllFit uri [] = Unit
AllFit uri (c ∷ p) = Fits uri c × AllFit uri p

-- A call that ends with a value, about which something holds.
pub data Gives {A : Type 0} (P : A → Type 0) : Outcome A → Type 0 where
  gives : {a : A} → P a → Gives P (value a)

pub Gives-bind :
    {A B : Type 0} (P : A → Type 0) (Q : B → Type 0) (o : Outcome A) (f : A → Outcome B)
    → Gives P o
    → ((a : A) → P a → Gives Q (f a))
    → Gives Q (o >>= f)
Gives-bind P Q _ f (gives {a} p) h = h a p

-- Nothing more than that there is a value.
abbrev pub Any : {A : Type 0} → A → Type 0
Any a = Unit

pub Gives-if :
    {B : Type 0} (Q : B → Type 0) (b : Bool) (x y : Outcome B)
    → Gives Q x
    → Gives Q y
    → Gives Q (if b then x else y)
Gives-if Q true x y h k = h
Gives-if Q false x y h k = k

pub push-AllFit :
    (uri : Uri) (s : Bytes) (p : Cpath) → Fits uri s → AllFit uri p → AllFit uri (push s p)
unfolding push
push-AllFit uri s [] f h = (f, tt)
push-AllFit uri s (c ∷ p) f h = (h.0, push-AllFit uri s p f h.1)

pub pop-AllFit :
    (uri : Uri) (c : Bytes) (p : Cpath) → AllFit uri (c ∷ p) → Gives (AllFit uri) (pop (c ∷ p))
unfolding pop
pop-AllFit uri c [] h = gives tt
pop-AllFit uri c (d ∷ p) h =
    Gives-bind (AllFit uri) (AllFit uri) (pop (d ∷ p)) (λ rest. value (c ∷ rest))
      (pop-AllFit uri d p h.1) (λ rest k. gives (h.0, k))

pub nth-Fits :
    (uri : Uri) (p : Cpath) (n : ℕ) → AllFit uri p → n < length p → Gives (Fits uri) (nth p n)
unfolding nth
nth-Fits uri [] n h lt = absurd (omega arith)
nth-Fits uri (c ∷ p) zero h lt = gives h.0
nth-Fits uri (c ∷ p) (suc n) h lt = nth-Fits uri p n h.1 (omega arith)

pub url_escape-Gives : (uri : Uri) (c : Bytes) → Fits uri c → Gives Any (url_escape uri c)
unfolding url_escape
url_escape-Gives uri c h =
    let short : leb (length (uri.escape c) + 1) (length c * 6) ≡ true = ground arith in
    rw (url_escape, short) (gives tt)

pub escaped-Gives :
    (uri : Uri) (sep : Bytes) (p : Cpath) → AllFit uri p → Gives Any (escaped uri sep p)
unfolding escaped
escaped-Gives uri sep [] h = gives tt
escaped-Gives uri sep (c ∷ []) h = url_escape-Gives uri c h.0
escaped-Gives uri sep (c ∷ d ∷ p) h =
    Gives-bind Any Any (url_escape uri c)
      (λ first. escaped uri sep (d ∷ p) >>= λ rest. value (first ++ (sep ++ rest)))
      (url_escape-Gives uri c h.0)
      λ first k.
        Gives-bind Any Any (escaped uri sep (d ∷ p)) (λ rest. value (first ++ (sep ++ rest)))
          (escaped-Gives uri sep (d ∷ p) h.1) λ rest l. gives tt

pub to_path_string-Gives : (uri : Uri) (p : Cpath) → AllFit uri p → Gives Any (to_path_string uri p)
unfolding to_path_string
to_path_string-Gives uri p h =
    Gives-bind Any Any (escaped uri (b'/' ∷ []) p) (λ s. value (b'/' ∷ s))
      (escaped-Gives uri (b'/' ∷ []) p h) λ s k. gives tt

pub both-Gives : (o p : Outcome Added) → Gives Any o → Gives Any p → Gives Any (both o p)
both-Gives _ _ (gives h) (gives k) = gives tt
