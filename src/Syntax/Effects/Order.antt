-- ===== src/Syntax/Effects/Order.antt =====
-- What a world adds to another, for src/cliexec/cli_new.c.
use vyatta_cfg.Prelude.Outcome.{Outcome, value, exited, undefined, ◌>>=◌}
use vyatta_cfg.Prelude.{
  ℕ, ◌≡◌, refl, sym, ap, ◌∙◌, Bool, true, false, List, [], ◌∷◌, ◌++◌, append-nil, append_assoc,
  Bytes, if◌then◌else◌,
}
use vyatta_cfg.Syntax.{Event, World, logged}

-- From `w` to `w'` the log has only grown, and the value that is validated and the at string are the same.
pub record Extends (w w' : World) : Type 0 where
  pub more : List Event
  pub log : w'.log ≡ w.log ++ more
  pub at_string : w'.at_string ≡ w.at_string
  pub validate_value : w'.validate_value ≡ w.validate_value
  pub in_validate : w'.in_validate ≡ w.in_validate

pub Extends-same : (w : World) → Extends w w
Extends-same w = record {
  more = [];
  log = sym (append-nil w.log);
  at_string = refl;
  validate_value = refl;
  in_validate = refl;
}

pub Extends-trans : {u v w : World} → Extends u v → Extends v w → Extends u w
Extends-trans {u} h k = record {
  more = h.more ++ k.more;
  log = k.log ∙ ap (λ l. l ++ k.more) h.log ∙ append_assoc u.log h.more k.more;
  at_string = k.at_string ∙ h.at_string;
  validate_value = k.validate_value ∙ h.validate_value;
  in_validate = k.in_validate ∙ h.in_validate;
}

pub Extends-logged : (w : World) (ev : Event) → Extends w (logged w ev)
Extends-logged w ev = record {
  more = ev ∷ [];
  log = refl;
  at_string = refl;
  validate_value = refl;
  in_validate = refl;
}

-- The same without the at string.
pub record Grows (w w' : World) : Type 0 where
  pub more : List Event
  pub log : w'.log ≡ w.log ++ more
  pub validate_value : w'.validate_value ≡ w.validate_value
  pub in_validate : w'.in_validate ≡ w.in_validate

pub Extends-Grows : {u w : World} → Extends u w → Grows u w
Extends-Grows h = record {
  more = h.more;
  log = h.log;
  validate_value = h.validate_value;
  in_validate = h.in_validate;
}

pub Grows-trans : {u v w : World} → Grows u v → Grows v w → Grows u w
Grows-trans {u} h k = record {
  more = h.more ++ k.more;
  log = k.log ∙ ap (λ l. l ++ k.more) h.log ∙ append_assoc u.log h.more k.more;
  validate_value = k.validate_value ∙ h.validate_value;
  in_validate = k.in_validate ∙ h.in_validate;
}

-- Where a call ends with a value, the world that belongs to it is related to the one before.
abbrev pub Ensures :
    (World → World → Type 0) → {A : Type 0} → (A → World) → World → Outcome A → Type 0
Ensures R world w (value a) = R w (world a)
Ensures R world w exited = Unit
Ensures R world w undefined = Unit

pub Ensures-map :
    (R S : World → World → Type 0) {u v : World} {B : Type 0} (wb : B → World) (o : Outcome B)
    → ((w : World) → R v w → S u w)
    → Ensures R wb v o
    → Ensures S wb u o
Ensures-map R S wb (value b) f e = f (wb b) e
Ensures-map R S wb exited f e = tt
Ensures-map R S wb undefined f e = tt

pub Ensures-bind :
    (R S : World → World → Type 0) {A B : Type 0} (wa : A → World) (wb : B → World) (w : World)
    (o : Outcome A) (f : A → Outcome B)
    → ((v w' : World) → R w v → S v w' → S w w')
    → Ensures R wa w o
    → ((a : A) → Ensures S wb (wa a) (f a))
    → Ensures S wb w (o >>= f)
Ensures-bind R S wa wb w exited f t h k = tt
Ensures-bind R S wa wb w undefined f t h k = tt
Ensures-bind R S wa wb w (value a) f t h k = Ensures-map S S wb (f a) (λ w'. t (wa a) w' h) (k a)

abbrev pub world_of : Bool × World → World
world_of e = e.1

-- Two steps that both extend.
pub then_Extends :
    {A B : Type 0} (wa : A → World) (wb : B → World) (w : World) (o : Outcome A) (f : A → Outcome B)
    → Ensures Extends wa w o
    → ((a : A) → Ensures Extends wb (wa a) (f a))
    → Ensures Extends wb w (o >>= f)
then_Extends wa wb w o f = Ensures-bind Extends Extends wa wb w o f (λ v w' h k. Extends-trans h k)

-- Both branches of a test.
pub on_test :
    {A : Type 0} (wa : A → World) (w : World) (b : Bool) (t f : Outcome A)
    → Ensures Extends wa w t
    → Ensures Extends wa w f
    → Ensures Extends wa w (elim b [ true ↦ t | false ↦ f ])
on_test wa w true t f h k = h
on_test wa w false t f h k = k

pub on_if :
    {A : Type 0} (wa : A → World) (w : World) (b : Bool) (t f : Outcome A)
    → Ensures Extends wa w t
    → Ensures Extends wa w f
    → Ensures Extends wa w (if b then t else f)
on_if wa w true t f h k = h
on_if wa w false t f h k = k

pub if_Extends : (w : World) (b : Bool) (u : World) → Extends w u → Extends w (if b then u else w)
if_Extends w true u h = h
if_Extends w false u h = Extends-same w

-- A result that leaves the world alone.
pub on_value : (w : World) (o : Outcome Bool) → Ensures Extends world_of w (o >>= λ b. value (b, w))
on_value w (value b) = Extends-same w
on_value w exited = tt
on_value w undefined = tt

-- The world after an expansion.
pub Extends-buffer :
    (w : World) (len alloc : ℕ) (exe : Bytes)
    → Extends w (record w { len = len; alloc = alloc; exe_string = exe })
Extends-buffer w len alloc exe = record {
  more = [];
  log = sym (append-nil w.log);
  at_string = refl;
  validate_value = refl;
  in_validate = refl;
}
