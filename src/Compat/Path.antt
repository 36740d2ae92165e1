-- ===== src/Compat/Path.antt =====
-- `strVecToChar` of src/compat/cstore-compat.cpp beside `Cpath::to_path_string`.
use vyatta_cfg.Compat.{join_components, str_vec_to_char}
use vyatta_cfg.Cpath.{Uri, url_escape, escaped, to_path_string}
use vyatta_cfg.Prelude.Outcome.{Outcome, value, exited, undefined, ◌>>=◌}
use vyatta_cfg.Prelude.{◌≡◌, refl, sym, ap, ◌∙◌, List, [], ◌∷◌, ◌++◌, append_assoc, Bytes, str}

-- Two loops that differ in what they have put in front.
pub carried :
    {A : Type 0} (o : Outcome A) (f g : A → Outcome Bytes)
    → ((a : A) → f a ≡ g a)
    → (o >>= f) ≡ (o >>= g)
carried (value a) f g h = h a
carried exited f g h = refl
carried undefined f g h = refl

pub bind_assoc :
    (o : Outcome Bytes) (f g : Bytes → Outcome Bytes) → ((o >>= f) >>= g) ≡ (o >>= λ a. f a >>= g)
bind_assoc (value a) f g = refl
bind_assoc exited f g = refl
bind_assoc undefined f g = refl

join_components-escaped :
    (uri : Uri) (c : Bytes) (cs : List Bytes) (path : Bytes)
    → join_components uri path (c ∷ cs)
      ≡ (escaped uri (str "/") (c ∷ cs) >>= λ s. value (path ++ s))
unfolding join_components escaped
join_components-escaped uri c [] path = refl
join_components-escaped uri c (d ∷ cs) path =
    carried (url_escape uri c) (λ e. join_components uri (path ++ (e ++ str "/")) (d ∷ cs))
      (λ e. (escaped uri (str "/") (d ∷ cs) >>= λ rest. value (e ++ (str "/" ++ rest))) >>= λ s.
        value (path ++ s))
      (λ e.
        join_components-escaped uri d cs (path ++ (e ++ str "/"))
        ∙ carried (escaped uri (str "/") (d ∷ cs)) (λ s. value ((path ++ (e ++ str "/")) ++ s))
            (λ rest. value (path ++ (e ++ (str "/" ++ rest))))
            (λ rest. ap value (
              append_assoc path (e ++ str "/") rest
              ∙ ap (λ u. path ++ u) (append_assoc e (str "/") rest)))
        ∙ sym (
            bind_assoc (escaped uri (str "/") (d ∷ cs)) (λ rest. value (e ++ (str "/" ++ rest)))
              (λ s. value (path ++ s))))
    ∙ sym (
        bind_assoc (url_escape uri c)
          (λ e. escaped uri (str "/") (d ∷ cs) >>= λ rest. value (e ++ (str "/" ++ rest)))
          (λ s. value (path ++ s)))

-- On two or more components `strVecToChar` gives the path that `to_path_string` gives, also where
-- either writes behind its buffer; a single component it gives as it is, neither escaped nor behind a slash.
pub str_vec_to_char-to_path_string :
    (uri : Uri) (c d : Bytes) (cs : List Bytes)
    → (str_vec_to_char uri (c ∷ d ∷ cs) ≡ to_path_string uri (c ∷ d ∷ cs))
      × (str_vec_to_char uri (c ∷ []) ≡ value c)
unfolding str_vec_to_char to_path_string
str_vec_to_char-to_path_string uri c d cs = (join_components-escaped uri c (d ∷ cs) (str "/"), refl)
