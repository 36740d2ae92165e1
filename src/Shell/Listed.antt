-- ===== src/Shell/Listed.antt =====
-- What a shell reads of the lists that src/cli_shell_api.cpp prints.
use vyatta_cfg.Client.Calls.{configd_node_get}
use vyatta_cfg.Client.{Arg, Conn}
use vyatta_cfg.Completion.Quoting.{outside, quoted, prepended, shell_words, quoted-byte}
use vyatta_cfg.Prelude.Integer.{pos}
use vyatta_cfg.Prelude.Outcome.{value}
use vyatta_cfg.Prelude.{
  ℕ, ◌≡◌, refl, ap, ◌∙◌, Bool, true, false, not, ◌&&◌, List, [], ◌∷◌, ◌++◌, append_assoc,
  append-nil, Option, none, some, Bytes, ◌==◌, arith,
}
use vyatta_cfg.Rpc.{Lib, Exchange}
use vyatta_cfg.Shell.Ops.{returned, quoted_list, list_nodes_of}
use vyatta_cfg.Shell.{Outside, Environment, Options}

-- No byte of a text is a single quote.
abbrev pub no_quote : Bytes → Bool
no_quote [] = true
no_quote (c ∷ s) = not (c == b'\'') && no_quote s

abbrev pub AllUnquoted : List Bytes → Type 0
AllUnquoted [] = Unit
AllUnquoted (s ∷ ss) = (no_quote s ≡ true) × AllUnquoted ss

read-plain :
    (t w s : Bytes)
    → no_quote t ≡ true
    → shell_words quoted (some w) (t ++ (b'\'' ∷ s)) ≡ shell_words outside (some (w ++ t)) s
unfolding shell_words
read-plain [] w s h = rw append-nil refl
read-plain (c ∷ t) w s h =
    let here : c == b'\'' ≡ false = ground arith in
    let others : no_quote t ≡ true = ground arith in
    quoted-byte c w (t ++ (b'\'' ∷ s)) here
    ∙ read-plain t (w ++ (c ∷ [])) s others
    ∙ ap (λ u. shell_words outside (some u) s) (append_assoc w (c ∷ []) t)

quoted_list-words :
    (ss : List Bytes) → AllUnquoted ss → shell_words outside none (quoted_list ss) ≡ some ss
unfolding quoted_list shell_words
quoted_list-words [] h = refl
quoted_list-words (s ∷ []) h = read-plain s [] [] h.0
quoted_list-words (s ∷ t ∷ ss) h =
    read-plain s [] (32 ∷ quoted_list (t ∷ ss)) h.0
    ∙ ap (prepended (some s)) (quoted_list-words (t ∷ ss) h.1)

-- An operation that lists nodes or values, where configd gives a vector and no element has a single
-- quote: it prints a text and succeeds, and a shell that reads the text as an array gets the elements.
pub list_nodes_of-words :
    (L : Lib) (json_pack : List Arg → Option (Lib.Json L))
    (ask : Bytes → Lib.Json L → ℕ → Exchange L) (O : Outside L) (env : Environment) (opts : Options)
    (db : ℕ) (conn conn' : Conn) (args : Option Bytes) (v : Lib.Vector L)
    → configd_node_get L json_pack ask conn (pos db) args none ≡ value (some v, none, conn')
    → AllUnquoted (O.elements v)
    → (text : Bytes) × (list_nodes_of L json_pack ask O env opts db conn args
        ≡ value (returned text))
      × (shell_words outside none text ≡ some (O.elements v))
unfolding list_nodes_of
list_nodes_of-words L json_pack ask O env opts db conn conn' args v got plain =
    (quoted_list (O.elements v), rw got refl, quoted_list-words (O.elements v) plain)
