-- ===== src/CfgClient/Sessions.antt =====
-- The session of a connection and the one that a `CfgClient` of src/client/CfgClient.cpp remembers.
use vyatta_cfg.CfgClient.Methods.{session_exists, session_attach, session_setup}
use vyatta_cfg.CfgClient.{
  CfgClient, Thrown, returned, thrown, callintapi, set_session_id, fresh_error, error_text,
  throw_error,
}
use vyatta_cfg.Client.Calls.{configd_sess_exists, configd_sess_setup}
use vyatta_cfg.Client.{Arg, Conn, Returned, call, call_int, call_inverted, int_or_failed, inverted}
use vyatta_cfg.Cpath.{Uri}
use vyatta_cfg.Prelude.Integer.{ℤ, pos, negsuc}
use vyatta_cfg.Prelude.Outcome.{Outcome, value, exited, undefined, ◌>>=◌}
use vyatta_cfg.Prelude.{
  ℕ, zero, suc, ◌≡◌, refl, sym, ap, ◌∙◌, Bool, true, false, List, ◌∷◌, ◌++◌, Option, none, some,
  Bytes, str, if◌then◌else◌,
}
use vyatta_cfg.Rpc.{Lib, Exchange, Error, get_int}

abbrev pub is_returned : {A : Type 0} → Thrown A → Bool
is_returned (returned a) = true
is_returned (thrown msg) = false

-- The connection after a call, or this one where it does not return.
abbrev conn_after : (L : Lib) {B : Type 0} → Outcome (Returned L B) → Conn → Conn
conn_after L (value r) conn = r.2
conn_after L exited conn = conn
conn_after L undefined conn = conn

answer-session :
    (L : Lib) {A B : Type 0} (o : Outcome (Option A × Error L × ℕ)) (made : Option A → B)
    (conn : Conn)
    → (conn_after L
        (o >>= λ r. value (made r.0, r.1, record conn { req_id = r.2 }))
        conn).session_id
      ≡ conn.session_id
answer-session L (value r) made conn = refl
answer-session L exited made conn = refl
answer-session L undefined made conn = refl

throw-told :
    (L : Lib) (err : Error L) (conn : Conn) (msg : Bytes)
    → error_text L err ≡ some msg
    → throw_error L {B = ℤ} err conn ≡ value (thrown msg, conn)
throw-told L err conn msg text = rw (throw_error, text) refl

module _ (L : Lib) (json_pack : List Arg → Option (Lib.Json L))
    (ask : Bytes → Lib.Json L → ℕ → Exchange L) (uri : Uri) (create_sep : ℕ → Bytes → List Bytes)
    (decimal : ℕ → Bytes) (entries : Lib.Map L → List Bytes)
    (elements : Lib.Vector L → List Bytes) where
  call-session :
      {A B : Type 0} (get : ℕ → Exchange L → Error L → Outcome (Option A × Error L × ℕ))
      (failed : B) (made : Option A → B) (conn : Conn) (source fn : Bytes) (args : List Arg)
      (error : Error L)
      → (conn_after L
          (call L json_pack ask get failed made conn source fn args error)
          conn).session_id
        ≡ conn.session_id
  unfolding call
  call-session get failed made conn source fn args error = packed (json_pack args) refl
    where
      packed :
          (p : Option (Lib.Json L))
          → json_pack args ≡ p
          → (conn_after L
              (call L json_pack ask get failed made conn source fn args error)
              conn).session_id
            ≡ conn.session_id
      packed none eq = rw (call, eq) refl
      packed (some j) eq =
          rw (call, eq) (answer-session L (get conn.req_id (ask fn j conn.req_id) _) made conn)

  -- An answer that is no failure without a text.
  abbrev pub Told : ℤ → Error L → Type 0
  Told (negsuc zero) err = (msg : Bytes) × (error_text L err ≡ some msg)
  Told n err = Unit

  -- The object and its connection after a call.
  abbrev pub Attached : Bytes → Bytes → Thrown (Unit {0}) → CfgClient → Type 0
  Attached old sessid t c' =
      (c'.conn.session_id ≡ some c'.sessionid)
      × (c'.sessionid ≡ (if is_returned t then sessid else old))

  attach-Attached :
      (c : CfgClient) (sessid : Bytes) (n : ℤ) (err : Error L) (conn' : Conn)
      → configd_sess_exists L json_pack ask (set_session_id c.conn sessid) (fresh_error L)
        ≡ value (n, err, conn')
      → conn'.session_id ≡ some sessid
      → Told n err
      → (t : Thrown (Unit {0})) × (c' : CfgClient) × (session_attach L json_pack ask uri create_sep
            decimal entries elements c sessid
          ≡ value (t, c'))
        × Attached c.sessionid sessid t c'
  unfolding session_attach session_exists callintapi
  attach-Attached c sessid (pos zero) err conn' got same told = (
    thrown (str "session " ++ (sessid ++ str " does not exist")),
    record c { conn = set_session_id conn' c.sessionid },
    rw got refl,
    (refl, refl),
  )
  attach-Attached c sessid (pos (suc zero)) err conn' got same told =
      (returned tt, record { conn = conn'; sessionid = sessid }, rw got refl, (same, refl))
  attach-Attached c sessid (pos (suc (suc n))) err conn' got same told = (
    thrown (str "session " ++ (sessid ++ str " does not exist")),
    record c { conn = set_session_id conn' c.sessionid },
    rw got refl,
    (refl, refl),
  )
  attach-Attached c sessid (negsuc zero) err conn' got same (msg, text) = (
    thrown msg,
    record c { conn = set_session_id conn' c.sessionid },
    rw got (rw (throw-told L err conn' msg text) refl),
    (refl, refl),
  )
  attach-Attached c sessid (negsuc (suc n)) err conn' got same told = (
    thrown (str "session " ++ (sessid ++ str " does not exist")),
    record c { conn = set_session_id conn' c.sessionid },
    rw got refl,
    (refl, refl),
  )

  exists-session :
      (conn conn' : Conn) (n : ℤ) (err : Error L)
      → configd_sess_exists L json_pack ask conn (fresh_error L) ≡ value (n, err, conn')
      → conn'.session_id ≡ conn.session_id
  unfolding configd_sess_exists call_int
  exists-session conn conn' n err got =
      ap (λ o. (conn_after L o conn).session_id) (sym got)
      ∙ call-session (get_int L) (negsuc 0) int_or_failed conn _ _ _ _

  setup-session :
      (conn conn' : Conn) (n : ℤ) (err : Error L)
      → configd_sess_setup L json_pack ask conn (fresh_error L) ≡ value (n, err, conn')
      → conn'.session_id ≡ conn.session_id
  unfolding configd_sess_setup call_inverted
  setup-session conn conn' n err got =
      ap (λ o. (conn_after L o conn).session_id) (sym got)
      ∙ call-session (get_int L) (negsuc 0) inverted conn _ _ _ _

  -- Where the question whether the session exists is answered, and a failure comes with a text,
  -- SessionAttach returns or throws, and the session of the connection is afterwards the one that
  -- the object remembers: the new one where it returns, the one before where it throws.
  pub session_attach-Attached :
      (c : CfgClient) (sessid : Bytes) (n : ℤ) (err : Error L) (conn' : Conn)
      → configd_sess_exists L json_pack ask (set_session_id c.conn sessid) (fresh_error L)
        ≡ value (n, err, conn')
      → Told n err
      → (t : Thrown (Unit {0})) × (c' : CfgClient) × (session_attach L json_pack ask uri create_sep
            decimal entries elements c sessid
          ≡ value (t, c'))
        × Attached c.sessionid sessid t c'
  session_attach-Attached c sessid n err conn' got told =
      attach-Attached c sessid n err conn' got
        (exists-session (set_session_id c.conn sessid) conn' n err got) told

  -- The object and its connection after a set up.
  abbrev pub Named : Bytes → Bytes → Thrown (Unit {0}) → CfgClient → Type 0
  Named old sessid t c' =
      (c'.conn.session_id ≡ some sessid) × (c'.sessionid ≡ (if is_returned t then sessid else old))

  set_up-Named :
      (c : CfgClient) (b : ℕ) (sid : Bytes) (n : ℤ) (err : Error L) (conn' : Conn)
      → configd_sess_setup L json_pack ask (set_session_id c.conn (b ∷ sid)) (fresh_error L)
        ≡ value (n, err, conn')
      → conn'.session_id ≡ some (b ∷ sid)
      → Told n err
      → (t : Thrown (Unit {0})) × (c' : CfgClient) × (session_setup L json_pack ask uri create_sep
            decimal entries elements c
            (b ∷ sid)
          ≡ value (t, c'))
        × Named c.sessionid (b ∷ sid) t c'
  unfolding session_setup callintapi
  set_up-Named c b sid (pos n) err conn' got same told =
      (returned tt, record { conn = conn'; sessionid = b ∷ sid }, rw got refl, (same, refl))
  set_up-Named c b sid (negsuc zero) err conn' got same (msg, text) = (
    thrown msg,
    record c { conn = conn' },
    rw got (rw (throw-told L err conn' msg text) refl),
    (same, refl),
  )
  set_up-Named c b sid (negsuc (suc n)) err conn' got same told =
      (returned tt, record { conn = conn'; sessionid = b ∷ sid }, rw got refl, (same, refl))

  -- Where the request to set up a session is answered, and a failure comes with a text,
  -- SessionSetup on a session with a name returns or throws. The connection has the new session
  -- afterwards in both cases; the object remembers it where it returns, and still the one before
  -- where it throws.
  pub session_setup-Named :
      (c : CfgClient) (b : ℕ) (sid : Bytes) (n : ℤ) (err : Error L) (conn' : Conn)
      → configd_sess_setup L json_pack ask (set_session_id c.conn (b ∷ sid)) (fresh_error L)
        ≡ value (n, err, conn')
      → Told n err
      → (t : Thrown (Unit {0})) × (c' : CfgClient) × (session_setup L json_pack ask uri create_sep
            decimal entries elements c
            (b ∷ sid)
          ≡ value (t, c'))
        × Named c.sessionid (b ∷ sid) t c'
  session_setup-Named c b sid n err conn' got told =
      set_up-Named c b sid n err conn' got
        (setup-session (set_session_id c.conn (b ∷ sid)) conn' n err got) told
