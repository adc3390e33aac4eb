-- ===== src/Gui/Sessions/Laws.antt =====
-- How long a session lives (`SessionStore` in migration_validator/gui/sessions.py).
use migration_status_check.Base.Dict
use migration_status_check.Base.Dict.{Dict}
use migration_status_check.Base.{
  subst, sym, ◌⊎◌, ℕ, ◌-◌, ◌≤◌, ◌≡◌, refl, ◌≢◌, String, false, not, Option, none, some, List, [],
  ◌∷◌, string_eq, filter, if◌then◌else◌, arith, All, All-filter, All-map_imp, leb, ◌&&◌, ◌∙◌,
  Bool-cases, Option-cases, inl, inr, eq_refl,
}
use migration_status_check.Gui.Sessions.{
  Session, SessionStore, expired, create, drop_session, lookup,
}

-- What the GUI does with its sessions, each at a time of the clock
pub data Event : Type 0 where
  logs_in : String → Option String → ℕ → String → Event
  asks : String → ℕ → Event
  logs_out : String → Event

abbrev pub step : SessionStore → Event → SessionStore
step store (logs_in username password_hash now token) =
    create store username password_hash now token
step store (asks token now) = (lookup store token now).1
step store (logs_out token) = drop_session store token

abbrev pub run : SessionStore → List Event → SessionStore
run store [] = store
run store (e ∷ es) = run (step store e) es

-- The token is not issued again.
abbrev pub IsNotIssued : String → List Event → Type 0
IsNotIssued token [] = Unit
IsNotIssued token (logs_in username password_hash now issued ∷ es) =
    (issued ≢ token) × IsNotIssued token es
IsNotIssued token (asks asked now ∷ es) = IsNotIssued token es
IsNotIssued token (logs_out dropped ∷ es) = IsNotIssued token es

run-absolute : (store : SessionStore) (es : List Event) → (run store es).absolute ≡ store.absolute
unfolding create drop_session lookup
run-absolute store [] = refl
run-absolute store (logs_in u h now issued ∷ es) = run-absolute (create store u h now issued) es
run-absolute store (logs_out dropped ∷ es) = run-absolute (drop_session store dropped) es
run-absolute store (asks asked now ∷ es) = run-absolute (lookup store asked now).1 es ∙ ground arith

-- A request leaves the sessions, forgets one, or notes its time.
lookup-cases :
    (store : SessionStore) (token : String) (now : ℕ)
    → ((lookup store token now).1 ≡ store)
      ⊎ (((lookup store token now).1 ≡ record store { sessions = Dict.remove store.sessions token })
          ⊎ ((s : Session) × ((Dict.get store.sessions token ≡ some s)
                × ((lookup store token now).1 ≡ record store {
                  sessions = Dict.put store.sessions token (record s { last_seen = now });
                }))))
unfolding lookup
lookup-cases store token now = elim (Option-cases (Dict.get store.sessions token)) [
  | inl q ↦ inl (ground (arith, q))
  | inr (s, q) ↦ elim (Bool-cases (expired store s now)) [
    | inl x ↦ inr (inl (ground (arith, q, x)))
    | inr x ↦ inr (inr (s, (q, ground (arith, q, x))))
  ]
]

-- What holds of the entries of other tokens, and does not depend on the time a session was last
-- seen, goes on to hold until the token is issued.
module _ (token : String) (P : String × Session → Type 0)
    (other : (k : String) (s : Session) → k ≢ token → P (k, s))
    (seen : (k : String) (s : Session) (now : ℕ)
      → P (k, s)
      → P (k, record s { last_seen = now })) where
  step-All :
      (store : SessionStore) (e : Event)
      → IsNotIssued token (e ∷ [])
      → All P store.sessions
      → All P (step store e).sessions
  unfolding create drop_session lookup
  step-All store (logs_in u h now issued) n a =
      Dict.All-put P _ issued _ (other issued _ n.0) (All-filter P _ store.sessions a)
  step-All store (logs_out dropped) n a = Dict.All-remove P store.sessions dropped a
  step-All store (asks asked now) n a = elim (lookup-cases store asked now) [
    | inl q ↦ subst (λ r. All P r.sessions) (sym q) a
    | inr (inl q) ↦ subst (λ r. All P r.sessions) (sym q) (Dict.All-remove P store.sessions asked a)
    | inr (inr (s, (found, q))) ↦
        subst (λ r. All P r.sessions) (sym q)
          (Dict.All-put P store.sessions asked (record s { last_seen = now })
            (seen asked s now (Dict.All-get P store.sessions asked a found)) a)
  ]

  run-All :
      (es : List Event) (store : SessionStore)
      → IsNotIssued token es
      → All P store.sessions
      → All P (run store es).sessions
  run-All [] store n a = a
  run-All (logs_in u h now issued ∷ es) store n a =
      run-All es (create store u h now issued) n.1
        (step-All store (logs_in u h now issued) (n.0, tt) a)
  run-All (asks asked now ∷ es) store n a =
      run-All es (lookup store asked now).1 n (step-All store (asks asked now) tt a)
  run-All (logs_out dropped ∷ es) store n a =
      run-All es (drop_session store dropped) n (step-All store (logs_out dropped) tt a)

-- A session that is found is in the store, not expired, but for the time it was last seen.
lookup-found :
    (store : SessionStore) (token : String) (now : ℕ) (s : Session)
    → (lookup store token now).0 ≡ some s
    → (t : Session) × ((Dict.get store.sessions token ≡ some t)
        × ((expired store t now ≡ false) × (record t { last_seen = now } ≡ s)))
unfolding lookup
lookup-found store token now s h = elim (Option-cases (Dict.get store.sessions token)) [
  | inl q ↦ absurd (ground (arith, q, h))
  | inr (t, q) ↦ elim (Bool-cases (expired store t now)) [
    | inl x ↦ absurd (ground (arith, q, x, h))
    | inr x ↦ (t, (q, (x, ground (arith, q, x, h))))
  ]
]

-- The session of the token is of the login.
abbrev pub IsOf : String → Session → String × Session → Type 0
IsOf token login e =
    e.0 ≡ token
    → (e.1.username ≡ login.username)
      × ((e.1.created_at ≡ login.created_at) × (e.1.password_hash ≡ login.password_hash))

-- After a login with a token that was not there, and whatever logins with other tokens, requests
-- and logouts come next, a session that the token still finds has the name and the password hash of
-- that login, and the login is at most `absolute` ago.
pub lookup-session_of :
    (store : SessionStore) (username : String) (password_hash : Option String) (start : ℕ)
    (token : String) (es : List Event) (now : ℕ) (s : Session)
    → Dict.get store.sessions token ≡ none
    → IsNotIssued token es
    → (lookup (run (create store username password_hash start token) es) token now).0 ≡ some s
    → (s.username ≡ username) × ((s.password_hash ≡ password_hash) × (now - start ≤ store.absolute))
unfolding create expired
lookup-session_of store username password_hash start token es now s free n h =
    let login : Session = record {
      username = username;
      created_at = start;
      last_seen = start;
      password_hash = password_hash;
    } in
    let created = create store username password_hash start token in
    let kept =
      All-filter (λ e. e.0 ≢ token) (λ e. not (expired store e.1 start)) store.sessions
        (Dict.All-keys_ne store.sessions token free) in
    let begin =
      Dict.All-put (IsOf token login) _ token login (λ q. (refl, (refl, refl)))
        (All-map_imp (λ e. e.0 ≢ token) (IsOf token login) (λ e ne q. absurd (ne q)) _ kept) in
    let held =
      run-All token (IsOf token login) (λ k t ne q. absurd (ne q)) (λ k t m p q. p q) es created n
        begin in
    let (t, (found, (live, same))) = lookup-found (run created es) token now s h in
    let of_login =
      Dict.All-get (IsOf token login) (run created es).sessions token held found refl in
    (
      cc (of_login.0, same),
      (cc (of_login.1.1, same), ground (arith, live, run-absolute created es, of_login.1.0)),
    )

-- After a logout, whatever logins with other tokens, requests and logouts come next, the token
-- finds no session.
pub lookup-logged_out :
    (store : SessionStore) (token : String) (es : List Event) (now : ℕ)
    → IsNotIssued token es
    → (lookup (run (drop_session store token) es) token now).0 ≡ none
unfolding drop_session
lookup-logged_out store token es now n =
    let gone =
      Dict.All-keys_ne (drop_session store token).sessions token
        (rw (Dict.get-remove store.sessions token token) (rw (eq_refl token) refl)) in
    let held =
      run-All token (λ e. e.0 ≢ token) (λ k t ne. ne) (λ k t m p. p) es (drop_session store token) n
        gone in
    elim (Option-cases (lookup (run (drop_session store token) es) token now).0) [
      | inl q ↦ q
      | inr (s, q) ↦
          let (t, (found, rest)) = lookup-found (run (drop_session store token) es) token now s q in
          absurd (
            Dict.All-get (λ e. e.0 ≢ token) (run (drop_session store token) es).sessions token held
              found refl)
    ]

-- A session that was just opened under a token that was not there is found, with the time of the request, exactly as long as
-- neither of the two limits has passed since.
lookup-create :
    (store : SessionStore) (username : String) (password_hash : Option String) (start : ℕ)
    (token : String) (now : ℕ)
    → Dict.get store.sessions token ≡ none
    → (lookup (create store username password_hash start token) token now).0 ≡ (
        if leb (now - start) store.idle && leb (now - start) store.absolute
        then some (record {
          username = username;
          created_at = start;
          last_seen = now;
          password_hash = password_hash;
        })
        else none)
unfolding create lookup expired
lookup-create store username password_hash start token now free = ground (
  arith,
  eq_refl token,
  Dict.get-put (filter (λ e. not (expired store e.1 start)) store.sessions) token token (record {
    username = username;
    created_at = start;
    last_seen = start;
    password_hash = password_hash;
  }),
)
