-- ===== src/Gui/Users/Laws.antt =====
-- The cache of the accounts against its file (migration_validator/users.py).
use mathlib.Core.List.{Memᴰ}
use migration_status_check.Base.Dict
use migration_status_check.Base.Dict.{Dict}
use migration_status_check.Base.Results.{Result, returns, raises, ◌>>=◌}
use migration_status_check.Base.{
  ◌⊎◌, ◌≡◌, refl, sym, ap, ◌∙◌, ◌⊎◌, String, true, Option, none, some, List, [], ◌∷◌, map, nat_eq,
  string_eq, arith, eq_iff, Bool-cases, Option-cases, inl, inr,
}
use migration_status_check.Gui.Users.{
  User, Stamp, UsersFile, Cache, UserStore, load, stamp_of, same_stamp, is_current, read_into,
  get_user,
}

-- A lookup of a name, with the file as it is at that moment
abbrev pub Request : Type 0
Request = Option UsersFile × String

-- The answers of the store to lookups one after the other
abbrev pub answers : UserStore → List Request → List (Result (Option User))
answers store [] = []
answers store ((file, username) ∷ rest) =
    (get_user store file username).0 ∷ answers (get_user store file username).1 rest

-- What reading the file for each of them would answer
abbrev pub direct_answer : Request → Result (Option User)
direct_answer q = load q.0 >>= λ us. returns (Dict.get us q.1)

-- A version of the file that is met in the requests has its stamp alone.
abbrev pub HaveOwnStamps : List Request → Type 0
HaveOwnStamps requests =
    (f g : UsersFile)
    → Memᴰ (some f) (map (λ q. q.0) requests)
    → Memᴰ (some g) (map (λ q. q.0) requests)
    → f.stamp ≡ g.stamp
    → f.users ≡ g.users

same_stamp-eq : (a b : Stamp) → same_stamp a b ≡ true → a ≡ b
same_stamp-eq a b h =
    let time : a.mtime ≡ b.mtime = (eq_iff a.mtime b.mtime).0 (ground (arith, h)) in
    let length_of : a.size ≡ b.size = (eq_iff a.size b.size).0 (ground (arith, h)) in
    let node : a.inode ≡ b.inode = (eq_iff a.inode b.inode).0 (ground (arith, h)) in
    ap (λ t. record a { mtime = t }) time
    ∙ ap (λ t. record { mtime = b.mtime; size = t; inode = a.inode }) length_of
    ∙ ap (λ t. record b { inode = t }) node

-- A cache that is current was written for a file with the stamp of the one that is there.
current-same :
    (key : Option Stamp) (file : Option UsersFile)
    → is_current key (stamp_of file) ≡ true
    → (k : Stamp) × ((f : UsersFile) × ((key ≡ some k) × ((file ≡ some f) × (k ≡ f.stamp))))
current-same none none h = cc
current-same none (some f) h = cc
current-same (some k) none h = cc
current-same (some k) (some f) h = (k, (f, (refl, (refl, same_stamp-eq k f.stamp h))))

get_user-cases :
    (store : UserStore) (file : Option UsersFile) (username : String)
    → (get_user store file username ≡ read_into store (stamp_of file) (load file) username)
      ⊎ ((c : Cache) × ((store.cache ≡ some c)
            × ((is_current c.key (stamp_of file) ≡ true)
                × (get_user store file username ≡ (returns (Dict.get c.users username), store)))))
unfolding get_user
get_user-cases store file username = elim (Option-cases store.cache) [
  | inl q ↦ inl (ground (arith, q))
  | inr (c, q) ↦ elim (Bool-cases (is_current c.key (stamp_of file))) [
    | inl r ↦ inr (c, (q, (r, ground (arith, q, r))))
    | inr r ↦ inl (ground (arith, q, r))
  ]
]

of_file :
    (f : UsersFile) (c : Cache) (username : String)
    → f.users ≡ returns c.users
    → (load (some f) >>= λ us. returns (Dict.get us username)) ≡ returns (Dict.get c.users username)
unfolding load
of_file f c username h = ap (λ r. r >>= λ us. returns (Dict.get us username)) h

module _ (IsVersion : UsersFile → Type 0)
    (own : (f g : UsersFile)
      → IsVersion f
      → IsVersion g
      → f.stamp ≡ g.stamp
      → f.users ≡ g.users) where
  -- What the cache holds under a stamp was read from the version of that stamp.
  abbrev WasRead : UserStore → Type 0
  WasRead store =
      (c : Cache)
      → store.cache ≡ some c
      → (k : Stamp) → c.key ≡ some k
      → (f : UsersFile) × (IsVersion f × ((f.stamp ≡ k) × (f.users ≡ returns c.users)))

  abbrev IsMet : Option UsersFile → Type 0
  IsMet file = (f : UsersFile) → file ≡ some f → IsVersion f

  -- The answer and the cache after a lookup
  abbrev IsRight : UserStore → Option UsersFile → String → Type 0
  IsRight store file username =
      ((get_user store file username).0 ≡ direct_answer (file, username))
      × WasRead (get_user store file username).1

  read_into-IsRight :
      (store : UserStore) (file : Option UsersFile) (username : String)
      (r : Result (Dict String User))
      → load file ≡ r
      → WasRead store
      → IsMet file
      → ((read_into store (stamp_of file) r username).0
          ≡ (r >>= λ us. returns (Dict.get us username)))
        × WasRead (read_into store (stamp_of file) r username).1
  unfolding load
  read_into-IsRight store file username (raises e) q w met = (refl, w)
  read_into-IsRight store none username (returns us) q w met =
      (refl, λ c h k e. absurd (ground (arith, h, e)))
  read_into-IsRight store (some f) username (returns us) q w met =
      (refl, λ c h k e. (f, (met f refl, (ground (arith, h, e), ground (arith, q, h)))))

  get_user-IsRight :
      (store : UserStore) (file : Option UsersFile) (username : String)
      → WasRead store
      → IsMet file
      → IsRight store file username
  get_user-IsRight store file username w met = elim (get_user-cases store file username) [
    | inl q ↦ rw q (read_into-IsRight store file username (load file) refl w met)
    | inr (c, (q, (r, same))) ↦
        let (k, (f, (at, (there, stamp)))) = current-same c.key file r in
        let (g, (old, (own_stamp, held))) = w c q k at in
        let users = own f g (met f there) old (sym stamp ∙ sym own_stamp) in
        rw same (
          sym (
              ap (λ o. load o >>= λ us. returns (Dict.get us username)) there
              ∙ of_file f c username (users ∙ held)),
          w,
        )
  ]

  answers-direct_answer :
      (requests : List Request) (store : UserStore)
      → WasRead store
      → ((f : UsersFile) → Memᴰ (some f) (map (λ q. q.0) requests) → IsVersion f)
      → answers store requests ≡ map direct_answer requests
  answers-direct_answer [] store w met = refl
  answers-direct_answer ((file, username) ∷ rest) store w met =
      let (answer, kept) =
        get_user-IsRight store file username w (λ f e. met f (Memᴰ.head (sym e))) in
      cc (
        answer,
        answers-direct_answer rest (get_user store file username).1 kept
            (λ f m. met f (Memᴰ.tail m)),
      )

-- A store that starts with an empty cache answers each of any lookups, one after the other, as reading the
-- file at that moment would, errors included, whatever versions of the file come and go in between, if
-- two versions of one modification time, size and inode have the same accounts.
pub get_user-load :
    (requests : List Request)
    → HaveOwnStamps requests
    → answers (record { cache = none }) requests ≡ map direct_answer requests
get_user-load requests own =
    answers-direct_answer (λ f. Memᴰ (some f) (map (λ q. q.0) requests)) own requests
      (record { cache = none }) (λ c h. cc) (λ f m. m)
