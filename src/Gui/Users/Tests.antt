-- ===== src/Gui/Users/Tests.antt =====
-- Tests of the cache of the accounts.
use mathlib.Core.List.{Memᴰ}
use migration_status_check.Base.Results.{returns}
use migration_status_check.Base.{
  ◌≡◌, sym, ap, ◌∙◌, none, some, Option, List, [], ◌∷◌, map, string_eq,
}
use migration_status_check.Gui.Users.{UsersFile}
use migration_status_check.Gui.Users.Laws.{
  Request, answers, direct_answer, HaveOwnStamps, get_user-load,
}

abbrev version : UsersFile
version = record {
  stamp = record { mtime = 7; size = 80; inode = 3 };
  users = returns (("ann", record { username = "ann"; role = "admin"; password_hash = "h" }) ∷ []);
}

-- The file is read, cached, and gone.
abbrev requests : List Request
requests = (some version, "ann") ∷ (some version, "ben") ∷ (none, "ann") ∷ []

file_or : Option UsersFile → UsersFile
file_or none = version
file_or (some f) = f

some_version : (f : UsersFile) → ◌≡◌ {A = Option UsersFile} (some f) (some version) → f ≡ version
unfolding file_or
some_version f e = ap file_or e

the_version : (f : UsersFile) → Memᴰ (some f) (map (λ q. q.0) requests) → f ≡ version
the_version f (Memᴰ.head e) = some_version f e
the_version f (Memᴰ.tail (Memᴰ.head e)) = some_version f e
the_version f (Memᴰ.tail (Memᴰ.tail (Memᴰ.head e))) = absurd (cc e)
the_version f (Memᴰ.tail (Memᴰ.tail (Memᴰ.tail m))) = elim m [ ]

requests-HaveOwnStamps : HaveOwnStamps requests
requests-HaveOwnStamps f g m k e = ap (λ h. h.users) (the_version f m ∙ sym (the_version g k))

get_user-load_example : answers (record { cache = none }) requests ≡ map direct_answer requests
get_user-load_example = get_user-load requests requests-HaveOwnStamps
