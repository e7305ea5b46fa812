-- ===== src/Auth/Examples.antt =====
-- The theorems about sessions and accounts at concrete states.
use stowage.Auth.Hashes.{
  Hashing, check_policy, hash_password, matches_hash, params_match, verify_parts, verify_password,
  version_matches,
}
use stowage.Sigv4.Canonical.{split}
use stowage.Base.{
  ap, map, all, length, ℕ, zero, suc, ◌+◌, ◌-◌, ◌↔◌, err, ◌≡◌, refl, ◌≢◌, ◌⊎◌, true, false, Option,
  none, some, List, [], ◌∷◌, ◌++◌, arith, Str, codes, str_eq, str_eq_iff,
}
use stowage.Base.Dict.{lookup, insert}
use stowage.Auth.{
  cache_put, is_fresh, Session, keep_entries, delete_user_sessions, Identity, cache_get,
  invalidate_user, TouchEntry, write_all, SessionManager, flush, resolve, revoke, admit, attach,
}
use stowage.Auth.Accounts.{
  User, source_local, Service, resolve_identity, account_locked, lockout_attempts, lockout_window,
  find_username, login_local, sign_out_others, store_password, change_own_password,
}
use stowage.Auth.Stored.{IsKeyed}
use stowage.Auth.Touches.{NoDup, persist_all, flush-persist_all}
use stowage.Auth.Revoked.{attach-revoked}
use stowage.Auth.Calls.{attaches, done, next}
use stowage.Auth.Entries.{Each}
use stowage.Auth.Accounts.Others.{AccountsKeyed, IsResolver}
use stowage.Auth.Quiet.{Keyed}
use stowage.Auth.Raced.{attach-raced}
use stowage.Auth.Identified.{IsCached, IsStored, attach-identified}
use stowage.Sigv4.Verifier.Fields.{no_byte}
use stowage.Auth.Accounts.Passwords.{IsHashing, verify_password-hash_password}
use stowage.Auth.Accounts.SignedOut.{change_own_password-attach}
use stowage.Auth.Accounts.Lockout.{DistinctAccounts, IsOpen, log_in_all, log_in_all-locks}

abbrev sid : Str
sid = codes "s1"

abbrev ada : Str
ada = codes "ada"

abbrev session : Session
session = record {
  id = sid;
  user_id = ada;
  identity_source = source_local;
  csrf_token = codes "t";
  ip = [];
  user_agent = [];
  flags = 0;
  created_at = 0;
  last_seen_at = 0;
  expires_at = 100;
}

abbrev manager : SessionManager
manager = record {
  lifetime = 100;
  idle_timeout = 20;
  store = (sid, session) ∷ [];
  cache = record { ttl = 30; entries = [] };
  touch = some [];
}

-- argon2 replaced by the salt behind the password
abbrev hashing : Hashing
hashing = record {
  version = 19;
  scan_version = λ s. some 19;
  scan_params = λ s. some (65536, 3, 2);
  encode64 = λ s. s;
  decode64 = λ s. some s;
  id_key = λ password salt time mem par len. password ++ salt;
}

abbrev stored_hash : Str
stored_hash = codes "$argon2id$v=19$m=65536,t=3,p=2$xy$ab12xy"

abbrev account : User
account = record {
  id = ada;
  username = ada;
  password_hash = stored_hash;
  role = codes "user";
  identity_source = source_local;
  enabled = true;
  must_change_pw = false;
  failed_attempts = 0;
  locked_until = none;
  last_login_at = none;
  pw_changed_at = 0;
}

abbrev service : Service
service = record {
  sessions = manager;
  users = (ada, account) ∷ [];
  policy = record { min_length = 2; prevent_reuse = true };
  max_attempts = 2;
  window = 60;
  static = none;
}

abbrev resolver : Session → Option Identity
resolver = resolve_identity service.users none

abbrev identity : Identity
identity = record {
  user_id = ada;
  username = ada;
  role = codes "user";
  source = source_local;
  session_id = sid;
  csrf_token = codes "t";
  must_change_pw = false;
  synthetic_user = false;
}

abbrev touches : List (Str × TouchEntry)
touches =
    (sid, record { at = 12; expires_at = 112 }) ∷ (sid, record { at = 25; expires_at = 125 }) ∷ []

flush-persist_all_example :
    lookup sid (flush (persist_all touches manager)).store
    ≡ lookup sid
        (persist_all touches
          (record manager { touch = none; store = write_all [] manager.store })).store
unfolding NoDup
flush-persist_all_example = flush-persist_all touches manager [] sid tt

-- the session is revoked, and a request with its cookie made
abbrev revoked : SessionManager
revoked = revoke sid manager

attach-revoked_example : (attach resolver sid 9 (attach resolver sid 5 revoked).0).1 ≡ none
unfolding Keyed IsKeyed Each
attach-revoked_example =
    attach-revoked sid manager (attach resolver sid 5 revoked).0 resolver 9 refl (refl, tt)
      (next revoked (attach resolver sid 5 revoked).0 (attach resolver sid 5 revoked).0
        (attaches resolver sid 5 revoked tt) (done (attach resolver sid 5 revoked).0))

attach-raced_example :
    (attach resolver sid 20
      (admit resolver 5 (resolve sid 5 manager).2 (revoke sid (resolve sid 5 manager).0)).0).1
    ≡ some identity
unfolding lookup str_eq resolve resolve_identity
attach-raced_example =
    attach-raced resolver resolver 5 20 manager session identity refl refl refl (ground arith)
      (omega arith) (omega arith)

attach-identified_example :
    IsCached sid 5 identity manager.cache ⊎ IsStored resolver sid 5 identity manager
unfolding lookup str_eq resolve resolve_identity attach admit cache_get
attach-identified_example = attach-identified resolver sid 5 manager identity refl

-- ada changes the password, and so ends the session s1, which is not the one that is kept
abbrev elsewhere : SessionManager
elsewhere = record manager {
  store =
      (sid, session) ∷ (codes "s2", record session { id = codes "s2"; user_id = codes "bob" }) ∷ [];
}

abbrev bob : User
bob = record account { id = codes "bob"; username = codes "bob" }

abbrev two_users : Service
two_users = record service {
  sessions = elsewhere;
  users = (ada, account) ∷ (codes "bob", bob) ∷ [];
}

two_users-AccountsKeyed : AccountsKeyed two_users.users
unfolding AccountsKeyed lookup
two_users-AccountsKeyed k u is = ground (arith, is, str_eq_iff ada k, str_eq_iff (codes "bob") k)

abbrev changed : Service
changed =
    (change_own_password hashing (codes "z") ada [] (codes "ab12") (codes "new") 5 two_users).0

abbrev as_bob : Identity
as_bob = record identity { user_id = codes "bob"; username = codes "bob"; session_id = codes "s2" }

abbrev both : Session → Option Identity
both = resolve_identity two_users.users none

both-IsResolver : IsResolver both
unfolding IsResolver
both-IsResolver = (two_users.users, none, two_users-AccountsKeyed, refl)

-- after the change, bob makes a request with the cookie s2, and another one
abbrev used : SessionManager
used = (attach both (codes "s2") 6 changed.sessions).0

change_own_password-attach_example : as_bob.user_id ≢ ada
unfolding IsKeyed Each lookup str_eq change_own_password verify_password verify_parts split
    version_matches params_match matches_hash check_policy store_password attach cache_get
    sign_out_others invalidate_user keep_entries admit resolve resolve_identity delete_user_sessions
    insert cache_put is_fresh
change_own_password-attach_example =
    change_own_password-attach hashing (codes "z") ada [] (codes "ab12") (codes "new") (codes "s2")
      5 7 two_users changed used both as_bob (refl, (refl, tt)) (ground arith) (ground arith) refl
      (next changed.sessions used used
        (attaches both (codes "s2") 6 changed.sessions both-IsResolver) (done used))
      both-IsResolver refl

service-IsOpen : IsOpen str_eq ada stored_hash 0 service
unfolding find_username str_eq DistinctAccounts lookup
service-IsOpen = record {
  account = account;
  found = refl;
  distinct = (refl, refl, tt);
  usable = refl;
  local = refl;
  hashed = refl;
  unlocked = refl;
  failed = refl;
}

abbrev tried : Service
tried = log_in_all str_eq hashing ada ((1, codes "aa") ∷ (2, codes "bb") ∷ []) service

log_in_all-locks_example :
    login_local str_eq hashing ada (codes "ab12") 50 tried ≡ (tried, err account_locked)
unfolding verify_password lockout_attempts lockout_window verify_parts split str_eq version_matches
    params_match matches_hash
log_in_all-locks_example =
    log_in_all-locks str_eq hashing ada stored_hash ((1, codes "aa") ∷ []) (codes "bb")
      (codes "ab12") 2 50 0 service service-IsOpen (refl, tt) refl refl (omega arith)

-- a text cut or filled up to a length
unfoldable padded : ℕ → Str → Str
padded zero s = []
padded (suc n) [] = 0 ∷ padded n []
padded (suc n) (c ∷ s) = c ∷ padded n s

length-padded : (n : ℕ) (s : Str) → length (padded n s) ≡ n
unfolding padded
length-padded zero s = refl
length-padded (suc n) [] = ground (arith, length-padded n [])
length-padded (suc n) (c ∷ s) = ground (arith, length-padded n s)

abbrev shifted : Str → Str
shifted = map (λ c. c + 37)

abbrev unshifted : Str → Str
unshifted = map (λ c. c - 37)

unshifted-shifted : (s : Str) → unshifted (shifted s) ≡ s
unshifted-shifted [] = refl
unshifted-shifted (c ∷ s) = ground (arith, unshifted-shifted s)

shifted-dollarless : (s : Str) → all (no_byte b'$') (shifted s) ≡ true
shifted-dollarless [] = refl
shifted-dollarless (c ∷ s) = ground (arith, shifted-dollarless s)

abbrev padding : Hashing
padding = record {
  version = 19;
  scan_version = λ s. some 19;
  scan_params = λ s. some (65536, 3, 2);
  encode64 = shifted;
  decode64 = λ s. some (unshifted s);
  id_key = λ password salt time mem par n. padded n (password ++ salt);
}

padding-IsHashing : IsHashing padding
padding-IsHashing = record {
  version = refl;
  scans_version = refl;
  scans_params = refl;
  decodes = λ s. ap (λ (t : Str). some t) (unshifted-shifted s);
  dollarless = shifted-dollarless;
  sized = λ password salt time mem par n. length-padded n (password ++ salt);
}

verify_password-hash_password_example :
    (verify_password padding (codes "ab") (hash_password padding (codes "xy") (codes "ab")) ≡ true)
    ↔ (padded 32 (codes "abxy") ≡ padded 32 (codes "abxy"))
verify_password-hash_password_example =
    verify_password-hash_password padding padding-IsHashing (codes "xy") (codes "ab") (codes "ab")
