-- ===== src/Shares/Owners.antt =====
-- Who may create and revoke a share of internal/shares/shares.go, and what becomes of it.
use stowage.Base.{
  Fallible-cases, ok, err, ℕ, ◌≡◌, refl, sym, ap, subst, ◌≢◌, ◌⊎◌, inl, inr, true, false, not, ◌&&◌,
  Option, none, some, List, [], ◌∷◌, arith, if◌then◌else◌, Bool-cases, Option-cases, take, Str,
  codes, str_eq, str_eq_self, str_eq_iff,
}
use stowage.Base.Dict.{lookup, insert, delete, lookup-insert, lookup-delete}
use stowage.Shares.{
  Share, Store, not_found, World, get_share_by_code, record_access, increment_share_access,
  insert_share, insert_with_code, create, CreateParams, new_share, password_hash_for, max_attempts,
  revoke, revoke_share,
}

-- For a user who is neither an admin nor the share's creator, `Revoke` answers as it does for a share
-- that does not exist.
pub revoke-stranger :
    (now : ℕ) (user role id : Str) (db : Store)
    → role ≢ codes "admin"
    → ((sh : Share) → lookup id db ≡ some sh → sh.created_by ≢ user)
    → revoke now user role id db ≡ revoke now user role id (delete id db)
unfolding revoke
revoke-stranger now user role id db not_admin not_mine = elim (Option-cases (lookup id db)) [
  | inl e ↦ ground (arith, gone)
  | inr (sh, e) ↦ ground (
    arith,
    gone,
    str_eq_iff role (codes "admin"),
    str_eq_iff sh.created_by user,
    not_admin,
    not_mine sh e,
  )
]
  where
    gone : lookup id (delete id db) ≡ none
    gone = ground (arith, lookup-delete id id db, str_eq_self id)

may_revoke :
    (user role : Str) (sh : Share)
    → (role ≡ codes "admin") ⊎ (sh.created_by ≡ user)
    → (not (str_eq role (codes "admin")) && not (str_eq sh.created_by user)) ≡ false
may_revoke user role sh (inl e) = ground (arith, str_eq_iff role (codes "admin"))
may_revoke user role sh (inr e) = ground (arith, str_eq_iff sh.created_by user)

revoked-uncounted :
    (later : ℕ) (id : Str) (db : Store) (sh : Share)
    → lookup id db ≡ some sh
    → sh.revoked ≡ true
    → record_access later id db ≡ err not_found
unfolding increment_share_access
revoked-uncounted later id db sh found e = ground arith

-- After the creator or an admin has revoked a share, it is marked revoked, every other row is as it
-- was, and no download of it is counted any more.
pub revoke-final :
    (now later : ℕ) (user role id : Str) (db : Store) (sh : Share)
    → lookup id db ≡ some sh
    → (role ≡ codes "admin") ⊎ (sh.created_by ≡ user)
    → (db' : Store) × (revoke now user role id db ≡ ok db')
      × (record_access later id db' ≡ err not_found)
      × ((j : Str) → str_eq id j ≡ false → lookup j db' ≡ lookup j db)
unfolding revoke
revoke-final now later user role id db sh found allowed = elim (Bool-cases sh.revoked) [
  | inl e ↦ (
    db,
    ground (arith, may_revoke user role sh allowed),
    revoked-uncounted later id db sh found e,
    (λ j f. refl),
  )
  | inr e ↦ (
    insert id marked db,
    unfold revoke_share in ground (arith, may_revoke user role sh allowed),
    revoked-uncounted later id (insert id marked db) marked now_marked refl,
    (λ j f. ground (arith, lookup-insert id j marked db)),
  )
]
  where
    marked : Share
    marked = record sh { revoked = true; revoked_at = some now }

    now_marked : lookup id (insert id marked db) ≡ some marked
    now_marked = ground (arith, lookup-insert id id marked db, str_eq_self id)

code-insert :
    (k code : Str) (r : Share) (db : Store)
    → lookup k db ≡ none
    → get_share_by_code code (insert k r db) ≡ elim (get_share_by_code code db) [
      | some s ↦ some s
      | none ↦ if str_eq r.code code then some r else none
    ]
unfolding get_share_by_code lookup insert
code-insert k code r [] h = refl
code-insert k code r ((i, s) ∷ db) h = ground (arith, code-insert k code r db)

-- What `create` promises of its result, for the table before.
IsMinted : Store → Share → Store → Type 0
IsMinted db sh db' =
    (get_share_by_code sh.code db ≡ none)
    × (get_share_by_code sh.code db' ≡ some sh)
    × ((code : Str)
        → str_eq sh.code code ≡ false
        → get_share_by_code code db' ≡ get_share_by_code code db)

-- A row whose counter and flags are at their zero.
abbrev fresh_row : Share → Share
fresh_row sh = record sh {
  download_count = 0;
  revoked = false;
  revoked_at = none;
  last_accessed_at = none;
}

insert_share-IsMinted :
    (sh : Share) (db db' : Store)
    → fresh_row sh ≡ sh
    → insert_share sh db ≡ ok db'
    → IsMinted db sh db'
unfolding insert_share IsMinted
insert_share-IsMinted sh db db' zero_row h = (
  new_code,
  rw (sym stored) (rw added (ground (arith, str_eq_self sh.code, new_code, zero_row))),
  (λ code e. ground (arith, stored, code-insert sh.id code (fresh_row sh) db absent, e)),
)
  where
    new_code : get_share_by_code sh.code db ≡ none
    new_code = ground arith

    absent : lookup sh.id db ≡ none
    absent = ground arith

    stored : insert sh.id (fresh_row sh) db ≡ db'
    stored = ground arith

    added :
        get_share_by_code sh.code (insert sh.id (fresh_row sh) db)
        ≡ elim (get_share_by_code sh.code db) [
          | some s ↦ some s
          | none ↦ if str_eq sh.code sh.code then some (fresh_row sh) else none
        ]
    added = code-insert sh.id sh.code (fresh_row sh) db absent

insert_with_code-IsMinted :
    (candidates : List (Option Str)) (sh minted : Share) (db db' : Store)
    → fresh_row sh ≡ sh
    → insert_with_code candidates sh db ≡ ok (minted, db')
    → IsMinted db minted db'
unfolding insert_with_code
insert_with_code-IsMinted [] sh minted db db' z h = absurd (ground arith)
insert_with_code-IsMinted (none ∷ candidates) sh minted db db' z h = absurd (ground arith)
insert_with_code-IsMinted (some code ∷ candidates) sh minted db db' z h =
    elim (Fallible-cases (insert_share (record sh { code = code }) db)) [
      | inl (stored, e) ↦
          subst (λ x. IsMinted db x db') (same stored e)
            (insert_share-IsMinted (record sh { code = code }) db db'
              (ap {A = Share} {B = Share} (λ x. record x { code = code }) z) (ground arith))
      | inr (e, f) ↦ insert_with_code-IsMinted candidates sh minted db db' z (ground arith)
    ]
  where
    same :
        (stored : Store)
        → insert_share (record sh { code = code }) db ≡ ok stored
        → record sh { code = code } ≡ minted
    same stored e = ground arith

-- A share that `Create` returns is found under its code in the table it returns, with no download
-- counted, and a share that had another code is found as before.
pub create-get_share_by_code :
    (w : World) (now : ℕ) (created_by id : Str) (candidates : List (Option Str)) (p : CreateParams)
    (db db' : Store) (sh : Share)
    → create w now created_by id candidates p db ≡ ok (sh, db')
    → (get_share_by_code sh.code db ≡ none)
      × (get_share_by_code sh.code db' ≡ some sh)
      × ((code : Str)
          → str_eq sh.code code ≡ false
          → get_share_by_code code db' ≡ get_share_by_code code db)
unfolding create
create-get_share_by_code w now created_by id candidates p db db' sh h =
    elim (Option-cases (password_hash_for w p.password)) [
      | inl e ↦ absurd (ground arith)
      | inr (hash, e) ↦
          unfold IsMinted new_share in
          insert_with_code-IsMinted (take max_attempts candidates)
            (new_share id created_by p now hash) sh db db' refl (ground arith)
    ]
