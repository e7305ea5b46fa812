-- ===== src/Shares/Downloads.antt =====
-- How often a share of internal/shares/shares.go can be downloaded: the table under any sequence of
-- creations, downloads and revocations.
use stowage.Base.{
  Fallible-cases, ok, ℕ, ◌+◌, ◌≤◌, ◌≡◌, refl, subst, inl, inr, true, false, Option, none, some,
  List, [], ◌∷◌, ◌++◌, arith, if◌then◌else◌, Bool-cases, Option-cases, take, Str, str_eq,
  str_eq_sound,
}
use stowage.Base.Dict.{lookup, insert, lookup-insert}
use stowage.Shares.{
  password_hash_for, max_attempts, Share, Store, World, CreateParams, insert_share, new_share,
  insert_with_code, create, record_access, increment_share_access, revoke, revoke_share,
}

-- One operation on the table, with the ids it counts a download of.
pub data Step (w : World) : Store → List Str → Store → Type 0 where
  created :
      {db db' : Store} {sh : Share} (now : ℕ) (created_by id : Str) (candidates : List (Option Str))
      (p : CreateParams)
      → create w now created_by id candidates p db ≡ ok (sh, db')
      → Step w db [] db'
  downloaded :
      {db db' : Store} (now : ℕ) (id : Str)
      → record_access now id db ≡ ok db'
      → Step w db (id ∷ []) db'
  withdrawn :
      {db db' : Store} (now : ℕ) (acting_user_id acting_role id : Str)
      → revoke now acting_user_id acting_role id db ≡ ok db'
      → Step w db [] db'

-- Operations in the order in which the table sees them, with the ids of the counted downloads, the
-- latest first.
pub data Steps (w : World) : Store → List Str → Store → Type 0 where
  start : {db : Store} → Steps w db [] db
  next :
      {db mid end : Store} {log more : List Str}
      → Steps w db log mid
      → Step w mid more end
      → Steps w db (more ++ log) end

-- how often an id is in a log
unfoldable pub times : Str → List Str → ℕ
times id [] = 0
times id (j ∷ log) = (if str_eq j id then 1 else 0) + times id log

unfoldable pub download_count_of : Str → Store → ℕ
download_count_of id db = elim (lookup id db) [ none ↦ 0 | some sh ↦ sh.download_count ]

pub IsCapped : Share → Type 0
IsCapped sh = (m : ℕ) → sh.max_downloads ≡ some m → sh.download_count ≤ m

AreCapped : Store → Type 0
AreCapped db = (id : Str) (sh : Share) → lookup id db ≡ some sh → IsCapped sh

times-append : (id : Str) (a b : List Str) → times id (a ++ b) ≡ times id a + times id b
unfolding times
times-append id [] b = omega arith
times-append id (x ∷ a) b = ground (arith, times-append id a b)

count-insert :
    (id j : Str) (sh : Share) (db : Store)
    → download_count_of j (insert id sh db)
      ≡ (if str_eq id j then sh.download_count else download_count_of j db)
unfolding download_count_of
count-insert id j sh db = ground (arith, lookup-insert id j sh db)

capped-insert :
    (id : Str) (sh : Share) (db : Store) → AreCapped db → IsCapped sh → AreCapped (insert id sh db)
unfolding AreCapped
capped-insert id sh db capped this j r h = elim (Bool-cases (str_eq id j)) [
  | inl e ↦ subst IsCapped (row e) this
  | inr e ↦ capped j r (ground (arith, lookup-insert id j sh db))
]
  where
    row : str_eq id j ≡ true → sh ≡ r
    row e = ground (arith, lookup-insert id j sh db)

-- What one operation does to the count of an id and to the caps.
IsRecorded : Store → List Str → Store → Type 0
IsRecorded db log db' =
    ((j : Str) → download_count_of j db' ≡ times j log + download_count_of j db)
    × (AreCapped db → AreCapped db')

insert-IsRecorded :
    (id : Str) (sh : Share) (db db' : Store) (log : List Str)
    → insert id sh db ≡ db'
    → ((j : Str) → str_eq id j ≡ true → sh.download_count ≡ times j log + download_count_of j db)
    → ((j : Str) → str_eq id j ≡ false → times j log ≡ 0)
    → (AreCapped db → IsCapped sh)
    → IsRecorded db log db'
unfolding IsRecorded
insert-IsRecorded id sh db db' log stored here elsewhere cap = subst (IsRecorded db log) stored (
  (λ j. ground (arith, count-insert id j sh db, here j, elsewhere j)),
  (λ capped. capped-insert id sh db capped (cap capped)),
)

insert_share-IsRecorded :
    (sh : Share) (db db' : Store) → insert_share sh db ≡ ok db' → IsRecorded db [] db'
unfolding insert_share
insert_share-IsRecorded sh db db' h =
    insert-IsRecorded sh.id fresh db db' [] (ground arith)
      (λ j e. unfold times download_count_of in ground (arith, str_eq_sound sh.id j e))
      (λ j e. unfold times in refl) (λ capped. unfold IsCapped in λ m e. omega arith)
  where
    fresh : Share
    fresh = record sh {
      download_count = 0;
      revoked = false;
      revoked_at = none;
      last_accessed_at = none;
    }

increment-IsRecorded :
    (id : Str) (at : ℕ) (db db' : Store)
    → increment_share_access id at db ≡ ok db'
    → IsRecorded db (id ∷ []) db'
unfolding increment_share_access
increment-IsRecorded id at db db' h = elim (Option-cases (lookup id db)) [
  | inl e ↦ absurd (ground arith)
  | inr (sh, e) ↦
      insert-IsRecorded id
        (record sh { download_count = sh.download_count + 1; last_accessed_at = some at }) db db'
        (id ∷ []) (ground arith)
        (λ j f. unfold times download_count_of in ground (arith, str_eq_sound id j f))
        (λ j f. unfold times in ground arith) (λ capped. unfold IsCapped in λ m f. ground arith)
]

revoke_share-IsRecorded :
    (id : Str) (at : ℕ) (db db' : Store) → revoke_share id at db ≡ ok db' → IsRecorded db [] db'
unfolding revoke_share
revoke_share-IsRecorded id at db db' h = elim (Option-cases (lookup id db)) [
  | inl e ↦ absurd (ground arith)
  | inr (sh, e) ↦
      insert-IsRecorded id (record sh { revoked = true; revoked_at = some at }) db db' []
        (ground arith)
        (λ j f. unfold times download_count_of in ground (arith, str_eq_sound id j f))
        (λ j f. unfold times in refl)
        (λ capped. unfold AreCapped IsCapped in λ m f. capped id sh e m f)
]

insert_with_code-IsRecorded :
    (candidates : List (Option Str)) (sh minted : Share) (db db' : Store)
    → insert_with_code candidates sh db ≡ ok (minted, db')
    → IsRecorded db [] db'
unfolding insert_with_code
insert_with_code-IsRecorded [] sh minted db db' h = absurd (ground arith)
insert_with_code-IsRecorded (none ∷ candidates) sh minted db db' h = absurd (ground arith)
insert_with_code-IsRecorded (some code ∷ candidates) sh minted db db' h =
    elim (Fallible-cases (insert_share (record sh { code = code }) db)) [
      | inl (stored, e) ↦ insert_share-IsRecorded (record sh { code = code }) db db' (ground arith)
      | inr (e, f) ↦ insert_with_code-IsRecorded candidates sh minted db db' (ground arith)
    ]

unchanged-IsRecorded : (db db' : Store) → db ≡ db' → IsRecorded db [] db'
unfolding IsRecorded times
unchanged-IsRecorded db db' h = subst (IsRecorded db []) h (λ j. omega arith, λ capped. capped)

create-IsRecorded :
    (w : World) (now : ℕ) (created_by id : Str) (candidates : List (Option Str)) (p : CreateParams)
    (db db' : Store) (sh : Share)
    → create w now created_by id candidates p db ≡ ok (sh, db')
    → IsRecorded db [] db'
unfolding create
create-IsRecorded w now created_by id candidates p db db' sh h =
    elim (Option-cases (password_hash_for w p.password)) [
      | inl e ↦ absurd (ground arith)
      | inr (hash, e) ↦
          insert_with_code-IsRecorded (take max_attempts candidates)
            (new_share id created_by p now hash) sh db db' (ground arith)
    ]

revoke-IsRecorded :
    (now : ℕ) (user role id : Str) (db db' : Store)
    → revoke now user role id db ≡ ok db'
    → IsRecorded db [] db'
unfolding revoke
revoke-IsRecorded now user role id db db' h = elim (Option-cases (lookup id db)) [
  | inl e ↦ absurd (ground arith)
  | inr (sh, e) ↦ elim (Bool-cases sh.revoked) [
    | inl f ↦ unchanged-IsRecorded db db' (ground arith)
    | inr f ↦ revoke_share-IsRecorded id now db db' (ground arith)
  ]
]

Step-IsRecorded :
    {w : World} {db db' : Store} {log : List Str} → Step w db log db' → IsRecorded db log db'
Step-IsRecorded {w} {db} {db'} (Step.created {sh = sh} now created_by id candidates p h) =
    create-IsRecorded w now created_by id candidates p db db' sh h
Step-IsRecorded {w} {db} {db'} (Step.downloaded now id h) = increment-IsRecorded id now db db' h
Step-IsRecorded {w} {db} {db'} (Step.withdrawn now user role id h) =
    revoke-IsRecorded now user role id db db' h

Steps-IsRecorded :
    {w : World} {db db' : Store} {log : List Str} → Steps w db log db' → IsRecorded db log db'
unfolding IsRecorded
Steps-IsRecorded Steps.start = (λ j. unfold times in omega arith, λ capped. capped)
Steps-IsRecorded (Steps.next {log = log} {more = more} steps step) =
    let (before, before_caps) = Steps-IsRecorded steps in
    let (after, after_caps) = Step-IsRecorded step in
    (
      (λ j. omega (arith, before j, after j, times-append j more log)),
      (λ capped. after_caps (before_caps capped)),
    )

-- From an empty table, after any sequence of creations, counted downloads and revocations, the
-- counter of every share is the number of its downloads, and no share was downloaded more often than
-- its limit.
pub downloads-IsCapped :
    {w : World} {db : Store} {log : List Str} (id : Str) (sh : Share)
    → Steps w [] log db
    → lookup id db ≡ some sh
    → (sh.download_count ≡ times id log) × ((m : ℕ) → sh.max_downloads ≡ some m → times id log ≤ m)
downloads-IsCapped {w} {db} {log} id sh steps h =
    (counted, λ m e. unfold IsCapped in omega (arith, counted, capped m e))
  where
    nothing : download_count_of id [] ≡ 0
    nothing = unfold download_count_of lookup in refl

    counted : sh.download_count ≡ times id log
    counted =
        unfold download_count_of IsRecorded in
        ground (arith, (Steps-IsRecorded steps).0 id, nothing)

    capped : IsCapped sh
    capped =
        unfold IsRecorded AreCapped lookup in
        (Steps-IsRecorded steps).1 (λ j r e. absurd (ground arith)) id sh h
