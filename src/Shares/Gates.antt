-- ===== src/Shares/Gates.antt =====
-- Which shares Lookup and Resolve of internal/shares/shares.go give out, and how that agrees with the
-- update that counts a download.
use stowage.Base.{
  ok, ℕ, ◌+◌, ◌<◌, ◌≡◌, refl, ◌≢◌, ◌↔◌, ◌⊎◌, inl, inr, true, false, Option, none, some, [], arith,
  Option-cases, Str,
}
use stowage.Base.Dict.{lookup, insert}
use stowage.Shares.{Share, Store, World, has_room, is_open, record_access, increment_share_access}

-- A share that is neither revoked, nor expired, nor used up at a time.
pub IsAvailable : ℕ → Share → Type 0
IsAvailable now sh =
    (sh.revoked ≡ false)
    × ((e : ℕ) → sh.expires_at ≡ some e → now < e)
    × ((m : ℕ) → sh.max_downloads ≡ some m → sh.download_count < m)

-- A password that opens a share: any, where the share has none.
pub Opens : World → Str → Share → Type 0
Opens w password sh =
    (sh.password_hash ≡ [])
    ⊎ ((password ≢ []) × (w.verify_password password sh.password_hash ≡ true))

is_open-before : (o : Option ℕ) (now : ℕ) → is_open o now ≡ true → (e : ℕ) → o ≡ some e → now < e
is_open-before none now h e f = cc
is_open-before (some x) now h e f = ground arith

before-is_open : (o : Option ℕ) (now : ℕ) → ((e : ℕ) → o ≡ some e → now < e) → is_open o now ≡ true
before-is_open none now h = refl
before-is_open (some x) now h = ground (arith, h x refl)

has_room-below : (o : Option ℕ) (n : ℕ) → has_room o n ≡ true → (m : ℕ) → o ≡ some m → n < m
has_room-below none n h m f = cc
has_room-below (some x) n h m f = ground arith

below-has_room : (o : Option ℕ) (n : ℕ) → ((m : ℕ) → o ≡ some m → n < m) → has_room o n ≡ true
below-has_room none n h = refl
below-has_room (some x) n h = ground (arith, h x refl)

-- A download is counted exactly if the share with that id is available at that time: the update
-- tests the gates of `Lookup` once more.
pub record_access_iff :
    (now : ℕ) (id : Str) (db : Store)
    → ((db' : Store) × (record_access now id db ≡ ok db'))
      ↔ ((sh : Share) × (lookup id db ≡ some sh) × IsAvailable now sh)
unfolding increment_share_access IsAvailable
record_access_iff now id db = (
  (λ (db', h). elim (Option-cases (lookup id db)) [
    | inl e ↦ absurd (ground arith)
    | inr (sh, e) ↦ (
      sh,
      e,
      (
        ground arith,
        is_open-before sh.expires_at now (ground arith),
        has_room-below sh.max_downloads sh.download_count (ground arith),
      ),
    )
  ]),
  (λ (sh, e, (live, unexpired, room)). (
    insert id (record sh { download_count = sh.download_count + 1; last_accessed_at = some now })
        db,
    ground (
      arith,
      before-is_open sh.expires_at now unexpired,
      below-has_room sh.max_downloads sh.download_count room,
    ),
  )),
)
