-- ===== src/Shares/Examples.antt =====
-- Shares created, downloaded and revoked.
use stowage.Shares.{validate}
use stowage.Shares.{password_hash_for}
use stowage.Shares.{insert_with_code}
use stowage.Shares.{insert_share}
use stowage.Base.{ok, ℕ, ◌≤◌, ◌≡◌, refl, true, false, none, some, [], ◌∷◌, ◌++◌, codes, str_eq}
use stowage.Base.Dict.{lookup, insert}
use stowage.Base.Int64.{lt64}
use stowage.Shares.{
  Share, Store, World, CreateParams, get_share_by_code, create, new_share, resolve, lookup_share,
  record_access, increment_share_access,
}
use stowage.Shares.Downloads.{Step, Steps, times, downloads-IsCapped}

abbrev a_world : World
a_world = record {
  has_backend = str_eq (codes "minio");
  head_object = λ backend bucket key. true;
  hash_password = λ password. some (codes "$" ++ password);
  verify_password = λ password hash. str_eq (codes "$" ++ password) hash;
}

abbrev params : CreateParams
params = record {
  backend_id = codes "minio";
  bucket = codes "docs";
  key = codes "plan.pdf";
  expires_at = some 1000;
  password = codes "hi";
  max_downloads = 2;
  disposition = [];
}

abbrev minted : Share
minted = record {
  id = codes "s1";
  code = codes "abc";
  backend_id = codes "minio";
  bucket = codes "docs";
  key = codes "plan.pdf";
  created_by = codes "ada";
  created_at = 10;
  expires_at = some 1000;
  password_hash = codes "$hi";
  max_downloads = some 2;
  download_count = 0;
  revoked = false;
  revoked_at = none;
  last_accessed_at = none;
  disposition = codes "attachment";
}

abbrev after_create : Store
after_create = (codes "s1", minted) ∷ []

created :
    create a_world 10 (codes "ada") (codes "s1") (some (codes "abc") ∷ []) params []
    ≡ ok (minted, after_create)
unfolding create validate lt64 str_eq password_hash_for insert_with_code insert_share lookup
    get_share_by_code new_share insert
created = refl

abbrev once : Share
once = record minted { download_count = 1; last_accessed_at = some 20 }

abbrev after_download : Store
after_download = (codes "s1", once) ∷ []

downloaded : record_access 20 (codes "s1") after_create ≡ ok after_download
unfolding increment_share_access lookup str_eq insert
downloaded = refl

history : Steps a_world [] (codes "s1" ∷ []) after_download
history =
    Steps.next
      (Steps.next Steps.start
        (Step.created 10 (codes "ada") (codes "s1") (some (codes "abc") ∷ []) params created))
      (Step.downloaded 20 (codes "s1") downloaded)

downloads-IsCapped_example :
    (once.download_count ≡ times (codes "s1") (codes "s1" ∷ []))
    × ((m : ℕ) → once.max_downloads ≡ some m → times (codes "s1") (codes "s1" ∷ []) ≤ m)
unfolding lookup str_eq
downloads-IsCapped_example = downloads-IsCapped (codes "s1") once history refl

resolved : resolve a_world 20 (codes "abc") (codes "hi") after_create ≡ ok minted
unfolding resolve lookup_share get_share_by_code str_eq
resolved = refl
