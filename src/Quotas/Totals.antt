-- ===== src/Quotas/Totals.antt =====
-- What BackendTotals of internal/quotas/quotas.go adds up.
use stowage.Base.{
  ◌+◌, ◌%◌, ◌<◌, ◌≡◌, refl, sym, ap, subst, ◌∙◌, inl, inr, true, false, Option, none, some, List,
  [], ◌∷◌, arith, if◌then◌else◌, Bool-cases, Option-cases, length, Str, str_eq, str_eq_self,
  str_eq_sound, cut,
}
use stowage.Base.Dict.{Dict, lookup, insert, lookup-insert}
use stowage.Base.Int64.{modulus, add64}
use stowage.Quotas.{Usage, Service}
use stowage.Quotas.Dashboard.{
  BackendTotal, add_usage, row_or_new, totals_from, backend_totals, usages_of, sum_of,
}

-- A row with the usages of some buckets added.
pub grown : BackendTotal → List Usage → BackendTotal
grown row us = record {
  backend_id = row.backend_id;
  bytes = (row.bytes + sum_of (λ u. u.bytes) us) % modulus;
  objects = (row.objects + sum_of (λ u. u.object_count) us) % modulus;
  buckets = row.buckets + length us;
}

IsReduced : BackendTotal → Type 0
IsReduced row = (row.bytes < modulus) × (row.objects < modulus)

grown-nil : (row : BackendTotal) → IsReduced row → grown row [] ≡ row
unfolding grown IsReduced sum_of
grown-nil row h = ground arith

grown-cons :
    (row : BackendTotal) (u : Usage) (us : List Usage)
    → grown row (u ∷ us) ≡ grown (add_usage u row) us
unfolding grown sum_of add64
grown-cons row u us = ground arith

-- What a map holds for a backend once the usages of some buckets are added to what it held.
abbrev after : Str → Option BackendTotal → List Usage → Option BackendTotal
after id o [] = o
after id o (u ∷ us) = some (grown (row_or_new id o) (u ∷ us))

after-some :
    (id : Str) (row : BackendTotal) (us : List Usage)
    → IsReduced row
    → after id (some row) us ≡ some (grown row us)
after-some id row [] h = ap some (sym (grown-nil row h))
after-some id row (u ∷ us) h = refl

add_usage-IsReduced : (u : Usage) (row : BackendTotal) → IsReduced (add_usage u row)
unfolding IsReduced add64
add_usage-IsReduced u row = (omega arith, omega arith)

abbrev counted : Str → Usage → Dict BackendTotal → Dict BackendTotal
counted owner u out = insert owner (add_usage u (row_or_new owner (lookup owner out))) out

totals_from-cons :
    (out : Dict BackendTotal) (k owner bucket : Str) (u : Usage) (cache : Dict Usage)
    → cut b'/' k ≡ some (owner, bucket)
    → totals_from out ((k, u) ∷ cache) ≡ totals_from (counted owner u out) cache
unfolding totals_from
totals_from-cons out k owner bucket u cache e = ground arith

usages_of-cons :
    (id k owner bucket : Str) (u : Usage) (cache : Dict Usage)
    → cut b'/' k ≡ some (owner, bucket)
    → usages_of id ((k, u) ∷ cache)
      ≡ (if str_eq owner id then u ∷ usages_of id cache else usages_of id cache)
unfolding usages_of
usages_of-cons id k owner bucket u cache e = ground arith

lookup-totals_from :
    (id : Str) (out : Dict BackendTotal) (cache : Dict Usage)
    → lookup id (totals_from out cache) ≡ after id (lookup id out) (usages_of id cache)
lookup-totals_from id out [] = unfold totals_from usages_of in refl
lookup-totals_from id out ((k, u) ∷ cache) = elim (Option-cases (cut b'/' k)) [
  | inl e ↦
      ap (lookup id) (skip e)
      ∙ lookup-totals_from id out cache
      ∙ ap (after id (lookup id out)) (skipped e)
  | inr ((owner, bucket), e) ↦
      ap (lookup id) (totals_from-cons out k owner bucket u cache e)
      ∙ lookup-totals_from id (counted owner u out) cache
      ∙ turn owner
      ∙ sym (ap (after id (lookup id out)) (usages_of-cons id k owner bucket u cache e))
]
  where
    skip : cut b'/' k ≡ none → totals_from out ((k, u) ∷ cache) ≡ totals_from out cache
    skip e = unfold totals_from in ground arith

    skipped : cut b'/' k ≡ none → usages_of id cache ≡ usages_of id ((k, u) ∷ cache)
    skipped e = unfold usages_of in ground arith

    turn :
        (owner : Str)
        → after id (lookup id (counted owner u out)) (usages_of id cache)
          ≡ after id
              (lookup id out)
              (if str_eq owner id then u ∷ usages_of id cache else usages_of id cache)
    turn owner = elim (Bool-cases (str_eq owner id)) [
      | inl f ↦
          ap (λ o. after id o (usages_of id cache)) (found owner f)
          ∙ after-some id (add_usage u (row_or_new id (lookup id out))) (usages_of id cache)
              (add_usage-IsReduced u (row_or_new id (lookup id out)))
          ∙ ap some (sym (grown-cons (row_or_new id (lookup id out)) u (usages_of id cache)))
          ∙ ap
              (λ b.
                after id (lookup id out) (if b then u ∷ usages_of id cache else usages_of id cache))
              (sym f)
      | inr f ↦
          ap (λ o. after id o (usages_of id cache)) (missed owner f)
          ∙ ap
              (λ b.
                after id (lookup id out) (if b then u ∷ usages_of id cache else usages_of id cache))
              (sym f)
    ]
      where
        found :
            (owner : Str)
            → str_eq owner id ≡ true
            → lookup id (counted owner u out) ≡ some (add_usage u (row_or_new id (lookup id out)))
        found owner f =
            subst
              (λ x.
                lookup x (counted owner u out) ≡ some (add_usage u (row_or_new x (lookup x out))))
              (str_eq_sound owner id f)
              (ground (
                arith,
                str_eq_self owner,
                lookup-insert owner owner (add_usage u (row_or_new owner (lookup owner out))) out,
              ))

        missed :
            (owner : Str)
            → str_eq owner id ≡ false
            → lookup id (counted owner u out) ≡ lookup id out
        missed owner f =
            ground (
              arith,
              lookup-insert owner id (add_usage u (row_or_new owner (lookup owner out))) out,
            )

-- The dashboard's row of a backend is the sum, as 64-bit numbers, of the usages of its buckets in the
-- cache, with their number; a backend with no bucket in the cache has no row.
pub backend_totals_lem :
    (s : Service) (id : Str)
    → lookup id (backend_totals s) ≡ elim (usages_of id s.cache) [
      | [] ↦ none
      | u ∷ us ↦ some (record {
        backend_id = id;
        bytes = sum_of (λ v. v.bytes) (u ∷ us) % modulus;
        objects = sum_of (λ v. v.object_count) (u ∷ us) % modulus;
        buckets = length (u ∷ us);
      })
    ]
backend_totals_lem s id = lookup-totals_from id [] s.cache ∙ shown (usages_of id s.cache)
  where
    shown :
        (us : List Usage)
        → after id (lookup id []) us ≡ elim us [
          | [] ↦ none
          | v ∷ vs ↦ some (record {
            backend_id = id;
            bytes = sum_of (λ w. w.bytes) (v ∷ vs) % modulus;
            objects = sum_of (λ w. w.object_count) (v ∷ vs) % modulus;
            buckets = length (v ∷ vs);
          })
        ]
    shown [] = unfold lookup in refl
    shown (v ∷ vs) = unfold lookup grown in ground arith
