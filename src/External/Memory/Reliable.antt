-- ===== src/External/Memory/Reliable.antt =====
-- The services in memory meet what External/Sql.antt asks of a database that answers.
use mathlib.Core.Path.{◌≡◌, refl}
use test_lintaspay_backend.Common.{
  String, Bool, true, false, inl, inr, some, List, [], ◌∷◌, any, Bool-cases, find_first, ◌==◌,
  if◌then◌else◌,
}
use test_lintaspay_backend.Errors.{GoError, mysql, as_mysql}
use test_lintaspay_backend.Entity.{Disbursement}
use test_lintaspay_backend.External.{
  Result, ok, err, Marshalled, disbursement, create_request, status_note, status_note_by,
  status_only, deleted_flag,
}
use test_lintaspay_backend.External.Sql.{always, both, IsReliable, IsAvailable, Admits, FindsTokens}
use test_lintaspay_backend.External.Memory.{memory, memory_database, or_missing, settle, marshal}

find_first-any :
    {Row : Type 0} (p : Row → Bool) (s : List Row)
    → any p s ≡ true
    → (r : Row) × (or_missing (find_first (both always p) s) ≡ ok r)
find_first-any p [] h = cc
find_first-any p (x ∷ s) h = elim (Bool-cases (p x)) [
  | inl y ↦ (x, rw y refl)
  | inr n ↦ let (r, e) = find_first-any p s (rw n at h) in (r, rw n e)
]

settle-result : {S : Type 0} (s : S) (body : Result (Unit {0}) × S) → (settle s body).0 ≡ body.0
settle-result s (ok tt, s') = refl
settle-result s (err e, s') = refl

marshal_total : (v : Marshalled) → (b : String) × (marshal v ≡ ok b)
marshal_total (disbursement d) = (d.id, refl)
marshal_total (create_request r) = (r.recipient_name, refl)
marshal_total (status_note s n) = ("{}", refl)
marshal_total (status_note_by s n a) = ("{}", refl)
marshal_total (status_only s) = ("{}", refl)
marshal_total (deleted_flag b) = ("{}", refl)

taken_key :
    {Row : Type 0} (b : Bool) (r : Row) (s : List Row)
    → b ≡ true
    → (e : GoError) × ((if◌then◌else◌ {A = Result (Unit {0}) × List Row} b
          (err (mysql 1062 "Duplicate entry"), s)
          (ok tt, r ∷ s)).0
        ≡ err e)
      × (as_mysql e ≡ some 1062)
unfolding as_mysql
taken_key true r s h = (mysql 1062 "Duplicate entry", refl, refl)
taken_key false r s h = cc

pub memory-IsReliable :
    (cached : Disbursement) → IsReliable (memory cached) (memory_database cached)
memory-IsReliable cached = record {
  key_duplicate = λ k s h. taken_key (any (λ j. j.key == k.key) s) k s h;
  key_found = λ p s h. find_first-any p s h;
  transaction_result = λ f s. settle-result s (f s);
  json_total = λ v. marshal_total v;
}

inserted :
    {Row : Type 0} (b : Bool) (r : Row) (s : List Row)
    → b ≡ false
    → (if◌then◌else◌ {A = Result (Unit {0}) × List Row} b
        (err (mysql 1062 "Duplicate entry"), s)
        (ok tt, r ∷ s)).0
      ≡ ok tt
inserted true r s h = cc
inserted false r s h = refl

pub memory-IsAvailable :
    (cached : Disbursement) → IsAvailable (memory cached) (memory_database cached)
memory-IsAvailable cached = record {
  key_insert = λ k s h. inserted (any (λ j. j.key == k.key) s) k s h;
  key_deletion = λ p s. (_, refl);
  disbursement_insert = λ d s h. inserted (any (λ x. x.id == d.id) s) d s h;
}

pub memory-Admits : (cached : Disbursement) → Admits (memory cached) (memory_database cached)
memory-Admits cached = record {
  key_admitted = λ k v s f m h. inserted (any (λ j. j.key == k.key) s) k s h;
  disbursement_admitted = λ d s f h. inserted (any (λ x. x.id == d.id) s) d s h;
  deletion_runs = λ p s. (_, refl);
}

pub memory-FindsTokens :
    (cached : Disbursement) → FindsTokens (memory cached) (memory_database cached)
memory-FindsTokens cached = record {
  token_found = λ p s h. find_first-any p s h;
  user_found = λ p s h. find_first-any p s h;
}
