-- ===== src/Lifecycle/Once.antt =====
-- How often one idempotency key is reserved along a run.
use test_lintaspay_backend.Common.{
  ℕ, ◌+◌, ◌≤◌, String, ◌≡◌, refl, subst, ◌⊎◌, inl, inr, Bool, true, false, not, List, [], ◌∷◌, Some,
  any, count_if, keep_if, ltb_ℤ, Bool-cases, if◌then◌else◌, arith,
}
use mathlib.Core.List.{append-nil}
use test_lintaspay_backend.Entity.{IdempotencyKey}
use test_lintaspay_backend.External.{Services}
use test_lintaspay_backend.External.Sql.{IsCollation}
use test_lintaspay_backend.Repository.Disbursements.{has_key}
use test_lintaspay_backend.Usecase.Disbursements.Create.{idempotency_row}
use test_lintaspay_backend.Lifecycle.Runs.{
  Contents, Event, looked_up, reserved, cleaned_up, Statement, on_rows, looks_up, reserves,
  cleans_up, Continues, Runs, start, later,
}

module _ ⦃g : Services⦄ where
  -- The event reserves, or deletes, the key.
  abbrev pub is_reservation : String → Event → Bool
  is_reservation key (reserved k) = has_key key k
  is_reservation key _ = false

  abbrev pub is_clean_up : String → Event → Bool
  is_clean_up key (cleaned_up k) = g.sql_eq k key
  is_clean_up key _ = false

  -- A request has read the key when it had expired.
  abbrev pub SeenExpired : String → Event → Type 0
  SeenExpired key (looked_up at k) = (has_key key k ≡ true) × (ltb_ℤ k.expires_at at ≡ true)
  SeenExpired key _ = ⊥

  abbrev is_stored : String → List IdempotencyKey → ℕ
  is_stored key ks = if any (has_key key) ks then 1 else 0

module _ ⦃g : Services⦄ (collation : IsCollation g.sql_eq) (key : String) where
  -- Two keys that are equal select the same rows.
  has_key-same :
      (k : String) (x : IdempotencyKey) → g.sql_eq k key ≡ true → has_key k x ≡ has_key key x
  has_key-same k x e = elim (Bool-cases (g.sql_eq x.key k)) [
    | inl y ↦ rw (y, collation.eq_trans x.key k key y e) refl
    | inr n ↦ elim (Bool-cases (g.sql_eq x.key key)) [
      | inl z ↦ cc (n, collation.eq_trans x.key key k z (collation.eq_sym k key e))
      | inr z ↦ rw (n, z) refl
    ]
  ]

  free-same :
      (k : String) (ks : List IdempotencyKey)
      → g.sql_eq k key ≡ true
      → any (has_key k) ks ≡ false
      → any (has_key key) ks ≡ false
  free-same k [] e h = refl
  free-same k (x ∷ ks) e h = ground (arith, has_key-same k x e, free-same k ks e)

  stored-kept :
      (k : String) (ks : List IdempotencyKey)
      → g.sql_eq k key ≡ false
      → any (has_key key) ks ≡ true
      → any (has_key key) (keep_if (λ j. not (has_key k j)) ks) ≡ true
  stored-kept k [] n h = cc
  stored-kept k (x ∷ ks) n h = elim (Bool-cases (g.sql_eq x.key k)) [
    | inl y ↦ elim (Bool-cases (g.sql_eq x.key key)) [
      | inl z ↦ cc (n, collation.eq_trans k x.key key (collation.eq_sym x.key k y) z)
      | inr z ↦ rw y (stored-kept k ks n (rw z at h))
    ]
    | inr y ↦ elim (Bool-cases (g.sql_eq x.key key)) [
      | inl z ↦ rw (y, z) refl
      | inr z ↦ rw (y, z) (stored-kept k ks n (rw z at h))
    ]
  ]

  Counts : Event → List IdempotencyKey → List IdempotencyKey → Type 0
  Counts e old new =
      (if is_reservation key e then 1 else 0) + is_stored key old
      ≤ (if is_clean_up key e then 1 else 0) + is_stored key new

  reserves-Counts :
      (k : IdempotencyKey) (old : List IdempotencyKey)
      → any (has_key k.key) old ≡ false
      → Counts (reserved k) old (k ∷ old)
  unfolding Counts
  reserves-Counts k old free = elim (Bool-cases (g.sql_eq k.key key)) [
    | inl y ↦ rw (y, free-same k.key old y free) (omega arith)
    | inr n ↦ rw n (omega arith)
  ]

  cleans_up-Counts :
      (k : String) (old : List IdempotencyKey)
      → Counts (cleaned_up k) old (keep_if (λ j. not (has_key k j)) old)
  unfolding Counts
  cleans_up-Counts k old = elim (Bool-cases (g.sql_eq k key)) [
    | inl y ↦ rw y (ground arith)
    | inr n ↦ elim (Bool-cases (any (has_key key) old)) [
      | inl s ↦ rw (n, s, stored-kept k old n s) (omega arith)
      | inr s ↦ rw (n, s) (omega arith)
    ]
  ]

  Statement-Counts :
      {past : List Event} {old new : Contents} {e : Event}
      → Statement past old new e
      → Counts e old.1 new.1
  unfolding Counts
  Statement-Counts (on_rows s k) = rw k (omega arith)
  Statement-Counts (looks_up at k s e) = rw e (omega arith)
  Statement-Counts {old} (reserves ctx req k at id body m free d ks) =
      rw ks (reserves-Counts (idempotency_row ctx req k at body) old.1 free)
  Statement-Counts {old} (cleans_up k at j p h x r ks) = rw ks (cleans_up-Counts k old.1)

  Continues-Counts :
      {past : List Event} {old : Contents} {es : List Event} {new : Contents}
      → Continues past old es new
      → count_if (is_reservation key) es + is_stored key old.1
        ≤ count_if (is_clean_up key) es + is_stored key new.1
  unfolding Counts
  Continues-Counts start = omega arith
  Continues-Counts (later r s) = omega (arith, Continues-Counts r, Statement-Counts s)

  Some-seen :
      (past : List Event) (e : Event)
      → Some (λ x. x ≡ e) past
      → SeenExpired key e
      → Some (SeenExpired key) past
  Some-seen [] e h s = h
  Some-seen (x ∷ past) e (inl h) s = inl (rw h s)
  Some-seen (x ∷ past) e (inr h) s = inr (Some-seen past e h s)

  -- A clean-up of the key comes after a look-up that found it expired.
  Statement-clean_up :
      {past : List Event} {old new : Contents} {e : Event}
      → Statement past old new e
      → is_clean_up key e ≡ true
      → Some (SeenExpired key) past
  Statement-clean_up (on_rows s k) h = cc
  Statement-clean_up (looks_up at k s e) h = cc
  Statement-clean_up (reserves ctx req k at id body m free d ks) h = cc
  Statement-clean_up (cleans_up k at j seen has expired r ks) h =
      Some-seen _ _ seen (collation.eq_trans j.key k key has h, expired)

  clean_ups-seen :
      {old : Contents} {es : List Event} {new : Contents}
      → Runs old es new
      → (count_if (is_clean_up key) es ≡ 0) ⊎ Some (SeenExpired key) es
  clean_ups-seen start = inl refl
  clean_ups-seen (later {es} {e} r s) = elim (Bool-cases (is_clean_up key e)) [
    | inl y ↦ inr (inr (subst (Some (SeenExpired key)) (append-nil es) (Statement-clean_up s y)))
    | inr n ↦ elim (clean_ups-seen r) [
      | inl none' ↦ inl (rw (n, none') refl)
      | inr seen ↦ inr (inr seen)
    ]
  ]

  -- For a collation that is an equivalence and any run of statements, of any number of requests
  -- interleaved, on tables where the key is not stored: the key is reserved, each time together
  -- with one new disbursement, at most once more than it is deleted; and it is deleted only if
  -- a request has read it after its time had passed.
  pub Runs-once :
      {old : Contents} {es : List Event} {new : Contents}
      → Runs old es new
      → any (has_key key) old.1 ≡ false
      → (count_if (is_reservation key) es ≤ count_if (is_clean_up key) es + 1)
        × ((count_if (is_clean_up key) es ≡ 0) ⊎ Some (SeenExpired key) es)
  Runs-once {new} r free = (ground (arith, Continues-Counts r), clean_ups-seen r)
