-- ===== src/Usecase/Disbursements/Create/Reuse.antt =====
-- An idempotency key that is used again by another user, or for another request, is refused.
use mathlib.Core.Path.{subst}
use test_lintaspay_backend.Common.{
  ℕ, suc, String, ◌≡◌, ◌≢◌, refl, ap, ◌∙◌, ◌⊎◌, inl, inr, not, ◌||◌, ◌==◌, eq_iff, Bool, true,
  false, ◌+ℤ◌, ltb_ℤ, Bool-cases, arith,
}
use test_lintaspay_backend.Errors.{
  GoError, http, conflict, sentinel, idempotency_key_exists, errors_is,
}
use test_lintaspay_backend.Reqctx.{Context, user_id}
use test_lintaspay_backend.Entity.{Time, Disbursement, IdempotencyKey, CreateDisbursementRequest}
use test_lintaspay_backend.External.{ok, err, Services, disbursement}
use test_lintaspay_backend.External.Sql.{Database, IsReliable}
use test_lintaspay_backend.Monad.{World, M}
use test_lintaspay_backend.Repository.Disbursements as Repo
use test_lintaspay_backend.Repository.Disbursements.Rows.{
  rows, keys, create_with_idempotency-WritesBoth,
}
use test_lintaspay_backend.Usecase.Disbursements.{idem_ttl, hash_request}
use test_lintaspay_backend.Usecase.Disbursements.Create.{
  after_reservation, create_rounds, create, idempotency_row,
}
use test_lintaspay_backend.Usecase.Disbursements.Create.Once.{fresh, create-CreatedOnce}
use test_lintaspay_backend.Usecase.Disbursements.Create.Stored.{Front}
use test_lintaspay_backend.Usecase.Disbursements.Create.Replay.{
  taken, found-Front, ticked, create-eq-rounds, create-Stored,
}

abbrev pub key_reused : GoError
key_reused = http (conflict "idempotency key was already used with a different request")

differs : (a b : String) → a ≢ b → (a == b) ≡ false
differs a b n = elim (Bool-cases (a == b)) [ inl e ↦ elim (n ((eq_iff a b).0 e)) [ ] | inr e ↦ e ]

-- The test that `Create` makes of a key that is taken.
another : (u u' h h' : String) → (u ≢ u') ⊎ (h ≢ h') → (not (u == u') || not (h == h')) ≡ true
another u u' h h' (inl n) = rw (differs u u' n) refl
another u u' h h' (inr n) = rw (differs h h' n) (ground arith)

module _ ⦃g : Services⦄ ⦃db : Database g⦄ (reliable : IsReliable g db) where
  refused :
      (ctx : Context) (d : Disbursement) (idem : IdempotencyKey) (at : Time)
      (again : M (Disbursement × Bool)) (w : World g) (existing : IdempotencyKey)
      → (Repo.find_idempotency_key idem.key w).0 ≡ ok existing
      → ltb_ℤ existing.expires_at at ≡ false
      → (existing.user_id ≢ idem.user_id) ⊎ (existing.request_hash ≢ idem.request_hash)
      → (after_reservation ctx d idem at again (err (sentinel idempotency_key_exists)) w).0
        ≡ err key_reused
  unfolding after_reservation errors_is
  refused ctx d idem at again w existing found fresh' n =
      let t = another existing.user_id idem.user_id existing.request_hash idem.request_hash n in
      rw (found, fresh', t) refl

  rounds_refused :
      (ctx : Context) (d : Disbursement) (row idem : IdempotencyKey) (at : Time) (w : World g)
      (n : ℕ)
      → row.key ≡ idem.key
      → (row.user_id ≢ idem.user_id) ⊎ (row.request_hash ≢ idem.request_hash)
      → ltb_ℤ row.expires_at at ≡ false
      → Front reliable row (keys w)
      → (create_rounds (suc n) ctx d idem at w).0 ≡ err key_reused
  unfolding create_rounds
  rounds_refused ctx d row idem at w n same other fresh' front =
      let t = taken reliable d row idem w same front in
      let w' = (Repo.create_with_idempotency d idem w).1 in
      let kept = create_with_idempotency-WritesBoth d idem w in
      let unchanged : keys w' ≡ keys w = (rw t at kept).1 in
      let (old, e, f) = front in
      let found = found-Front reliable row w' (old, unchanged ∙ e, f) in
      rw t (
        refused ctx d idem at (create_rounds n ctx d idem at) w' row
          (subst (λ k. (Repo.find_idempotency_key k w').0 ≡ ok row) same found) fresh' other)

  -- On a database that answers: after `Create` with a valid key returned a new disbursement, any
  -- later `Create` with the same key by another user, or with a request of another hash, up to the
  -- expiry of the stored key and from any state with the same stored keys, is refused with the
  -- conflict (409) for a reused key, and changes no row.
  pub create-refuses :
      (ctx ctx' : Context) (req req' : CreateDisbursementRequest) (key : String) (w w₂ : World g)
      (d : Disbursement)
      → (key == "") ≡ false
      → g.uuid_parse key ≡ true
      → (create ctx req key w).0 ≡ ok (d, false)
      → (user_id ctx ≢ user_id ctx') ⊎ (hash_request req ≢ hash_request req')
      → keys w₂ ≡ keys (create ctx req key w).1
      → ltb_ℤ ((g.time_now w.host).0 +ℤ idem_ttl) (g.time_now w₂.host).0 ≡ false
      → ((create ctx' req' key w₂).0 ≡ err key_reused)
        × (rows (create ctx' req' key w₂).1 ≡ rows w₂)
  create-refuses ctx ctx' req req' key w w₂ d nonempty valid first other same_keys in_time =
      let (body, m) = reliable.json_total (disbursement (fresh ctx req w)) in
      let (body', m') = reliable.json_total (disbursement (fresh ctx' req' w₂)) in
      let (new, front) = create-Stored reliable ctx req key w d body nonempty valid m first in
      let (old, e, f) = front in
      let at = (g.time_now w₂.host).0 in
      let row = idempotency_row ctx req key (g.time_now w.host).0 body in
      let r : (create ctx' req' key w₂).0 ≡ err key_reused =
        ap (λ p. p.0) (create-eq-rounds reliable ctx' req' key w₂ body' nonempty valid m')
        ∙ rounds_refused ctx' (fresh ctx' req' w₂) row (idempotency_row ctx' req' key at body') at
            (ticked reliable ctx' req' key w₂) 1 refl other in_time (old, same_keys ∙ e, f) in
      let once = create-CreatedOnce ctx' req' key w₂ in (r, rw r at once)
