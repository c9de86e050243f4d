-- ===== src/Usecase/Disbursements/Create/Replay.antt =====
-- A repeated request with the same idempotency key gets the first response back.
use test_lintaspay_backend.Common.{
  ℕ, suc, String, ◌≡◌, refl, ap, ◌∙◌, ◌==◌, eq_refl, Bool, true, false, any, only, ◌+ℤ◌, ltb_ℤ,
}
use mathlib.Core.Path.{subst}
use test_lintaspay_backend.Errors.{sentinel, idempotency_key_exists, errors_is}
use test_lintaspay_backend.Reqctx.{Context, user_id}
use test_lintaspay_backend.Entity.{Time, Disbursement, IdempotencyKey, CreateDisbursementRequest}
use test_lintaspay_backend.External.{ok, err, Services, disbursement}
use test_lintaspay_backend.External.Sql.{Database, IsReliable}
use test_lintaspay_backend.Monad.{World, M}
use test_lintaspay_backend.Repository.{is_duplicate_entry}
use test_lintaspay_backend.Repository.Disbursements as Repo
use test_lintaspay_backend.Repository.Disbursements.{reserve_and_insert, has_key}
use test_lintaspay_backend.Repository.Disbursements.Rows.{keys, create_with_idempotency-WritesBoth}
use test_lintaspay_backend.Usecase.Disbursements.{idem_ttl}
use test_lintaspay_backend.Usecase.Disbursements.Create.{
  after_reservation, create_rounds, create, idempotency_row,
}
use test_lintaspay_backend.Usecase.Disbursements.Create.Once.{fresh}
use test_lintaspay_backend.Usecase.Disbursements.Create.Stored.{
  Front, Stored, Stores-create_rounds, create_with_idempotency-result,
}

module _ ⦃g : Services⦄ ⦃db : Database g⦄ (reliable : IsReliable g db) where
  -- The round in which the key turns out to be taken.
  replayed :
      (ctx : Context) (d : Disbursement) (idem : IdempotencyKey) (at : Time)
      (again : M (Disbursement × Bool)) (w : World g) (existing : IdempotencyKey)
      (cached : Disbursement)
      → (Repo.find_idempotency_key idem.key w).0 ≡ ok existing
      → ltb_ℤ existing.expires_at at ≡ false
      → existing.user_id ≡ idem.user_id
      → existing.request_hash ≡ idem.request_hash
      → g.json_disbursement existing.response_body ≡ ok cached
      → (after_reservation ctx d idem at again (err (sentinel idempotency_key_exists)) w).0
        ≡ ok (cached, true)
  unfolding after_reservation errors_is
  replayed ctx d idem at again w existing cached found fresh' user hash body =
      rw (found, fresh', user, hash, eq_refl idem.user_id, eq_refl idem.request_hash, body)

  pub taken_by_any :
      (d : Disbursement) (idem : IdempotencyKey) (w : World g)
      → any (has_key idem.key) (keys w) ≡ true
      → (Repo.create_with_idempotency d idem w).0 ≡ err (sentinel idempotency_key_exists)
  unfolding reserve_and_insert
  taken_by_any d idem w clash =
      let (x, created, number) = reliable.key_duplicate idem w.idempotency_keys clash in
      create_with_idempotency-result reliable d idem w ∙ rw (created, is_duplicate_entry, number)

  pub taken :
      (d : Disbursement) (row idem : IdempotencyKey) (w : World g)
      → row.key ≡ idem.key
      → Front reliable row (keys w)
      → (Repo.create_with_idempotency d idem w).0 ≡ err (sentinel idempotency_key_exists)
  taken d row idem w same (old, e, f) =
      taken_by_any d idem w (rw (e, same, db.collation.eq_refl) refl)

  pub found-Front :
      (row : IdempotencyKey) (w : World g)
      → Front reliable row (keys w)
      → (Repo.find_idempotency_key row.key w).0 ≡ ok row
  unfolding Repo.find_idempotency_key
  found-Front row w (old, e, f) =
      let present : any (has_key row.key) (keys w) ≡ true = rw (e, db.collation.eq_refl) refl in
      let (k, first) = reliable.key_found (has_key row.key) w.idempotency_keys present in
      let (_, matches, member) = db.key_table.first_ok _ _ k first in
      rw first (ap ok (only (has_key row.key) k row old f matches (rw e at member)))

  -- A second round-trip through `create_rounds`, with the stored row in front.
  rounds_replayed :
      (ctx : Context) (d : Disbursement) (row idem : IdempotencyKey) (at : Time) (w : World g)
      (n : ℕ) (cached : Disbursement)
      → row.key ≡ idem.key
      → row.user_id ≡ idem.user_id
      → row.request_hash ≡ idem.request_hash
      → ltb_ℤ row.expires_at at ≡ false
      → g.json_disbursement row.response_body ≡ ok cached
      → Front reliable row (keys w)
      → (create_rounds (suc n) ctx d idem at w).0 ≡ ok (cached, true)
  unfolding create_rounds
  rounds_replayed ctx d row idem at w n cached same user hash fresh' body front =
      let t = taken d row idem w same front in
      let w' = (Repo.create_with_idempotency d idem w).1 in
      let kept = create_with_idempotency-WritesBoth d idem w in
      let unchanged : keys w' ≡ keys w = (rw t at kept).1 in
      let (old, e, f) = front in
      let front' : Front reliable row (keys w') = (old, unchanged ∙ e, f) in
      rw t (
        replayed ctx d idem at (create_rounds n ctx d idem at) w' row cached
          (subst (λ k. (Repo.find_idempotency_key k w').0 ≡ ok row) same
            (found-Front row w' front'))
          fresh' user hash body)

  module _ (ctx : Context) (req : CreateDisbursementRequest) (key : String) where
    abbrev pub ticked : World g → World g
    ticked w = record w { host = (g.new_uuid (g.time_now w.host).1).1 }

    -- With a valid key that is not empty, `Create` is its loop.
    pub create-eq-rounds :
        (w : World g) (body : String)
        → (key == "") ≡ false
        → g.uuid_parse key ≡ true
        → g.json_marshal (disbursement (fresh ctx req w)) ≡ ok body
        → create ctx req key w
          ≡ create_rounds 2 ctx
              (fresh ctx req w)
              (idempotency_row ctx req key (g.time_now w.host).0 body)
              (g.time_now w.host).0
              (ticked w)
    unfolding create
    create-eq-rounds w body nonempty valid m = rw (nonempty, valid, m)

    -- What the first request leaves behind.
    pub create-Stored :
        (w : World g) (d : Disbursement) (body : String)
        → (key == "") ≡ false
        → g.uuid_parse key ≡ true
        → g.json_marshal (disbursement (fresh ctx req w)) ≡ ok body
        → (create ctx req key w).0 ≡ ok (d, false)
        → (d ≡ fresh ctx req w)
          × Front reliable
              (idempotency_row ctx req key (g.time_now w.host).0 body)
              (keys (create ctx req key w).1)
    create-Stored w d body nonempty valid m h =
        let e = create-eq-rounds w body nonempty valid m in
        let row = idempotency_row ctx req key (g.time_now w.host).0 body in
        let stored =
          (Stores-create_rounds reliable (fresh ctx req w) row 2 ctx (g.time_now w.host).0).at
            (ticked w) in
        let stored' : Stored reliable (fresh ctx req w) row (create ctx req key w).0
            (keys (create ctx req key w).1) =
          rw e stored in
        rw h at stored'

  -- On a database that answers: after `Create` with a valid key returned a new disbursement whose
  -- JSON reads back as it, any later `Create` of the same user with the same key and request, up to
  -- the expiry of the stored key and from any state with the same stored keys, returns that very
  -- disbursement as a replay.
  pub create-replays :
      (ctx ctx' : Context) (req : CreateDisbursementRequest) (key : String) (w w₂ : World g)
      (d : Disbursement)
      → (key == "") ≡ false
      → g.uuid_parse key ≡ true
      → (create ctx req key w).0 ≡ ok (d, false)
      → ((body : String)
          → g.json_marshal (disbursement d) ≡ ok body
          → g.json_disbursement body ≡ ok d)
      → user_id ctx ≡ user_id ctx'
      → keys w₂ ≡ keys (create ctx req key w).1
      → ltb_ℤ ((g.time_now w.host).0 +ℤ idem_ttl) (g.time_now w₂.host).0 ≡ false
      → (create ctx' req key w₂).0 ≡ ok (d, true)
  create-replays ctx ctx' req key w w₂ d nonempty valid first round_trip user same_keys in_time =
      let (body, m) = reliable.json_total (disbursement (fresh ctx req w)) in
      let (body', m') = reliable.json_total (disbursement (fresh ctx' req w₂)) in
      let (new, front) = create-Stored ctx req key w d body nonempty valid m first in
      let (old, e, f) = front in
      let at = (g.time_now w₂.host).0 in
      let row = idempotency_row ctx req key (g.time_now w.host).0 body in
      ap (λ p. p.0) (create-eq-rounds ctx' req key w₂ body' nonempty valid m')
      ∙ rounds_replayed ctx' (fresh ctx' req w₂) row (idempotency_row ctx' req key at body') at
          (ticked ctx' req key w₂) 1 d refl user refl in_time (round_trip body (rw new m))
          (old, same_keys ∙ e, f)
