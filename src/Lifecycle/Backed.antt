-- ===== src/Lifecycle/Backed.antt =====
-- What a stored idempotency key stands for: a disbursement of the table, and the answer about it.
use test_lintaspay_backend.Common.{
  String, ◌≡◌, refl, not, List, Some, All, All-keep_if, All-map, inl,
}
use test_lintaspay_backend.Reqctx.{Context, username}
use test_lintaspay_backend.Entity.{Time, Disbursement, IdempotencyKey, CreateDisbursementRequest}
use test_lintaspay_backend.External.{Services, ok, disbursement}
use test_lintaspay_backend.Repository.Disbursements.{has_key}
use test_lintaspay_backend.Usecase.Disbursements.{new_disbursement}
use test_lintaspay_backend.Usecase.Disbursements.Create.{idempotency_row}
use test_lintaspay_backend.Lifecycle.{Reach}
use test_lintaspay_backend.Lifecycle.Invariant.{SameOrder, Reach-SameOrder}
use test_lintaspay_backend.Lifecycle.Runs.{
  Contents, Event, Statement, on_rows, looks_up, reserves, cleans_up, Continues, start, later,
  Statement-Reach,
}

module _ ⦃g : Services⦄ where
  -- The reservation belongs to one request of one caller: its hash, its owner, and the stored answer,
  -- the JSON of the disbursement as the request created it, whose row the table has.
  pub record IsBacked (rows : List Disbursement) (k : IdempotencyKey) : Type 0 where
    pub ctx : Context
    pub req : CreateDisbursementRequest
    pub key : String
    pub at : Time
    pub id : String
    pub body : String
    pub row : k ≡ idempotency_row ctx req key at body
    pub answer : g.json_marshal (disbursement (new_disbursement (username ctx) at id req)) ≡ ok body
    pub stored : Some (λ d. SameOrder d (new_disbursement (username ctx) at id req)) rows

  IsBacked-later :
      {old new : List Disbursement} (k : IdempotencyKey)
      → Reach old new
      → IsBacked old k
      → IsBacked new k
  IsBacked-later k r b = record {
    ctx = b.ctx;
    req = b.req;
    key = b.key;
    at = b.at;
    id = b.id;
    body = b.body;
    row = b.row;
    answer = b.answer;
    stored = Reach-SameOrder (new_disbursement (username b.ctx) b.at b.id b.req) r b.stored;
  }

  abbrev pub AllBacked : Contents → Type 0
  AllBacked c = All (IsBacked c.0) c.1

  keys_kept :
      {past : List Event} {old new : Contents} {e : Event}
      → Statement past old new e
      → AllBacked old
      → All (IsBacked new.0) old.1
  keys_kept {old} {new} s = All-map _ _ (λ k. IsBacked-later k (Statement-Reach s)) old.1

  Statement-AllBacked :
      {past : List Event} {old new : Contents} {e : Event}
      → Statement past old new e
      → All (IsBacked new.0) old.1
      → AllBacked new
  Statement-AllBacked (on_rows s k) h = rw k h
  Statement-AllBacked (looks_up at k s e) h = rw e (rw e at h)
  Statement-AllBacked (reserves ctx req key at id body m free d ks) h = rw ks (
    record {
      ctx = ctx;
      req = req;
      key = key;
      at = at;
      id = id;
      body = body;
      row = refl;
      answer = m;
      stored = rw d (inl (refl, refl, refl, refl, refl, refl, refl, refl));
    },
    h,
  )
  Statement-AllBacked {old} {new} (cleans_up key at k p x e r ks) h =
      rw ks (All-keep_if (IsBacked new.0) (λ j. not (has_key key j)) old.1 h)

  -- Along any run of statements, of any number of requests interleaved: every stored key is backed,
  -- if it was so at the start. (It is the reservation of one request, its answer tells of the
  -- disbursement that the request created, and the table has the row of that disbursement, with its
  -- id, recipient, account, bank, amount, fee, creator and creation time.)
  pub Continues-AllBacked :
      {past : List Event} {old : Contents} {es : List Event} {new : Contents}
      → Continues past old es new
      → AllBacked old
      → AllBacked new
  Continues-AllBacked start h = h
  Continues-AllBacked (later r s) h = Statement-AllBacked s (keys_kept s (Continues-AllBacked r h))
