-- ===== src/Lifecycle/Telling.antt =====
-- Rules for what a replayed answer tells: a judgement on the actions of `Create`, in states where
-- every stored key is backed.
use test_lintaspay_backend.Common.{
  ℕ, String, ◌≡◌, refl, Bool, true, false, not, List, [], ◌∷◌, Some, All, All-keep_if, inl, inr,
  if◌then◌else◌,
}
use test_lintaspay_backend.Errors.{GoError}
use test_lintaspay_backend.Reqctx.{Context, username, user_id}
use test_lintaspay_backend.Entity.{Time, Disbursement, IdempotencyKey, CreateDisbursementRequest}
use test_lintaspay_backend.External.{Result, ok, err, Services, disbursement}
use test_lintaspay_backend.External.Sql.{Database}
use test_lintaspay_backend.Monad.{World, M, pure, continue, ◌>>=◌, ◌>>◌, on_error, from_result, log}
use test_lintaspay_backend.Monad.Laws.{Result-cases}
use test_lintaspay_backend.Repository.Disbursements as Repo
use test_lintaspay_backend.Repository.Disbursements.{has_key}
use test_lintaspay_backend.Repository.Disbursements.Rows.{
  rows, keys, keys-find_idempotency_key, find_idempotency_key-ok, rows-find_idempotency_key,
  rows-delete_idempotency_key, Removes, delete_idempotency_key-Removes,
}
use test_lintaspay_backend.Usecase.Disbursements.{new_disbursement, hash_request}
use test_lintaspay_backend.Lifecycle.Invariant.{SameOrder}
use test_lintaspay_backend.Lifecycle.Moves.{contents}
use test_lintaspay_backend.Lifecycle.Rules.{Advances}
use test_lintaspay_backend.Lifecycle.Backed.{IsBacked, AllBacked, Continues-AllBacked}

All-member :
    {A : Type 0} (P : A → Type 0) (a : A) (xs : List A) → All P xs → Some (λ x. x ≡ a) xs → P a
All-member P a [] h s = elim s [ ]
All-member P a (x ∷ xs) h (inl e) = rw (← e) h.0
All-member P a (x ∷ xs) h (inr s) = All-member P a xs h.1 s

module _ ⦃g : Services⦄ ⦃db : Database g⦄ (ctx : Context) (hash key : String) where
  -- `d` is what the JSON of a disbursement reads as that a request of this caller created, with this
  -- hash and under this key, and the table has its row.
  pub record Replayed (d : Disbursement) (table : List Disbursement) : Type 0 where
    pub maker : Context
    pub req : CreateDisbursementRequest
    pub first_key : String
    pub at : Time
    pub id : String
    pub body : String
    pub encoded :
        g.json_marshal (disbursement (new_disbursement (username maker) at id req)) ≡ ok body
    pub decoded : g.json_disbursement body ≡ ok d
    pub same_user : user_id maker ≡ user_id ctx
    pub same_hash : hash_request req ≡ hash
    pub same_key : g.sql_eq first_key key ≡ true
    pub stored : Some (λ x. SameOrder x (new_disbursement (username maker) at id req)) table

  abbrev pub Told : Result (Disbursement × Bool) → List Disbursement → Type 0
  Told (ok (d, true)) table = Replayed d table
  Told (ok (d, false)) table = Unit
  Told (err e) table = Unit

  replayed :
      (existing : IdempotencyKey) (d : Disbursement) (table : List Disbursement)
      → IsBacked table existing
      → g.json_disbursement existing.response_body ≡ ok d
      → has_key key existing ≡ true
      → existing.user_id ≡ user_id ctx
      → existing.request_hash ≡ hash
      → Replayed d table
  replayed existing d table b j k u h = record {
    maker = b.ctx;
    req = b.req;
    first_key = b.key;
    at = b.at;
    id = b.id;
    body = b.body;
    encoded = b.answer;
    decoded = rw b.row at j;
    same_user = rw b.row at u;
    same_hash = rw b.row at h;
    same_key = rw b.row at k;
    stored = b.stored;
  }

  -- Begun in a state whose keys are backed, `m` keeps them so.
  pub record Keeps {A : Type 0} (m : M A) : Type 0 where
    pub at : (w : World g) → AllBacked (contents w) → AllBacked (contents (m w).1)

  -- Begun in such a state, a replay that `m` returns is a true one.
  pub record Tells (m : M (Disbursement × Bool)) : Type 0 where
    pub at : (w : World g) → AllBacked (contents w) → Told (m w).0 (rows (m w).1)

  pub Keeps-Advances : {A : Type 0} (m : M A) → Advances [] m → Keeps m
  Keeps-Advances m a = record { at = λ w h. let (es, r) = a.at [] tt w in Continues-AllBacked r h }

  pub Keeps-on_error :
      {A : Type 0} (f : GoError → GoError) (m : M A) → Keeps m → Keeps (on_error f m)
  Keeps-on_error f m h = record { at = h.at }

  removed_keeps :
      (k : String) (r : Result ℕ) (table : List Disbursement) (old new : List IdempotencyKey)
      → Removes k r old new
      → AllBacked (table, old)
      → AllBacked (table, new)
  removed_keeps k (ok n) table old new e h =
      rw e (All-keep_if (IsBacked table) (λ j. not (has_key k j)) old h)
  removed_keeps k (err x) table old new e h = rw e h

  pub Keeps-delete_idempotency_key : (k : String) → Keeps (Repo.delete_idempotency_key k)
  Keeps-delete_idempotency_key k = record {
    at = λ w h.
        rw (rows-delete_idempotency_key k w)
          (removed_keeps k _ (rows w) _ _ (delete_idempotency_key-Removes k w) h);
  }

  pub Tells-err : (e : GoError) → Tells (λ w. (err e, w))
  Tells-err e = record { at = λ w h. tt }

  pub Tells-new : (d : Disbursement) → Tells (pure (d, false))
  Tells-new d = record { at = λ w h. tt }

  continue-Tells :
      {A : Type 0} (f : A → M (Disbursement × Bool))
      → ((a : A) → Tells (f a))
      → (r : Result A) (w : World g) → AllBacked (contents w)
      → Told (continue f (r, w)).0 (rows (continue f (r, w)).1)
  continue-Tells f k (ok a) w h = (k a).at w h
  continue-Tells f k (err e) w h = tt

  pub Tells-bind :
      {A : Type 0} (m : M A) (f : A → M (Disbursement × Bool))
      → Keeps m
      → ((a : A) → Tells (f a))
      → Tells (m >>= f)
  Tells-bind m f s k = record { at = λ w h. continue-Tells f k (m w).0 (m w).1 (s.at w h) }

  pub Tells-if :
      (b : Bool) (m n : M (Disbursement × Bool))
      → (b ≡ true → Tells m)
      → (b ≡ false → Tells n)
      → Tells (if b then m else n)
  Tells-if true m n p q = p refl
  Tells-if false m n p q = q refl

  -- The same, where the reservation `k` has been found.
  pub record TellsOf (k : IdempotencyKey) (m : M (Disbursement × Bool)) : Type 0 where
    pub at :
        (w : World g) → AllBacked (contents w) → IsBacked (rows w) k → Told (m w).0 (rows (m w).1)

  pub TellsOf-Tells : (k : IdempotencyKey) (m : M (Disbursement × Bool)) → Tells m → TellsOf k m
  TellsOf-Tells k m h = record { at = λ w b _. h.at w b }

  pub TellsOf-if :
      (k : IdempotencyKey) (b : Bool) (m n : M (Disbursement × Bool))
      → (b ≡ true → TellsOf k m)
      → (b ≡ false → TellsOf k n)
      → TellsOf k (if b then m else n)
  TellsOf-if k true m n p q = p refl
  TellsOf-if k false m n p q = q refl

  pub TellsOf-replay :
      (k : IdempotencyKey) (f : GoError → GoError) (message : String)
      → has_key key k ≡ true
      → k.user_id ≡ user_id ctx
      → k.request_hash ≡ hash
      → TellsOf k (
          on_error f (from_result (g.json_disbursement k.response_body))
          >>= (λ cached. log message >> pure (cached, true)))
  TellsOf-replay k f message has user same = record {
    at = λ w h b. elim (Result-cases (g.json_disbursement k.response_body)) [
      | inl (d, e) ↦ rw e (replayed k d (rows w) b e has user same)
      | inr (x, e) ↦ rw e tt
    ];
  }

  pub Tells-find :
      (f : GoError → GoError) (next : IdempotencyKey → M (Disbursement × Bool))
      → ((k : IdempotencyKey) → has_key key k ≡ true → TellsOf k (next k))
      → Tells (on_error f (Repo.find_idempotency_key key) >>= next)
  Tells-find f next h = record {
    at = λ w b.
        let same = rows-find_idempotency_key key w in
        let kept = keys-find_idempotency_key key w in
        elim (Result-cases (Repo.find_idempotency_key key w).0) [
          | inl (k, e) ↦
              let (has, stored) = find_idempotency_key-ok key w k e in
              let backed = All-member (IsBacked (rows w)) k (keys w) b stored in
              rw e (
                (h k has).at (Repo.find_idempotency_key key w).1 (rw (same, kept) b)
                  (rw same backed))
          | inr (x, e) ↦ rw e tt
        ];
  }
