-- ===== src/Lifecycle/Runs.antt =====
-- The statements on `disbursements` and `idempotency_keys` in the order in which they run, of one
-- request or of any number of them interleaved: what each does to the rows of both tables, and the
-- event that it leaves in the history.
use test_lintaspay_backend.Common.{
  String, ◌≡◌, sym, subst, true, false, not, List, [], ◌∷◌, ◌++◌, Some, any, keep_if, ltb_ℤ,
}
use mathlib.Core.List.{append_assoc}
use test_lintaspay_backend.Reqctx.{Context, username}
use test_lintaspay_backend.Entity.{Time, Disbursement, IdempotencyKey, CreateDisbursementRequest}
use test_lintaspay_backend.External.{Services, ok, disbursement}
use test_lintaspay_backend.Repository.Disbursements.{has_key}
use test_lintaspay_backend.Usecase.Disbursements.{new_disbursement}
use test_lintaspay_backend.Usecase.Disbursements.Create.{idempotency_row}
use test_lintaspay_backend.Lifecycle.{Step, inserted, Reach, here, next, Reach-trans}

-- The rows of the two tables.
abbrev pub Contents : Type 0
Contents = List Disbursement × List IdempotencyKey

pub data Event : Type 0 where
  row_changed : Event
  -- A request that compares with the time `at` has read this reservation.
  looked_up : (at : Time) → IdempotencyKey → Event
  reserved : IdempotencyKey → Event
  cleaned_up : (key : String) → Event

module _ ⦃g : Services⦄ where
  -- One statement, or one committed transaction, after the events `past`.
  pub data Statement (past : List Event) (old new : Contents) : Event → Type 0 where
    -- a statement on `disbursements` alone
    on_rows : Step old.0 new.0 → new.1 ≡ old.1 → Statement past old new row_changed
    -- `SELECT … WHERE key = ?`, by `Create`
    looks_up :
        (at : Time) (k : IdempotencyKey)
        → Some (λ x. x ≡ k) old.1
        → new ≡ old
        → Statement past old new (looked_up at k)
    -- the transaction of `CreateWithIdempotency`: a key that is free, with the new disbursement and
    -- the answer that tells of it
    reserves :
        (ctx : Context) (req : CreateDisbursementRequest) (key : String) (at : Time)
        (id body : String)
        → g.json_marshal (disbursement (new_disbursement (username ctx) at id req)) ≡ ok body
        → any (has_key key) old.1 ≡ false
        → new.0 ≡ new_disbursement (username ctx) at id req ∷ old.0
        → new.1 ≡ idempotency_row ctx req key at body ∷ old.1
        → Statement past old new (reserved (idempotency_row ctx req key at body))
    -- `DELETE … WHERE key = ?`, by a request that has read the key and found it expired
    cleans_up :
        (key : String) (at : Time) (k : IdempotencyKey)
        → Some (λ e. e ≡ looked_up at k) past
        → has_key key k ≡ true
        → ltb_ℤ k.expires_at at ≡ true
        → new.0 ≡ old.0
        → new.1 ≡ keep_if (λ j. not (has_key key j)) old.1
        → Statement past old new (cleaned_up key)

  -- Statements one after the other, after the events `past`; the newest event is first.
  pub data Continues (past : List Event) (old : Contents) : List Event → Contents → Type 0 where
    start : Continues past old [] old
    later :
        {es : List Event} {mid new : Contents} {e : Event}
        → Continues past old es mid
        → Statement (es ++ past) mid new e
        → Continues past old (e ∷ es) new

  -- From the beginning.
  abbrev pub Runs : Contents → List Event → Contents → Type 0
  Runs = Continues []

  pub Continues-trans :
      {past es : List Event} {a b : Contents} {fs : List Event} {c : Contents}
      → Continues past a es b
      → Continues (es ++ past) b fs c
      → Continues past a (fs ++ es) c
  Continues-trans r start = r
  Continues-trans {past} {es} r (later {es = fs} {mid} {new} {e} q s) =
      later (Continues-trans r q)
        (subst (λ l. Statement l mid new e) (sym (append_assoc fs es past)) s)

  -- The rows alone move along the life cycle.
  pub Statement-Reach :
      {past : List Event} {old new : Contents} {e : Event}
      → Statement past old new e
      → Reach old.0 new.0
  Statement-Reach (on_rows s k) = next here s
  Statement-Reach (looks_up at k s e) = rw e here
  Statement-Reach (reserves ctx req key at id body m f d k) =
      next here (inserted (username ctx) at id req d)
  Statement-Reach (cleans_up key at k p h x r c) = rw r here

  pub Continues-Reach :
      {past : List Event} {old : Contents} {es : List Event} {new : Contents}
      → Continues past old es new
      → Reach old.0 new.0
  Continues-Reach start = here
  Continues-Reach (later r s) = Reach-trans (Continues-Reach r) (Statement-Reach s)
