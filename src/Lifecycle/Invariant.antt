-- ===== src/Lifecycle/Invariant.antt =====
-- What no interleaving of requests can break.
use test_lintaspay_backend.Common.{
  String, ◌≡◌, ◌≢◌, refl, ◌⊎◌, inl, inr, Bool, true, false, none, some, List, [], ◌∷◌, Some,
  rewrite_if, All, arith, Bool-cases,
}
use test_lintaspay_backend.Entity.{Time, Disbursement, CreateDisbursementRequest, status_pending}
use test_lintaspay_backend.External.{Services}
use test_lintaspay_backend.External.Sql.{is_live, mark_deleted, both, IsCollation}
use test_lintaspay_backend.Repository.Disbursements.{has_id_pending, set_status}
use test_lintaspay_backend.Usecase.Disbursements.{new_disbursement, calculate_admin_fee}
use test_lintaspay_backend.Lifecycle.{
  IsDecision, Step, inserted, decided, removed, Reach, here, next,
}

module _ {A : Type 0} (P : A → Type 0) (p : A → Bool) (f : A → A) where
  All-rewrite_if :
      ((a : A) → p a ≡ true → P a → P (f a)) → (xs : List A) → All P xs → All P (rewrite_if p f xs)
  All-rewrite_if keep [] h = tt
  All-rewrite_if keep (x ∷ xs) (h, hs) = elim (Bool-cases (p x)) [
    | inl yes' ↦ rw yes' (keep x yes' h, All-rewrite_if keep xs hs)
    | inr no' ↦ rw no' (h, All-rewrite_if keep xs hs)
  ]

module _ {A : Type 0} (p : A → Bool) (f : A → A) (a : A) where
  Some-rewrite_if :
      (xs : List A) → p a ≡ false → Some (λ x. x ≡ a) xs → Some (λ x. x ≡ a) (rewrite_if p f xs)
  Some-rewrite_if [] h s = s
  Some-rewrite_if (x ∷ xs) h (inl e) = inl (rw (e, h))
  Some-rewrite_if (x ∷ xs) h (inr s) = inr (Some-rewrite_if xs h s)

-- A row as the program leaves it: the fee belongs to the amount; a PENDING row has no approver; a
-- decided row is APPROVED or REJECTED, has an approver, and is not deleted.
pub record IsSound (d : Disbursement) : Type 0 where
  pub fee : d.admin_fee ≡ calculate_admin_fee d.amount
  pub state :
      ((d.status ≡ status_pending) × (d.approved_by ≡ none))
      ⊎ (IsDecision d.status × (d.approved_by ≢ none) × (d.deleted_at ≡ none))

module _ ⦃g : Services⦄ where
  IsSound-new :
      (actor : String) (at : Time) (id : String) (req : CreateDisbursementRequest)
      → IsSound (new_disbursement actor at id req)
  unfolding new_disbursement
  IsSound-new actor at id req = record { fee = refl; state = inl (refl, refl) }

  deleted_none : (d : Disbursement) → is_live d ≡ true → d.deleted_at ≡ none
  deleted_none d h = ground arith

  IsSound-set_status :
      (id status note actor : String) (at : Time) (d : Disbursement)
      → IsDecision status
      → both is_live (has_id_pending id) d ≡ true
      → IsSound d
      → IsSound (set_status status note actor at d)
  unfolding set_status
  IsSound-set_status id status note actor at d c h s = record {
    fee = s.fee;
    state = inr (c, (λ e. cc), deleted_none d (ground arith));
  }

module _ ⦃g : Services⦄ (collation : IsCollation g.sql_eq) where
  IsSound-mark_deleted :
      (id : String) (at : Time) (d : Disbursement)
      → both is_live (has_id_pending id) d ≡ true
      → IsSound d
      → IsSound (mark_deleted at d)
  IsSound-mark_deleted id at d h s = record { fee = s.fee; state = go s.state (ground arith) }
    where
      go :
          ((d.status ≡ status_pending) × (d.approved_by ≡ none))
            ⊎ (IsDecision d.status × (d.approved_by ≢ none) × (d.deleted_at ≡ none))
          → g.sql_eq d.status status_pending ≡ true
          → ((d.status ≡ status_pending) × (d.approved_by ≡ none))
            ⊎ (IsDecision d.status × (d.approved_by ≢ none) × (some at ≡ none))
      go (inl p) q = inl p
      go (inr (inl a, _, _)) q = cc (q, a, collation.approved_ne_pending)
      go (inr (inr a, _, _)) q = cc (q, a, collation.rejected_ne_pending)

  pub Step-IsSound :
      {old new : List Disbursement} → Step old new → All IsSound old → All IsSound new
  Step-IsSound (inserted actor at id req e) h = rw e (IsSound-new actor at id req, h)
  Step-IsSound {old} (decided id status note actor at c e) h =
      rw e (All-rewrite_if IsSound _ _ (λ d. IsSound-set_status id status note actor at d c) old h)
  Step-IsSound {old} (removed id at e) h =
      rw e (All-rewrite_if IsSound _ _ (IsSound-mark_deleted id at) old h)

  -- Whatever statements run, in whatever order, from a table of sound rows: every row stays sound.
  -- (Its fee is that of its amount, PENDING rows have no approver, and rows with an approver are
  -- APPROVED or REJECTED and not deleted.)
  pub Reach-IsSound :
      {old new : List Disbursement} → Reach old new → All IsSound old → All IsSound new
  Reach-IsSound here h = h
  Reach-IsSound (next r s) h = Step-IsSound s (Reach-IsSound r h)

-- A row that no statement may touch again: it is decided, or soft-deleted.
abbrev pub IsFinal : Disbursement → Type 0
IsFinal d = IsDecision d.status ⊎ (is_live d ≡ false)

-- The columns that say what is paid, to whom, for which fee, by whom and when it was asked.
abbrev pub SameOrder : Disbursement → Disbursement → Type 0
SameOrder a b =
    (a.id ≡ b.id)
    × (a.recipient_name ≡ b.recipient_name)
    × (a.account_number ≡ b.account_number)
    × (a.bank_code ≡ b.bank_code)
    × (a.amount ≡ b.amount)
    × (a.admin_fee ≡ b.admin_fee)
    × (a.created_by ≡ b.created_by)
    × (a.created_at ≡ b.created_at)

module _ {A : Type 0} (R : A → A → Type 0) (p : A → Bool) (f : A → A) where
  Some-related :
      (a : A) (xs : List A)
      → Some (λ x. R x a) xs
      → (trans : (x : A) → R x a → R (f x) a) → Some (λ x. R x a) (rewrite_if p f xs)
  Some-related a [] s trans = elim s [ ]
  Some-related a (x ∷ xs) (inl e) trans = elim (Bool-cases (p x)) [
    | inl yes' ↦ inl (rw yes' (trans x e))
    | inr no' ↦ inl (rw no' e)
  ]
  Some-related a (x ∷ xs) (inr s) trans = inr (Some-related a xs s trans)

module _ ⦃g : Services⦄ (collation : IsCollation g.sql_eq) where
  IsFinal-unselected :
      (id : String) (d : Disbursement) → IsFinal d → both is_live (has_id_pending id) d ≡ false
  IsFinal-unselected id d (inl (inl a)) = rw (a, collation.approved_ne_pending) (ground arith)
  IsFinal-unselected id d (inl (inr a)) = rw (a, collation.rejected_ne_pending) (ground arith)
  IsFinal-unselected id d (inr h) = rw h

  Step-final :
      {old new : List Disbursement} (d : Disbursement)
      → Step old new
      → IsFinal d
      → Some (λ x. x ≡ d) old
      → Some (λ x. x ≡ d) new
  Step-final d (inserted actor at id req e) f s = rw e (inr s)
  Step-final {old} d (decided id status note actor at c e) f s = rw e (
      Some-rewrite_if (both is_live (has_id_pending id)) (set_status status note actor at) d old
        (IsFinal-unselected id d f) s)
  Step-final {old} d (removed id at e) f s = rw e (
      Some-rewrite_if (both is_live (has_id_pending id)) (mark_deleted at) d old
        (IsFinal-unselected id d f) s)

  -- A row that is APPROVED, REJECTED or soft-deleted stays in the table as it is, in every column,
  -- whatever statements run in whatever order.
  pub Reach-final :
      {old new : List Disbursement} (d : Disbursement)
      → Reach old new
      → IsFinal d
      → Some (λ x. x ≡ d) old
      → Some (λ x. x ≡ d) new
  Reach-final d here f s = s
  Reach-final d (next r st) f s = Step-final d st f (Reach-final d r f s)

module _ ⦃g : Services⦄ where
  Step-SameOrder :
      {old new : List Disbursement} (d : Disbursement)
      → Step old new
      → Some (λ x. SameOrder x d) old
      → Some (λ x. SameOrder x d) new
  unfolding set_status
  Step-SameOrder d (inserted actor at id req e) s = rw e (inr s)
  Step-SameOrder {old} d (decided id status note actor at c e) s = rw e (
      Some-related SameOrder (both is_live (has_id_pending id)) (set_status status note actor at) d
        old s (λ x h. h))
  Step-SameOrder {old} d (removed id at e) s = rw e (
      Some-related SameOrder (both is_live (has_id_pending id)) (mark_deleted at) d old s
        (λ x h. h))

  -- No row is ever lost, and no statement changes its id, recipient, account, bank, amount, fee,
  -- creator or creation time, whatever statements run in whatever order.
  pub Reach-SameOrder :
      {old new : List Disbursement} (d : Disbursement)
      → Reach old new
      → Some (λ x. SameOrder x d) old
      → Some (λ x. SameOrder x d) new
  Reach-SameOrder d here s = s
  Reach-SameOrder d (next r st) s = Step-SameOrder d st (Reach-SameOrder d r s)
