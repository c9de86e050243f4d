-- ===== src/Usecase/Disbursements/Trail.antt =====
-- The audit trail of internal/usecase/disbursements.go: the entries of the audit table beside the
-- lines of the server log that say that an entry could not be written, and rules for the actions
-- that change them.
pub mod Traced
pub mod Batches
use test_lintaspay_backend.Common.{
  ℕ, String, ◌≡◌, refl, ap, subst, ◌⊎◌, inl, inr, Bool, true, false, Option, some, List, ◌∷◌, ◌==◌,
  count_if, if◌then◌else◌, arith, ◌+◌,
}
use test_lintaspay_backend.Errors.{GoError, HttpError}
use test_lintaspay_backend.Reqctx.{Context, username}
use test_lintaspay_backend.Entity.{AuditLog}
use test_lintaspay_backend.External.{Result, ok, err, Services, Marshalled}
use test_lintaspay_backend.External.Sql.{Database}
use test_lintaspay_backend.Monad.{
  World, M, fail, continue, ◌>>=◌, ◌>>◌, attempt, on_error, log, on_audit_logs, from_result, now,
  new_uuid,
}
use test_lintaspay_backend.Monad.Laws.{Result-cases}
use test_lintaspay_backend.Repository.Audit as AuditRepo
use test_lintaspay_backend.Usecase.Disbursements.{write_audit, log_failure, snapshot}
use test_lintaspay_backend.Usecase.Disbursements.Audit.{audits, write_audit_lem}

-- The entries, newest first, and the number of lines "failed to write audit log".
pub record Trail : Type 0 where
  pub entries : List AuditLog
  pub failures : ℕ

abbrev pub is_failure : String → Bool
is_failure line = line == "failed to write audit log"

module _ ⦃g : Services⦄ where
  -- One entry more, of this action of the caller on this disbursement, with this snapshot of it.
  pub record IsEntry (ctx : Context) (id action : String) (after : Marshalled) (a : AuditLog)
      : Type 0 where
    pub entity : a.entity_id ≡ id
    pub action_is : a.action ≡ action
    pub actor : a.actor ≡ username ctx
    pub state : a.after ≡ snapshot (some after)

  -- The action is in the trail: by its entry, or by the line that says that the entry failed.
  abbrev pub Traced : Context → String → String → Marshalled → Trail → Trail → Type 0
  Traced ctx id action after old new =
      ((a : AuditLog) × IsEntry ctx id action after a
        × (new ≡ record { entries = a ∷ old.entries; failures = old.failures }))
      ⊎ (new ≡ record { entries = old.entries; failures = 1 + old.failures })

module _ ⦃g : Services⦄ ⦃db : Database g⦄ where
  abbrev pub trail : World g → Trail
  trail w = record { entries = audits w; failures = count_if is_failure w.log }

  -- An error leaves the trail as it was; of a result, `T` says what became of it.
  abbrev pub Ended : {A : Type 0} → (A → Trail → Trail → Type 0) → Result A → Trail → Trail → Type 0
  Ended T (ok a) old new = T a old new
  Ended T (err e) old new = new ≡ old

  pub record Ends {A : Type 0} (T : A → Trail → Trail → Type 0) (m : M A) : Type 0 where
    pub at : (w : World g) → Ended T (m w).0 (trail w) (trail (m w).1)

  pub record Silent {A : Type 0} (m : M A) : Type 0 where
    pub quiet : (w : World g) → trail (m w).1 ≡ trail w

  Ended-from :
      {A : Type 0} (T : A → Trail → Trail → Type 0) (r : Result A) {old mid : Trail} (new : Trail)
      → mid ≡ old
      → Ended T r mid new
      → Ended T r old new
  Ended-from T r new e h = subst (λ x. Ended T r x new) e h

  Ended-continue :
      {A B : Type 0} (T : A → Trail → Trail → Type 0) (k : B → M A)
      → ((b : B) → Ends T (k b))
      → (r : Result B) (w : World g) {old : Trail} → trail w ≡ old
      → Ended T (continue k (r, w)).0 old (trail (continue k (r, w)).1)
  Ended-continue T k h (ok b) w e = Ended-from T (k b w).0 _ e ((h b).at w)
  Ended-continue T k h (err x) w e = e

  pub Ends-bind :
      {A B : Type 0} {T : A → Trail → Trail → Type 0} (m : M B) (k : B → M A)
      → Silent m
      → ((b : B) → Ends T (k b))
      → Ends T (m >>= k)
  Ends-bind {T = T} m k s h = record { at = λ w. Ended-continue T k h (m w).0 (m w).1 (s.quiet w) }

  pub Ends-if :
      {A : Type 0} {T : A → Trail → Trail → Type 0} (b : Bool) (m n : M A)
      → Ends T m
      → Ends T n
      → Ends T (if b then m else n)
  Ends-if true m n h k = h
  Ends-if false m n h k = k

  pub Ends-fail : {A : Type 0} {T : A → Trail → Trail → Type 0} (h : HttpError) → Ends T (fail h)
  Ends-fail h = record { at = λ w. refl }

  pub Ends-err :
      {A : Type 0} {T : A → Trail → Trail → Type 0} (e : GoError) → Ends T (λ w. (err e, w))
  Ends-err e = record { at = λ w. refl }

  pub Silent-on_error :
      {A : Type 0} (f : GoError → GoError) (m : M A) → Silent m → Silent (on_error f m)
  Silent-on_error f m s = record { quiet = s.quiet }

  pub Silent-attempt : {A : Type 0} (m : M A) → Silent m → Silent (attempt m)
  Silent-attempt m s = record { quiet = s.quiet }

  pub Silent-from_result : {A : Type 0} (r : Result A) → Silent (from_result r)
  Silent-from_result r = record { quiet = λ w. refl }

  pub Silent-now : Silent now
  Silent-now = record { quiet = λ w. refl }

  pub Silent-new_uuid : Silent new_uuid
  Silent-new_uuid = record { quiet = λ w. refl }

  pub Silent-log : (line : String) → is_failure line ≡ false → Silent (log line)
  Silent-log line h = record {
    quiet = λ w. ap (λ n. record { entries = audits w; failures = n }) (rw h (omega arith));
  }

  recorded :
      (ctx : Context) (id action : String) (after : Marshalled) (entry : AuditLog)
      → IsEntry ctx id action after entry
      → (w : World g)
      → let m =
          attempt (on_audit_logs (g.audit_logs.create entry))
          >>= log_failure "failed to write audit log" in
        Traced ctx id action after (trail w) (trail (m w).1)
  recorded ctx id action after entry h w =
      elim (Result-cases (g.audit_logs.create entry w.audit_logs).0) [
        | inl (u, e) ↦
            let added = db.audit_table.create_ok entry _ e in rw (e, added) (inl (entry, h, refl))
        | inr (x, e) ↦ let kept = db.audit_table.create_err entry _ x e in rw (e, kept) (inr refl)
      ]

  pub write_audit-Traced :
      (ctx : Context) (id action : String) (before : Option Marshalled) (after : Marshalled)
      (w : World g)
      → let m = write_audit ctx id action before (some after) in
        ((m w).0 ≡ ok tt) × Traced ctx id action after (trail w) (trail (m w).1)
  unfolding write_audit AuditRepo.create
  write_audit-Traced ctx id action before after w =
      let (id', host) = g.new_uuid w.host in
      let (at, host') = g.time_now host in
      let entry : AuditLog = record {
        id = id';
        entity_id = id;
        action = action;
        actor = username ctx;
        before = snapshot before;
        after = snapshot (some after);
        created_at = at;
      } in
      (
        (write_audit_lem ctx id action before (some after) w).0,
        recorded ctx id action after entry
            (record { entity = refl; action_is = refl; actor = refl; state = refl })
            (record w { host = host' }),
      )

  -- An action that a `writeAudit` ends, but for a step that returns `a` and leaves the trail alone.
  pub Ends-write_audit :
      {A : Type 0} {T : A → Trail → Trail → Type 0} (k : M A) (ctx : Context) (id action : String)
      (before : Option Marshalled) (after : Marshalled) (a : A)
      → ((w : World g) → (k w).0 ≡ ok a)
      → Silent k
      → ((old new : Trail) → Traced ctx id action after old new → T a old new)
      → Ends T (write_audit ctx id action before (some after) >> k)
  Ends-write_audit {T = T} k ctx id action before after a r s h = record {
    at = λ w.
        let (o, t) = write_audit-Traced ctx id action before after w in
        let w' = (write_audit ctx id action before (some after) w).1 in
        rw (o, r w', s.quiet w') (h _ _ t);
  }
