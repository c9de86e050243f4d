-- ===== src/External/Memory.antt =====
-- Services in memory: tables that are lists and never fail, a clock that ticks, a supply of UUIDs,
-- and stand-ins for the rest. They meet the laws of External/Sql.antt, so those can hold, and the
-- tests run on them.
pub mod Reliable
mod Sorting
mod Ordered
use Prim.Native.String
use mathlib.Core.Path.{◌≡◌, refl}
use test_lintaspay_backend.Common.{
  eq_iff, ◌∙◌, false, ℕ, sym, All, length, keep_if-All, All-drop, All-take, length-take,
  length-drop, length-keep_if, min, ◌-◌, ◌+◌, String, Bool, true, not, ℤ, pos, pos_part, ◌+ℤ◌, quot,
  Option, none, some, List, [], ◌∷◌, Some, any, count_if, keep_if, rewrite_if, find_first, take,
  drop, arith, ◌==◌, eq_refl, if◌then◌else◌,
}
use test_lintaspay_backend.External.Memory.Sorting.{sort_by, All-sort_by, length-sort_by}
use test_lintaspay_backend.External.Memory.Ordered.{order_key, in_order, newest_key, newest_first}
use test_lintaspay_backend.Errors.{GoError, mysql, sentinel, other, record_not_found}
use test_lintaspay_backend.Entity.{Time, Disbursement}
use test_lintaspay_backend.External.{
  Result, ok, err, Table, Services, Marshalled, disbursement, create_request, TokenClaims, hmac,
}
use test_lintaspay_backend.External.Sql.{
  is_live, mark_deleted, always, both, IsTable, IsCollation, TxOutcome, committed, rolled_back,
  Database,
}

abbrev pub or_missing : {Row : Type 0} → Option Row → Result Row
or_missing none = err (sentinel record_not_found)
or_missing (some r) = ok r

-- A table whose rows clash where `same` says so.
abbrev pub memory_table :
    {Row : Type 0}
    → (Row → Row → Bool)
    → (Row → Bool)
    → ((Row → Bool) → List Row → List Row)
    → (String → Row → ℤ)
    → Table Row
memory_table {Row} same live remove key = record {
  State = List Row;
  create =
      λ r s. if any (same r) s then (err (mysql 1062 "Duplicate entry"), s) else (ok tt, r ∷ s);
  first = λ p s. (or_missing (find_first (both live p) s), s);
  count = λ p s. (ok (pos (count_if (both live p) s)), s);
  find = λ p win s.
      let found = sort_by (key win.order) (keep_if (both live p) s) in
      (ok (take (pos_part win.limit) (drop (pos_part win.offset) found)), s);
  updates = λ p f s. (ok (count_if (both live p) s), rewrite_if (both live p) f s);
  delete = λ p s. (ok (count_if (both live p) s), remove p s);
}

module _ {Row : Type 0} (live p : Row → Bool) where
  find_first-ok :
      (s : List Row) (r : Row)
      → or_missing (find_first (both live p) s) ≡ ok r
      → (live r ≡ true) × (p r ≡ true) × Some (λ x. x ≡ r) s
  find_first-ok [] r h = cc
  find_first-ok (x ∷ s) r h = ground (arith, find_first-ok s r)

  find_first-missing :
      (s : List Row) (e : GoError)
      → or_missing (find_first (both live p) s) ≡ err e
      → count_if (both live p) s ≡ 0
  find_first-missing [] e h = refl
  find_first-missing (x ∷ s) e h = ground (arith, find_first-missing s e)

listed :
    {Row : Type 0} (key : Row → ℤ) (live p : Row → Bool) (limit offset : ℕ) (s rs : List Row)
    → ok (take limit (drop offset (sort_by key (keep_if (both live p) s)))) ≡ ok rs
    → All (λ r. both live p r ≡ true) rs
      × (length rs ≡ min limit (count_if (both live p) s - offset))
listed key live p limit offset s rs h =
    let same : take limit (drop offset (sort_by key (keep_if (both live p) s))) ≡ rs = cc in
    rw (sym same) (
      All-take _ limit _ (All-drop _ offset _ (All-sort_by key _ _ (keep_if-All (both live p) s))),
      rw
          (
            length-take limit (drop offset (sort_by key (keep_if (both live p) s))),
            length-drop offset (sort_by key (keep_if (both live p) s)),
            length-sort_by key (keep_if (both live p) s),
            length-keep_if (both live p) s,
          )
          refl,
    )

pub memory_table-IsTable :
    {Row : Type 0} (same : Row → Row → Bool) (live : Row → Bool)
    (remove : (Row → Bool) → List Row → List Row) (key : String → Row → ℤ)
    → IsTable (memory_table same live remove key) (λ s. s) live
memory_table-IsTable same live remove key = record {
  create_ok = λ r s h. ground arith;
  create_err = λ r s e h. ground arith;
  first_rows = λ p s. refl;
  first_ok = λ p s r h. find_first-ok live p s r h;
  first_missing = λ p s e h _. find_first-missing live p s e h;
  updates_ok = λ p f s n h. refl;
  updates_count = λ p f s n h _. ground arith;
  updates_err = λ p f s e h. cc;
  delete_err = λ p s e h. cc;
  count_rows = λ p s. refl;
  find_rows = λ p win s. refl;
  count_ok = λ p s n h. cc;
  find_ok = λ p win s rs h _.
      listed (key win.order) live p (pos_part win.limit) (pos_part win.offset) s rs h;
}

abbrev pub settle : {S : Type 0} → S → Result (Unit {0}) × S → Result (Unit {0}) × S
settle s (ok u, s') = (ok u, s')
settle s (err e, s') = (err e, s)

pub settle-TxOutcome :
    {S : Type 0} (Same : S → S → Type 0) (same_refl : (s : S) → Same s s) (s : S)
    (body : Result (Unit {0}) × S)
    → TxOutcome Same s body (settle s body)
settle-TxOutcome Same same_refl s (ok tt, s') = committed refl refl (same_refl s')
settle-TxOutcome Same same_refl s (err e, s') = rolled_back e refl refl (same_refl s)

-- The clock, and the UUIDs to come.
pub record Host : Type 0 where
  pub clock : Time
  pub ids : List String

abbrev next_id : Host → String × Host
next_id h = elim h.ids [ [] ↦ ("00000000", h) | id ∷ ids ↦ (id, record h { ids = ids }) ]

abbrev soft_remove : (Disbursement → Bool) → List Disbursement → List Disbursement
soft_remove p = rewrite_if (both is_live p) (mark_deleted (pos 7))

abbrev hard_remove : {Row : Type 0} → (Row → Bool) → List Row → List Row
hard_remove p = keep_if (λ r. not (p r))

abbrev unordered : {Row : Type 0} → String → Row → ℤ
unordered order row = pos 0

-- A token is its subject's id behind the secret; it carries a fixed user.
abbrev carried : TokenClaims
carried = record { sub = some "u1"; username = some "ann"; role = some "admin" }

abbrev pub marshal : Marshalled → Result String
marshal (disbursement d) = ok d.id
marshal (create_request r) = ok r.recipient_name
marshal _ = ok "{}"

-- The services, with the disbursement that every stored response body reads as.
abbrev pub memory : Disbursement → Services
memory cached = record {
  disbursements = memory_table (λ a b. b.id == a.id) is_live soft_remove order_key;
  idempotency_keys = memory_table (λ a b. b.key == a.key) always hard_remove unordered;
  audit_logs = memory_table (λ a b. a.id == b.id) always hard_remove newest_key;
  users = memory_table (λ a b. a.id == b.id) always hard_remove unordered;
  refresh_tokens = memory_table (λ a b. a.token_hash == b.token_hash) always hard_remove unordered;
  transaction = λ f s. settle s (f s);
  sql_eq = λ a b. a == b;
  sql_like = λ a b. true;
  sql_on_or_after = λ t s. true;
  sql_before_next_day = λ t s. true;
  Host = Host;
  time_now = λ h. (h.clock, record h { clock = h.clock +ℤ pos 1 });
  new_uuid = next_id;
  rand_hex = λ h. let (s, h') = next_id h in (ok s, h');
  ping = λ h. (ok tt, h);
  uuid_parse = λ s. not (s == "bad");
  sha256_hex = λ s. String.◌++◌ "#" s;
  json_marshal = marshal;
  json_disbursement = λ s. ok cached;
  compare_hash_and_password = λ h p. h == String.◌++◌ "$" p;
  sign_token = λ c secret. ok (String.◌++◌ secret c.sub);
  parse_with_claims = λ t key h. elim (key hmac) [
    | none ↦ (err (other "signature is invalid"), h)
    | some secret ↦
        (if t == String.◌++◌ secret "u1" then ok carried else err (other "signature is invalid"), h)
  ];
  unix_seconds = λ t. quot t (pos 1_000_000_000);
  duration_seconds = λ d. quot d (pos 1_000_000_000);
  case_tables = record { lower = λ c. c; upper = λ c. c };
  validate_create = λ r.
      if r.recipient_name == ""
      then record { field = "recipientname"; tag = "required"; param = "" } ∷ []
      else [];
  validate_batch = λ r. [];
  validate_update = λ r. [];
  validate_login = λ r. [];
  validate_refresh = λ r. [];
  env_idempotency_ttl = pos 0;
  env_access_ttl = pos 0;
  env_refresh_ttl = pos 0;
  env_jwt_secret = "s";
}

text_eq_sym : (s t : String) → (s == t) ≡ true → (t == s) ≡ true
text_eq_sym s t h = (eq_iff t s).1 (sym ((eq_iff s t).0 h))

text_eq_trans : (s t u : String) → (s == t) ≡ true → (t == u) ≡ true → (s == u) ≡ true
text_eq_trans s t u h k = (eq_iff s u).1 ((eq_iff s t).0 h ∙ (eq_iff t u).0 k)

pub fresh_key :
    {Row : Type 0} (b : Bool) (r : Row) (s : List Row)
    → (if◌then◌else◌ {A = Result (Unit {0}) × List Row} b
        (err (mysql 1062 "Duplicate entry"), s)
        (ok tt, r ∷ s)).0
      ≡ ok tt
    → b ≡ false
fresh_key true r s h = cc
fresh_key false r s h = refl

pub memory-IsCollation : IsCollation (λ a b. a == b)
memory-IsCollation = record {
  eq_refl = eq_refl;
  eq_sym = text_eq_sym;
  eq_trans = text_eq_trans;
  approved_ne_pending = refl;
  rejected_ne_pending = refl;
}

abbrev pub memory_database : (cached : Disbursement) → Database (memory cached)
memory_database cached = record {
  disbursement_rows = λ s. s;
  key_rows = λ s. s;
  audit_rows = λ s. s;
  token_rows = λ s. s;
  user_rows = λ s. s;
  collation = memory-IsCollation;
  disbursement_table = memory_table-IsTable _ is_live _ order_key;
  disbursement_order = record {
    find_order = λ c up p win s rs h low o. in_order c up p win s rs h o;
  };
  disbursement_delete = record { delete_ok = λ p s n h. (pos 7, refl, ground arith) };
  key_table = memory_table-IsTable _ always _ unordered;
  key_fresh = λ k s h. fresh_key (any (λ j. j.key == k.key) s) k s h;
  key_delete = record { delete_ok = λ p s n h. refl };
  audit_table = memory_table-IsTable _ always _ newest_key;
  audit_order = record { find_newest = λ p win s rs h low o. newest_first p win s rs h };
  token_table = memory_table-IsTable _ always _ unordered;
  user_table = memory_table-IsTable _ always _ unordered;
  transaction_ends = λ f s. settle-TxOutcome _ (λ s. (refl, refl)) s (f s);
}
