-- ===== src/KeyManagement/AuditLog.antt =====
-- src/key-management/key-management.service.ts, the log of key operations that is kept in memory:
-- auditKeyOperation, getAuditLog and resetStatistics. this.requestContext, which the code uses and its
-- constructor does not inject, is an argument that may be missing. The copy of an entry in the
-- database and the column metadata are left out.
pub mod Newest
pub mod Pages
use mux_backend.Prelude.{
  ℕ, ◌+◌, String, Bool, true, false, not, ◌&&◌, ◌||◌, Option, none, some, List, [], ◌∷◌, ◌++◌, ltb,
  leb, if◌then◌else◌, length, str_eq,
}
use mux_backend.Prelude.{take, drop}
use mux_backend.Prelude.Http.{internal_error, ok, throw, Handler}

pub data KeyOperation : Type 0 where
  generate sign rotate revoke access : KeyOperation

pub record KeyOperationAudit : Type 0 where
  pub operation : KeyOperation
  pub key_id : String
  pub public_key : String
  pub timestamp : ℕ
  pub success : Bool
  pub error_message : Option String
  pub request_id : Option String

-- RequestContextService, as far as the log uses it: the identifier of the current request.
pub record RequestContext : Type 0 where
  pub current_request_id : Option String

pub record AuditLogQuery : Type 0 where
  pub operation : Option KeyOperation
  pub public_key : Option String
  pub success : Option Bool
  pub start_date : Option ℕ
  pub end_date : Option ℕ
  pub limit : Option ℕ
  pub offset : Option ℕ

pub record AuditLogResult : Type 0 where
  pub entries : List KeyOperationAudit
  pub total : ℕ
  pub limit : ℕ
  pub offset : ℕ
  pub has_more : Bool

-- The greatest number of entries in memory.
abbrev pub max_entries : ℕ
max_entries = 1000

-- `push`, and `shift` where there are more entries than are kept.
abbrev pub push_entry : List KeyOperationAudit → KeyOperationAudit → List KeyOperationAudit
push_entry log e =
    let pushed = log ++ (e ∷ []) in
    if ltb max_entries (length pushed) then drop 1 pushed else pushed

-- `requestId: audit.requestId ?? this.requestContext.getRequestId()`, which throws where there is no
-- identifier and this.requestContext is missing.
abbrev pub enriched : Option RequestContext → KeyOperationAudit → Option KeyOperationAudit
enriched context e = elim e.request_id [
  | some id ↦ some e
  | none ↦ elim context [
    | none ↦ none
    | some c ↦ some (record e { request_id = c.current_request_id })
  ]
]

unfoldable pub audit_key_operation :
    Option RequestContext → KeyOperationAudit → Handler (List KeyOperationAudit) (Unit {0})
audit_key_operation context e log = elim (enriched context e) [
  | none ↦ (log, throw internal_error)
  | some entry ↦ (push_entry log entry, ok tt)
]

-- resetStatistics
abbrev pub reset_statistics : List KeyOperationAudit → List KeyOperationAudit
reset_statistics log = []

abbrev pub same_operation : KeyOperation → KeyOperation → Bool
same_operation generate generate = true
same_operation sign sign = true
same_operation rotate rotate = true
same_operation revoke revoke = true
same_operation access access = true
same_operation _ _ = false

abbrev pub same_bool : Bool → Bool → Bool
same_bool true b = b
same_bool false b = not b

abbrev pub if_given {ℓ} : {A : Type ℓ} → (A → Bool) → Option A → Bool
if_given test none = true
if_given test (some a) = test a

-- An empty public key is no filter.
abbrev pub key_filter : KeyOperationAudit → Option String → Bool
key_filter e none = true
key_filter e (some k) = str_eq k "" || str_eq e.public_key k

abbrev pub matches : AuditLogQuery → KeyOperationAudit → Bool
matches q e =
    if_given (same_operation e.operation) q.operation
    && key_filter e q.public_key
    && if_given (same_bool e.success) q.success
    && if_given (λ d. leb d e.timestamp) q.start_date
    && if_given (λ d. leb e.timestamp d) q.end_date

unfoldable pub filter_log : AuditLogQuery → List KeyOperationAudit → List KeyOperationAudit
filter_log q [] = []
filter_log q (e ∷ es) = let rest = filter_log q es in if matches q e then e ∷ rest else rest

abbrev pub or_default : ℕ → Option ℕ → ℕ
or_default d none = d
or_default d (some n) = n

unfoldable pub get_audit_log : AuditLogQuery → List KeyOperationAudit → AuditLogResult
get_audit_log q log =
    let filtered = filter_log q log in
    let limit = or_default 100 q.limit in
    let offset = or_default 0 q.offset in
    let entries = take limit (drop offset filtered) in
    record {
      entries = entries;
      total = length filtered;
      limit = limit;
      offset = offset;
      has_more = ltb (offset + length entries) (length filtered);
    }
