-- ===== src/KeyManagement/AuditLog/Newest.antt =====
-- The log of key operations holds the newest entries (key-management.service.ts).
use mux_backend.Prelude.{
  ℕ, ◌-◌, ◌≡◌, Option, none, some, List, [], ◌∷◌, ◌++◌, ltb, if◌then◌else◌, length,
}
use mux_backend.Prelude.{drop}
use mux_backend.KeyManagement.AuditLog.{KeyOperationAudit, RequestContext, audit_key_operation}

-- The log after the operations, one after the other.
unfoldable pub audit_all :
    Option RequestContext → List KeyOperationAudit → List KeyOperationAudit → List KeyOperationAudit
audit_all context log [] = log
audit_all context log (e ∷ es) = audit_all context (audit_key_operation context e log).0 es

-- The entry with the identifier of its request: its own, or the current one.
abbrev pub identified : RequestContext → KeyOperationAudit → KeyOperationAudit
identified c e = elim e.request_id [
  | some id ↦ e
  | none ↦ record e { request_id = c.current_request_id }
]

abbrev pub identified_all : RequestContext → List KeyOperationAudit → List KeyOperationAudit
identified_all c [] = []
identified_all c (e ∷ es) = identified c e ∷ identified_all c es

module _ {A : Type 0} where
  -- The last `n` of a list.
  abbrev pub newest : ℕ → List A → List A
  newest n xs = drop (length xs - n) xs

  -- An entry is pushed, and the oldest one is dropped if there are more than are kept.
  abbrev pushed : ℕ → List A → A → List A
  pushed n xs e =
      if ltb n (length (xs ++ (e ∷ []))) then drop 1 (xs ++ (e ∷ [])) else xs ++ (e ∷ [])

-- Operations that name no request of their own.
abbrev pub Unnamed : List KeyOperationAudit → Type 0
Unnamed [] = Unit {0}
Unnamed (e ∷ es) = (e.request_id ≡ none) × Unnamed es
