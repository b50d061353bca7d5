-- ===== src/KeyManagement/AuditLog/Pages.antt =====
-- The pages of the log of key operations (key-management.service.ts).
use mux_backend.Prelude.{
  ℕ, ◌+◌, ◌-◌, ◌<◌, min, ◌≡◌, ap, ◌∙◌, ◌↔◌, true, List, ◌++◌, arith, ltb, length,
}
use mux_backend.Prelude.{take, drop, take-append-drop, length-take, length-drop}
use mux_backend.KeyManagement.AuditLog.{
  KeyOperationAudit, AuditLogQuery, filter_log, get_audit_log, or_default,
}

-- The entries that match and come after the page.
abbrev pub after_page : AuditLogQuery → List KeyOperationAudit → List KeyOperationAudit
after_page q log = drop (or_default 100 q.limit) (drop (or_default 0 q.offset) (filter_log q log))

-- A page is a segment of the entries that match: these are the ones that its offset skips, the page,
-- and the ones after it, in this order; there are more exactly if some come after it.
get_audit_log-page :
    (q : AuditLogQuery) (log : List KeyOperationAudit)
    → let r = get_audit_log q log in
      (take r.offset (filter_log q log) ++ (r.entries ++ after_page q log) ≡ filter_log q log)
      × ((r.has_more ≡ true) ↔ (0 < length (after_page q log)))
unfolding get_audit_log
get_audit_log-page q log =
    let f = filter_log q log in
    let limit = or_default 100 q.limit in
    let offset = or_default 0 q.offset in
    (
      ap (λ l. take offset f ++ l) (take-append-drop limit (drop offset f))
          ∙ take-append-drop offset f,
      more (length f) limit offset (length (take limit (drop offset f)))
          (length (drop limit (drop offset f)))
          (let a = length-take limit (drop offset f) in let b = length-drop offset f in omega arith)
          (let a = length-drop limit (drop offset f) in
            let b = length-drop offset f in omega arith),
    )
  where
    more :
        (total limit offset page rest : ℕ)
        → page ≡ min limit (total - offset)
        → rest ≡ total - offset - limit
        → (ltb (offset + page) total ≡ true) ↔ (0 < rest)
    more total limit offset page rest p r = (λ h. ground arith, λ h. ground arith)
