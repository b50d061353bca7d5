-- ===== src/Tests/AuditLog.antt =====
-- Examples for the log of key operations.
use mux_backend.Prelude.{ℕ, true, none, List, [], ◌∷◌, ◌==◌, if◌then◌else◌}
use mux_backend.KeyManagement.AuditLog.{KeyOperationAudit, generate, sign}

abbrev entry : ℕ → KeyOperationAudit
entry t = record {
  operation = if t == 1 then generate else sign;
  key_id = "new";
  public_key = "GA";
  timestamp = t;
  success = true;
  error_message = none;
  request_id = none;
}

abbrev log : List KeyOperationAudit
log = entry 1 ∷ entry 2 ∷ entry 3 ∷ []
