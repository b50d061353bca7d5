-- ===== src/Tests/Recovery.antt =====
-- Examples for the recovery requests.
use mux_backend.Prelude.{String, refl, true, none, some, []}
use mux_backend.Prelude.Table.{Table, function_table}
use mux_backend.Recovery.Model.{RecoveryRequest, pending, in_review}
use mux_backend.Recovery.Service.{AdminState, approve_recovery}
use mux_backend.Prelude.Rows.{RowTable, function_rows, no_rows}
use mux_backend.Wallets.Model.{Wallet}
use mux_backend.Wallets.Creation.{wallet_id}
use mux_backend.KeyManagement.Rotation as rotation
use mux_backend.Tests.Wallets.{wallet, key}
use mux_backend.Recovery.Service.Changes.{initiates, handle, Follows, handle-Follows}
use mux_backend.Recovery.Service.Admin.{Failed, approve_outcome}
use mux_backend.Tests.Data.{string_discrete}

abbrev request : RecoveryRequest
request = record {
  id = "r1";
  wallet_id = "w1";
  requester = "u1";
  status = in_review;
  metadata = none;
  created_at = 1;
  updated_at = 2;
}

abbrev waiting : RecoveryRequest
waiting = record request { status = pending }

abbrev table : Table String RecoveryRequest
table = function_table string_discrete

handle-Follows_example :
    Follows table waiting (table.find (handle table "r1" 9 initiates (λ k. some waiting)).0 "r1")
handle-Follows_example = handle-Follows table (λ k. some waiting) "r1" 9 initiates waiting refl

abbrev wallet_table : RowTable String Wallet wallet_id
wallet_table = function_rows wallet_id string_discrete

abbrev rotates : rotation.Environment
rotates = record {
  generated = some key;
  has_request_context = true;
  has_event_emitter = true;
  new_id = "w2";
  now = 20;
}

abbrev desk : AdminState table wallet_table
desk = record {
  requests = λ k. some request;
  wallets = record {
    wallets = wallet_table.put (no_rows wallet_id string_discrete) wallet;
    events = [];
  };
}

approve_outcome_example :
    Failed table wallet_table
      (some request)
      rotates
      desk
      (approve_recovery table wallet_table "r1" rotates desk)
approve_outcome_example = approve_outcome table wallet_table "r1" rotates desk
