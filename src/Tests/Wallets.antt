-- ===== src/Tests/Wallets.antt =====
-- Examples for the wallets, with tables that are functions from their keys to their rows.
use mux_backend.Prelude.{
  ℕ, String, ◌≡◌, refl, ◌↔◌, Bool, true, false, Option, none, some, List, [], ◌∷◌, str_eq_iff,
}
use mux_backend.Prelude.Http.{Exception, Result, ok, throw}
use mux_backend.Prelude.Rows.{RowTable, function_rows, no_rows}
use mux_backend.Transactions.Model.{Transaction, submitted}
use mux_backend.Wallets.Model.{Wallet, WalletNetwork, testnet, active, archived, suspended}
use mux_backend.Wallets.Creation as creation
use mux_backend.Wallets.Creation.{KeyMaterial, IdempotencyRecord, wallet_id, record_key}
use mux_backend.Wallets.Creation.Unique as unique
use mux_backend.Wallets.Creation.Unique.{IsUnique, creates, looks_up, cleans_up, run-IsUnique}
use mux_backend.KeyManagement.Rotation as rotation
use mux_backend.KeyManagement.Rotation.{rotate_key}
use mux_backend.KeyManagement.Rotation.Chain.{Rotation, rotate_key-outcome}
use mux_backend.Wallets.Service as service
use mux_backend.Wallets.Service.{sign_transaction, update_wallet_status, get_decrypted_private_key}
use mux_backend.Wallets.Service.Keys.{HasKey, sign-ok_iff}
use mux_backend.Wallets.Service.Retirement as retirement
use mux_backend.Wallets.Service.Retirement.{activates, updates, rotates, retired_keyless}
use mux_backend.Wallets.Service.Updates.{Updated, update_wallet_status-outcome}
use mux_backend.Tests.Data.{string_discrete, true_is_not_false}

abbrev table : RowTable String Wallet wallet_id
table = function_rows wallet_id string_discrete

abbrev records : RowTable String IdempotencyRecord record_key
records = function_rows record_key string_discrete

abbrev user_discrete : Discrete (String × WalletNetwork)
user_discrete = hlevel string_discrete

abbrev pub wallet : Wallet
wallet = record {
  id = "w1";
  user_id = "u1";
  public_key = "GA";
  nickname = none;
  encrypted_secret = "s";
  encryption_version = 1;
  secret_version = 1;
  key_version = 1;
  network = testnet;
  status = active;
  status_reason = none;
  status_changed_at = 5;
  rotated_from_id = none;
  successor_id = none;
  created_at = 1;
  updated_at = 5;
}

abbrev pub key : KeyMaterial
key = record { public_key = "GB"; encrypted_data = "e"; encryption_version = 1 }

abbrev every_user : String → Bool
every_user u = true

abbrev opened : String → Option String
opened s = some "secret"

abbrev calls : ℕ → String → creation.Environment
calls now id = record {
  user_exists = every_user;
  generate_key = some key;
  decrypt = opened;
  create_throws = false;
  update_throws = false;
  activate_throws = false;
  store_throws = false;
  new_id = id;
  now = now;
}

abbrev nothing : creation.State table records user_discrete
nothing = record {
  db = record {
    wallets = no_rows wallet_id string_discrete;
    records = no_rows record_key string_discrete;
  };
  cache = [];
  events = [];
}

abbrev request : creation.CreateWalletRequest
request = record { user_id = "u1"; network = testnet; idempotency_key = some "i1" }

abbrev creations : List (unique.Request table records user_discrete)
creations =
    creates request (calls 10 "w2")
    ∷ creates (record request { idempotency_key = none }) (calls 11 "w3")
    ∷ looks_up "u1" testnet 12
    ∷ cleans_up 5 30
    ∷ []

run-IsUnique_example :
    IsUnique table records user_discrete
      (unique.run table records user_discrete nothing creations).db.wallets
run-IsUnique_example =
    run-IsUnique table records user_discrete nothing creations string_discrete
      (record { same_id = λ i j w v f. absurd (cc) })

abbrev stored : table.Rows
stored = table.put (no_rows wallet_id string_discrete) wallet

abbrev rotates_to : String → rotation.Environment
rotates_to id = record {
  generated = some key;
  has_request_context = true;
  has_event_emitter = true;
  new_id = id;
  now = 20;
}

rotate_key-outcome_example :
    Rotation table "w1" (rotates_to "w2") stored (rotate_key table "w1" (rotates_to "w2") stored)
rotate_key-outcome_example = rotate_key-outcome table "w1" (rotates_to "w2") stored

abbrev at_start : service.State table
at_start = record { wallets = stored; events = [] }

abbrev decrypts : String → Result String
decrypts s = ok "secret"

abbrev signs : String → String → Option String
signs k text = some "signature"

abbrev works : service.Environment
works = record {
  generated = some key;
  decrypt = decrypts;
  sign = signs;
  write_fails = false;
  new_id = "w9";
  now = 30;
}

sign-ok_iff_example : ((sign_transaction table "w1" "text" works at_start).1 ≡ ok "signature") ↔ (
    (k : String) × HasKey table "w1" works at_start k
    × ◌≡◌ {A = Option String} (some "signature") (some "signature"))
sign-ok_iff_example = sign-ok_iff table "w1" "text" "signature" works at_start

update_wallet_status-outcome_example :
    Updated table "w1" suspended
      (some "audit")
      30
      at_start
      (update_wallet_status table "w1" suspended (some "audit") works at_start)
update_wallet_status-outcome_example =
    update_wallet_status-outcome table "w1" suspended (some "audit") works at_start

abbrev sent : Transaction
sent = record {
  id = "t1";
  amount = "1";
  asset = record { asset_type = "NATIVE"; code = none; issuer = none };
  sender_wallet_id = "w1";
  receiver_wallet_id = none;
  status = submitted;
  stellar_refs = record { hash = none; ledger = none; fee = none };
  status_changed_at = 1;
  status_reason = none;
  submitted_at = none;
  confirmed_at = none;
  failed_at = none;
  metadata = none;
  created_at = 1;
  updated_at = 1;
}

abbrev closed : service.State table
closed = record {
  wallets = table.put (no_rows wallet_id string_discrete) (record wallet { status = archived });
  events = [];
}

abbrev attempts : List retirement.Request
attempts =
    activates "w1" none works ∷ updates "w1" active none works ∷ rotates "w1" (rotates_to "w2") ∷ []

retired_keyless_example :
    (e : Exception) × (get_decrypted_private_key table "w1" works
        (retirement.run table closed attempts)
      ≡ (retirement.run table closed attempts, throw e))
unfolding string_discrete
retired_keyless_example =
    retired_keyless table closed attempts "w1" works string_discrete (tt, (tt, (not_w2, tt))) refl
  where
    not_w2 : ◌≡◌ {A = String} "w2" "w1" → ⊥
    not_w2 e = true_is_not_false refl ((str_eq_iff "w2" "w1").1 e)
