-- ===== src/Limits/Service/Removal.antt =====
-- Setting limits, reading them back and removing them (limits.service.ts).
use mux_backend.Prelude.{ℕ, String, ◌≡◌, refl, ◌≢◌, some, arith}
use mux_backend.Prelude.Http.{ok}
use mux_backend.Prelude.Table.{Table}
use mux_backend.Limits.Service.{
  Numbers, WalletLimit, DayAmounts, State, get_limits, response_of, limit_row, set_limits,
  check_limits, remove_limits,
}

module _ (N : Numbers) (T : Table String (WalletLimit N)) where
  set_limits-rows :
      (s : State N T) (wallet : String) (d p : N.Number)
      → (set_limits N T wallet d p s).0.rows ≡ T.put s.rows wallet (limit_row N T wallet d p)
  unfolding set_limits
  set_limits-rows s wallet d p = ground arith

  -- After limits are set, reading them returns exactly the new values for that wallet, also where
  -- they had been removed, and what it returned before for every other wallet.
  get_limits-set_limits :
      (s : State N T) (wallet other : String) (d p : N.Number) (amounts : DayAmounts N)
      → let rows = (set_limits N T wallet d p s).0.rows in
        (get_limits N T wallet amounts rows
          ≡ some (response_of N T (limit_row N T wallet d p) amounts))
        × (other ≢ wallet → get_limits N T other amounts rows ≡ get_limits N T other amounts s.rows)
  unfolding get_limits
  get_limits-set_limits s wallet other d p amounts = rw (set_limits-rows s wallet d p) (
    rw (T.find-put s.rows wallet (limit_row N T wallet d p), get_limits),
    λ h. ground (arith, T.find-put_ne s.rows wallet other (limit_row N T wallet d p) h),
  )

  remove_limits-found :
      (s : State N T) (wallet : String) (l : WalletLimit N) (amounts : DayAmounts N) (now : ℕ)
      → T.find s.rows wallet ≡ some l
      → remove_limits N T wallet amounts now s ≡ (
        record s { rows = T.put s.rows wallet (record l { deleted_at = some now }) },
        ok (record l { deleted_at = some now }),
      )
  unfolding remove_limits
  remove_limits-found s wallet l amounts now e = rw (e, remove_limits)

  check_limits-result :
      (s t : State N T) (wallet : String) (amount : N.Number) (amounts : DayAmounts N)
      (l m : WalletLimit N)
      → T.find s.rows wallet ≡ some l
      → T.find t.rows wallet ≡ some m
      → l.daily_limit ≡ m.daily_limit
      → l.per_transaction_limit ≡ m.per_transaction_limit
      → (check_limits N T wallet amount amounts s).1 ≡ (check_limits N T wallet amount amounts t).1
  unfolding check_limits
  check_limits-result s t wallet amount amounts l m e f d p = ground arith

  -- Removing the limits of a wallet that has some succeeds, but every later check of that wallet has
  -- the result that it would have had without the removal: the removed limits are still enforced.
  pub remove_limits_still_enforced :
      (s : State N T) (wallet : String) (l : WalletLimit N) (amounts : DayAmounts N) (now : ℕ)
      (amount : N.Number) (later : DayAmounts N)
      → T.find s.rows wallet ≡ some l
      → let (s', removed) = remove_limits N T wallet amounts now s in
        (removed ≡ ok (record l { deleted_at = some now }))
        × ((check_limits N T wallet amount later s').1 ≡ (check_limits N T wallet amount later s).1)
  remove_limits_still_enforced s wallet l amounts now amount later e =
      rw (remove_limits-found s wallet l amounts now e) (
        refl,
        check_limits-result (record s { rows = T.put s.rows wallet removed_row }) s wallet amount
            later removed_row l (T.find-put s.rows wallet removed_row) e refl refl,
      )
    where
      removed_row : WalletLimit N
      removed_row = record l { deleted_at = some now }
