-- ===== src/Build/Balance.antt =====
-- chain.rs: `balance`, of the outputs that bdk knows.
use computermoney.Prelude.{ℕ, ◌+◌, Text}
use computermoney.Result.{Exec, pure, ◌>>=◌}
use computermoney.Storage.{Host}
use computermoney.Build.{Bdk, synced_wallet}

pub record ChainBalance : Type 0 where
  pub confirmed : ℕ
  pub pending : ℕ

-- bdk's balance is its confirmed, its trusted pending and its untrusted pending part.
unfoldable pub chain_balance : ⦃h : Host⦄ ⦃b : Bdk⦄ {S : Type 0} → Text → Text → Exec S ChainBalance
chain_balance ⦃h⦄ ⦃b⦄ ext int = do
  wallet ← synced_wallet ext int
  let (confirmed, (trusted, untrusted)) = b.balances wallet
  pure (record { confirmed = confirmed; pending = trusted + untrusted })
