-- ===== src/Store.antt =====
-- internal/store: the Controller's state in memory and in its file, and the transactions.
pub mod Subscriptions
pub mod Protected
mod Tests
use xmesh.Common.{
  ℕ, ◌+◌, ◌%◌, ◌^◌, Bool, true, false, not, if◌then◌else◌, Result, ok, err, ◌>>=◌, ◌>>◌, refuse_if,
}
use xmesh.Auth.{Hashing}
use xmesh.Model.{State}
use Subscriptions.{StoreError, write_failed, Sealing, protect_subscription_tokens}

pub record Store : Type 0 where
  pub state : State
  pub file : State

-- `Update`, with whether `writeAtomic` succeeds. An error leaves the store as it was.
unfoldable pub update :
    Hashing → Sealing → Store → (State → Result StoreError State) → Bool → Result StoreError Store
update hashing sealing store fn writes = do
  changed ← fn store.state
  both ←
      protect_subscription_tokens hashing sealing
        (record changed { revision = (changed.revision + 1) % 2 ^ 64 })
  refuse_if (not writes) write_failed
  ok (record { state = both.0; file = both.1 })
