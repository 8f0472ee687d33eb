-- ===== src/Service.antt =====
-- `ServiceExecutor` of paxos/paxos/service.h: the requests whose coroutines wait for an answer.
pub mod Requests
mod Tests
use zookeeper.Prelude.{ℕ, ◌+◌, List, [], ◌∷◌, Option, none, some}
use zookeeper.Prelude.Eq.{nat_eq}
use zookeeper.Prelude.Map.{lookup, insert, erase}

-- `TransactionCall`, with the coroutine as a number.
pub record Call {ℓ} (T : Type ℓ) : Type ℓ where
  pub transaction : T
  pub co : ℕ

pub record Executor {ℓ} (T : Type ℓ) : Type ℓ where
  pub callbacks : List (ℕ × Call T)
  pub next_request_id : ℕ

module _ {ℓ} {T : Type ℓ} where
  pub fresh_executor : Executor T
  fresh_executor = record { callbacks = []; next_request_id = 1 }

  -- `PushRequest`, called by the coroutine `current`.
  unfoldable pub push_request : Executor T → T → ℕ → ℕ × Executor T
  push_request x t current = (
    x.next_request_id,
    record {
      callbacks = insert x.next_request_id (record { transaction = t; co = current }) x.callbacks;
      next_request_id = x.next_request_id + 1;
    },
  )

  -- `PopRequest`; none is the pair of null pointers.
  unfoldable pub pop_request : Executor T → ℕ → Option (Call T) × Executor T
  pop_request x id = elim (lookup id x.callbacks) [
    | none ↦ (none, x)
    | some call ↦ (some call, record x { callbacks = erase id x.callbacks })
  ]

  coroutines : List (ℕ × Call T) → List ℕ
  coroutines [] = []
  coroutines ((id, call) ∷ calls) = call.co ∷ coroutines calls

  -- `ClearRequest`: the coroutines that are resumed with `success = false`.
  unfoldable pub clear_request : Executor T → List ℕ × Executor T
  unfolding coroutines
  clear_request x = (coroutines x.callbacks, record x { callbacks = [] })
