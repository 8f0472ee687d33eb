-- ===== src/Service/Tests.antt =====
-- The theorems of the executor at concrete requests.
use zookeeper.Prelude.{ℕ, ◌≡◌, [], ◌∷◌, none, some, arith}
use zookeeper.Prelude.Eq.{nat_eq}
use zookeeper.Prelude.Map.{lookup}
use zookeeper.Service.{Executor, push_request, pop_request}
use zookeeper.Service.Requests.{IsFresh, pop_request-push_request}

-- One request waits, under the id 1; its transaction is a number here.
abbrev waiting : Executor ℕ
waiting = record { callbacks = (1, record { transaction = 7; co = 20 }) ∷ []; next_request_id = 2 }

waiting-IsFresh : IsFresh waiting
unfolding IsFresh lookup
waiting-IsFresh id le = ground arith

pop_request-push_request_example :
    (lookup (push_request waiting 9 21).0 waiting.callbacks ≡ none)
    × ((pop_request (push_request waiting 9 21).1 (push_request waiting 9 21).0).0
        ≡ some (record { transaction = 9; co = 21 }))
    × (lookup 1
          (pop_request (push_request waiting 9 21).1 (push_request waiting 9 21).0).1.callbacks
        ≡ lookup 1 waiting.callbacks)
    × ((pop_request
          (pop_request (push_request waiting 9 21).1 (push_request waiting 9 21).0).1
          (push_request waiting 9 21).0).0
        ≡ none)
    × IsFresh (push_request waiting 9 21).1
unfolding push_request
pop_request-push_request_example =
    pop_request-push_request waiting 9 21 1 waiting-IsFresh (omega arith)
