-- ===== src/Service/Requests.antt =====
-- Requests that are pushed and popped.
use zookeeper.Prelude.{
  ℕ, ◌≤◌, ◌≡◌, ◌≢◌, refl, ◌∙◌, none, some, arith, ==_refl, Option-cases, inl, inr,
}
use zookeeper.Prelude.Eq.{nat_eq}
use zookeeper.Prelude.Map.{lookup, insert, erase, lookup-insert, lookup-erase}
use zookeeper.Service.{Call, Executor, push_request, pop_request}

module _ {ℓ} {T : Type ℓ} where
  -- The request ids in use have been handed out.
  unfoldable pub IsFresh : Executor T → Type ℓ
  IsFresh x = (id : ℕ) → x.next_request_id ≤ id → lookup id x.callbacks ≡ none

  pub push_request-IsFresh :
      (x : Executor T) (t : T) (current : ℕ) → IsFresh x → IsFresh (push_request x t current).1
  unfolding IsFresh push_request
  push_request-IsFresh x t current h id le =
      lookup-insert id x.next_request_id (record { transaction = t; co = current }) x.callbacks
      ∙ ground (arith, h id (omega arith))

  -- A request that has been popped cannot be popped again.
  pub pop_request_twice : (x : Executor T) (id : ℕ) → (pop_request (pop_request x id).1 id).0 ≡ none
  unfolding pop_request
  pop_request_twice x id = elim (Option-cases (lookup id x.callbacks)) [
    | inl e ↦ rw (e, pop_request) (rw (e, pop_request) refl)
    | inr (call, e) ↦
        let gone : lookup id (erase id x.callbacks) ≡ none =
          lookup-erase id id x.callbacks ∙ rw (==_refl id) refl in
        rw (e, pop_request) (rw (gone, pop_request) refl)
  ]

  -- If all ids in use have been handed out, a request that is pushed gets an id that no other waits under,
  -- and all ids in use have been handed out again. Its pop hands back the transaction and the coroutine, a
  -- second pop finds nothing, and a request under another id is found, or not, as before.
  pub pop_request-push_request :
      (x : Executor T) (t : T) (current other : ℕ)
      → IsFresh x
      → other ≢ (push_request x t current).0
      → (lookup (push_request x t current).0 x.callbacks ≡ none)
        × ((pop_request (push_request x t current).1 (push_request x t current).0).0
            ≡ some (record { transaction = t; co = current }))
        × (lookup other
              (pop_request (push_request x t current).1 (push_request x t current).0).1.callbacks
            ≡ lookup other x.callbacks)
        × ((pop_request
              (pop_request (push_request x t current).1 (push_request x t current).0).1
              (push_request x t current).0).0
            ≡ none)
        × IsFresh (push_request x t current).1
  unfolding IsFresh push_request pop_request
  pop_request-push_request x t current other h apart = (
    h x.next_request_id (omega arith),
    grind (arith, lookup-insert x.next_request_id x.next_request_id call x.callbacks),
    grind (
      arith,
      lookup-insert x.next_request_id x.next_request_id call x.callbacks,
      lookup-insert other x.next_request_id call x.callbacks,
      lookup-erase other x.next_request_id (insert x.next_request_id call x.callbacks),
    ),
    pop_request_twice (push_request x t current).1 x.next_request_id,
    push_request-IsFresh x t current h,
  )
    where
      call : Call T
      call = record { transaction = t; co = current }
