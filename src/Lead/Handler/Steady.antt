-- ===== src/Lead/Handler/Steady.antt =====
-- The leader's drafts under all events.
use zookeeper.Prelude.{
  ℕ, ◌+◌, ◌^◌, ◌≤◌, ◌<◌, ◌≡◌, refl, sym, ap, subst, ◌∙◌, inl, inr, List, [], ◌∷◌, Option, none,
  some, arith, length, Option-cases,
}
use zookeeper.Dataset.Core.{Client}
use zookeeper.Lead.{Lead, LeadEnv, zxid, propose_request, propose_own, ack_propose}
use zookeeper.Lead.Drafts.{InStep}
use zookeeper.Lead.Drafts.Acks.{ack_propose-InStep}
use zookeeper.Lead.Ids.{KeysRise}
use zookeeper.Lead.Proposing.{propose_request-InStep}
use zookeeper.Lead.Handler.{
  FollowerMessage, pong, request, ack_proposal, unexpected, Event, message, client, handle, happen,
  happen_all,
}
use zookeeper.Lead.Handler.Kept.{Kept, ack_at-Kept, propose_request-Kept}

module _ {ℓ} {S : Type ℓ} (c : Client S) where
  -- The pending bill is the oldest draft, and the keys of the drafts rise below the next id.
  pub record Steady (l : Lead S) : Type 0 where
    pub step : InStep c l
    pub rise : KeysRise 0 (zxid l.peer_epoch l.next_id) l.uncommit

  Kept-rises :
      (l l' : Lead S)
      → Kept c l (zxid l.peer_epoch l.next_id) l'
      → KeysRise 0 (zxid l'.peer_epoch l'.next_id) l'.uncommit
  Kept-rises l l' k =
      subst (λ (hi : ℕ). KeysRise 0 hi l'.uncommit)
        (ap (λ (e : ℕ). zxid e l.next_id) (sym k.same_epoch)
          ∙ ap (λ (n : ℕ). zxid l'.peer_epoch n) (sym k.same_next))
        k.rise

  proposal-Steady :
      (env : LeadEnv) (l : Lead S) (id request_id : ℕ) (bytes : List ℕ)
      → l.next_id + 1 < 2 ^ 32
      → Steady l
      → (propose_request c env l id request_id bytes).thrown ≡ none
      → Steady (propose_request c env l id request_id bytes).lead
        × ((propose_request c env l id request_id bytes).lead.next_id ≤ l.next_id + 1)
  proposal-Steady env l id request_id bytes room s t =
      let kept = propose_request-Kept c env l id request_id bytes room s.rise in
      (
        record {
          step = propose_request-InStep c env l id request_id bytes room s.rise s.step t;
          rise = Kept-rises (record l { next_id = l.next_id + 1 }) _ kept;
        },
        omega (arith, kept.same_next),
      )

  handle-Steady :
      (env : LeadEnv) (l : Lead S) (id : ℕ) (m : FollowerMessage)
      → l.next_id + 1 < 2 ^ 32
      → Steady l
      → (handle c env l id m).thrown ≡ none
      → Steady (handle c env l id m).lead × ((handle c env l id m).lead.next_id ≤ l.next_id + 1)
  unfolding handle ack_propose
  handle-Steady env l id pong room s t = (s, omega arith)
  handle-Steady env l id (request request_id bytes) room s t =
      proposal-Steady env l id request_id bytes room s t
  handle-Steady env l id (ack_proposal zx_id) room s t =
      let kept =
        ack_at-Kept c env l id zx_id (zxid l.peer_epoch l.next_id) l.uncommit refl s.rise in
      (
        record { step = ack_propose-InStep c env l id zx_id s.step t; rise = Kept-rises l _ kept },
        omega (arith, kept.same_next),
      )
  handle-Steady env l id unexpected room s t = (s, omega arith)

  happen-Steady :
      (env : LeadEnv) (l : Lead S) (event : Event S)
      → l.next_id + 1 < 2 ^ 32
      → Steady l
      → (happen c env l event).thrown ≡ none
      → Steady (happen c env l event).lead × ((happen c env l event).lead.next_id ≤ l.next_id + 1)
  unfolding happen propose_own
  happen-Steady env l (message id m) room s t = handle-Steady env l id m room s t
  happen-Steady env l (client bytes transaction) room s t =
      proposal-Steady env _ l.id _ bytes room (record { step = s.step; rise = s.rise }) t

  abbrev pub IsSteady : Option (Lead S) → Type 0
  IsSteady none = Unit {0}
  IsSteady (some l) = Steady l

  -- In whatever order the followers' messages and the clients' requests come: unless one of them
  -- throws, what is pending in the leader's data set is exactly the oldest draft, and the keys of the
  -- drafts rise below the next id, if this holds before and there are numbers left in the epoch for a
  -- request at each event.
  pub happen_all-Steady :
      (events : List (LeadEnv × Event S)) (l : Lead S)
      → l.next_id + length events < 2 ^ 32
      → Steady l
      → IsSteady (happen_all c events l)
  unfolding happen_all
  happen_all-Steady [] l room s = s
  happen_all-Steady ((env, event) ∷ events) l room s =
      elim (Option-cases (happen c env l event).thrown) [
        | inl e ↦
            let (next, bound) = happen-Steady env l event (omega arith) s e in
            rw (e, happen_all)
              (happen_all-Steady events (happen c env l event).lead (omega arith) next)
        | inr (x, e) ↦ rw (e, happen_all) tt
      ]
