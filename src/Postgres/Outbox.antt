-- ===== src/Postgres/Outbox.antt =====
-- The transactional outbox of internal/persistence/postgres.go.
pub mod Changes
pub mod Keeps
pub mod Starts
pub mod Creates
pub mod Published
use aegis_ai_platform.Prelude.{
  ℕ, zero, suc, ◌+◌, ◌≤◌, ℤ, Text, text_eq, text_beq_iff, Bool, true, false, not, ◌&&◌, List, [],
  ◌∷◌, ◌++◌, Option, none, some, lookup, insert, lookup-insert, nat_beq, ◌==◌, if◌then◌else◌, ◌≡◌,
  ◌≢◌, refl, sym, ap, subst, ◌∙◌, ◌⊎◌, inl, inr, arith, Bool-cases, Option-cases,
}
use aegis_ai_platform.Errors.{Result, ok, err, Failure, wrapped}
use aegis_ai_platform.Action.{Action, ◌>>=◌, ◌>>◌}
use aegis_ai_platform.Request.{
  State, received, validated, in_progress, completed, failed, budget_rejected, state_beq, Record,
}
use aegis_ai_platform.Events.{
  Kind, request_accepted, provider_selected, request_completed, request_failed, usage_recorded,
  budget_exceeded, security_violation, evaluation_complete, evaluation_failed,
}
use aegis_ai_platform.Postgres.{Event, Tables}

same_kind : Kind → Kind → Bool
same_kind a b = nat_beq (code a) (code b)
  where
    code : Kind → ℕ
    code request_accepted = 0
    code provider_selected = 1
    code request_completed = 2
    code request_failed = 3
    code usage_recorded = 4
    code budget_exceeded = 5
    code security_violation = 6
    code evaluation_complete = 7
    code evaluation_failed = 8

-- The events of a kind about an aggregate.
unfoldable pub events_of : Kind → Text → List Event → ℕ
unfolding same_kind
events_of k id [] = 0
events_of k id (e ∷ es) =
    (if same_kind e.kind k && e.aggregate_id == id then 1 else 0) + events_of k id es

-- The kinds whose events tell the state of a request, and how many of each a request in that state
-- has.
abbrev pub is_tracked : Kind → Bool
is_tracked request_accepted = true
is_tracked request_completed = true
is_tracked usage_recorded = true
is_tracked budget_exceeded = true
is_tracked _ = false

abbrev in_state : State → Option Record → ℕ
in_state s none = 0
in_state s (some r) = if state_beq r.state s then 1 else 0

abbrev present {ℓ} : {A : Type ℓ} → Option A → ℕ
present none = 0
present (some a) = 1

abbrev pub announced : Kind → Option Record → ℕ
announced request_accepted o = present o
announced request_completed o = in_state completed o
announced usage_recorded o = in_state completed o
announced budget_exceeded o = in_state budget_rejected o
announced _ o = 0

pub record IsPublished (t : Tables) : Type 0 where
  pub counted :
      (k : Kind) (id : Text)
      → is_tracked k ≡ true
      → events_of k id t.outbox ≡ announced k (lookup id t.requests)

-- What events, newest first, make up for a write of r' over o.
abbrev pub Announces : Text → Option Record → Record → List Event → Type 0
Announces id o r' es =
    (k : Kind) (j : Text)
    → is_tracked k ≡ true
    → events_of k j es + (if id == j then announced k o else 0)
      ≡ (if id == j then announced k (some r') else 0)

events_of-++ :
    (k : Kind) (id : Text) (es es' : List Event)
    → events_of k id (es ++ es') ≡ events_of k id es + events_of k id es'
unfolding events_of
events_of-++ k id [] es' = omega arith
events_of-++ k id (e ∷ es) es' = omega (arith, events_of-++ k id es es')

pub write-IsPublished :
    (t : Tables) (id : Text) (o : Option Record) (r' : Record) (es : List Event)
    → lookup id t.requests ≡ o
    → Announces id o r' es
    → IsPublished t
    → IsPublished (record t { requests = insert id r' t.requests; outbox = es ++ t.outbox })
write-IsPublished t id o r' es h a v = record {
  counted = λ k j tracked.
      rw (events_of-++ k j es t.outbox, lookup-insert id j r' t.requests)
        (elim (Bool-cases (id == j)) [
          | inl e ↦
              let same : id ≡ j = (text_beq_iff id j).0 e in
              let old : lookup j t.requests ≡ o = rw same at h in
              let sum : events_of k j es + announced k o ≡ announced k (some r') =
                rw e at (a k j tracked) in
              let before : events_of k j t.outbox ≡ announced k o =
                rw (← old) (v.counted k j tracked) in
              rw e (omega (arith, sum, before))
          | inr e ↦
              let sum : events_of k j es + 0 ≡ 0 = rw e at (a k j tracked) in
              rw e (omega (arith, sum, v.counted k j tracked))
        ]);
}

pub announce_none :
    (id : Text) (r r' : Record)
    → r.state ≢ completed
    → r.state ≢ budget_rejected
    → r'.state ≢ completed
    → r'.state ≢ budget_rejected
    → Announces id (some r) r' []
unfolding events_of
announce_none id r r' a b c d k j tracked = ground arith

pub announce_accepted :
    (id : Text) (e : Event) (r' : Record)
    → e.kind ≡ request_accepted
    → e.aggregate_id ≡ id
    → r'.state ≡ received
    → Announces id none r' (e ∷ [])
unfolding events_of same_kind
announce_accepted id e r' kd ag st k j tracked = ground arith

pub announce_completed :
    (id : Text) (r r' : Record) (e e' : Event)
    → r.state ≡ in_progress
    → r'.state ≡ completed
    → e.kind ≡ usage_recorded
    → e.aggregate_id ≡ id
    → e'.kind ≡ request_completed
    → e'.aggregate_id ≡ id
    → Announces id (some r) r' (e ∷ e' ∷ [])
unfolding events_of same_kind
announce_completed id r r' e e' st st' kd ag kd' ag' k j tracked = ground arith

pub announce_failed :
    (id : Text) (r r' : Record) (e : Event)
    → r.state ≡ in_progress
    → r'.state ≡ failed
    → e.kind ≡ request_failed
    → Announces id (some r) r' (e ∷ [])
unfolding events_of same_kind
announce_failed id r r' e st st' kd k j tracked = ground arith

pub announce_rejected :
    (id : Text) (r r' : Record) (e : Event)
    → r.state ≡ validated
    → r'.state ≡ budget_rejected
    → e.kind ≡ budget_exceeded
    → e.aggregate_id ≡ id
    → Announces id (some r) r' (e ∷ [])
unfolding events_of same_kind
announce_rejected id r r' e st st' kd ag k j tracked = ground arith

-- An event that tells no state.
pub note-IsPublished :
    (t : Tables) (e : Event)
    → e.kind ≡ provider_selected
    → IsPublished t
    → IsPublished (record t { outbox = e ∷ t.outbox })
unfolding events_of same_kind
note-IsPublished t e kd v = record {
  counted = λ k j tracked. ground (arith, v.counted k j tracked);
}
