-- ===== src/Gateway/Relay.antt =====
-- What `call` of internal/gateway/service.go passes on of a stream.
use aegis_ai_platform.Prelude.{
  ℕ, ◌+◌, ◌<◌, ℤ, pos, ◌≤ℤ◌, Text, text_eq, text_beq_iff, len, len-++, len_pos, true, false, [],
  ◌∷◌, ◌++◌, ◌==◌, ◌≡◌, refl, ◌↔◌, inl, inr, arith, Bool-cases, ltb_ℤ, ap, sym, ◌∙◌,
}
use mathlib.Core.List.{append-nil, append_assoc}
use aegis_ai_platform.Errors.{Result, ok, Result-cases}
use aegis_ai_platform.Request.{Usage}
use aegis_ai_platform.Provider.{Chunk}
use aegis_ai_platform.Gateway.{
  Script, ends, emits, Relayed, nothing, gather, pass_on, stop_on, relay,
}

-- All that a stream would emit.
unfoldable pub script_text : Script → Text
script_text (ends result) = []
script_text (emits chunk on_error script) = chunk.content ++ script_text script

-- The flag is set once something was passed on, and what was passed on keeps within the bound.
pub record IsBounded (maximum : ℤ) (r : Relayed) : Type 0 where
  pub fits : pos (len r.content) ≤ℤ maximum
  pub marked : (r.partial ≡ true) ↔ (0 < len r.content)

-- What one call of the callback gathers.
gather-content :
    (chunk : Chunk) (r : Relayed) → (gather chunk r).content ≡ r.content ++ chunk.content
unfolding gather
gather-content chunk r = elim (Bool-cases (chunk.content == [])) [
  | inl e ↦ rw (e, gather, (text_beq_iff chunk.content []).0 e) (sym (append-nil r.content))
  | inr e ↦ rw (e, gather) refl
]

len-nonempty : (s : Text) → (s == []) ≡ false → 0 < len s
len-nonempty [] e = cc ((text_beq_iff [] []).1 refl)
len-nonempty (c ∷ s) e = len_pos c s

gather-IsBounded :
    (maximum : ℤ) (chunk : Chunk) (r : Relayed)
    → pos (len r.content + len chunk.content) ≤ℤ maximum
    → IsBounded maximum r
    → IsBounded maximum (gather chunk r)
unfolding gather
gather-IsBounded maximum chunk r h v = elim (Bool-cases (chunk.content == [])) [
  | inl e ↦ rw (e, gather) (ground arith)
  | inr e ↦
      rw (e, gather) (ground (arith, len-++ r.content chunk.content, len-nonempty chunk.content e))
]

pass_on-IsBounded :
    (maximum : ℤ) (emit : ℕ → Chunk → Result (Unit {0})) (chunk : Chunk) (r : Relayed)
    → IsBounded maximum r
    → IsBounded maximum (pass_on maximum emit chunk r).1
unfolding pass_on
pass_on-IsBounded maximum emit chunk r v =
    elim (Bool-cases (ltb_ℤ maximum (pos (len r.content + len chunk.content)))) [
      | inl e ↦ rw e v
      | inr e ↦ rw e (gather-IsBounded maximum chunk r (ground arith) v)
    ]

relay-IsBounded :
    (maximum : ℤ) (emit : ℕ → Chunk → Result (Unit {0})) (script : Script) (r : Relayed)
    → IsBounded maximum r
    → IsBounded maximum (relay maximum emit script r).1
unfolding relay stop_on
relay-IsBounded maximum emit (ends result) r v = v
relay-IsBounded maximum emit (emits chunk on_error script) r v =
    elim (Result-cases (pass_on maximum emit chunk r).0) [
      | inl (a, e) ↦
          rw (e, relay, stop_on)
            (relay-IsBounded maximum emit script (pass_on maximum emit chunk r).1
              (pass_on-IsBounded maximum emit chunk r v))
      | inr (f, e) ↦ rw (e, relay, stop_on) (pass_on-IsBounded maximum emit chunk r v)
    ]

-- However a stream ends, what the gateway has gathered of it is at most the configured number of
-- bytes, and the partial flag is set exactly if something was gathered.
pub relay-nothing-IsBounded :
    (maximum : ℤ) (emit : ℕ → Chunk → Result (Unit {0})) (script : Script)
    → pos 0 ≤ℤ maximum
    → IsBounded maximum (relay maximum emit script nothing).1
unfolding len
relay-nothing-IsBounded maximum emit script h = relay-IsBounded maximum emit script nothing empty
  where
    empty : IsBounded maximum nothing
    empty = record { fits = h; marked = ((λ e. cc), λ e. absurd (omega arith)) }

pass_on-content :
    (maximum : ℤ) (emit : ℕ → Chunk → Result (Unit {0})) (chunk : Chunk) (r : Relayed)
    → (pass_on maximum emit chunk r).0 ≡ ok tt
    → (pass_on maximum emit chunk r).1.content ≡ r.content ++ chunk.content
unfolding pass_on
pass_on-content maximum emit chunk r h =
    elim (Bool-cases (ltb_ℤ maximum (pos (len r.content + len chunk.content)))) [
      | inl e ↦ cc (rw (e, pass_on) at h)
      | inr e ↦ rw (e, pass_on) (gather-content chunk r)
    ]

relay-content :
    (maximum : ℤ) (emit : ℕ → Chunk → Result (Unit {0})) (script : Script) (r : Relayed)
    {usage : Usage}
    → (relay maximum emit script r).0 ≡ ok usage
    → (relay maximum emit script r).1.content ≡ r.content ++ script_text script
unfolding relay stop_on script_text
relay-content maximum emit (ends result) r h = sym (append-nil r.content)
relay-content maximum emit (emits chunk on_error script) r h =
    elim (Result-cases (pass_on maximum emit chunk r).0) [
      | inl (a, e) ↦
          rw (e, relay, stop_on)
            (relay-content maximum emit script (pass_on maximum emit chunk r).1
                (rw (e, relay, stop_on) at h)
              ∙ ap (λ s. s ++ script_text script) (pass_on-content maximum emit chunk r e)
              ∙ append_assoc r.content chunk.content (script_text script))
      | inr (f, e) ↦ cc (rw (e, relay, stop_on) at h)
    ]

-- The response of a stream that ends without an error has every byte that the provider emitted, in
-- their order.
pub relay-nothing-content :
    (maximum : ℤ) (emit : ℕ → Chunk → Result (Unit {0})) (script : Script) {usage : Usage}
    → (relay maximum emit script nothing).0 ≡ ok usage
    → (relay maximum emit script nothing).1.content ≡ script_text script
relay-nothing-content maximum emit script h = relay-content maximum emit script nothing h
