-- ===== src/Adapter/Answers.antt =====
-- When an operation of an adapter has a payload.
use probavi.Base.{
  ◌≡◌, ◌≢◌, ◌↔◌, refl, sym, ap, ◌∙◌, ◌⊎◌, inl, inr, Bool, true, false, Option, none, some, List, [],
  ◌∷◌, beq, beq_iff, true≢false, beq_refl, subst, Bool-cases, Bytes,
}
use probavi.Adapter.Verbs.{SandboxCall, SandboxVerbs, Operation, dispatch_verb}
use probavi.Adapter.Talk.{
  ProtocolError, Envelope, Scanned, line, too_long, unreadable, Crash, Ended, final, crashed,
  check_message, answered_call, on_call, on_final, on_kind, on_message, read_loop, Exit, clean,
  ours, broken, payload, on_error, on_ok, conclude, operate,
}

-- The message speaks the version of the operation, about its request.
abbrev pub Echoes : Operation → Envelope → Type 0
Echoes o e = (e.protocol ≡ o.protocol) × (e.request_id ≡ o.request_id)

-- Calls that the operation may make and whose results could be written, and then a final response.
pub data Conversation (o : Operation) : List Scanned → Envelope → Type 0 where
  final_response :
      {e : Envelope} {b : Bool} {ms : List Scanned}
      → Echoes o e
      → e.sandbox_call ≡ none
      → e.ok ≡ some b
      → Conversation o (line (some e) ∷ ms) e
  mediated :
      {e r : Envelope} {verbs : SandboxVerbs} {call : SandboxCall} {ms : List Scanned}
      → Echoes o e
      → e.sandbox_call ≡ some call
      → o.verbs ≡ some verbs
      → o.write_fails (dispatch_verb o verbs call) ≡ false
      → Conversation o ms r
      → Conversation o (line (some e) ∷ ms) r

check_message-Echoes :
    (o : Operation) (l : Option Envelope) (e : Envelope)
    → check_message o l ≡ inr e
    → (l ≡ some e) × Echoes o e
unfolding check_message
check_message-Echoes o none e h = cc
check_message-Echoes o (some m) e h = elim (Bool-cases (beq m.protocol o.protocol)) [
  | inr p ↦ absurd (cc (rw p at h))
  | inl p ↦ elim (Bool-cases (beq m.request_id o.request_id)) [
    | inr q ↦ absurd (cc (rw (p, q) at h))
    | inl q ↦
        let same : m ≡ e = of_inr (rw (p, q) at h) in
        (
          ap (λ z. some z) same,
          (
            ap (λ (z : Envelope). z.protocol) (sym same) ∙ (beq_iff m.protocol o.protocol).0 p,
            ap (λ (z : Envelope). z.request_id) (sym same)
                ∙ (beq_iff m.request_id o.request_id).0 q,
          ),
        )
  ]
]
  where
    of_inr : {a b : Envelope} → Path (Crash ⊎ Envelope) (inr a) (inr b) → a ≡ b
    of_inr k = cc

Echoes-check_message :
    (o : Operation) (e : Envelope) → Echoes o e → check_message o (some e) ≡ inr e
unfolding check_message
Echoes-check_message o e h = rw (h.0, h.1, beq_refl o.protocol, beq_refl o.request_id) refl

of_final : {a b : Envelope} → final a ≡ final b → a ≡ b
of_final k = cc

call-Conversation :
    (o : Operation) (e r : Envelope) (call : SandboxCall) (v : Option SandboxVerbs)
    (ms : List Scanned)
    → Echoes o e
    → e.sandbox_call ≡ some call
    → o.verbs ≡ v
    → ((read_loop o ms).ended ≡ final r → Conversation o ms r)
    → (on_call o v call (read_loop o ms)).ended ≡ final r
    → Conversation o (line (some e) ∷ ms) r
call-Conversation o e r call none ms h k w ih q = cc
call-Conversation o e r call (some verbs) ms h k w ih q =
    elim (Bool-cases (o.write_fails (dispatch_verb o verbs call))) [
      | inl f ↦ absurd (cc (rw f at q))
      | inr f ↦ mediated h k w f (ih (rw f at q))
    ]

final-Conversation :
    (o : Operation) (e r : Envelope) (ok : Option Bool) (ms : List Scanned)
    → Echoes o e
    → e.sandbox_call ≡ none
    → e.ok ≡ ok
    → (on_final e ok).ended ≡ final r
    → Conversation o (line (some e) ∷ ms) r
final-Conversation o e r none ms h k w q = cc
final-Conversation o e r (some b) ms h k w q =
    subst (Conversation o (line (some e) ∷ ms)) (of_final q) (final_response h k w)

kind-Conversation :
    (o : Operation) (e r : Envelope) (c : Option SandboxCall) (ms : List Scanned)
    → Echoes o e
    → e.sandbox_call ≡ c
    → ((read_loop o ms).ended ≡ final r → Conversation o ms r)
    → (on_kind o e c (read_loop o ms)).ended ≡ final r
    → Conversation o (line (some e) ∷ ms) r
kind-Conversation o e r (some call) ms h k ih q =
    call-Conversation o e r call o.verbs ms h k refl ih q
kind-Conversation o e r none ms h k ih q = final-Conversation o e r e.ok ms h k refl q

message-Conversation :
    (o : Operation) (l : Option Envelope) (x : Crash ⊎ Envelope) (r : Envelope) (ms : List Scanned)
    → check_message o l ≡ x
    → ((read_loop o ms).ended ≡ final r → Conversation o ms r)
    → (on_message o x (read_loop o ms)).ended ≡ final r
    → Conversation o (line l ∷ ms) r
message-Conversation o l (inl c) r ms k ih q = cc
message-Conversation o l (inr e) r ms k ih q =
    let (same, h) = check_message-Echoes o l e k in
    subst (λ m. Conversation o (line m ∷ ms) r) (sym same)
      (kind-Conversation o e r e.sandbox_call ms h refl ih q)

read_loop-Conversation :
    (o : Operation) (ms : List Scanned) (r : Envelope)
    → (read_loop o ms).ended ≡ final r
    → Conversation o ms r
unfolding read_loop
read_loop-Conversation o [] r q = cc
read_loop-Conversation o (too_long ∷ ms) r q = cc
read_loop-Conversation o (unreadable ∷ ms) r q = cc
read_loop-Conversation o (line l ∷ ms) r q =
    message-Conversation o l (check_message o l) r ms refl (read_loop-Conversation o ms r) q

Conversation-read_loop :
    (o : Operation) (ms : List Scanned) (r : Envelope)
    → Conversation o ms r
    → (read_loop o ms).ended ≡ final r
unfolding read_loop
Conversation-read_loop o _ r (final_response {e = e} {ms = ms} h k w) =
    ap (λ x. (on_message o x (read_loop o ms)).ended) (Echoes-check_message o e h)
    ∙ ap (λ c. (on_kind o e c (read_loop o ms)).ended) k
    ∙ ap (λ ok. (on_final e ok).ended) w
Conversation-read_loop o _ r (mediated {e = e} {verbs = verbs} {call = call} {ms = ms} h k w f c) =
    ap (λ x. (on_message o x (read_loop o ms)).ended) (Echoes-check_message o e h)
    ∙ ap (λ c. (on_kind o e c (read_loop o ms)).ended) k
    ∙ ap (λ v. (on_call o v call (read_loop o ms)).ended) w
    ∙ written f
    ∙ Conversation-read_loop o ms r c
  where
    written :
        o.write_fails (dispatch_verb o verbs call) ≡ false
        → (answered_call o (dispatch_verb o verbs call) (read_loop o ms)).ended
          ≡ (read_loop o ms).ended
    written f = rw f refl

of_payload : {a b : Bytes} → payload a ≡ payload b → a ≡ b
of_payload k = cc

no_payload : (o : Option ProtocolError) (p : Bytes) → on_error o ≢ payload p
no_payload none p = λ k. cc
no_payload (some e) p = λ k. cc

of_ok :
    (e : Envelope) (ok : Option Bool) (p : Bytes)
    → e.ok ≡ ok
    → on_ok e ok ≡ payload p
    → (e.ok ≡ some true) × (e.payload ≡ p)
of_ok e (some true) p k q = (k, of_payload q)
of_ok e (some false) p k q = absurd (no_payload e.failure p q)
of_ok e none p k q = absurd (no_payload e.failure p q)

conclude-payload :
    (t : Ended) (x : Exit) (p : Bytes)
    → conclude t x ≡ payload p
    → (r : Envelope) × (t ≡ final r) × (r.ok ≡ some true) × (r.payload ≡ p) × (x ≢ broken)
unfolding conclude
conclude-payload (crashed c) x p q = cc
conclude-payload (final e) broken p q = cc
conclude-payload (final e) clean p q =
    let (ok, same) = of_ok e e.ok p refl q in (e, refl, ok, same, λ z. cc)
conclude-payload (final e) ours p q =
    let (ok, same) = of_ok e e.ok p refl q in (e, refl, ok, same, λ z. cc)

payload-conclude :
    (e : Envelope) (x : Exit)
    → x ≢ broken
    → e.ok ≡ some true
    → conclude (final e) x ≡ payload e.payload
unfolding conclude
payload-conclude e broken n h = absurd (n refl)
payload-conclude e clean n h = ap (on_ok e) h
payload-conclude e ours n h = ap (on_ok e) h

-- An operation of an adapter has a payload exactly if its request could be sent, the process then
-- held a conversation that ends in a final response with that payload, each message of the version
-- and the request of the operation and each call one that it may make, and the process ended
-- without an error that is not our own cancellation.
pub operate-payload_iff :
    (o : Operation) (sent : Bool) (ms : List Scanned) (x : Exit) (p : Bytes)
    → (operate o sent ms x ≡ payload p) ↔ (
        (sent ≡ true)
        × (x ≢ broken)
        × (r : Envelope) × (r.ok ≡ some true)
        × (r.payload ≡ p)
        × Conversation o ms r)
unfolding operate
operate-payload_iff o false ms x p = ((λ q. cc), λ h. absurd (true≢false (sym h.0)))
operate-payload_iff o true ms x p = (
  λ q.
      let (r, e, ok, same, n) = conclude-payload (read_loop o ms).ended x p q in
      (refl, n, r, ok, same, read_loop-Conversation o ms r e),
  λ (s, n, r, ok, same, c).
      ap (λ t. conclude t x) (Conversation-read_loop o ms r c)
      ∙ payload-conclude r x n ok
      ∙ ap payload same,
)
