-- ===== src/Ctl/RoundTrip.antt =====
-- The requests of the control protocol are read back as they were written.
use vivary.Prelude.{
  ℕ, ◌%◌, ◌^◌, ◌≤◌, ◌<◌, ◌≡◌, ap, List, [], ◌∷◌, ◌++◌, append-nil, Bool, length, arith,
}
use vivary.Mus.{Source, ok, pure, max_payload_bytes}
use vivary.Mus.Varint.{IsU64}
use vivary.Mus.Strings.{varint_bytes, string_bytes, wire_form}
use vivary.Mus.Wire.{Reads, Reads-pure, concat, reads_rules}
use native.Mathlib.Nat.{mod-eq_of_lt}
use vivary.Mus.Flags.{bool_byte, byte_bool, byte_bool-bool_byte}
use vivary.Ctl.Requests.{
  AgentCreatePayload, marshal_agent_create, unmarshal_agent_create, AgentDestroyPayload,
  marshal_agent_destroy, unmarshal_agent_destroy, PromptPayload, marshal_prompt, unmarshal_prompt,
  ApprovalPayload, marshal_approval, unmarshal_approval,
}

-- The values of a AgentCreatePayload that its reader lets in.
pub record IsAgentCreatePayload (p : AgentCreatePayload) : Type 0 where
  pub id : length p.id ≤ 64
  pub provider : length p.provider ≤ 64
  pub template : length p.template ≤ 1024
  pub cpu_shares : p.cpu_shares < 2 ^ 32
  pub memory_max_bytes : IsU64 p.memory_max_bytes

Reads-agent_create :
    (p : AgentCreatePayload)
    → IsAgentCreatePayload p
    → Reads unmarshal_agent_create p (marshal_agent_create p)
Reads-agent_create p h =
    rw wire (unfold unmarshal_agent_create in search (reads_rules, cpu_shares_wide, last) depth 20)
  where
    wire :
        marshal_agent_create p
        ≡ concat (
            string_bytes p.id
            ∷ string_bytes p.provider
            ∷ string_bytes p.template
            ∷ varint_bytes p.cpu_shares
            ∷ varint_bytes p.memory_max_bytes
            ∷ [])
    wire = unfold marshal_agent_create concat in simp (wire_form, append-nil)

    cpu_shares_wide : IsU64 p.cpu_shares
    cpu_shares_wide = omega (arith, h.cpu_shares)

    last : Reads (pure (record p { cpu_shares = p.cpu_shares % 2 ^ 32 })) p (concat [])
    last = Reads-pure (ap (λ (x : ℕ). record p { cpu_shares = x }) (mod-eq_of_lt h.cpu_shares))

-- An agent-create request is read back, by any reader, and what follows is left.
pub unmarshal_agent_create-marshal_agent_create :
    (p : AgentCreatePayload) (src : Source) (rest : List ℕ)
    → IsAgentCreatePayload p
    → unmarshal_agent_create src (marshal_agent_create p ++ rest) ≡ ok (p, rest)
unmarshal_agent_create-marshal_agent_create p src rest h = (Reads-agent_create p h).at src rest

-- The values of a AgentDestroyPayload that its reader lets in.
pub record IsAgentDestroyPayload (p : AgentDestroyPayload) : Type 0 where
  pub id : length p.id ≤ 64

Reads-agent_destroy :
    (p : AgentDestroyPayload)
    → IsAgentDestroyPayload p
    → Reads unmarshal_agent_destroy p (marshal_agent_destroy p)
Reads-agent_destroy p h = rw wire (unfold unmarshal_agent_destroy in search reads_rules depth 20)
  where
    wire : marshal_agent_destroy p ≡ concat (string_bytes p.id ∷ [])
    wire = unfold marshal_agent_destroy concat in simp (wire_form, append-nil)

-- An agent-destroy request is read back.
pub unmarshal_agent_destroy-marshal_agent_destroy :
    (p : AgentDestroyPayload) (src : Source) (rest : List ℕ)
    → IsAgentDestroyPayload p
    → unmarshal_agent_destroy src (marshal_agent_destroy p ++ rest) ≡ ok (p, rest)
unmarshal_agent_destroy-marshal_agent_destroy p src rest h = (Reads-agent_destroy p h).at src rest

-- The values of a PromptPayload that its reader lets in.
pub record IsPromptPayload (p : PromptPayload) : Type 0 where
  pub agent_id : length p.agent_id ≤ 64
  pub seq : IsU64 p.seq
  pub text : length p.text ≤ max_payload_bytes

Reads-prompt : (p : PromptPayload) → IsPromptPayload p → Reads unmarshal_prompt p (marshal_prompt p)
Reads-prompt p h = rw wire (unfold unmarshal_prompt in search reads_rules depth 20)
  where
    wire :
        marshal_prompt p
        ≡ concat (string_bytes p.agent_id ∷ varint_bytes p.seq ∷ string_bytes p.text ∷ [])
    wire = unfold marshal_prompt concat in simp (wire_form, append-nil)

-- A prompt is read back, by any reader, and what follows is left.
pub unmarshal_prompt-marshal_prompt :
    (p : PromptPayload) (src : Source) (rest : List ℕ)
    → IsPromptPayload p
    → unmarshal_prompt src (marshal_prompt p ++ rest) ≡ ok (p, rest)
unmarshal_prompt-marshal_prompt p src rest h = (Reads-prompt p h).at src rest

-- The values of a ApprovalPayload that its reader lets in.
pub record IsApprovalPayload (p : ApprovalPayload) : Type 0 where
  pub request_id : IsU64 p.request_id
  pub reason : length p.reason ≤ 1024

Reads-approval :
    (p : ApprovalPayload) → IsApprovalPayload p → Reads unmarshal_approval p (marshal_approval p)
Reads-approval p h = rw wire (unfold unmarshal_approval in search (reads_rules, last) depth 20)
  where
    wire :
        marshal_approval p
        ≡ concat
            (varint_bytes p.request_id ∷ (bool_byte p.granted ∷ []) ∷ string_bytes p.reason ∷ [])
    wire = unfold marshal_approval concat in simp (wire_form, append-nil)

    last : Reads (pure (record p { granted = byte_bool (bool_byte p.granted ∷ []) })) p (concat [])
    last = Reads-pure (ap (λ (x : Bool). record p { granted = x }) (byte_bool-bool_byte p.granted))

-- An approval is read back, by any reader, and what follows is left.
pub unmarshal_approval-marshal_approval :
    (p : ApprovalPayload) (src : Source) (rest : List ℕ)
    → IsApprovalPayload p
    → unmarshal_approval src (marshal_approval p ++ rest) ≡ ok (p, rest)
unmarshal_approval-marshal_approval p src rest h = (Reads-approval p h).at src rest
