-- ===== src/Capabilities/RoundTrip.antt =====
-- The payloads of the capability protocol are read back as they were written.
use vivary.Switchboard.Codec.{max_id_len}
use vivary.Prelude.{ℕ, ◌≤◌, ◌≡◌, ap, List, [], ◌∷◌, ◌++◌, append-nil, Bool, length, arith}
use vivary.Mus.{Source, ok, pure, max_alloc}
use vivary.Mus.Varint.{IsU64}
use vivary.Mus.Strings.{varint_bytes, string_bytes, wire_form}
use vivary.Mus.Wire.{Reads, Reads-pure, concat, reads_rules}
use vivary.Mus.Flags.{bool_byte, byte_bool, byte_bool-bool_byte}
use vivary.Capabilities.Payloads.{
  ToolRequestPayload, marshal_tool_request, unmarshal_tool_request, CapabilityRequestPayload,
  marshal_capability_request, unmarshal_capability_request, CapabilityResponsePayload,
  marshal_capability_response, unmarshal_capability_response,
}

-- The values of a CapabilityRequestPayload that its reader lets in.
pub record IsCapabilityRequestPayload (p : CapabilityRequestPayload) : Type 0 where
  pub capability : length p.capability ≤ max_id_len
  pub args : length p.args ≤ max_alloc

Reads-capability_request :
    (p : CapabilityRequestPayload)
    → IsCapabilityRequestPayload p
    → Reads unmarshal_capability_request p (marshal_capability_request p)
Reads-capability_request p h =
    rw wire (unfold unmarshal_capability_request in search (reads_rules, args_wide) depth 20)
  where
    wire :
        marshal_capability_request p
        ≡ concat (string_bytes p.capability ∷ varint_bytes (length p.args) ∷ p.args ∷ [])
    wire = unfold marshal_capability_request concat in simp (wire_form, append-nil)

    args_wide : IsU64 (length p.args)
    args_wide = omega (arith, h.args)

-- A capability request is read back, by any reader, and what follows is left.
pub unmarshal_capability_request-marshal_capability_request :
    (p : CapabilityRequestPayload) (src : Source) (rest : List ℕ)
    → IsCapabilityRequestPayload p
    → unmarshal_capability_request src (marshal_capability_request p ++ rest) ≡ ok (p, rest)
unmarshal_capability_request-marshal_capability_request p src rest h =
    (Reads-capability_request p h).at src rest

-- The values of a CapabilityResponsePayload that its reader lets in.
pub record IsCapabilityResponsePayload (p : CapabilityResponsePayload) : Type 0 where
  pub result : length p.result ≤ max_alloc
  pub error_code : length p.error_code ≤ max_id_len
  pub error_detail : length p.error_detail ≤ 1024

Reads-capability_response :
    (p : CapabilityResponsePayload)
    → IsCapabilityResponsePayload p
    → Reads unmarshal_capability_response p (marshal_capability_response p)
Reads-capability_response p h =
    rw wire
      (unfold unmarshal_capability_response in search (reads_rules, result_wide, last) depth 20)
  where
    wire :
        marshal_capability_response p
        ≡ concat (
            (bool_byte p.success ∷ [])
            ∷ varint_bytes (length p.result)
            ∷ p.result
            ∷ string_bytes p.error_code
            ∷ string_bytes p.error_detail
            ∷ [])
    wire = unfold marshal_capability_response concat in simp (wire_form, append-nil)

    result_wide : IsU64 (length p.result)
    result_wide = omega (arith, h.result)

    last : Reads (pure (record p { success = byte_bool (bool_byte p.success ∷ []) })) p (concat [])
    last = Reads-pure (ap (λ (x : Bool). record p { success = x }) (byte_bool-bool_byte p.success))

-- A capability response is read back, by any reader, and what follows is left, if its error code has
-- at most 256 bytes and its detail at most 1024.
pub unmarshal_capability_response-marshal_capability_response :
    (p : CapabilityResponsePayload) (src : Source) (rest : List ℕ)
    → IsCapabilityResponsePayload p
    → unmarshal_capability_response src (marshal_capability_response p ++ rest) ≡ ok (p, rest)
unmarshal_capability_response-marshal_capability_response p src rest h =
    (Reads-capability_response p h).at src rest

-- The values of a ToolRequestPayload that its reader lets in.
pub record IsToolRequestPayload (p : ToolRequestPayload) : Type 0 where
  pub capability : length p.capability ≤ max_id_len
  pub args : length p.args ≤ max_alloc

Reads-tool_request :
    (p : ToolRequestPayload)
    → IsToolRequestPayload p
    → Reads unmarshal_tool_request p (marshal_tool_request p)
Reads-tool_request p h =
    rw wire (unfold unmarshal_tool_request in search (reads_rules, args_wide) depth 20)
  where
    wire :
        marshal_tool_request p
        ≡ concat
            (string_bytes p.capability ∷ (p.mode ∷ []) ∷ varint_bytes (length p.args) ∷ p.args ∷ [])
    wire = unfold marshal_tool_request concat in simp (wire_form, append-nil)

    args_wide : IsU64 (length p.args)
    args_wide = omega (arith, h.args)

-- A request on the tool socket is read back, by any reader, and what follows is left.
pub unmarshal_tool_request-marshal_tool_request :
    (p : ToolRequestPayload) (src : Source) (rest : List ℕ)
    → IsToolRequestPayload p
    → unmarshal_tool_request src (marshal_tool_request p ++ rest) ≡ ok (p, rest)
unmarshal_tool_request-marshal_tool_request p src rest h = (Reads-tool_request p h).at src rest
