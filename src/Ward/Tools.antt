-- ===== src/Ward/Tools.antt =====
-- cmd/ward/toolserver.go and schema_validation.go: a tool call of the model's process. A call that
-- reaches the daemon waits, so it is two functions: up to the wait, and from it. `arguments` is the
-- generated table of argument decoders.
use vivary.Prelude.{
  ℕ, ◌*◌, ◌⊎◌, inl, inr, Bool, true, false, Option, none, some, List, [], ◌∷◌, ◌++◌, ◌==◌,
  if◌then◌else◌, take, Str, bytes, str_eq,
}
use vivary.Mus.{Source, closed, Result, ok, err, panicked, Parser, Error, append_string}
use vivary.Mus.Errors.{error_text}
use vivary.Switchboard.Router.{Writer}
use vivary.Capabilities.Payloads.{
  ToolRequestPayload, unmarshal_tool_request, marshal_capability_request, CapabilityResponsePayload,
  unmarshal_capability_response,
}
use vivary.Ward.Loop.{LoopDetector, check}
use vivary.Ward.State.{
  CapResp, Ward, channel, register_pending, remove_pending, next_seq, send_with_seq,
}

abbrev pub reader : Source
reader = record { byte_reader = true; ending = closed }

abbrev pub refusal : Str → Str → CapabilityResponsePayload
refusal code detail = record {
  success = false;
  result = [];
  error_code = code;
  error_detail = detail;
}

abbrev pub tool_request_schema : ℕ
tool_request_schema = 1

-- The bytes of a request that are read
abbrev pub max_request : ℕ
max_request = 256 * 1024

-- What ends a wait
pub data Ending : Type 0 where
  cancelled timed_out answered : Ending

abbrev decoded_args : Str → Result (Unit {0} × List ℕ) → Option Str
decoded_args capability (err e) =
    some (bytes "args must satisfy " ++ capability ++ bytes " schema: " ++ error_text e)
decoded_args capability panicked = none
decoded_args capability (ok (args, [])) = none
decoded_args capability (ok (args, c ∷ rest)) =
    some (bytes "args must satisfy " ++ capability ++ bytes " schema: trailing payload bytes")

abbrev check_args : Str → Str → Option (Parser (Unit {0})) → Option Str
check_args capability args none = none
check_args capability args (some unmarshal) = decoded_args capability (unmarshal reader args)

module _ {ℓ} {W : Type ℓ} (pipe : Writer W) (kill : ℕ → W → W)
    (arguments : Str → Option (Parser (Unit {0}))) (quote : Str → Str) where
  -- `validateToolArgs`; the generated decoders of arguments do not panic.
  unfoldable pub validate_tool_args : Str → Str → Option Str
  validate_tool_args capability args = check_args capability args (arguments capability)

  abbrev kill_active : Option ℕ → W → W
  kill_active none w = w
  kill_active (some cmd) w = kill cmd w

  abbrev detail_or : Str → Option Str → Option Str
  detail_or [] before = before
  detail_or (c ∷ detail) before = some (c ∷ detail)

  -- `abortActivePrompt`, whose kind is never empty
  unfoldable pub abort_active_prompt : Str → Str → Ward → W → Ward × W
  abort_active_prompt kind detail ward w = (
    record ward {
      active_abort = some kind;
      active_abort_detail = detail_or detail ward.active_abort_detail;
    },
    kill_active ward.active_cmd w,
  )

  abbrev pub Begun : Type ℓ
  Begun = (CapabilityResponsePayload ⊎ ℕ) × (Ward × W)

  abbrev pub sent : ℕ → Ward → Option Error × W → Begun
  sent seq ward (none, w) = (inr seq, (ward, w))
  sent seq ward (some e, w) =
      (inl (refusal (bytes "pipe_error") (error_text e)), (remove_pending seq ward, w))

  abbrev pub forward : ToolRequestPayload → Ward → W → Begun
  forward req ward w =
      let (seq, ward1) = next_seq ward in
      let ward2 = register_pending seq ward1 in
      sent seq ward2 (
        send_with_seq pipe seq
          (marshal_capability_request (record { capability = req.capability; args = req.args }))
          ward2 w)

  abbrev pub validated : ToolRequestPayload → Ward → W → Option Str → Begun
  validated req ward w (some e) = (
    inl (refusal (bytes "schema_invalid") e),
    abort_active_prompt (bytes "schema_invalid")
        (bytes "capability " ++ req.capability ++ bytes ": " ++ e) ward w,
  )
  validated req ward w none = forward req ward w

  abbrev pub loop_checked : ToolRequestPayload → Ward → W → Bool × LoopDetector → Begun
  loop_checked req ward w (true, l) = (
    inl (
        refusal (bytes "loop_detected") (
          bytes "capability "
          ++ quote req.capability
          ++ bytes " repeated with identical args above threshold")),
    (
      record ward { active_loop = some l; active_abort = some (bytes "loop_detected") },
      kill_active ward.active_cmd w,
    ),
  )
  loop_checked req ward w (false, l) =
      validated req (record ward { active_loop = some l }) w
        (validate_tool_args req.capability req.args)

  abbrev pub in_prompt : ToolRequestPayload → Ward → W → Option LoopDetector → Begun
  in_prompt req ward w none = validated req ward w (validate_tool_args req.capability req.args)
  in_prompt req ward w (some l) = loop_checked req ward w (check (req.capability, req.args) l)

  -- `executeTool`, up to its wait
  unfoldable pub begin_tool : ToolRequestPayload → Ward → W → Begun
  begin_tool req ward w = in_prompt req ward w ward.active_loop

  -- `handleConn`, up to the wait of `executeTool`; `schema` is the text for a capability, or empty.
  abbrev bad_request : Str → Ward → W → Begun
  bad_request detail ward w = (
    inl (refusal (bytes "bad_request") detail),
    abort_active_prompt (bytes "malformed_tool_call") detail ward w,
  )

  abbrev answer_schema : Str → Str → CapabilityResponsePayload
  answer_schema capability [] =
      refusal (bytes "not_found") (bytes "capability " ++ capability ++ bytes " not registered")
  answer_schema capability (c ∷ schema) = record {
    success = true;
    result = append_string [] (c ∷ schema);
    error_code = [];
    error_detail = [];
  }

  abbrev pub on_request : (Str → Str) → ToolRequestPayload → Ward → W → Begun
  on_request schema req ward w =
      if str_eq req.capability []
      then bad_request (bytes "capability name is required") ward w
      else if req.mode == tool_request_schema
      then (inl (answer_schema req.capability (schema req.capability)), (ward, w))
      else begin_tool req ward w

  -- A length that is too large panics, which ends the ward.
  abbrev pub on_decoded :
      (Str → Str) → Ward → W → Result (ToolRequestPayload × List ℕ) → Result Begun
  on_decoded schema ward w (err e) =
      ok (bad_request (bytes "malformed MUS payload: " ++ error_text e) ward w)
  on_decoded schema ward w panicked = panicked
  on_decoded schema ward w (ok (req, rest)) = ok (on_request schema req ward w)

  unfoldable pub handle_conn : (Str → Str) → List ℕ → Ward → W → Result Begun
  handle_conn schema bs ward w =
      on_decoded schema ward w (unmarshal_tool_request reader (take max_request bs))

abbrev pub decoded_response :
    Result (CapabilityResponsePayload × List ℕ) → Result CapabilityResponsePayload
decoded_response (ok (resp, rest)) = ok resp
decoded_response (err e) = ok (refusal (bytes "decode_error") (error_text e))
decoded_response panicked = panicked

-- The answer in the channel. A wait ends by `answered` only if there is one.
abbrev received : Option (Option CapResp) → Result CapabilityResponsePayload
received (some (some cr)) = decoded_response (unmarshal_capability_response reader cr.payload)
received (some none) = panicked
received none = panicked

abbrev pub tool_answer : Ending → Option (Option CapResp) → Result CapabilityResponsePayload
tool_answer cancelled c = ok (refusal (bytes "timeout") (bytes "context cancelled"))
tool_answer timed_out c = ok (refusal (bytes "timeout") (bytes "keeperd response timeout"))
tool_answer answered c = received c

-- `executeTool`, from its wait on
unfoldable pub finish_tool : ℕ → Ending → Ward → Result CapabilityResponsePayload × Ward
finish_tool seq ending ward =
    (tool_answer ending (channel seq ward.pending), remove_pending seq ward)
