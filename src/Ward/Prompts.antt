-- ===== src/Ward/Prompts.antt =====
-- cmd/ward/main.go: how a prompt is run, and what is reported of it. `once` is one run of the model's
-- process (`runLLMSubprocessOnce`): its outcome, or the kind and the message of its failure. Token
-- counts are not negative.
use vivary.Prelude.{
  ℕ, zero, suc, ◌+◌, ◌-◌, ◌%◌, ◌^◌, ◌≤◌, ◌≡◌, refl, sym, ◌⊎◌, inl, inr, Bool, false, Option, none,
  some, List, [], ◌∷◌, ◌++◌, append-nil, arith, if◌then◌else◌, Bool-cases, length, All, Str, bytes,
  str_eq,
}
use vivary.Mus.{Result, ok, err, panicked, Error}
use vivary.Switchboard.MsgType
use vivary.Switchboard.Router.{Writer}
use vivary.Ctl.Requests.{PromptPayload, unmarshal_prompt}
use vivary.Ctl.Status.{marshal_completion_event, marshal_failure_event}
use vivary.Ward.Loop.{new_loop_detector}
use vivary.Ward.State.{Ward, send}
use vivary.Ward.Tools.{reader}

pub record LlmOutcome (F : Type 0) : Type 0 where
  pub model : Str
  pub input_tokens : ℕ
  pub output_tokens : ℕ
  pub cost_usd : F
  pub tool_calls : ℕ

pub record Failure : Type 0 where
  pub kind : Str
  pub message : Str

abbrev newline : Str
newline = 10 ∷ []

-- `appendSchemaRetryInstruction`; `decimal` is %d of package fmt, and `remaining` is above 0.
unfoldable pub append_schema_retry_instruction : (ℕ → Str) → Str → Str → ℕ → Str
append_schema_retry_instruction decimal prompt_text detail remaining =
    let instruction =
      newline
      ++ newline
      ++ bytes "Schema repair required:"
      ++ newline
      ++ bytes "- The previous tool call was rejected before execution."
      ++ newline
      ++ bytes "- Do not change the task intent. Do not ask follow-up questions."
      ++ newline
      ++ bytes "- Retry by emitting one corrected tool call with valid arguments only."
      ++ newline
      ++ bytes "- Validation error: "
      ++ detail
      ++ newline
      ++ bytes "- Remaining schema retries after this attempt: "
      ++ decimal (remaining - 1) in
    prompt_text ++ instruction

-- The start of a run, and its end
unfoldable pub start_run : ℕ → ℕ → Ward → Ward
start_run threshold cmd ward = record ward {
  active_loop = some (new_loop_detector threshold);
  active_cmd = some cmd;
  active_abort = none;
  active_abort_detail = none;
}

unfoldable pub end_run : Ward → Ward
end_run ward = record ward { active_loop = none; active_cmd = none }

abbrev abort_message : Str → Option Str → Str
abort_message kind none = bytes "prompt aborted: " ++ kind
abort_message kind (some []) = bytes "prompt aborted: " ++ kind
abort_message kind (some (c ∷ detail)) =
    bytes "prompt aborted: " ++ kind ++ bytes ": " ++ (c ∷ detail)

-- Why a run failed whose process ended in an error: the abort comes first, then the context.
abbrev failure_of : Option Str → Option Str → Option Str → Str → Failure
failure_of (some kind) detail cancelled message = record {
  kind = kind;
  message = abort_message kind detail;
}
failure_of none detail (some e) message = record { kind = bytes "timeout"; message = e }
failure_of none detail none message = record { kind = bytes "subprocess_crash"; message = message }

-- The end of `runLLMSubprocessOnce` after `cmd.Wait` failed
unfoldable pub run_failed : Option Str → Str → Ward → Failure × Ward
run_failed cancelled message ward = (
  failure_of ward.active_abort ward.active_abort_detail cancelled message,
  record ward { active_abort = none },
)

abbrev retry_detail : Option Str → Str
retry_detail none = bytes "schema validation failed"
retry_detail (some []) = bytes "schema validation failed"
retry_detail (some (c ∷ detail)) = c ∷ detail

module _ {ℓ} {W : Type ℓ} {F : Type 0}
    (once : Str → Ward → W → (LlmOutcome F ⊎ Failure) × (Ward × W)) (decimal : ℕ → Str) where
  -- What the prompts of all attempts were, and how the last one ended
  pub record Attempts : Type ℓ where
    pub prompts : List Str
    pub result : LlmOutcome F ⊎ Failure
    pub ward : Ward
    pub world : W

  abbrev is_schema_invalid : LlmOutcome F ⊎ Failure → Bool
  is_schema_invalid (inl outcome) = false
  is_schema_invalid (inr f) = str_eq f.kind (bytes "schema_invalid")

  -- The loop of `runLLMSubprocess`, with `remaining` retries
  unfoldable pub run_attempts : Str → ℕ → Str → Ward → W → Attempts
  run_attempts prompt_text zero attempt ward w =
      let r = once attempt ward w in
      record { prompts = attempt ∷ []; result = r.0; ward = r.1.0; world = r.1.1 }
  run_attempts prompt_text (suc remaining) attempt ward w =
      let r = once attempt ward w in
      let retried =
        run_attempts prompt_text remaining
          (append_schema_retry_instruction decimal prompt_text
            (retry_detail r.1.0.active_abort_detail) (remaining + 1))
          (record r.1.0 { active_abort_detail = none }) r.1.1 in
      if is_schema_invalid r.0
      then record retried { prompts = attempt ∷ retried.prompts }
      else record { prompts = attempt ∷ []; result = r.0; ward = r.1.0; world = r.1.1 }

  -- `runLLMSubprocess`
  unfoldable pub run_llm_subprocess : ℕ → Str → Ward → W → Attempts
  run_llm_subprocess retries prompt_text ward w =
      run_attempts prompt_text retries prompt_text ward w

  module _ (pipe : Writer W) (print : F → Str) where
    abbrev report : PromptPayload → Attempts → Option Error × (Ward × W)
    report msg a = elim a.result [
      | inr f ↦
          send pipe MsgType.failure_event (bytes "keeper")
            (marshal_failure_event (record {
              agent_id = a.ward.agent_id;
              prompt_seq = msg.seq;
              kind = f.kind;
              detail = f.message;
            }))
            a.ward a.world
      | inl o ↦
          send pipe MsgType.completion_event (bytes "keeper")
            (marshal_completion_event print (record {
              agent_id = a.ward.agent_id;
              prompt_seq = msg.seq;
              model = o.model;
              input_tokens = o.input_tokens % 2 ^ 32;
              output_tokens = o.output_tokens % 2 ^ 32;
              cost_usd = o.cost_usd;
              outcome = bytes "success";
              tool_calls = o.tool_calls % 2 ^ 32;
            }))
            a.ward a.world
    ]

    abbrev prompted : ℕ → Ward → W → Result (PromptPayload × List ℕ) → Ward × W
    prompted retries ward w (ok (msg, rest)) =
        (report msg (run_llm_subprocess retries msg.text ward w)).1
    prompted retries ward w (err e) = (ward, w)
    prompted retries ward w panicked = (ward, w)

    -- `handlePrompt`; the decoder of a prompt makes no slice and does not panic.
    unfoldable pub handle_prompt : ℕ → Str → Ward → W → Ward × W
    handle_prompt retries payload ward w = prompted retries ward w (unmarshal_prompt reader payload)

-- The first bytes of an attempt's prompt
abbrev pub BeginsWith : Str → Str → Type 0
BeginsWith text prompt = (rest : Str) × (prompt ≡ text ++ rest)

module _ {ℓ} {W : Type ℓ} {F : Type 0}
    (once : Str → Ward → W → (LlmOutcome F ⊎ Failure) × (Ward × W)) (decimal : ℕ → Str)
    (prompt_text : Str) where
  begins_retry :
      (detail : Str) (remaining : ℕ)
      → BeginsWith prompt_text
          (append_schema_retry_instruction decimal prompt_text detail remaining)
  unfolding append_schema_retry_instruction
  begins_retry detail remaining = (_, refl)

  attempts_bounded :
      (remaining : ℕ) (attempt : Str) (ward : Ward) (w : W)
      → BeginsWith prompt_text attempt
      → (length (run_attempts once decimal prompt_text remaining attempt ward w).prompts
          ≤ remaining + 1)
        × All
            (BeginsWith prompt_text)
            (run_attempts once decimal prompt_text remaining attempt ward w).prompts
  unfolding run_attempts
  attempts_bounded zero attempt ward w b = (omega arith, (b, tt))
  attempts_bounded (suc remaining) attempt ward w b =
      let r = once attempt ward w in
      elim (Bool-cases (is_schema_invalid once decimal r.0)) [
        | inl again ↦
            let later =
              attempts_bounded remaining _ (record r.1.0 { active_abort_detail = none }) r.1.1
                (begins_retry (retry_detail r.1.0.active_abort_detail) (remaining + 1)) in
            rw again (omega (arith, later.0), (b, later.1))
        | inr enough ↦ rw enough (omega arith, (b, tt))
      ]

  -- A prompt is run at most once more than there are retries, and each attempt's prompt is the
  -- client's, or begins with it.
  pub run_llm_subprocess-length :
      (retries : ℕ) (ward : Ward) (w : W)
      → (length (run_llm_subprocess once decimal retries prompt_text ward w).prompts ≤ retries + 1)
        × All
            (BeginsWith prompt_text)
            (run_llm_subprocess once decimal retries prompt_text ward w).prompts
  unfolding run_llm_subprocess
  run_llm_subprocess-length retries ward w =
      attempts_bounded retries prompt_text ward w ([], sym (append-nil prompt_text))
