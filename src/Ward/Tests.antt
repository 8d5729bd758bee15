-- ===== src/Ward/Tests.antt =====
-- The ward on concrete calls. The world is the list of what was written to the pipe.
use vivary.Prelude.{
  ℕ, ◌+◌, ◌≤◌, ◌≡◌, refl, ◌⊎◌, inr, true, Option, none, some, List, [], ◌∷◌, ◌++◌, arith, leb, ◌==◌,
  if◌then◌else◌, length, All, Str, bytes, str_eq,
}
use vivary.Mus.{Parser}
use vivary.Switchboard.MsgType
use vivary.Switchboard.Router.{Writer, Pipe}
use vivary.Switchboard.Router.Rules.{delivered}
use vivary.Capabilities.Payloads.{ToolRequestPayload, unmarshal_capability_response}
use vivary.Ward.Loop.{
  new_loop_detector, check, check_all, key_of, fnv64a, occurrences, increment, count,
  check-occurrences,
}
use vivary.Ward.State.{CapResp, Ward, channel, ward_header}
use vivary.Ward.Tools.{reader, answered, decoded_response, finish_tool, begin_tool}
use vivary.Ward.Answers.{deliver_all, first_for, finish_tool-first_for}
use vivary.Ward.Requests.{IsCounted, Settles, begin_tool-Settles}
use vivary.Ward.Reordering.{overtaken, overtaken-delivered}
use vivary.Ward.Prompts.{
  LlmOutcome, Failure, run_attempts, run_llm_subprocess, run_llm_subprocess-length, BeginsWith,
}

abbrev call : Str × Str
call = (bytes "t", bytes "x")

check-occurrences_example :
    (check call (check_all (call ∷ []) (new_loop_detector 2))).0
    ≡ leb 2 (occurrences (key_of call) (call ∷ []) + 1)
check-occurrences_example = check-occurrences 2 (call ∷ []) call

-- The hash of hash/fnv for "a"
fnv64a_a : fnv64a (bytes "a") ≡ 0xaf63dc4c8601ec8c
unfolding fnv64a
fnv64a_a = refl

second_loops : (check call (check_all (call ∷ []) (new_loop_detector 2))).0 ≡ true
unfolding check check_all new_loop_detector increment count key_of
second_loops = refl

abbrev waiting : Ward
waiting = record {
  agent_id = bytes "a";
  seq = 3;
  pending = (3, none) ∷ [];
  active_loop = some (new_loop_detector 5);
  active_cmd = none;
  active_abort = none;
  active_abort_detail = none;
}

abbrev answer : ℕ → Str → CapResp
answer seq payload = record {
  hdr = ward_header (bytes "keeper") MsgType.capability_response (bytes "a") seq;
  payload = payload;
}

abbrev answers : List CapResp
answers = answer 2 [] ∷ answer 3 (1 ∷ []) ∷ answer 3 (2 ∷ []) ∷ []

it_waits : channel 3 waiting.pending ≡ some none
unfolding channel
it_waits = refl

first_answer : first_for 3 answers ≡ some (answer 3 (1 ∷ []))
unfolding first_for
first_answer = refl

finish_tool-first_for_example :
    ((finish_tool 3 answered (deliver_all answers waiting)).0
      ≡ decoded_response (unmarshal_capability_response reader (1 ∷ [])))
    × ((j : ℕ)
        → channel j (finish_tool 3 answered (deliver_all answers waiting)).1.pending
          ≡ (if 3 == j then none else channel j (deliver_all answers waiting).pending))
finish_tool-first_for_example =
    finish_tool-first_for answers 3 (answer 3 (1 ∷ [])) waiting it_waits first_answer

abbrev pipe : Writer (List Str)
pipe frame w = (none, w ++ (frame ∷ []))

abbrev kill : ℕ → List Str → List Str
kill cmd w = w

abbrev arguments : Str → Option (Parser (Unit {0}))
arguments name = none

abbrev plain : Str → Str
plain s = s

abbrev request : ToolRequestPayload
request = record { capability = bytes "t"; mode = 0; args = bytes "x" }

waiting-IsCounted : IsCounted waiting
unfolding channel
waiting-IsCounted = record { counted = λ j above. ground arith }

begin_tool-Settles_example :
    Settles waiting (begin_tool pipe kill arguments plain request waiting [])
begin_tool-Settles_example =
    begin_tool-Settles pipe kill arguments plain request [] waiting (omega arith) waiting-IsCounted

abbrev router_pipe : Pipe
router_pipe = record { agent_id = bytes "a"; limiter = none; last_seq_no = 3 }

overtaken-delivered_example :
    delivered (overtaken (0, 0) router_pipe waiting (bytes "one") (bytes "two")) ≡ []
overtaken-delivered_example =
    overtaken-delivered (0, 0) router_pipe waiting (bytes "one") (bytes "two") (omega arith)

abbrev once : Str → Ward → ℕ → (LlmOutcome ℕ ⊎ Failure) × (Ward × ℕ)
once prompt ward w = (inr (record { kind = bytes "schema_invalid"; message = [] }), (ward, w + 1))

abbrev digits : ℕ → Str
digits n = (b'0' + n) ∷ []

run_llm_subprocess-length_example :
    (length (run_llm_subprocess once digits 2 (bytes "p") waiting 0).prompts ≤ 2 + 1)
    × All (BeginsWith (bytes "p")) (run_llm_subprocess once digits 2 (bytes "p") waiting 0).prompts
run_llm_subprocess-length_example = run_llm_subprocess-length once digits (bytes "p") 2 waiting 0

three_attempts : (run_llm_subprocess once digits 2 (bytes "p") waiting 0).world ≡ 3
unfolding run_llm_subprocess run_attempts str_eq
three_attempts = refl
