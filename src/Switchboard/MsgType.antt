-- ===== src/Switchboard/MsgType.antt =====
-- internal/switchboard/msgtype.go. A MsgType is a byte; the constants have no prefix.
use vivary.Prelude.{ℕ, Str, bytes, ◌==◌, if◌then◌else◌}

abbrev pub ctl_subscribe : ℕ
ctl_subscribe = 0x01

abbrev pub ctl_status : ℕ
ctl_status = 0x02

abbrev pub ctl_agent_create : ℕ
ctl_agent_create = 0x03

abbrev pub ctl_agent_destroy : ℕ
ctl_agent_destroy = 0x04

abbrev pub ctl_agent_list : ℕ
ctl_agent_list = 0x05

abbrev pub ctl_prompt : ℕ
ctl_prompt = 0x06

abbrev pub ctl_approval : ℕ
ctl_approval = 0x07

abbrev pub capability_request : ℕ
capability_request = 0x10

abbrev pub capability_response : ℕ
capability_response = 0x11

abbrev pub completion_event : ℕ
completion_event = 0x20

abbrev pub failure_event : ℕ
failure_event = 0x21

abbrev pub ping : ℕ
ping = 0xfe

abbrev pub pong : ℕ
pong = 0xff

-- The canonical name, under which the audit log files a frame.
unfoldable pub to_string : ℕ → Str
to_string m =
    if m == ctl_subscribe
    then bytes "CtlSubscribe"
    else if m == ctl_status
    then bytes "CtlStatus"
    else if m == ctl_agent_create
    then bytes "CtlAgentCreate"
    else if m == ctl_agent_destroy
    then bytes "CtlAgentDestroy"
    else if m == ctl_agent_list
    then bytes "CtlAgentList"
    else if m == ctl_prompt
    then bytes "CtlPrompt"
    else if m == ctl_approval
    then bytes "CtlApproval"
    else if m == capability_request
    then bytes "CapabilityRequest"
    else if m == capability_response
    then bytes "CapabilityResponse"
    else if m == completion_event
    then bytes "CompletionEvent"
    else if m == failure_event
    then bytes "FailureEvent"
    else if m == ping
    then bytes "Ping"
    else if m == pong
    then bytes "Pong"
    else bytes "Unknown"
