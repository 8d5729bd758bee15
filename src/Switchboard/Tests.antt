-- ===== src/Switchboard/Tests.antt =====
-- Frames, the limiter and the read loop on concrete values.
use vivary.Prelude.{
  if◌then◌else◌, str_eq, some, none, ℕ, ◌≤◌, ◌≡◌, refl, ◌≢◌, true, false, List, [], ◌∷◌, ◌++◌,
  arith, length, All, Str, bytes,
}
use vivary.Mus.{Source, closed, ok, append_string, append_varint}
use vivary.Switchboard.Codec.{
  SwarmHeader, write_frame, read_frame, marshal_mus, marshal_mus_into, header_size,
}
use vivary.Switchboard.Frames.{IsSendable, read_frame-write_frame, read_frame-prefix}
use vivary.Switchboard.Bounds.{IsAccepted, read_frame_bounds, length-marshal_mus, header_size-le}
use vivary.Switchboard.Limiter.{ByteRateLimiter, second}
use vivary.Switchboard.Router.{Pipe, Tick, read_loop, running}
use vivary.Switchboard.Router.{Endpoint, no_pipe, send, send_to, add_pipe, remove_pipe, new_router}
use vivary.Switchboard.Router.Send.{send-add_pipe}
use vivary.Switchboard.Router.Rules.{delivered}
use vivary.Switchboard.Router.Order.{IsGenuine, read_loop-IsGenuine, Rises, read_loop-Rises}
use vivary.Switchboard.Router.Budget.{total, read_loop-total}
use vivary.Switchboard.Router.Ends.{read_loop-running}
use vivary.Switchboard.Router.Filter.{Message, transport, survivors, read_loop-survivors}

abbrev buffered : Source
buffered = record { byte_reader = true; ending = closed }

abbrev greeting : SwarmHeader
greeting = record {
  version = 0;
  msg_type = 9;
  from_id = bytes "eve";
  to_id = bytes "keeper";
  seq_no = 5;
  payload_len = 0;
}

abbrev body : Str
body = bytes "hi"

greeting-IsSendable : IsSendable greeting body
greeting-IsSendable = record {
  from_id = omega arith;
  to_id = omega arith;
  seq_no = omega arith;
  size = omega arith;
}

read_frame-write_frame_example :
    read_frame buffered (write_frame greeting body ++ (1 ∷ []))
    ≡ ok ((record greeting { payload_len = 2 }, body), 1 ∷ [])
read_frame-write_frame_example =
    read_frame-write_frame greeting body buffered (1 ∷ []) greeting-IsSendable

read_frame-prefix_example : read_frame buffered [] ≢ ok ((greeting, body), [])
read_frame-prefix_example =
    read_frame-prefix greeting body [] (write_frame greeting body) buffered greeting-IsSendable refl
      frame_not_empty (greeting, body) []
  where
    frame_not_empty : write_frame greeting body ≢ []
    frame_not_empty =
        unfold write_frame marshal_mus marshal_mus_into append_string append_varint in λ e. cc

read_frame_bounds_example :
    IsAccepted (record greeting { payload_len = 2 }) body
    × (length {A = ℕ} [] ≤ length (write_frame greeting body ++ []))
read_frame_bounds_example =
    read_frame_bounds buffered (write_frame greeting body ++ [])
      (record greeting { payload_len = 2 }) body []
      (read_frame-write_frame greeting body buffered [] greeting-IsSendable)

length-marshal_mus_sample : length (marshal_mus greeting) ≡ header_size greeting
length-marshal_mus_sample =
    length-marshal_mus greeting (omega arith) (omega arith) (omega arith) (omega arith)

header_size-le_sample : header_size (record greeting { payload_len = 2 }) ≤ 532
header_size-le_sample =
    header_size-le (record greeting { payload_len = 2 }) body
      record {
        from_id = omega arith;
        to_id = omega arith;
        seq_no = omega arith;
        size = omega arith;
      }
      refl

abbrev ticks : List Tick
ticks =
    record { cancelled = false; gate = 10; full = 11 }
    ∷ record { cancelled = false; gate = 12; full = 13 }
    ∷ record { cancelled = false; gate = 14; full = 15 }
    ∷ []

abbrev free_pipe : Pipe
free_pipe = record { agent_id = bytes "agent-1"; limiter = none; last_seq_no = 0 }

abbrev slow : ByteRateLimiter
slow = record { window_start = 0; bytes_in_window = 0; limit_per_sec = 100 }

abbrev slow_pipe : Pipe
slow_pipe = record free_pipe { limiter = some slow }

abbrev repeated : List Message
repeated = (greeting, body) ∷ (greeting, body) ∷ []

read_loop-IsGenuine_example :
    All
      (IsGenuine (bytes "agent-1"))
      (delivered (read_loop ticks free_pipe buffered (transport repeated)).actions)
read_loop-IsGenuine_example = read_loop-IsGenuine ticks free_pipe buffered (transport repeated)

read_loop-Rises_example :
    Rises 0 (delivered (read_loop ticks free_pipe buffered (transport repeated)).actions)
read_loop-Rises_example = read_loop-Rises ticks free_pipe buffered (transport repeated)

read_loop-total_example :
    total (delivered (read_loop ticks slow_pipe buffered (transport repeated)).actions) ≤ 200
read_loop-total_example =
    read_loop-total second ticks slow_pipe buffered (transport repeated) slow refl (omega arith)
      (
        (omega arith, omega arith, omega arith, omega arith),
        (
          (omega arith, omega arith, omega arith, omega arith),
          ((omega arith, omega arith, omega arith, omega arith), tt),
        ),
      )
      (omega arith)

read_loop-running_example : (read_loop ticks free_pipe buffered (1 ∷ 2 ∷ [])).finish ≢ running
read_loop-running_example = read_loop-running ticks free_pipe buffered (1 ∷ 2 ∷ []) (omega arith)

read_loop-survivors_example :
    delivered (read_loop ticks free_pipe buffered (transport repeated)).actions
    ≡ survivors (bytes "agent-1") 0 repeated
read_loop-survivors_example = read_loop-survivors ticks free_pipe buffered repeated record {
  live = (refl, (refl, (refl, tt)));
  free = refl;
  sendable = (greeting-IsSendable, (greeting-IsSendable, tt));
  numbered = (omega arith, (omega arith, tt));
  enough = omega arith;
}

-- The second copy of a message is no survivor.
survivors-repeated :
    survivors (bytes "agent-1") 0 repeated
    ≡ record {
      header = record greeting { from_id = bytes "agent-1"; payload_len = 2 };
      payload = body;
    }
      ∷ []
unfolding survivors
survivors-repeated = refl

abbrev stdin : Endpoint (List Str)
stdin = record { agent_id = bytes "agent-1"; writer = λ frame w. (none, w ++ (frame ∷ [])) }

send-add_pipe_sample :
    (send (add_pipe stdin (new_router none)) (bytes "agent-1") greeting body [] ≡ (
      if str_eq (bytes "agent-1") (bytes "agent-1")
      then send_to (bytes "agent-1") (some stdin) (write_frame greeting body) []
      else send (new_router none) (bytes "agent-1") greeting body []))
    × (send
          (remove_pipe (bytes "agent-1") (add_pipe stdin (new_router none)))
          (bytes "agent-1")
          greeting
          body
          []
        ≡ (if str_eq (bytes "agent-1") (bytes "agent-1")
            then (some (no_pipe (bytes "agent-1")), [])
            else send (new_router none) (bytes "agent-1") greeting body []))
send-add_pipe_sample = send-add_pipe (new_router none) stdin (bytes "agent-1") greeting body []
