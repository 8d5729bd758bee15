-- ===== src/Ward/Reordering.antt =====
-- Two tool calls at once: each takes its number before it takes the lock of the pipe, so the frame
-- with the second number may be written first.
use vivary.Prelude.{
  ℕ, ◌+◌, ◌^◌, ◌≤◌, ◌<◌, ◌≡◌, refl, inl, inr, List, [], arith, le→leb, lt→ltb, Bool-cases, Str,
  str_eq,
}
use vivary.Switchboard.Codec.{SwarmHeader}
use vivary.Switchboard.Router.{Pipe, Action, allow_pipe, stamp, deliver, enforce, seq_next}
use vivary.Switchboard.Router.Rules.{delivered, delivered-append}
use vivary.Ward.State.{Ward, request_header, next_seq}

-- The numbers of two calls, in the order in which they take them
unfoldable pub two_numbers : Ward → ℕ × ℕ
two_numbers ward = let first = next_seq ward in (first.0, (next_seq first.1).0)

-- What the router does with the two frames if the second is written first
unfoldable pub overtaken : (ℕ × ℕ) → Pipe → Ward → Str → Str → List Action
overtaken now p ward payload1 payload2 =
    let (s1, s2) = two_numbers ward in
    let after_second = enforce now.0 p (request_header ward.agent_id s2) payload2 in
    (enforce now.1 after_second.0 (request_header ward.agent_id s1) payload1).1

delivered-stamp : (p : Pipe) (hdr : SwarmHeader) → delivered (stamp p hdr).1 ≡ []
unfolding stamp delivered
delivered-stamp p hdr = elim (Bool-cases (str_eq hdr.from_id p.agent_id)) [
  | inl e ↦ rw e refl
  | inr e ↦ rw e refl
]

stamp-seq : (p : Pipe) (hdr : SwarmHeader) → (stamp p hdr).0.seq_no ≡ hdr.seq_no
unfolding stamp
stamp-seq p hdr = ground arith

-- After a frame the pipe's number is not below the frame's, if that is above 0.
enforce-last :
    (now : ℕ) (p : Pipe) (hdr : SwarmHeader) (payload : Str)
    → 0 < hdr.seq_no
    → hdr.seq_no ≤ (enforce now p hdr payload).0.last_seq_no
unfolding enforce deliver allow_pipe
enforce-last now p hdr payload h = ground (arith, stamp-seq p hdr)

-- A frame that does not go beyond the pipe's number is not delivered.
enforce-behind :
    (now : ℕ) (p : Pipe) (hdr : SwarmHeader) (payload : Str)
    → hdr.seq_no ≤ p.last_seq_no
    → 0 < p.last_seq_no
    → delivered (enforce now p hdr payload).1 ≡ []
unfolding enforce
enforce-behind now p hdr payload behind started =
    rw (stamp-seq, le→leb _ _ behind, lt→ltb _ _ started, delivered-append, delivered-stamp)
      (unfold delivered in refl)

two_numbers_lem :
    (ward : Ward) → ward.seq + 2 < 2 ^ 64 → two_numbers ward ≡ (ward.seq + 1, ward.seq + 2)
unfolding two_numbers next_seq seq_next
two_numbers_lem ward small = ground arith

-- If of two tool calls of a ward the one with the later number writes its frame first, the router
-- does not deliver the other one's frame, whatever the state of the pipe: that call gets no answer.
pub overtaken-delivered :
    (now : ℕ × ℕ) (p : Pipe) (ward : Ward) (payload1 payload2 : Str)
    → ward.seq + 2 < 2 ^ 64
    → delivered (overtaken now p ward payload1 payload2) ≡ []
unfolding overtaken
overtaken-delivered now p ward payload1 payload2 small =
    rw (overtaken, two_numbers_lem ward small)
      (enforce-behind now.1 _ (request_header ward.agent_id (ward.seq + 1)) payload1
        (omega (arith, last)) (omega (arith, last)))
  where
    last :
        ward.seq + 2
        ≤ (enforce now.0 p (request_header ward.agent_id (ward.seq + 2)) payload2).0.last_seq_no
    last = enforce-last now.0 p (request_header ward.agent_id (ward.seq + 2)) payload2 (omega arith)
