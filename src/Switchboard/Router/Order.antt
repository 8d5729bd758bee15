-- ===== src/Switchboard/Router/Order.antt =====
-- The frames that the read loop delivers: their sender, their sizes and their order.
use vivary.Prelude.{
  ℕ, ◌≤◌, ◌<◌, ◌≡◌, refl, sym, ap, ◌∙◌, ◌≢◌, ◌⊎◌, inl, inr, ◌&&◌, List, [], ◌∷◌, ◌++◌, arith, ltb,
  leb, Bool-cases, length, All, All-append, Str, bytes, str_eq, str_eq_iff,
}
use native.Mathlib.Nat.{le_refl}
use vivary.Mus.{Source, max_payload_bytes}
use vivary.Switchboard.Codec.{SwarmHeader, max_id_len}
use vivary.Switchboard.Bounds.{IsAccepted}
use vivary.Switchboard.Router.{
  Pipe, Frame, Action, Tick, allow_pipe, stamp, deliver, enforce, read_loop, frame_bytes, event,
  rewind,
}
use vivary.Switchboard.Router.Rules.{
  delivered, delivered-append, gated, allow_pipe-agent, allow_pipe-seq, enforce-agent,
  read_loop_rule,
}

-- What a handler may rely on.
pub record IsGenuine (agent : Str) (f : Frame) : Type 0 where
  pub from_id : f.header.from_id ≡ agent
  pub to_id : length f.header.to_id ≤ max_id_len
  pub exact : length f.payload ≡ f.header.payload_len
  pub size : f.header.payload_len ≤ max_payload_bytes

-- The header as a handler sees it.
abbrev pub stamped : Pipe → SwarmHeader → SwarmHeader
stamped p hdr = record hdr { from_id = p.agent_id }

pub stamp-header : (p : Pipe) (hdr : SwarmHeader) → (stamp p hdr).0 ≡ stamped p hdr
unfolding stamp
stamp-header p hdr = elim (Bool-cases (str_eq hdr.from_id p.agent_id)) [
  | inl e ↦
      rw e (ap (λ (x : Str). record hdr { from_id = x }) ((str_eq_iff hdr.from_id p.agent_id).0 e))
  | inr e ↦ rw e refl
]

pub delivered-stamp : (p : Pipe) (hdr : SwarmHeader) → delivered (stamp p hdr).1 ≡ []
unfolding stamp delivered
delivered-stamp p hdr = elim (Bool-cases (str_eq hdr.from_id p.agent_id)) [
  | inl e ↦ rw e refl
  | inr e ↦ rw e refl
]

-- A frame that the rules let through is the one that was read, with its sender stamped, and its
-- number is above the last one, which it becomes.
pub record IsPassed (p p' : Pipe) (hdr : SwarmHeader) (payload : Str) (fs : List Frame)
    : Type 0 where
  pub frames :
      (fs ≡ [])
      ⊎ (fs ≡ record { header = record hdr { from_id = p.agent_id }; payload = payload } ∷ [])
  pub order : (fs ≢ []) → (p.last_seq_no < hdr.seq_no) ⊎ (p.last_seq_no ≡ 0)
  pub last : (fs ≢ []) → p'.last_seq_no ≡ hdr.seq_no
  pub grows : p.last_seq_no ≤ p'.last_seq_no

deliver_lem :
    (now : ℕ) (p : Pipe) (hdr : SwarmHeader) (payload : Str)
    → ((delivered (deliver now p hdr payload).1 ≡ [])
        ⊎ (delivered (deliver now p hdr payload).1
            ≡ record { header = hdr; payload = payload } ∷ []))
      × ((deliver now p hdr payload).0.last_seq_no ≡ p.last_seq_no)
unfolding deliver delivered
deliver_lem now p hdr payload = ground (arith, allow_pipe-seq now (frame_bytes hdr) p)

dropped :
    (p : Pipe) (hdr : SwarmHeader) (payload : Str) (a : Action)
    → delivered (a ∷ []) ≡ []
    → IsPassed p p hdr payload (delivered (a ∷ []))
dropped p hdr payload a e = rw e record {
  frames = inl refl;
  order = λ ne. absurd (ne refl);
  last = λ ne. absurd (ne refl);
  grows = le_refl p.last_seq_no;
}

pub enforce_lem :
    (now : ℕ) (p : Pipe) (hdr : SwarmHeader) (payload : Str)
    → IsPassed p (enforce now p hdr payload).0 hdr payload (delivered (enforce now p hdr payload).1)
unfolding enforce
enforce_lem now p hdr payload =
    elim (Bool-cases (leb hdr.seq_no p.last_seq_no && ltb 0 p.last_seq_no)) [
      | inl rewound ↦
          rw (stamp-header p hdr, rewound, delivered-append, delivered-stamp p hdr)
            (dropped p hdr payload
              (event p (bytes "seq_no_rewind") (rewind hdr.seq_no p.last_seq_no))
              (unfold delivered in refl))
      | inr fresh ↦
          rw (stamp-header p hdr, fresh, delivered-append, delivered-stamp p hdr)
            (let d =
                deliver_lem now (record p { last_seq_no = hdr.seq_no }) (stamped p hdr) payload in
              record {
                frames = d.0;
                order = λ ne. ground arith;
                last = λ ne. d.1;
                grows = ground (arith, d.1);
              })
    ]

IsGenuine-passed :
    (p p' : Pipe) (hdr : SwarmHeader) (payload : Str) (fs : List Frame)
    → IsAccepted hdr payload
    → IsPassed p p' hdr payload fs
    → All (IsGenuine p.agent_id) fs
IsGenuine-passed p p' hdr payload fs accepted r = elim r.frames [
  | inl e ↦ rw e tt
  | inr e ↦ rw e (
    record {
      from_id = refl;
      to_id = accepted.to_id;
      exact = accepted.exact;
      size = accepted.payload_len;
    },
    tt,
  )
]

-- Every frame that the read loop delivers, whatever bytes the agent sends, bears the identity of
-- the agent's pipe, has the payload that its header measures, of at most 4 MiB, and a recipient
-- of at most 256 bytes.
pub read_loop-IsGenuine :
    (ts : List Tick) (p : Pipe) (src : Source) (bs : List ℕ)
    → All (IsGenuine p.agent_id) (delivered (read_loop ts p src bs).actions)
read_loop-IsGenuine =
    read_loop_rule (λ ts p actions. All (IsGenuine p.agent_id) (delivered actions))
      (λ ts p actions e. rw e tt)
      (λ t ts p hdr payload actions accepted admitted later.
        let passed = enforce_lem t.full (gated t p) hdr payload in
        let same : (enforce t.full (gated t p) hdr payload).0.agent_id ≡ p.agent_id =
          enforce-agent t.full (gated t p) hdr payload ∙ allow_pipe-agent t.gate 2 p in
        let here = IsGenuine-passed (gated t p) _ hdr payload _ accepted passed in
        rw delivered-append (
          All-append (IsGenuine p.agent_id) _ _ (rw (allow_pipe-agent t.gate 2 p) at here)
            (rw same at later)))

-- The numbers rise, from `prev` on; a number 0 has no frame before it to be compared with.
abbrev pub Rises : ℕ → List Frame → Type 0
Rises prev [] = Unit
Rises prev (f ∷ fs) = ((prev < f.header.seq_no) ⊎ (prev ≡ 0)) × Rises f.header.seq_no fs

Rises-le : (a b : ℕ) (fs : List Frame) → a ≤ b → Rises b fs → Rises a fs
Rises-le a b [] h r = tt
Rises-le a b (f ∷ fs) h (r, rest) =
    (elim r [ inl lt ↦ inl (omega arith) | inr e ↦ inr (omega arith) ], rest)

Rises-passed :
    (p p' : Pipe) (hdr : SwarmHeader) (payload : Str) (fs later : List Frame)
    → IsPassed p p' hdr payload fs
    → Rises p'.last_seq_no later
    → Rises p.last_seq_no (fs ++ later)
Rises-passed p p' hdr payload fs later r h = elim r.frames [
  | inl e ↦ rw e (Rises-le _ _ later r.grows h)
  | inr e ↦
      let some_frame : fs ≢ [] = λ none_. cc in
      rw e (r.order some_frame, (rw (r.last some_frame) at h))
]

-- The sequence numbers of the frames that the read loop delivers strictly increase, from the last
-- number of the pipe on, once they are above 0: no frame is delivered twice or out of order.
pub read_loop-Rises :
    (ts : List Tick) (p : Pipe) (src : Source) (bs : List ℕ)
    → Rises p.last_seq_no (delivered (read_loop ts p src bs).actions)
unfolding allow_pipe
read_loop-Rises =
    read_loop_rule (λ ts p actions. Rises p.last_seq_no (delivered actions))
      (λ ts p actions e. rw e tt)
      (λ t ts p hdr payload actions accepted admitted later.
        let passed = enforce_lem t.full (gated t p) hdr payload in
        let here = Rises-passed (gated t p) _ hdr payload _ (delivered actions) passed later in
        rw (delivered-append, sym (allow_pipe-seq t.gate 2 p)) here)
