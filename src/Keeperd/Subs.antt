-- ===== src/Keeperd/Subs.antt =====
-- What a control request leaves alone: the list of push channels.
use vivary.Prelude.{
  ℕ, ◌≡◌, refl, ap, inl, inr, Bool, true, false, not, ◌&&◌, Option, none, some, List, [], ◌∷◌, ◌++◌,
  map, arith, ◌==◌, if◌then◌else◌, Bool-cases, All, Str,
}
use vivary.Mus.{Result, ok, err, panicked}
use vivary.Switchboard.MsgType
use vivary.Switchboard.Router.{SendError}
use vivary.Ctl.Requests.{AgentCreatePayload, AgentDestroyPayload, PromptPayload}
use vivary.Keeperd.State.{AgentState, Subscriber, Daemon}
use vivary.Keeperd.Handlers.{update_agent}
use vivary.Keeperd.Ctl.{
  Formats, Provision, Reply, dispatch_prompt, dispatch_ctl, created, destroyed, forwarded,
  prompt_agent, decoded_prompt,
}
use vivary.Keeperd.Connection.{without, received_from}

abbrev pub channels : List Subscriber → List ℕ
channels ss = map (λ s. s.channel) ss

-- What agentCreate and agentDestroy leave alone.
pub record LeavesSubs {ℓ} {W : Type ℓ} {F : Type 0} (p : Provision W F) : Type ℓ where
  pub create :
      (req : AgentCreatePayload) (d : Daemon W F) (w : W)
      → (p.create req d w).1.0.ctl_subs ≡ d.ctl_subs
  pub destroy :
      (req : AgentDestroyPayload) (d : Daemon W F) (w : W)
      → (p.destroy req d w).1.0.ctl_subs ≡ d.ctl_subs

unfoldable pub remove_first : ℕ → List ℕ → List ℕ
remove_first c [] = []
remove_first c (x ∷ xs) = let rest = remove_first c xs in if x == c then xs else x ∷ rest

pub channels-without :
    (c : ℕ) (ss : List Subscriber) → channels (without c ss) ≡ remove_first c (channels ss)
unfolding without remove_first
channels-without c [] = refl
channels-without c (s ∷ ss) = elim (Bool-cases (s.channel == c)) [
  | inl e ↦ rw (without, e) refl
  | inr e ↦ rw (without, e) (ap (λ xs. s.channel ∷ xs) (channels-without c ss))
]

pub channels-received_from :
    (c : ℕ) (ss : List Subscriber) → channels (received_from c ss) ≡ channels ss
unfolding received_from
channels-received_from c [] = refl
channels-received_from c (s ∷ ss) = elim (Bool-cases (s.channel == c)) [
  | inl e ↦ rw (received_from, e) refl
  | inr e ↦ rw (received_from, e) (ap (λ xs. s.channel ∷ xs) (channels-received_from c ss))
]

pub channels-append :
    (ss : List Subscriber) (c : ℕ)
    → channels (ss ++ (record { channel = c; queue = [] } ∷ [])) ≡ channels ss ++ (c ∷ [])
channels-append [] c = refl
channels-append (s ∷ ss) c = ap (λ xs. s.channel ∷ xs) (channels-append ss c)

abbrev pub IsAbsent : ℕ → List ℕ → Type 0
IsAbsent c base = All (λ x. (x == c) ≡ false) base

pub remove_first-append :
    (c : ℕ) (base : List ℕ) → IsAbsent c base → remove_first c (base ++ (c ∷ [])) ≡ base
unfolding remove_first
remove_first-append c [] h = ground arith
remove_first-append c (x ∷ base) (other, h) =
    rw (remove_first, other) (ap (λ xs. x ∷ xs) (remove_first-append c base h))

module _ {ℓ} {W : Type ℓ} {F : Type 0} (quote : Str → Str) where
  ctl_subs-forwarded :
      (id : Str) (d : Daemon W F) (r : Option SendError × W)
      → (forwarded quote id d r).1.0.ctl_subs ≡ d.ctl_subs
  ctl_subs-forwarded id d (none, w) = refl
  ctl_subs-forwarded id d (some e, w) = refl

  ctl_subs-prompt_agent :
      (req : PromptPayload) (payload : List ℕ) (d : Daemon W F) (w : W) (a : Option (AgentState F))
      → (prompt_agent quote req payload d w a).1.0.ctl_subs ≡ d.ctl_subs
  unfolding update_agent
  ctl_subs-prompt_agent req payload d w none = refl
  ctl_subs-prompt_agent req payload d w (some a) = elim (Bool-cases (not a.has_pipe)) [
    | inl e ↦ rw e refl
    | inr e ↦ rw e (ctl_subs-forwarded _ _ _)
  ]

  ctl_subs-decoded_prompt :
      (payload : List ℕ) (d : Daemon W F) (w : W) (r : Result (PromptPayload × List ℕ))
      → (decoded_prompt quote payload d w r).1.0.ctl_subs ≡ d.ctl_subs
  ctl_subs-decoded_prompt payload d w (ok (req, rest)) = ctl_subs-prompt_agent req payload d w _
  ctl_subs-decoded_prompt payload d w (err e) = refl
  ctl_subs-decoded_prompt payload d w panicked = refl

  abbrev Kept : Daemon W F → Reply W F → Type 0
  Kept d r = r.daemon.ctl_subs ≡ d.ctl_subs

  Kept-if :
      (d : Daemon W F) (b : Bool) (r r' : Reply W F)
      → Kept d r
      → Kept d r'
      → Kept d (if b then r else r')
  Kept-if d true r r' h h' = h
  Kept-if d false r r' h h' = h'

  module _ (provision : Provision W F) (fair : LeavesSubs provision) where
    Kept-created :
        (d : Daemon W F) (w : W) (r : Result (AgentCreatePayload × List ℕ))
        → Kept d (created quote provision d w r)
    Kept-created d w (ok (req, rest)) = fair.create req d w
    Kept-created d w (err e) = refl
    Kept-created d w panicked = refl

    Kept-destroyed :
        (d : Daemon W F) (w : W) (r : Result (AgentDestroyPayload × List ℕ))
        → Kept d (destroyed quote provision d w r)
    Kept-destroyed d w (ok (req, rest)) = fair.destroy req d w
    Kept-destroyed d w (err e) = refl
    Kept-destroyed d w panicked = refl

    pub Kept-dispatch_ctl :
        (formats : Formats F) (version : Str) (uptime type : ℕ) (payload : List ℕ) (d : Daemon W F)
        (w : W)
        → Kept d (dispatch_ctl quote provision formats version uptime type payload d w)
    unfolding dispatch_ctl dispatch_prompt
    Kept-dispatch_ctl formats version uptime type payload d w =
        Kept-if d (type == MsgType.ctl_status) _ _ refl (
          Kept-if d (type == MsgType.ctl_agent_list) _ _ refl (
            Kept-if d (type == MsgType.ctl_agent_create) _ _ (Kept-created d w _) (
              Kept-if d (type == MsgType.ctl_agent_destroy) _ _ (Kept-destroyed d w _) (
                Kept-if d (type == MsgType.ctl_prompt) _ _ (ctl_subs-decoded_prompt payload d w _) (
                  Kept-if d (type == MsgType.ping) _ _ refl
                    (Kept-if d (type == MsgType.ctl_approval) _ _ refl refl))))))

pub new_one : (b subscribed : Bool) → (b && not subscribed) ≡ true → subscribed ≡ false
new_one b false e = refl
new_one true true e = absurd (cc e)
new_one false true e = absurd (cc e)
