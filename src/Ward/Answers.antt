-- ===== src/Ward/Answers.antt =====
-- Which answer a waiting tool call gets.
use vivary.Prelude.{
  ℕ, ◌≡◌, refl, sym, ap, ◌∙◌, inl, inr, Option, none, some, List, [], ◌∷◌, arith, ◌==◌,
  if◌then◌else◌, ==_iff, Bool-cases,
}
use vivary.Capabilities.Payloads.{unmarshal_capability_response}
use vivary.Ward.State.{
  CapResp, Ward, Pending, offered, channel, remove_pending, deliver_capability_response,
  channel-close,
}
use vivary.Ward.Tools.{reader, answered, decoded_response, finish_tool}

-- Answers as they come in, with their headers
unfoldable pub deliver_all : List CapResp → Ward → Ward
deliver_all [] w = w
deliver_all (r ∷ rs) w = deliver_all rs (deliver_capability_response r.hdr r.payload w)

-- The first of them under a number
unfoldable pub first_for : ℕ → List CapResp → Option CapResp
first_for seq [] = none
first_for seq (r ∷ rs) =
    let later = first_for seq rs in if r.hdr.seq_no == seq then some r else later

abbrev filled : CapResp → Option (Option CapResp) → Option (Option CapResp)
filled r none = none
filled r (some none) = some (some r)
filled r (some (some first)) = some (some first)

channel-offered :
    (r : CapResp) (j : ℕ) (pending : Pending) (c : Option (Option CapResp))
    → channel r.hdr.seq_no pending ≡ c
    → channel j (offered r.hdr.seq_no r c pending)
      ≡ (if r.hdr.seq_no == j then filled r c else channel j pending)
unfolding channel
channel-offered r j pending none e = elim (Bool-cases (r.hdr.seq_no == j)) [
  | inl same ↦ rw same (ap (λ k. channel k pending) (sym ((==_iff _ j).0 same)) ∙ e)
  | inr other ↦ rw other refl
]
channel-offered r j pending (some none) e = ground (arith, channel-close r.hdr.seq_no j pending)
channel-offered r j pending (some (some first)) e = elim (Bool-cases (r.hdr.seq_no == j)) [
  | inl same ↦ rw same (ap (λ k. channel k pending) (sym ((==_iff _ j).0 same)) ∙ e)
  | inr other ↦ rw other refl
]

channel-deliver :
    (r : CapResp) (j : ℕ) (w : Ward)
    → channel j (deliver_capability_response r.hdr r.payload w).pending
      ≡ (if r.hdr.seq_no == j then filled r (channel j w.pending) else channel j w.pending)
unfolding deliver_capability_response
channel-deliver r j w = elim (Bool-cases (r.hdr.seq_no == j)) [
  | inl same ↦
      channel-offered r j w.pending _ refl
      ∙ rw same (ap (λ k. filled r (channel k w.pending)) ((==_iff _ j).0 same))
  | inr other ↦ channel-offered r j w.pending _ refl ∙ rw other refl
]

abbrev kept : Option CapResp → Option CapResp → Option CapResp
kept (some first) later = some first
kept none later = later

channel-deliver_all :
    (rs : List CapResp) (seq : ℕ) (c : Option CapResp) (w : Ward)
    → channel seq w.pending ≡ some c
    → channel seq (deliver_all rs w).pending ≡ some (kept c (first_for seq rs))
unfolding deliver_all first_for
channel-deliver_all [] seq none w e = e
channel-deliver_all [] seq (some first) w e = e
channel-deliver_all (r ∷ rs) seq none w e = elim (Bool-cases (r.hdr.seq_no == seq)) [
  | inl same ↦ rw same (channel-deliver_all rs seq (some r) _ (rw (channel-deliver, same, e) refl))
  | inr other ↦ rw other (channel-deliver_all rs seq none _ (rw (channel-deliver, other, e) refl))
]
channel-deliver_all (r ∷ rs) seq (some first) w e = elim (Bool-cases (r.hdr.seq_no == seq)) [
  | inl same ↦ channel-deliver_all rs seq (some first) _ (rw (channel-deliver, same, e) refl)
  | inr other ↦ channel-deliver_all rs seq (some first) _ (rw (channel-deliver, other, e) refl)
]

-- A call that waits under a number is answered by the first of the answers that came in under that
-- number, whatever else came in before or after it; then its channel is gone, and those of other
-- calls are as the answers left them.
pub finish_tool-first_for :
    (rs : List CapResp) (seq : ℕ) (r : CapResp) (w : Ward)
    → channel seq w.pending ≡ some none
    → first_for seq rs ≡ some r
    → ((finish_tool seq answered (deliver_all rs w)).0
        ≡ decoded_response (unmarshal_capability_response reader r.payload))
      × ((j : ℕ)
          → channel j (finish_tool seq answered (deliver_all rs w)).1.pending
            ≡ (if seq == j then none else channel j (deliver_all rs w).pending))
unfolding finish_tool remove_pending
finish_tool-first_for rs seq r w waits first = (
  rw (channel-deliver_all rs seq none w waits, first) refl,
  λ j. channel-close seq j (deliver_all rs w).pending,
)
