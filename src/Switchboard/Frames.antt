-- ===== src/Switchboard/Frames.antt =====
-- The frame codec: a frame is read back, cut off, bounded, and measured.
use vivary.Prelude.{
  ℕ, ◌^◌, ◌≤◌, ◌≡◌, ◌≢◌, refl, ap, ◌∙◌, sym, List, [], ◌∷◌, ◌++◌, append-nil, Str, length, arith,
}
use vivary.Mus.{Source, ok, pure, max_payload_bytes}
use vivary.Mus.Varint.{IsU64}
use vivary.Mus.Strings.{varint_bytes, string_bytes, wire_form, read_full-append}
use vivary.Mus.Wire.{
  Reads, Reads-pure, Reads-done, Reads-bind, Reads-within, Reads-varint, Reads-string, concat,
}
use vivary.Mus.Extends.{Extends-read_full, Extends, Extends-prefix, extends_rules}
use vivary.Switchboard.Codec.{
  SwarmHeader, marshal_mus, marshal_mus_into, read_fixed, check_payload_len, unmarshal_mus,
  read_payload, read_frame, with_payload_len, write_frame, max_id_len,
}
use native.Mathlib.Nat.{mod-eq_of_lt}

-- What a sender must keep to for its frame to be accepted.
pub record IsSendable (h : SwarmHeader) (payload : Str) : Type 0 where
  pub from_id : length h.from_id ≤ max_id_len
  pub to_id : length h.to_id ≤ max_id_len
  pub seq_no : IsU64 h.seq_no
  pub size : length payload ≤ max_payload_bytes

-- The header as a concatenation.
pub marshal_mus-wire :
    (h : SwarmHeader)
    → marshal_mus h
      ≡ concat (
          (h.version ∷ h.msg_type ∷ [])
          ∷ string_bytes h.from_id
          ∷ string_bytes h.to_id
          ∷ varint_bytes h.seq_no
          ∷ varint_bytes h.payload_len
          ∷ []
          ∷ [])
unfolding marshal_mus marshal_mus_into concat
marshal_mus-wire h = simp (wire_form, append-nil)

Reads-fixed : (a b : ℕ) → Reads read_fixed (a ∷ b ∷ []) (a ∷ b ∷ [])
unfolding read_fixed
Reads-fixed a b = record { at = λ src rest. rw (read_full-append (a ∷ b ∷ []) src rest) }

Reads-check : (n : ℕ) → n ≤ max_payload_bytes → Reads (check_payload_len n) n []
unfolding check_payload_len
Reads-check n h = record { at = λ src rest. ground (arith, mod-eq_of_lt {n = n} {m = 2 ^ 32}) }

-- UnmarshalMUS reads a header back.
pub Reads-unmarshal_mus :
    (h : SwarmHeader)
    → length h.from_id ≤ max_id_len
    → length h.to_id ≤ max_id_len
    → IsU64 h.seq_no
    → h.payload_len ≤ max_payload_bytes
    → Reads unmarshal_mus h (marshal_mus h)
Reads-unmarshal_mus h from to seq len = rw marshal_mus-wire (
    unfold unmarshal_mus in
    Reads-bind _ _ _ (Reads-fixed h.version h.msg_type) (
      Reads-bind _ _ _ (Reads-within _ (Reads-string max_id_len h.from_id from refl)) (
        Reads-bind _ _ _ (Reads-within _ (Reads-string max_id_len h.to_id to refl)) (
          Reads-bind _ _ _ (Reads-within _ (Reads-varint h.seq_no seq)) (
            Reads-bind _ _ _ (Reads-within _ (Reads-varint h.payload_len (omega arith)))
              (Reads-bind _ _ _ (Reads-check h.payload_len len) (Reads-done h)))))))

Reads-payload :
    (payload : Str)
    → length payload ≤ max_payload_bytes
    → Reads (read_payload (length payload)) payload payload
unfolding read_payload pure
Reads-payload [] h = record { at = λ src rest. refl }
Reads-payload (c ∷ s) h = record {
  at = λ src rest. ground (arith, read_full-append (c ∷ s) src rest);
}

-- WriteFrame sets the length that the payload has.
payload_len_lem :
    (h : SwarmHeader) (payload : Str)
    → IsSendable h payload
    → with_payload_len h payload ≡ record h { payload_len = length payload }
payload_len_lem h payload ok_ =
    ap (λ (n : ℕ). record h { payload_len = n })
      (mod-eq_of_lt {n = length payload} {m = 2 ^ 32} (omega arith))

write_frame-wire :
    (h : SwarmHeader) (payload : Str)
    → IsSendable h payload
    → write_frame h payload
      ≡ concat (marshal_mus (record h { payload_len = length payload }) ∷ payload ∷ [])
unfolding write_frame concat
write_frame-wire h payload s =
    ap (λ (g : SwarmHeader). marshal_mus g ++ payload) (payload_len_lem h payload s)
    ∙ ap (λ (t : Str). marshal_mus (record h { payload_len = length payload }) ++ t)
        (sym (append-nil payload))

Reads-read_frame :
    (h : SwarmHeader) (payload : Str)
    → IsSendable h payload
    → Reads read_frame (record h { payload_len = length payload }, payload) (write_frame h payload)
unfolding read_frame
Reads-read_frame h payload s = rw (write_frame-wire h payload s) (
    Reads-bind _ _ _
      (Reads-unmarshal_mus (record h { payload_len = length payload }) s.from_id s.to_id s.seq_no
        s.size)
      (Reads-bind _ _ _ (Reads-payload payload s.size) (Reads-pure refl)))

-- If the ids have at most 256 bytes, the number is a uint64 and the payload has at most 4 MiB,
-- ReadFrame reads back the header and the payload that WriteFrame wrote, with the payload's length in
-- the header, from any reader, and leaves what follows.
pub read_frame-write_frame :
    (h : SwarmHeader) (payload : Str) (src : Source) (rest : List ℕ)
    → IsSendable h payload
    → read_frame src (write_frame h payload ++ rest)
      ≡ ok ((record h { payload_len = length payload }, payload), rest)
read_frame-write_frame h payload src rest s = (Reads-read_frame h payload s).at src rest

Extends-fixed : Extends read_fixed
unfolding read_fixed
Extends-fixed = record {
  at = λ src bs more b rest e. ground (arith, (Extends-read_full 2).at src bs more b rest);
}

Extends-check : (n : ℕ) → Extends (check_payload_len n)
unfolding check_payload_len
Extends-check n = search extends_rules

Extends-payload : (n : ℕ) → Extends (read_payload n)
unfolding read_payload
Extends-payload n = record {
  at = λ src bs more b rest e.
      unfold pure in ground (arith, (Extends-read_full n).at src bs more b rest);
}

Extends-read_frame : Extends read_frame
unfolding read_frame unmarshal_mus
Extends-read_frame = search (extends_rules, Extends-fixed, Extends-check, Extends-payload) depth 20

-- A frame that is cut off anywhere, even by one byte, is never accepted.
pub read_frame-prefix :
    (h : SwarmHeader) (payload : Str) (front back : List ℕ) (src : Source)
    → IsSendable h payload
    → write_frame h payload ≡ front ++ back
    → back ≢ []
    → (r : SwarmHeader × Str) (rest : List ℕ) → read_frame src front ≢ ok (r, rest)
read_frame-prefix h payload front back src s e ne =
    Extends-prefix src front back Extends-read_frame (rw e at (Reads-read_frame h payload s)) ne
