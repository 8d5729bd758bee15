-- ===== src/Switchboard/Bounds.antt =====
-- The sizes of the frame codec: what ReadFrame lets in, and how long a header is.
use vivary.Prelude.{
  get_or, length-drop, ℕ, ◌%◌, ◌^◌, ◌≤◌, ◌≡◌, List, append-nil, Str, bytes, length, length-append,
  ltb, arith,
}
use vivary.Mus.{
  Source, Parser, ok, ◌>>=◌, pure, within, read_full, read_varint, read_string, max_payload_bytes,
  payload_too_large,
}
use vivary.Mus.Varint.{IsU64, varint_len_bounds, varint_len_small}
use vivary.Mus.Strings.{length-varint_bytes, length-string_bytes}
use vivary.Mus.Wire.{concat}
use vivary.Mus.Ensures.{
  Ensures, Ensures-pure, Ensures-fail, Ensures-if, Ensures-within, Ensures-bind, Ensures-read_full,
  Ensures-read_varint, Ensures-read_string, Shrinks, Shrinks-bind,
}
use vivary.Switchboard.Codec.{
  SwarmHeader, marshal_mus, read_fixed, check_payload_len, unmarshal_mus, read_payload, read_frame,
  header_size, max_id_len,
}
use vivary.Switchboard.Frames.{IsSendable, marshal_mus-wire}

-- What a receiver may rely on.
pub record IsAccepted (h : SwarmHeader) (payload : Str) : Type 0 where
  pub from_id : length h.from_id ≤ max_id_len
  pub to_id : length h.to_id ≤ max_id_len
  pub payload_len : h.payload_len ≤ max_payload_bytes
  pub exact : length payload ≡ h.payload_len

abbrev HeaderBounds : SwarmHeader → Type 0
HeaderBounds h =
    (length h.from_id ≤ max_id_len)
    × (length h.to_id ≤ max_id_len)
    × (h.payload_len ≤ max_payload_bytes)

Ensures-fixed : Ensures (λ s. Unit {0}) read_fixed
unfolding read_fixed
Ensures-fixed = record {
  at = λ src bs b rest h. (tt, ground (arith, (Ensures-read_full 2).at src bs b rest));
}

Ensures-check : (n : ℕ) → Ensures (λ m. m ≤ max_payload_bytes) (check_payload_len n)
unfolding check_payload_len
Ensures-check n =
    Ensures-if (ltb max_payload_bytes n) _ _ (λ e. Ensures-fail payload_too_large)
      (λ e. Ensures-pure (n % 2 ^ 32) (ground arith))

Ensures-payload : (n : ℕ) → Ensures (λ s. length s ≡ n) (read_payload n)
unfolding read_payload pure
Ensures-payload n = record {
  at = λ src bs b rest h. ground (arith, (Ensures-read_full n).at src bs b rest);
}

-- `UnmarshalMUS` behind the two fixed bytes
after_fixed : Str → Parser SwarmHeader
after_fixed fixed = do
  from ← within (bytes "from_id") (read_string max_id_len)
  to ← within (bytes "to_id") (read_string max_id_len)
  seq ← within (bytes "seq_no") read_varint
  len ← within (bytes "payload_len") read_varint
  checked ← check_payload_len len
  pure (record {
    version = get_or fixed 0 0;
    msg_type = get_or fixed 1 0;
    from_id = from;
    to_id = to;
    seq_no = seq;
    payload_len = checked;
  })

Ensures-after_fixed : (fixed : Str) → Ensures HeaderBounds (after_fixed fixed)
unfolding after_fixed
Ensures-after_fixed fixed =
    Ensures-bind _ _ (Ensures-within _ _ (Ensures-read_string max_id_len)) λ from hf.
      Ensures-bind _ _ (Ensures-within _ _ (Ensures-read_string max_id_len)) λ to ht.
        Ensures-bind _ _ (Ensures-within _ _ Ensures-read_varint) λ seq _.
          Ensures-bind _ _ (Ensures-within _ _ Ensures-read_varint)
            λ len _. Ensures-bind _ _ (Ensures-check len) λ m hm. Ensures-pure _ (hf, ht, hm)

Ensures-unmarshal_mus : Ensures HeaderBounds unmarshal_mus
unfolding unmarshal_mus after_fixed
Ensures-unmarshal_mus = Ensures-bind _ _ Ensures-fixed λ fixed _. Ensures-after_fixed fixed

Ensures-read_frame : Ensures (λ r. IsAccepted r.0 r.1) read_frame
unfolding read_frame
Ensures-read_frame = Ensures-bind _ _ Ensures-unmarshal_mus λ h b.
    Ensures-bind _ _ (Ensures-payload h.payload_len)
      λ s e. Ensures-pure _ (record { from_id = b.0; to_id = b.1; payload_len = b.2; exact = e })

-- Whatever bytes arrive, a frame that ReadFrame accepts has identities of at most 256 bytes and a
-- payload of at most 4 MiB, as long as its header says, and no more bytes are left than there were.
pub read_frame_bounds :
    (src : Source) (bs : List ℕ) (h : SwarmHeader) (payload : Str) (rest : List ℕ)
    → read_frame src bs ≡ ok ((h, payload), rest)
    → IsAccepted h payload × (length rest ≤ length bs)
read_frame_bounds src bs h payload rest e = Ensures-read_frame.at src bs (h, payload) rest e

Shrinks-fixed : Shrinks read_fixed
unfolding read_fixed read_full
Shrinks-fixed = record { at = λ src bs b rest h. ground (arith, length-drop 2 bs) }

-- A frame takes at least a byte of the input.
pub Shrinks-read_frame : Shrinks read_frame
unfolding read_frame unmarshal_mus after_fixed
Shrinks-read_frame =
    Shrinks-bind {Q = λ r. Unit {0}} _ _
      (Shrinks-bind _ _ Shrinks-fixed (λ fixed. Ensures-after_fixed fixed))
      (λ h. Ensures-bind _ _ (Ensures-payload h.payload_len) λ s e. Ensures-pure (h, s) tt)

-- HeaderSize is the length of what MarshalMUS writes.
pub length-marshal_mus :
    (h : SwarmHeader)
    → IsU64 (length h.from_id)
    → IsU64 (length h.to_id)
    → IsU64 h.seq_no
    → IsU64 h.payload_len
    → length (marshal_mus h) ≡ header_size h
length-marshal_mus h from to seq len = rw marshal_mus-wire (
    unfold concat header_size in
    simp (length-append, append-nil)
      (omega (
        arith,
        length-string_bytes h.from_id from,
        length-string_bytes h.to_id to,
        length-varint_bytes h.seq_no seq,
        length-varint_bytes h.payload_len len,
      )))

-- The header of every frame that can be sent fits into MaxHeaderBytes, with room to spare.
pub header_size-le :
    (h : SwarmHeader) (payload : Str)
    → IsSendable h payload
    → h.payload_len ≡ length payload
    → header_size h ≤ 532
unfolding header_size
header_size-le h payload s e = omega (
  arith,
  varint_len_small 1 (length h.from_id) (omega arith) (omega arith),
  varint_len_small 1 (length h.to_id) (omega arith) (omega arith),
  varint_len_bounds h.seq_no s.seq_no,
  varint_len_small 3 h.payload_len (omega arith) (omega arith),
)
