-- ===== src/Switchboard/Codec.antt =====
-- internal/switchboard/codec.go: the header of a frame, and frames. A writer is the bytes that are
-- handed to it in one Write.
use vivary.Prelude.{
  ℕ, ◌+◌, ◌%◌, ◌^◌, List, [], ◌∷◌, ◌++◌, Str, bytes, length, get_or, ltb, ◌==◌, if◌then◌else◌,
}
use vivary.Mus.{
  Error, eof, unexpected_eof, payload_too_large, frame_truncated, Result, ok, err, panicked, Parser,
  ◌>>=◌, pure, fail, within, read_full, read_varint, read_string, append_varint, append_string,
  varint_len, max_payload_bytes,
}

abbrev pub max_id_len : ℕ
max_id_len = 256

abbrev pub max_header_bytes : ℕ
max_header_bytes = 600

pub record SwarmHeader : Type 0 where
  pub version : ℕ
  pub msg_type : ℕ
  pub from_id : Str
  pub to_id : Str
  pub seq_no : ℕ
  pub payload_len : ℕ

-- `MarshalMUSInto`
unfoldable pub marshal_mus_into : SwarmHeader → List ℕ → List ℕ
marshal_mus_into h b =
    let b1 = b ++ (h.version ∷ h.msg_type ∷ []) in
    let b2 = append_string b1 h.from_id in
    let b3 = append_string b2 h.to_id in
    let b4 = append_varint b3 h.seq_no in append_varint b4 h.payload_len

-- `MarshalMUS`, which starts from an empty slice
unfoldable pub marshal_mus : SwarmHeader → List ℕ
unfolding marshal_mus_into
marshal_mus h = marshal_mus_into h []

-- The two fixed bytes: a stream that ends inside them is a clean end.
abbrev clean_end : Error → Error
clean_end unexpected_eof = eof
clean_end e = e

abbrev or_clean_end : Result (Str × List ℕ) → Result (Str × List ℕ)
or_clean_end (ok r) = ok r
or_clean_end (err e) = err (clean_end e)
or_clean_end panicked = panicked

unfoldable pub read_fixed : Parser Str
unfolding read_full
read_fixed src bs = or_clean_end (read_full 2 src bs)

unfoldable pub check_payload_len : ℕ → Parser ℕ
unfolding pure fail
check_payload_len n = if ltb max_payload_bytes n then fail payload_too_large else pure (n % 2 ^ 32)

unfoldable pub unmarshal_mus : Parser SwarmHeader
unmarshal_mus = do
  fixed ← read_fixed
  from ← within (bytes "from_id") (read_string max_id_len)
  to ← within (bytes "to_id") (read_string max_id_len)
  seq ← within (bytes "seq_no") read_varint
  len ← within (bytes "payload_len") read_varint
  checked ← check_payload_len len
  pure (record {
    version = get_or fixed 0 0;
    msg_type = get_or fixed 1 0;
    from_id = from;
    to_id = to;
    seq_no = seq;
    payload_len = checked;
  })

-- `ReadFrame` reports a payload that ends early as ErrFrameTruncated.
abbrev truncated : Error → Error
truncated eof = frame_truncated
truncated unexpected_eof = frame_truncated
truncated e = e

abbrev or_truncated : Result (Str × List ℕ) → Result (Str × List ℕ)
or_truncated (ok r) = ok r
or_truncated (err e) = err (truncated e)
or_truncated panicked = panicked

unfoldable pub read_payload : ℕ → Parser Str
unfolding read_full pure
read_payload n = if n == 0 then pure [] else λ src bs. or_truncated (read_full n src bs)

unfoldable pub read_frame : Parser (SwarmHeader × Str)
read_frame = do hdr ← unmarshal_mus; payload ← read_payload hdr.payload_len; pure (hdr, payload)

-- `PayloadLen` is overwritten before the header is written.
abbrev pub with_payload_len : SwarmHeader → Str → SwarmHeader
with_payload_len hdr payload = record hdr { payload_len = length payload % 2 ^ 32 }

unfoldable pub write_frame : SwarmHeader → Str → List ℕ
unfolding marshal_mus
write_frame hdr payload = marshal_mus (with_payload_len hdr payload) ++ payload

unfoldable pub header_size : SwarmHeader → ℕ
header_size h =
    2
    + varint_len (length h.from_id)
    + length h.from_id
    + varint_len (length h.to_id)
    + length h.to_id
    + varint_len h.seq_no
    + varint_len h.payload_len
