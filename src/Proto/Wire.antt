-- ===== src/Proto/Wire.antt =====
-- What src/proto/rndz.rs calls of the protobuf crate: CodedInputStream, CodedOutputStream and the
-- functions of `protobuf::rt`. A stream is the list of the bytes that it still holds or has got.
use rndz.Base.{ℕ, ◌+◌, ◌*◌, ◌^◌, ◌≤◌, ◌<◌, String, ◌≡◌, Option, some, List, [], ◌++◌, length}

-- What `read_raw_tag_or_eof` gives: an error, the end of the stream, or a tag and the rest.
pub data RawTag : Type 0 where
  bad_tag eof : RawTag
  raw_tag : ℕ → List ℕ → RawTag

-- The tag of a field whose value stands behind its length: wire type 2.
abbrev pub tag_of : ℕ → ℕ
tag_of number = 8 * number + 2

-- `write_message_field` stands for `write_message_field_with_cached_size`: the field's number, the
-- cached size, the bytes of the message. `read_delimited` gives the bytes to which `read_message`
-- limits the stream. The laws: what is written under a field number below 16 has the size that
-- `rt` computes, and is read back; a read takes its bytes from the front of the stream.
pub record Wire : Type 0 where
  pub write_string : ℕ → String → List ℕ
  pub write_message_field : ℕ → ℕ → List ℕ → List ℕ
  pub string_size : ℕ → String → ℕ
  pub compute_raw_varint64_size : ℕ → ℕ
  pub read_raw_tag_or_eof : List ℕ → RawTag
  pub read_string : List ℕ → Option (String × List ℕ)
  pub read_delimited : List ℕ → Option (List ℕ × List ℕ)
  pub read_unknown_or_skip_group : ℕ → List ℕ → Option (List ℕ)
  pub length-write_string : (n : ℕ) (s : String) → length (write_string n s) ≡ string_size n s
  pub length-write_message_field :
      (n : ℕ) (bytes : List ℕ)
      → n < 16
      → length bytes < 2 ^ 32
      → length (write_message_field n (length bytes) bytes)
        ≡ 1 + compute_raw_varint64_size (length bytes) + length bytes
  pub read_eof : read_raw_tag_or_eof [] ≡ eof
  pub read_back_string :
      (n : ℕ) (s : String) (rest : List ℕ)
      → 0 < n
      → n < 16
      → length (write_string n s) < 2 ^ 32
      → (mid : List ℕ) × (read_raw_tag_or_eof (write_string n s ++ rest) ≡ raw_tag (tag_of n) mid)
        × (read_string mid ≡ some (s, rest))
  pub read_back_message :
      (n : ℕ) (bytes rest : List ℕ)
      → 0 < n
      → n < 16
      → length bytes < 2 ^ 32
      → (mid : List ℕ) × (read_raw_tag_or_eof (write_message_field n (length bytes) bytes ++ rest)
          ≡ raw_tag (tag_of n) mid)
        × (read_delimited mid ≡ some (bytes, rest))
  pub length-tag :
      (stream rest : List ℕ) (tag : ℕ)
      → read_raw_tag_or_eof stream ≡ raw_tag tag rest
      → length rest < length stream
  pub length-string :
      (stream rest : List ℕ) (s : String)
      → read_string stream ≡ some (s, rest)
      → length rest ≤ length stream
  pub length-delimited :
      (stream bytes rest : List ℕ)
      → read_delimited stream ≡ some (bytes, rest)
      → length rest ≤ length stream
  pub length-skip :
      (stream rest : List ℕ) (tag : ℕ)
      → read_unknown_or_skip_group tag stream ≡ some rest
      → length rest ≤ length stream
