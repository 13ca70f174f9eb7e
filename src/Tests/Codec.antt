-- ===== src/Tests/Codec.antt =====
-- Tests of the codec of src/proto/rndz.rs, over a wire on which a text is its characters' numbers and
-- a stop, and a length is one number.
mod Clients
mod Peers
mod TcpPeers
use Prim.Native.Char.{Char, code}
use rndz.Tests.Codes.{read_code, read_code-code}
use rndz.Base.{
  ℕ, zero, suc, ◌≤◌, ◌<◌, String, ◌≡◌, ◌≢◌, refl, ◌∙◌, ap, Option, none, some, List, [], ◌∷◌, ◌++◌,
  arith, length, take, drop, ltb, if◌then◌else◌,
}
use rndz.Proto.{
  ReqCmd, Request, RespCmd, Response, request, response, new_request, new_response, clear_request,
  clear_response,
}
use rndz.Proto.Parser.{done, unfinished, parse, request_field, response_field, parse_request}
use rndz.Proto.Parser.Ends.{parse_ends}
use rndz.Proto.Printer.{request_bytes, request_size, response_bytes, response_size}
use rndz.Proto.Printer.Sizes.{length-printed}
use rndz.Proto.RoundTrip.{parse-printed}
use rndz.Tcp.Frame.{timely, read_failed, read_reqs}
use rndz.Tcp.Frame.Requests.{stream}
use rndz.Tcp.Frame.Messages.{read_reqs-printed}
use rndz.Proto.Wire.{Wire, RawTag, eof, raw_tag, tag_of}

codes : String → List ℕ
codes String.[] = 0 ∷ []
codes (String.◌∷◌ c s) = suc (code c) ∷ codes s

abbrev put : Option Char → Option (String × List ℕ) → Option (String × List ℕ)
put (some c) (some (s, rest)) = some (String.◌∷◌ c s, rest)
put (some c) none = none
put none _ = none

read_codes : List ℕ → Option (String × List ℕ)
read_codes [] = none
read_codes (zero ∷ rest) = some ("", rest)
read_codes (suc n ∷ rest) = put (read_code n) (read_codes rest)

read_codes-codes : (s : String) (rest : List ℕ) → read_codes (codes s ++ rest) ≡ some (s, rest)
unfolding codes read_codes
read_codes-codes String.[] rest = refl
read_codes-codes (String.◌∷◌ c s) rest =
    ap (λ o. put o (read_codes (codes s ++ rest))) (read_code-code c)
    ∙ ap (put (some c)) (read_codes-codes s rest)

put-length :
    (n : ℕ) (c : Option Char) (o : Option (String × List ℕ)) (s : String) (rest : List ℕ)
    → ((s' : String) (rest' : List ℕ) → o ≡ some (s', rest') → length rest' ≤ n)
    → put c o ≡ some (s, rest)
    → length rest ≤ n
put-length n none o s rest h e = cc
put-length n (some c) none s rest h e = cc
put-length n (some c) (some (s', rest')) s rest h e = ground (arith, h s' rest' refl)

read_codes-length :
    (stream rest : List ℕ) (s : String)
    → read_codes stream ≡ some (s, rest)
    → length rest ≤ length stream
unfolding read_codes
read_codes-length [] rest s e = cc
read_codes-length (zero ∷ tail) rest s e = ground arith
read_codes-length (suc n ∷ tail) rest s e = omega (
  arith,
  put-length (length tail) (read_code n) (read_codes tail) s rest
      (λ s' rest' e'. read_codes-length tail rest' s' e') e,
)

read_front : List ℕ → Option (List ℕ × List ℕ)
read_front [] = none
read_front (size ∷ rest) =
    if ltb (length rest) size then none else some (take size rest, drop size rest)

take_front : (xs ys : List ℕ) → take (length xs) (xs ++ ys) ≡ xs
take_front [] ys = refl
take_front (x ∷ xs) ys = ap (◌∷◌ x) (take_front xs ys)

drop_front : (xs ys : List ℕ) → drop (length xs) (xs ++ ys) ≡ ys
drop_front [] ys = refl
drop_front (x ∷ xs) ys = drop_front xs ys

length_front : (xs ys : List ℕ) → length xs ≤ length (xs ++ ys)
length_front [] ys = omega arith
length_front (x ∷ xs) ys = omega (arith, length_front xs ys)

read_front-append : (xs ys : List ℕ) → read_front (length xs ∷ (xs ++ ys)) ≡ some (xs, ys)
unfolding read_front
read_front-append xs ys = ground (arith, take_front xs ys, drop_front xs ys, length_front xs ys)

length-drop_le : (n : ℕ) (xs : List ℕ) → length (drop n xs) ≤ length xs
length-drop_le zero xs = omega arith
length-drop_le (suc n) [] = omega arith
length-drop_le (suc n) (x ∷ xs) = omega (arith, length-drop_le n xs)

read_front-length :
    (stream bytes rest : List ℕ)
    → read_front stream ≡ some (bytes, rest)
    → length rest ≤ length stream
unfolding read_front
read_front-length [] bytes rest e = cc
read_front-length (size ∷ tail) bytes rest e = ground (arith, length-drop_le size tail)

read_tag : List ℕ → RawTag
read_tag [] = eof
read_tag (tag ∷ rest) = raw_tag tag rest

read_tag-length :
    (stream rest : List ℕ) (tag : ℕ)
    → read_tag stream ≡ raw_tag tag rest
    → length rest < length stream
unfolding read_tag
read_tag-length [] rest tag e = cc
read_tag-length (t ∷ tail) rest tag e = ground arith

unfoldable code_wire : Wire
unfolding read_tag
code_wire = record {
  write_string = λ n s. tag_of n ∷ codes s;
  write_message_field = λ n size bytes. tag_of n ∷ size ∷ bytes;
  string_size = λ n s. length (tag_of n ∷ codes s);
  compute_raw_varint64_size = λ size. 1;
  read_raw_tag_or_eof = read_tag;
  read_string = read_codes;
  read_delimited = read_front;
  read_unknown_or_skip_group = λ tag stream. none;
  length-write_string = λ n s. refl;
  length-write_message_field = λ n bytes low small. omega arith;
  read_eof = refl;
  read_back_string = λ n s rest pos low small. (codes s ++ rest, refl, read_codes-codes s rest);
  read_back_message = λ n bytes rest pos low small.
      (length bytes ∷ (bytes ++ rest), refl, read_front-append bytes rest);
  length-tag = read_tag-length;
  length-string = read_codes-length;
  length-delimited = read_front-length;
  length-skip = λ stream rest tag e. cc;
}

abbrev connect_k : Request
connect_k = request "j" (ReqCmd.isync (record { id = "k" }))

abbrev redirect_k : Response
redirect_k = response "" (RespCmd.redirect (record { id = "k"; addr = "a" }))

connect_k_size : request_size code_wire connect_k ≡ 8
unfolding request_size code_wire codes
connect_k_size = refl

redirect_k_size : response_size code_wire redirect_k ≡ 8
unfolding response_size code_wire codes
redirect_k_size = refl

length-printed_example :
    (length (request_bytes code_wire connect_k) ≡ request_size code_wire connect_k)
    × (length (response_bytes code_wire redirect_k) ≡ response_size code_wire redirect_k)
length-printed_example =
    length-printed code_wire connect_k redirect_k (omega (arith, connect_k_size))
      (omega (arith, redirect_k_size))

parse-printed_example :
    (parse code_wire (request_field code_wire) new_request (request_bytes code_wire connect_k)
      ≡ done connect_k)
    × (parse code_wire
          (request_field code_wire)
          (clear_request connect_k)
          (request_bytes code_wire connect_k)
        ≡ done connect_k)
    × (parse code_wire (response_field code_wire) new_response (response_bytes code_wire redirect_k)
        ≡ done redirect_k)
    × (parse code_wire
          (response_field code_wire)
          (clear_response redirect_k)
          (response_bytes code_wire redirect_k)
        ≡ done redirect_k)
parse-printed_example =
    parse-printed code_wire connect_k connect_k redirect_k redirect_k
      (omega (arith, connect_k_size)) (omega (arith, redirect_k_size))

parse_ends_example :
    (parse code_wire (request_field code_wire) new_request (10 ∷ 107 ∷ 3 ∷ []) ≢ unfinished)
    × (parse code_wire (response_field code_wire) new_response (10 ∷ 107 ∷ 3 ∷ []) ≢ unfinished)
parse_ends_example = parse_ends code_wire (10 ∷ 107 ∷ 3 ∷ [])

read_reqs-printed_example :
    read_reqs
      (parse_request code_wire)
      (λ i. timely)
      3
      (stream (request_bytes code_wire) (connect_k ∷ connect_k ∷ []))
    ≡ some (connect_k ∷ connect_k ∷ record { id = ""; cmd = some ReqCmd.bye } ∷ [], read_failed)
read_reqs-printed_example =
    read_reqs-printed code_wire (connect_k ∷ connect_k ∷ []) 3 (λ i. timely)
      (omega (arith, connect_k_size), (omega (arith, connect_k_size), tt)) (omega arith)
      (λ i le. refl)
