-- ===== src/Proto/Parser/Ends.antt =====
-- The loop of `merge_from` in src/proto/rndz.rs ends.
use rndz.Base.{
  Bool, true, false, ℕ, zero, suc, ◌≤◌, ◌<◌, String, ◌≡◌, refl, ◌≢◌, Option, none, some, List,
  arith, length, ◌==◌, if◌then◌else◌,
}
use rndz.Proto.{
  Request, Response, new_request, new_response, new_redirect, new_isync, new_fsync, new_rsync,
}
use rndz.Proto.Wire.{Wire, RawTag, bad_tag, eof, raw_tag}
use rndz.Proto.Parser.{
  Merged, unfinished, malformed, done, and_then, string_field, message_field, unknown_field,
  after_tag, merge_from, parse, ping_field, isync_field, rsync_field, redirect_field, fsync_field,
  request_field, response_field,
}

-- A read of a field ends, in an error or with no more bytes than before.
pub data Stops {ℓ} {A : Type ℓ} (n : ℕ) : Merged (A × List ℕ) → Type ℓ where
  fails : Stops n malformed
  goes_on : (m : A) (rest : List ℕ) → length rest ≤ n → Stops n (done (m, rest))

pub data Ended {ℓ} {A : Type ℓ} : Merged A → Type ℓ where
  failed : Ended malformed
  read : (m : A) → Ended (done m)

finished-Ended {ℓ} : {A : Type ℓ} {r : Merged A} → Ended r → r ≢ unfinished
finished-Ended failed e = cc
finished-Ended (read m) e = cc

if-Stops {ℓ} :
    {A : Type ℓ} {n : ℕ} (c : Bool) {r q : Merged (A × List ℕ)}
    → Stops n r
    → Stops n q
    → Stops n (if c then r else q)
if-Stops true a b = a
if-Stops false a b = b

module _ (w : Wire) where
  open w use {
    read_raw_tag_or_eof, read_string, read_delimited, read_unknown_or_skip_group, length-tag,
    length-string, length-delimited, length-skip,
  }

  string_field-Stops {ℓ} :
      {A : Type ℓ} (stream : List ℕ) (set : String → A) (o : Option (String × List ℕ))
      → read_string stream ≡ o
      → Stops (length stream) (string_field o set)
  string_field-Stops stream set none e = fails
  string_field-Stops stream set (some (s, rest)) e =
      goes_on (set s) rest (length-string stream rest s e)

  unknown_field-Stops {ℓ} :
      {A : Type ℓ} (stream : List ℕ) (tag : ℕ) (m : A) (o : Option (List ℕ))
      → read_unknown_or_skip_group tag stream ≡ o
      → Stops (length stream) (unknown_field o m)
  unknown_field-Stops stream tag m none e = fails
  unknown_field-Stops stream tag m (some rest) e = goes_on m rest (length-skip stream rest tag e)

  then-Stops {ℓ κ} :
      {A : Type ℓ} {B : Type κ} (n : ℕ) (r : Merged B) (set : B → A) (rest : List ℕ)
      → Ended r
      → length rest ≤ n
      → Stops n (and_then r λ b. done (set b, rest))
  then-Stops n unfinished set rest e h = elim e [ ]
  then-Stops n malformed set rest failed h = fails
  then-Stops n (done b) set rest (read m) h = goes_on (set b) rest h

  message_field-Stops {ℓ κ} :
      {A : Type ℓ} {B : Type κ} (stream : List ℕ) (inner : List ℕ → Merged B) (set : B → A)
      (o : Option (List ℕ × List ℕ))
      → ((bytes : List ℕ) → Ended (inner bytes))
      → read_delimited stream ≡ o
      → Stops (length stream) (message_field inner o set)
  message_field-Stops stream inner set none ends e = fails
  message_field-Stops stream inner set (some (bytes, rest)) ends e =
      then-Stops (length stream) (inner bytes) set rest (ends bytes)
        (length-delimited stream bytes rest e)

  module _ {ℓ} {A : Type ℓ} (field : A → ℕ → List ℕ → Merged (A × List ℕ))
      (stops : (m : A) (tag : ℕ) (stream : List ℕ)
        → Stops (length stream) (field m tag stream)) where
    after_field :
        (fuel n : ℕ) (r : Merged (A × List ℕ))
        → Stops n r
        → n < fuel
        → ((m : A) (rest : List ℕ) → length rest < fuel → Ended (merge_from w field fuel m rest))
        → Ended (and_then r λ p. merge_from w field fuel p.0 p.1)
    after_field fuel n malformed fails h next = failed
    after_field fuel n _ (goes_on m rest le) h next = next m rest (omega arith)

    after_tag-Ended :
        (fuel : ℕ) (m : A) (stream : List ℕ) (tag : RawTag)
        → read_raw_tag_or_eof stream ≡ tag
        → length stream < suc fuel
        → ((m : A) (rest : List ℕ) → length rest < fuel → Ended (merge_from w field fuel m rest))
        → Ended (
            after_tag w tag m
              λ t rest. and_then (field m t rest) λ p. merge_from w field fuel p.0 p.1)
    after_tag-Ended fuel m stream bad_tag e h next = failed
    after_tag-Ended fuel m stream eof e h next = read m
    after_tag-Ended fuel m stream (raw_tag tag rest) e h next =
        after_field fuel (length rest) (field m tag rest) (stops m tag rest)
          (omega (arith, length-tag stream rest tag e)) next

    merge_from-Ended :
        (fuel : ℕ) (m : A) (stream : List ℕ)
        → length stream < fuel
        → Ended (merge_from w field fuel m stream)
    unfolding merge_from
    merge_from-Ended zero m stream h = absurd (omega arith)
    merge_from-Ended (suc fuel) m stream h =
        after_tag-Ended fuel m stream (read_raw_tag_or_eof stream) refl h (merge_from-Ended fuel)

    parse-Ended : (new : A) (bytes : List ℕ) → Ended (parse w field new bytes)
    parse-Ended new bytes = merge_from-Ended (suc (length bytes)) new bytes (omega arith)

  ping-Ended : (bytes : List ℕ) → Ended (parse w (ping_field w) tt bytes)
  ping-Ended = parse-Ended (ping_field w) (λ m tag s. unknown_field-Stops s tag m _ refl) tt

  isync-Ended : (bytes : List ℕ) → Ended (parse w (isync_field w) new_isync bytes)
  isync-Ended =
      parse-Ended (isync_field w)
        (λ m tag s.
          if-Stops (tag == 10) (string_field-Stops s _ _ refl) (unknown_field-Stops s tag m _ refl))
        new_isync

  rsync-Ended : (bytes : List ℕ) → Ended (parse w (rsync_field w) new_rsync bytes)
  rsync-Ended =
      parse-Ended (rsync_field w)
        (λ m tag s.
          if-Stops (tag == 10) (string_field-Stops s _ _ refl) (unknown_field-Stops s tag m _ refl))
        new_rsync

  redirect-Ended : (bytes : List ℕ) → Ended (parse w (redirect_field w) new_redirect bytes)
  redirect-Ended =
      parse-Ended (redirect_field w)
        (λ m tag s. if-Stops (tag == 10) (string_field-Stops s _ _ refl) (
          if-Stops (tag == 18) (string_field-Stops s _ _ refl)
            (unknown_field-Stops s tag m _ refl)))
        new_redirect

  fsync-Ended : (bytes : List ℕ) → Ended (parse w (fsync_field w) new_fsync bytes)
  fsync-Ended =
      parse-Ended (fsync_field w)
        (λ m tag s. if-Stops (tag == 10) (string_field-Stops s _ _ refl) (
          if-Stops (tag == 18) (string_field-Stops s _ _ refl)
            (unknown_field-Stops s tag m _ refl)))
        new_fsync

  request_field-Stops :
      (m : Request) (tag : ℕ) (s : List ℕ) → Stops (length s) (request_field w m tag s)
  unfolding request_field
  request_field-Stops m tag s = if-Stops (tag == 10) (string_field-Stops s _ _ refl) (
      if-Stops (tag == 18) (message_field-Stops s _ _ _ ping-Ended refl) (
        if-Stops (tag == 26) (message_field-Stops s _ _ _ isync-Ended refl) (
          if-Stops (tag == 34) (message_field-Stops s _ _ _ fsync-Ended refl) (
            if-Stops (tag == 42) (message_field-Stops s _ _ _ rsync-Ended refl) (
              if-Stops (tag == 50) (message_field-Stops s _ _ _ ping-Ended refl)
                (unknown_field-Stops s tag m _ refl))))))

  response_field-Stops :
      (m : Response) (tag : ℕ) (s : List ℕ) → Stops (length s) (response_field w m tag s)
  unfolding response_field
  response_field-Stops m tag s = if-Stops (tag == 10) (string_field-Stops s _ _ refl) (
      if-Stops (tag == 18) (message_field-Stops s _ _ _ ping-Ended refl) (
        if-Stops (tag == 26) (message_field-Stops s _ _ _ redirect-Ended refl) (
          if-Stops (tag == 34) (message_field-Stops s _ _ _ fsync-Ended refl)
            (unknown_field-Stops s tag m _ refl))))

  -- On any bytes whatever, the parsers of requests and of responses end, nested messages included: the
  -- fuel, one more than there are bytes, is enough, and the result is a message or an error.
  pub parse_ends :
      (bytes : List ℕ)
      → (parse w (request_field w) new_request bytes ≢ unfinished)
        × (parse w (response_field w) new_response bytes ≢ unfinished)
  parse_ends bytes = (
    finished-Ended (parse-Ended (request_field w) request_field-Stops new_request bytes),
    finished-Ended (parse-Ended (response_field w) response_field-Stops new_response bytes),
  )
