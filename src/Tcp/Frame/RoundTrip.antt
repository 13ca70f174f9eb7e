-- ===== src/Tcp/Frame/RoundTrip.antt =====
-- A framed message is read back.
use native.Mathlib.Nat.{le_refl}
use rndz.Base.{
  ℕ, zero, suc, ◌^◌, ◌≤◌, ◌<◌, ◌≡◌, refl, ◌∙◌, ap, Option, List, [], ◌∷◌, ◌++◌, arith, ltb, length,
  take, drop, length-append, Bool-cases, inl, inr, if◌then◌else◌,
}
use rndz.Tcp.Frame.{
  ok, err, invalid_size, frame, read_exact, read_size, parsed, as_u16, read_resp, read_req,
}

take-append : (n : ℕ) (xs ys : List ℕ) → n ≤ length xs → take n (xs ++ ys) ≡ take n xs
take-append zero xs ys h = refl
take-append (suc n) [] ys h = absurd (omega arith)
take-append (suc n) (x ∷ xs) ys h = ap (◌∷◌ x) (take-append n xs ys (omega arith))

drop-append : (n : ℕ) (xs ys : List ℕ) → n ≤ length xs → drop n (xs ++ ys) ≡ drop n xs ++ ys
drop-append zero xs ys h = refl
drop-append (suc n) [] ys h = absurd (omega arith)
drop-append (suc n) (x ∷ xs) ys h = drop-append n xs ys (omega arith)

take_all : (xs : List ℕ) → take (length xs) xs ≡ xs
take_all [] = refl
take_all (x ∷ xs) = ap (◌∷◌ x) (take_all xs)

drop_all : (xs : List ℕ) → drop (length xs) xs ≡ []
drop_all [] = refl
drop_all (x ∷ xs) = drop_all xs

pub read_exact-append :
    (n : ℕ) (xs ys : List ℕ)
    → n ≤ length xs
    → read_exact n (xs ++ ys) ≡ ok (take n xs, drop n xs ++ ys)
unfolding read_exact
read_exact-append n xs ys h =
    ground (arith, length-append xs ys, take-append n xs ys, drop-append n xs ys)

pub read_size-frame :
    (buf rest : List ℕ) → read_size (frame buf ++ rest) ≡ ok (as_u16 (length buf), buf ++ rest)
unfolding read_size frame read_exact
read_size-frame buf rest = ground arith

module _ {A : Type 0} (parse_from_bytes : List ℕ → Option A) (buf rest : List ℕ) where
  as_u16-le : as_u16 (length buf) ≤ length buf
  as_u16-le = omega arith

  -- What a reader without a limit makes of a framed message, of any length: it parses as many of its
  -- bytes as the length has modulo 2 ^ 16, and goes on in the stream behind these.
  pub read_resp-frame :
      let n = as_u16 (length buf) in
      read_resp parse_from_bytes (frame buf ++ rest)
      ≡ parsed (parse_from_bytes (take n buf)) (drop n buf ++ rest)
  unfolding read_resp
  read_resp-frame =
      rw (read_size-frame buf rest)
        (rw (read_exact-append (as_u16 (length buf)) buf rest as_u16-le))

  -- So a message shorter than 2 ^ 16 bytes is read back whole, and the stream goes on behind it.
  pub read_resp-frame_whole :
      length buf < 2 ^ 16
      → read_resp parse_from_bytes (frame buf ++ rest) ≡ parsed (parse_from_bytes buf) rest
  read_resp-frame_whole h =
      let e : as_u16 (length buf) ≡ length buf = omega arith in
      read_resp-frame ∙ rw (e, take_all buf, drop_all buf)

  -- Of a message shorter than 2 ^ 16 bytes the server's reader takes one of at most 1500 bytes, whole,
  -- and refuses a longer one.
  pub read_req-frame :
      length buf < 2 ^ 16
      → read_req parse_from_bytes (frame buf ++ rest)
        ≡ (if ltb 1500 (length buf) then err invalid_size else parsed (parse_from_bytes buf) rest)
  unfolding read_req
  read_req-frame h =
      let e : as_u16 (length buf) ≡ length buf = omega arith in
      rw (read_size-frame buf rest, e)
        (elim (Bool-cases (ltb 1500 (length buf))) [
          | inl long ↦ rw long
          | inr short ↦ rw (
            short,
            read_exact-append (length buf) buf rest (le_refl _),
            take_all buf,
            drop_all buf,
          )
        ])
