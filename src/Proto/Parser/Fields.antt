-- ===== src/Proto/Parser/Fields.antt =====
-- What the loop of `merge_from` makes of a field that src/proto/rndz.rs wrote.
use mathlib.Core.List.{append-nil}
use rndz.Base.{
  ℕ, zero, suc, ◌^◌, ◌<◌, String, ◌≡◌, refl, sym, ◌∙◌, ap, subst, inl, inr, some, List, [], ◌++◌,
  arith, length, str_eq, eq_iff, Bool-cases,
}
use rndz.Proto.Wire.{Wire, tag_of, raw_tag}
use rndz.Proto.Parser.{Merged, done, merge_from, parse, string_field, message_field}
use rndz.Proto.Printer.{cached, string_bytes, string_part}
use rndz.Proto.Printer.Sizes.{cached-eq}

module _ (w : Wire) where
  open w use {
    write_string, write_message_field, read_raw_tag_or_eof, read_string, read_delimited, read_eof,
    read_back_string, read_back_message, length-write_string, length-tag, length-string,
    length-delimited,
  }

  -- The parser makes `r` of this stream, on more fuel than the stream has bytes.
  abbrev pub Merges {ℓ} :
      {A : Type ℓ} → (A → ℕ → List ℕ → Merged (A × List ℕ)) → A → List ℕ → A → Type ℓ
  Merges field m stream r =
      (fuel : ℕ) → length stream < fuel → merge_from w field fuel m stream ≡ done r

  module _ {ℓ} {A : Type ℓ} (field : A → ℕ → List ℕ → Merged (A × List ℕ)) where
    pub nil-Merges : (m : A) → Merges field m [] m
    unfolding merge_from
    nil-Merges m zero h = absurd (omega arith)
    nil-Merges m (suc fuel) h = rw read_eof refl

    -- One round of the loop.
    merge_from-field :
        (fuel tag : ℕ) (m m' : A) (stream mid rest : List ℕ)
        → read_raw_tag_or_eof stream ≡ raw_tag tag mid
        → field m tag mid ≡ done (m', rest)
        → merge_from w field (suc fuel) m stream ≡ merge_from w field fuel m' rest
    unfolding merge_from
    merge_from-field fuel tag m m' stream mid rest e f = rw e (rw f refl)

    written_string-Merges :
        (n : ℕ) (s : String) (set : String → A) (m r : A) (rest : List ℕ)
        → 0 < n
        → n < 16
        → length (write_string n s) < 2 ^ 32
        → ((mid : List ℕ) → field m (tag_of n) mid ≡ string_field (read_string mid) set)
        → Merges field (set s) rest r
        → Merges field m (write_string n s ++ rest) r
    written_string-Merges n s set m r rest pos low small sets next zero h = absurd (omega arith)
    written_string-Merges n s set m r rest pos low small sets next (suc fuel) h =
        let (mid, e, f) = read_back_string n s rest pos low small in
        merge_from-field fuel (tag_of n) m (set s) _ mid rest e
          (sets mid ∙ ap (λ o. string_field o set) f)
        ∙ next fuel (omega (arith, length-tag _ mid (tag_of n) e, length-string mid rest s f))

    -- A message field in front of a stream.
    pub message-Merges {κ} :
        {B : Type κ} (n size : ℕ) (bytes : List ℕ) (inner : List ℕ → Merged B) (b : B) (set : B → A)
        (m r : A) (rest : List ℕ)
        → 0 < n
        → n < 16
        → length bytes ≡ size
        → size < 2 ^ 32
        → ((mid : List ℕ) → field m (tag_of n) mid ≡ message_field inner (read_delimited mid) set)
        → inner bytes ≡ done b
        → Merges field (set b) rest r
        → Merges field m (write_message_field n (cached size) bytes ++ rest) r
    message-Merges n size bytes inner b set m r rest pos low same small sets read next zero h =
        absurd (omega arith)
    message-Merges n size bytes inner b set m r rest pos low same small sets read next (suc fuel)
          h =
        let e0 : cached size ≡ length bytes = cached-eq w size bytes same small in
        let stream = write_message_field n (cached size) bytes ++ rest in
        let (mid, e', f) = read_back_message n bytes rest pos low (omega arith) in
        let e : read_raw_tag_or_eof stream ≡ raw_tag (tag_of n) mid =
          ap (λ c. read_raw_tag_or_eof (write_message_field n c bytes ++ rest)) e0 ∙ e' in
        merge_from-field fuel (tag_of n) m (set b) stream mid rest e (
          sets mid
          ∙ ap (λ o. message_field inner o set) f
          ∙ ap (λ x. message_field (λ _. x) (some (bytes, rest)) set) read)
        ∙ next fuel
            (omega (arith, length-tag stream mid (tag_of n) e, length-delimited mid bytes rest f))

    -- A string field in front of a stream, if it is not left out.
    pub string_bytes-Merges :
        (n : ℕ) (s : String) (set : String → A) (m r : A) (rest : List ℕ)
        → 0 < n
        → n < 16
        → string_part w n s < 2 ^ 32
        → ((mid : List ℕ) → field m (tag_of n) mid ≡ string_field (read_string mid) set)
        → set "" ≡ m
        → Merges field (set s) rest r
        → Merges field m (string_bytes w n s ++ rest) r
    string_bytes-Merges n s set m r rest pos low small sets default next fuel h =
        elim (Bool-cases (str_eq s "")) [
          | inl e ↦
              let same : set s ≡ m = ap set ((eq_iff s "").0 e) ∙ default in
              let none_ : string_bytes w n s ≡ [] = ground arith in
              subst (λ x. Merges field x (string_bytes w n s ++ rest) r) same
                (subst (λ x. Merges field (set s) (x ++ rest) r) (sym none_) next) fuel h
          | inr e ↦
              let some_ : string_bytes w n s ≡ write_string n s = ground arith in
              let fits : length (write_string n s) < 2 ^ 32 =
                ground (arith, length-write_string n s) in
              subst (λ x. Merges field m (x ++ rest) r) (sym some_)
                (written_string-Merges n s set m r rest pos low fits sets next) fuel h
        ]

  pub parse_whole {ℓ} :
      {A : Type ℓ} (field : A → ℕ → List ℕ → Merged (A × List ℕ)) (new r : A) (bytes : List ℕ)
      → Merges field new (bytes ++ []) r
      → parse w field new bytes ≡ done r
  parse_whole field new r bytes next =
      subst (λ x. Merges field new x r) (append-nil bytes) next (suc (length bytes)) (omega arith)
