-- ===== src/Tests/Addresses.antt =====
-- A text form of addresses for the tests: each number in strokes.
use Prim.Native.Char.{code}
use Prim.Native.String.{◌∷◌ as cons}
use rndz.Base.{
  ℕ, zero, suc, ◌+◌, String, Option, none, some, ◌≡◌, refl, ◌∙◌, arith, ◌==◌, if◌then◌else◌,
}
use rndz.Net.{SocketAddr, v4, v6, flowinfo, AddrText}

pub strokes : ℕ → String → String
strokes zero rest = cons "." rest
strokes (suc n) rest = cons "|" (strokes n rest)

-- The number of strokes up to a stop, on top of those counted, and the rest.
pub count : ℕ → String → Option (ℕ × String)
count n String.[] = none
count n (String.◌∷◌ c rest) = if code c == b'|' then count (suc n) rest else some (n, rest)

count-strokes : (n m : ℕ) (rest : String) → count n (strokes m rest) ≡ some (m + n, rest)
unfolding count strokes
count-strokes n zero rest = ground arith
count-strokes n (suc m) rest = count-strokes (suc n) m rest ∙ ground arith

unfoldable pub print : SocketAddr → String
print (v4 ip port) = cons "4" (strokes ip (strokes port ""))
print (v6 ip port flow scope) = cons "6" (strokes ip (strokes port (strokes scope "")))

infixl 5 ◌>>=◌
abbrev ◌>>=◌ : {A B : Type 0} → Option A → (A → Option B) → Option B
none >>= f = none
some a >>= f = f a

pub read_v4 : String → Option SocketAddr
read_v4 text = do (ip, rest) ← count 0 text; (port, _) ← count 0 rest; some (v4 ip port)

pub read_v6 : String → Option SocketAddr
read_v6 text = do
  (ip, rest) ← count 0 text
  (port, rest') ← count 0 rest
  (scope, _) ← count 0 rest'
  some (v6 ip port 0 scope)

unfoldable pub read : String → Option SocketAddr
read String.[] = none
read (String.◌∷◌ c rest) = if code c == b'4' then read_v4 rest else read_v6 rest

pub read-print : (a : SocketAddr) → flowinfo a ≡ 0 → read (print a) ≡ some a
unfolding read print read_v4 read_v6
read-print (v4 ip port) h = simp (count-strokes) (ground arith)
read-print (v6 ip port flow scope) h = simp (count-strokes) (ground arith)

unfoldable pub strokes_text : AddrText
unfolding read print read_v4 read_v6 count strokes
strokes_text = record {
  to_string = print;
  parse = read;
  parse-to_string = read-print;
  parse_empty = refl;
}
