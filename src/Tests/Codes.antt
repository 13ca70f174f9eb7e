-- ===== src/Tests/Codes.antt =====
-- The character of a number, for the wire of the tests.
use Prim.Native.Nat.{Ordering, compare}
use Prim.Native.Char.{Char, char, code, IsLt}
use rndz.Base.{ℕ, ◌≡◌, refl, Option, none, some}

-- `IsScalar`, with its comparisons as arguments.
abbrev IsBelow : Ordering → Ordering → Type 0
IsBelow Ordering.lt above = IsLt above
IsBelow Ordering.eq above = ⊥
IsBelow Ordering.gt above = ⊥

abbrev IsCode : Ordering → Ordering → Ordering → Type 0
IsCode Ordering.lt low high = Unit
IsCode Ordering.eq low high = IsBelow low high
IsCode Ordering.gt low high = IsBelow low high

high_code : (o : Ordering) → (IsLt o → Char) → Option Char
high_code Ordering.lt make = some (make tt)
high_code Ordering.eq make = none
high_code Ordering.gt make = none

low_code : (o p : Ordering) → (IsBelow o p → Char) → Option Char
low_code Ordering.lt p make = high_code p make
low_code Ordering.eq p make = none
low_code Ordering.gt p make = none

any_code : (o p q : Ordering) → (IsCode o p q → Char) → Option Char
any_code Ordering.lt p q make = some (make tt)
any_code Ordering.eq p q make = low_code p q make
any_code Ordering.gt p q make = low_code p q make

high_code-eq : (o : Ordering) (make : IsLt o → Char) (x : IsLt o) → high_code o make ≡ some (make x)
unfolding high_code
high_code-eq Ordering.lt make x = refl
high_code-eq Ordering.eq make x = elim x [ ]
high_code-eq Ordering.gt make x = elim x [ ]

low_code-eq :
    (o p : Ordering) (make : IsBelow o p → Char) (x : IsBelow o p)
    → low_code o p make ≡ some (make x)
unfolding low_code
low_code-eq Ordering.lt p make x = high_code-eq p make x
low_code-eq Ordering.eq p make x = elim x [ ]
low_code-eq Ordering.gt p make x = elim x [ ]

any_code-eq :
    (o p q : Ordering) (make : IsCode o p q → Char) (x : IsCode o p q)
    → any_code o p q make ≡ some (make x)
unfolding any_code
any_code-eq Ordering.lt p q make x = refl
any_code-eq Ordering.eq p q make x = low_code-eq p q make x
any_code-eq Ordering.gt p q make x = low_code-eq p q make x

pub read_code : ℕ → Option Char
read_code n = any_code (compare n 55296) (compare 57343 n) (compare n 1114112) (char n)

pub read_code-code : (c : Char) → read_code (code c) ≡ some c
unfolding read_code
read_code-code (char n x) = any_code-eq _ _ _ (char n) x
