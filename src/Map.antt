-- ===== src/Map.antt =====
-- The std `HashMap<String, V>` of src/udp/server.rs and src/tcp/server.rs. The servers never
-- iterate over a map but by `retain`, whose result does not depend on the order, so a map is the
-- function that `get` computes.
use rndz.Base.{
  String, Option, none, some, ◌≡◌, subst, inl, inr, Bool, arith, str_eq, eq_iff, Bool-cases,
  if◌then◌else◌,
}

abbrev pub Map {ℓ} : Type ℓ → Type ℓ
Map V = String → Option V

module _ {ℓ} {V : Type ℓ} where
  abbrev pub empty : Map V
  empty k = none

  abbrev pub get : Map V → String → Option V
  get m k = m k

  abbrev pub insert : Map V → String → V → Map V
  insert m k v j = if str_eq k j then some v else m j

  abbrev pub remove : Map V → String → Map V
  remove m k j = if str_eq k j then none else m j

  -- the value that `entry(k).or_insert(d)` hands out
  abbrev pub get_or : Option V → V → V
  get_or none d = d
  get_or (some v) d = v

  abbrev pub retain_entry : (V → Bool) → Option V → Option V
  retain_entry keep none = none
  retain_entry keep (some v) = if keep v then some v else none

  abbrev pub retain : (V → Bool) → Map V → Map V
  retain keep m k = retain_entry keep (m k)

  pub get-insert : (m : Map V) (k : String) (v : V) → get (insert m k v) k ≡ some v
  get-insert m k v = ground (arith, eq_iff k k)

-- A property of every value in a map.
abbrev pub AllValues {ℓ κ} : {V : Type ℓ} → (V → Type κ) → Map V → Type (ℓ ⊔ κ)
AllValues {V} P m = (k : String) (v : V) → get m k ≡ some v → P v

module _ {ℓ κ} {V : Type ℓ} (P : V → Type κ) (m : Map V) (all : AllValues P m) where
  pub AllValues-insert : (k : String) (v : V) → P v → AllValues P (insert m k v)
  AllValues-insert k v p j w h = elim (Bool-cases (str_eq k j)) [
    | inl e ↦ let same : v ≡ w = ground arith in subst P same p
    | inr e ↦ all j w (rw e at h)
  ]

  pub AllValues-remove : (k : String) → AllValues P (remove m k)
  AllValues-remove k j w h = all j w (ground arith)

  pub AllValues-retain : (keep : V → Bool) → AllValues P (retain keep m)
  AllValues-retain keep j w h = all j w (ground arith)
