-- ===== src/Prelude/Bytes.antt =====
-- Byte slices as lists of numbers, Go strings as their bytes, and encoding/binary's big-endian
-- integers.
use Prim.Native.Nat.{ℕ, zero, suc, ◌+◌, ◌*◌, ◌/◌, ◌%◌, ◌^◌, ◌<◌}
use Prim.Native.Char.{code}
use Prim.Native.String.{String}
use mathlib.Core.Path.{◌≡◌, refl, ap₂, ◌∙◌}
use mathlib.Core.Logic.{◌≢◌, ◌↔◌, ite}
use mathlib.Core.Bool.{Bool, true, false}
use mathlib.Core.List.{List, [], ◌∷◌, ◌++◌}
use native.Mathlib.Omega.{arith}
use native.Mathlib.Nat.{pow-suc}
use native.Mathlib.Decide.{ℕ_discrete}
use session_proxy.Prelude.Lists.{length, length-append, All, All-append}

abbrev pub Byte : Type 0
Byte = ℕ

abbrev pub Bytes : Type 0
Bytes = List Byte

abbrev pub IsByte : ℕ → Type 0
IsByte b = b < 256

abbrev pub codes : String → Bytes
codes String.[] = []
codes (String.◌∷◌ c s) = code c ∷ codes s

pub head_ne : {x y : Byte} {xs ys : Bytes} → x ≢ y → x ∷ xs ≢ y ∷ ys
head_ne n e = n (cc)

pub tail_ne : {x y : Byte} {xs ys : Bytes} → xs ≢ ys → x ∷ xs ≢ y ∷ ys
tail_ne n e = n (cc)

pub cons_ne_nil : {x : Byte} {xs : Bytes} → x ∷ xs ≢ []
cons_ne_nil e = cc

pub nil_ne_cons : {x : Byte} {xs : Bytes} → [] ≢ x ∷ xs
nil_ne_cons e = cc

cons_discrete : {x y : Byte} {xs ys : Bytes} → Dec (x ≡ y) → Dec (xs ≡ ys) → Dec (x ∷ xs ≡ y ∷ ys)
cons_discrete (yes p) (yes q) = yes (ap₂ ◌∷◌ p q)
cons_discrete (yes p) (no n) = no (tail_ne n)
cons_discrete (no n) d = no (head_ne n)

unfoldable pub bytes_discrete : Discrete Bytes
unfolding ℕ_discrete cons_discrete
bytes_discrete [] [] = yes refl
bytes_discrete [] (y ∷ ys) = no nil_ne_cons
bytes_discrete (x ∷ xs) [] = no cons_ne_nil
bytes_discrete (x ∷ xs) (y ∷ ys) = cons_discrete (ℕ_discrete x y) (bytes_discrete xs ys)

-- binary.BigEndian.PutUint of a value of k bytes.
unfoldable pub be : ℕ → ℕ → Bytes
be zero v = []
be (suc k) v = be k (v / 256) ++ (v % 256 ∷ [])

unfoldable pub from_be : ℕ → Bytes → ℕ
from_be acc [] = acc
from_be acc (b ∷ bs) = from_be (acc * 256 + b) bs

pub length-be : (k v : ℕ) → length (be k v) ≡ k
unfolding be
length-be zero v = refl
length-be (suc k) v =
    omega (arith, length-append (be k (v / 256)) (v % 256 ∷ []), length-be k (v / 256))

from_be-append : (acc b : ℕ) (bs : Bytes) → from_be acc (bs ++ (b ∷ [])) ≡ from_be acc bs * 256 + b
unfolding from_be
from_be-append acc b [] = refl
from_be-append acc b (c ∷ bs) = from_be-append (acc * 256 + c) b bs

-- Reading back a value that fits its bytes.
pub from_be-be : (k v : ℕ) → v < 256 ^ k → from_be 0 (be k v) ≡ v
unfolding be from_be
from_be-be zero v h = omega arith
from_be-be (suc k) v h =
    from_be-append 0 (v % 256) (be k (v / 256))
    ∙ omega (arith, from_be-be k (v / 256) (omega (arith, pow-suc 256 k)))

pub be-IsByte : (k v : ℕ) → All IsByte (be k v)
unfolding be
be-IsByte zero v = tt
be-IsByte (suc k) v = All-append IsByte (be k (v / 256)) _ (be-IsByte k (v / 256)) (omega arith, tt)

-- s == "" and a == b on strings
abbrev pub is_nil {ℓ} : {A : Type ℓ} → List A → Bool
is_nil [] = true
is_nil (x ∷ xs) = false

abbrev pub eq_bytes : Bytes → Bytes → Bool
eq_bytes a b = ite (bytes_discrete a b) true false

pub eq_bytes_iff : (a b : Bytes) → (eq_bytes a b ≡ true) ↔ (a ≡ b)
eq_bytes_iff a b = ground arith

pub is_nil_iff {ℓ} : {A : Type ℓ} (xs : List A) → (is_nil xs ≡ true) ↔ (xs ≡ [])
is_nil_iff [] = (λ h. refl, λ h. refl)
is_nil_iff (x ∷ xs) = (λ h. ground (arith, h), λ h. cc)

pub not_nil_iff {ℓ} : {A : Type ℓ} (xs : List A) → (is_nil xs ≡ false) ↔ (xs ≢ [])
not_nil_iff [] = (λ h. ground (arith, h), λ h. absurd (h refl))
not_nil_iff (x ∷ xs) = (λ h e. cc, λ h. refl)
