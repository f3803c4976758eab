-- ===== src/Correlation/Build/Bounds.antt =====
-- The least and the greatest of some numbers, and tests before an error.
use sentinel_osint.Common.{
  ℕ, ◌≤◌, Bool, true, false, Option, none, some, List, [], ◌∷◌, map, if◌then◌else◌, nat_eq, Result,
  ok, err, ◌≡◌, refl, arith, All, All-map,
}
use sentinel_osint.Correlation.Build.{or_least, or_greatest, least, greatest}

-- The least and the greatest of some numbers bound them all.
pub least-none : (P : ℕ → Type 0) (ns : List ℕ) → least ns ≡ none → All P ns
least-none P [] h = tt
least-none P (n ∷ ns) h = absurd (never n (least ns) h)
  where
    never : (n : ℕ) (o : Option ℕ) → or_least n o ≡ none → ⊥
    never n none e = cc
    never n (some m) e = cc

pub greatest-none : (P : ℕ → Type 0) (ns : List ℕ) → greatest ns ≡ none → All P ns
greatest-none P [] h = tt
greatest-none P (n ∷ ns) h = absurd (never n (greatest ns) h)
  where
    never : (n : ℕ) (o : Option ℕ) → or_greatest n o ≡ none → ⊥
    never n none e = cc
    never n (some m) e = cc

some_eq : {A : Type 0} {a b : A} → some a ≡ some b → a ≡ b
some_eq h = cc

pub least-le : (ns : List ℕ) (m : ℕ) → least ns ≡ some m → All (λ n. m ≤ n) ns
least-le [] m h = cc
least-le (n ∷ ns) m h = at_rest (least ns) refl h (least-le ns)
  where
    at_rest :
        (o : Option ℕ)
        → least ns ≡ o
        → or_least n o ≡ some m
        → ((k : ℕ) → least ns ≡ some k → All (λ i. k ≤ i) ns)
        → (m ≤ n) × All (λ i. m ≤ i) ns
    at_rest none e g later = (omega (arith, some_eq g), least-none (λ i. m ≤ i) ns e)
    at_rest (some k) e g later = (
      omega (arith, some_eq g),
      All-map (λ i. k ≤ i) (λ i. m ≤ i) (λ i q. omega (arith, some_eq g)) ns (later k e),
    )

pub greatest-le : (ns : List ℕ) (m : ℕ) → greatest ns ≡ some m → All (λ n. n ≤ m) ns
greatest-le [] m h = cc
greatest-le (n ∷ ns) m h = at_rest (greatest ns) refl h (greatest-le ns)
  where
    at_rest :
        (o : Option ℕ)
        → greatest ns ≡ o
        → or_greatest n o ≡ some m
        → ((k : ℕ) → greatest ns ≡ some k → All (λ i. i ≤ k) ns)
        → (n ≤ m) × All (λ i. i ≤ m) ns
    at_rest none e g later = (omega (arith, some_eq g), greatest-none (λ i. i ≤ m) ns e)
    at_rest (some k) e g later = (
      omega (arith, some_eq g),
      All-map (λ i. i ≤ k) (λ i. i ≤ m) (λ i q. omega (arith, some_eq g)) ns (later k e),
    )

pub All-of_map :
    {A : Type 0} (f : A → ℕ) (P : ℕ → Type 0) (xs : List A)
    → All P (map f xs)
    → All (λ x. P (f x)) xs
All-of_map f P [] h = tt
All-of_map f P (x ∷ xs) (p, h) = (p, All-of_map f P xs h)

pub All-both :
    {A : Type 0} (P Q : A → Type 0) (xs : List A) → All P xs → All Q xs → All (λ x. P x × Q x) xs
All-both P Q [] h k = tt
All-both P Q (x ∷ xs) (p, h) (q, k) = ((p, q), All-both P Q xs h k)

-- A test before an error.
pub if_err :
    {E A : Type 0} (b : Bool) (why : E) (rest : Result E A) {a : A}
    → (if b then err why else rest) ≡ ok a
    → (b ≡ false) × (rest ≡ ok a)
if_err true why rest h = absurd (no_error h)
  where
    no_error : {E A : Type 0} {why : E} {a : A} → ◌≡◌ {A = Result E A} (err why) (ok a) → ⊥
    no_error e = cc
if_err false why rest h = (refl, h)

abbrev pub is_ok : {E A : Type 0} → Result E A → Bool
is_ok (ok a) = true
is_ok (err e) = false
