-- ===== src/Base/Lists.antt =====
-- Arrays and spans as lists, measured and indexed by native numbers.
use Prim.Native.Nat.{ℕ, zero, suc, ◌+◌, ◌-◌, ◌≤◌, ◌<◌, min}
use mathlib.Core.Path.{◌≡◌, refl, ap, sym, ◌∙◌}
use mathlib.Core.Logic.{◌≢◌}
use mathlib.Core.List.{List, [], ◌∷◌, ◌++◌, append_assoc}
use native.Mathlib.Omega.{arith}

module _ {ℓ} {A : Type ℓ} where
  abbrev pub length : List A → ℕ
  length [] = 0
  length (x ∷ xs) = suc (length xs)

  abbrev pub get_or : List A → ℕ → A → A
  get_or [] i d = d
  get_or (x ∷ xs) zero d = x
  get_or (x ∷ xs) (suc i) d = get_or xs i d

  -- A write out of bounds changes nothing.
  abbrev pub set : List A → ℕ → A → List A
  set [] i v = []
  set (x ∷ xs) zero v = v ∷ xs
  set (x ∷ xs) (suc i) v = x ∷ set xs i v

  abbrev pub take : ℕ → List A → List A
  take zero xs = []
  take (suc n) [] = []
  take (suc n) (x ∷ xs) = x ∷ take n xs

  abbrev pub drop : ℕ → List A → List A
  drop zero xs = xs
  drop (suc n) [] = []
  drop (suc n) (x ∷ xs) = drop n xs

  abbrev pub replicate : ℕ → A → List A
  replicate zero a = []
  replicate (suc n) a = a ∷ replicate n a

  -- Every element satisfies the predicate.
  abbrev pub All {κ} : (A → Type κ) → List A → Type κ
  All P [] = Unit
  All P (x ∷ xs) = P x × All P xs

module _ {ℓ} {A : Type ℓ} where
  pub length-append : (xs ys : List A) → length (xs ++ ys) ≡ length xs + length ys
  length-append [] ys = omega arith
  length-append (x ∷ xs) ys = omega (arith, length-append xs ys)

  pub length-set : (xs : List A) (i : ℕ) (v : A) → length (set xs i v) ≡ length xs
  length-set [] i v = refl
  length-set (x ∷ xs) zero v = refl
  length-set (x ∷ xs) (suc i) v = ap suc (length-set xs i v)

  pub length-take : (n : ℕ) (xs : List A) → length (take n xs) ≡ min n (length xs)
  length-take zero xs = omega arith
  length-take (suc n) [] = omega arith
  length-take (suc n) (x ∷ xs) = omega (arith, length-take n xs)

  pub length-drop : (n : ℕ) (xs : List A) → length (drop n xs) ≡ length xs - n
  length-drop zero xs = omega arith
  length-drop (suc n) [] = omega arith
  length-drop (suc n) (x ∷ xs) = omega (arith, length-drop n xs)

  pub take-append : (xs ys : List A) → take (length xs) (xs ++ ys) ≡ xs
  take-append [] ys = refl
  take-append (x ∷ xs) ys = ap (◌∷◌ x) (take-append xs ys)

  pub get_or-set_self :
      (xs : List A) (i : ℕ) (v d : A) → i < length xs → get_or (set xs i v) i d ≡ v
  get_or-set_self [] i v d h = absurd (omega arith)
  get_or-set_self (x ∷ xs) zero v d h = refl
  get_or-set_self (x ∷ xs) (suc i) v d h = get_or-set_self xs i v d (omega arith)

  pub get_or-set_ne :
      (xs : List A) (i j : ℕ) (v d : A) → i ≢ j → get_or (set xs i v) j d ≡ get_or xs j d
  get_or-set_ne [] i j v d ne = refl
  get_or-set_ne (x ∷ xs) zero zero v d ne = absurd (ne refl)
  get_or-set_ne (x ∷ xs) zero (suc j) v d ne = refl
  get_or-set_ne (x ∷ xs) (suc i) zero v d ne = refl
  get_or-set_ne (x ∷ xs) (suc i) (suc j) v d ne = get_or-set_ne xs i j v d (λ e. ne (ap suc e))

  pub take-set_le : (n i : ℕ) (xs : List A) (v : A) → n ≤ i → take n (set xs i v) ≡ take n xs
  take-set_le zero i xs v h = refl
  take-set_le (suc n) i [] v h = refl
  take-set_le (suc n) zero (x ∷ xs) v h = absurd (omega arith)
  take-set_le (suc n) (suc i) (x ∷ xs) v h = ap (◌∷◌ x) (take-set_le n i xs v (omega arith))

  pub drop-set_self :
      (i : ℕ) (xs : List A) (v : A) → i < length xs → drop i (set xs i v) ≡ v ∷ drop (suc i) xs
  drop-set_self i [] v h = absurd (omega arith)
  drop-set_self zero (x ∷ xs) v h = refl
  drop-set_self (suc i) (x ∷ xs) v h = drop-set_self i xs v (omega arith)

  pub take_snoc :
      (n : ℕ) (xs ys : List A) (d : A)
      → n < length xs
      → take n xs ++ get_or xs n d ∷ ys ≡ take (suc n) xs ++ ys
  take_snoc n [] ys d h = absurd (omega arith)
  take_snoc zero (x ∷ xs) ys d h = refl
  take_snoc (suc n) (x ∷ xs) ys d h = ap (◌∷◌ x) (take_snoc n xs ys d (omega arith))

  pub take-take-append :
      (n : ℕ) (xs ys : List A) → n ≤ length xs → take n (take n xs ++ ys) ≡ take n xs
  take-take-append zero xs ys h = refl
  take-take-append (suc n) [] ys h = absurd (omega arith)
  take-take-append (suc n) (x ∷ xs) ys h = ap (◌∷◌ x) (take-take-append n xs ys (omega arith))

  -- A write at the end of a prefix replaces the entry behind it.
  pub set-append :
      (before rest : List A) (x v : A)
      → set (before ++ x ∷ rest) (length before) v ≡ before ++ v ∷ rest
  set-append [] rest x v = refl
  set-append (b ∷ before) rest x v = ap (◌∷◌ b) (set-append before rest x v)

  pub get_or-append :
      (before rest : List A) (x d : A) → get_or (before ++ x ∷ rest) (length before) d ≡ x
  get_or-append [] rest x d = refl
  get_or-append (b ∷ before) rest x d = get_or-append before rest x d

  pub set-set-append :
      (before rest : List A) (x y v w : A)
      → set (set (before ++ x ∷ y ∷ rest) (length before) v) (suc (length before)) w
        ≡ before ++ v ∷ w ∷ rest
  set-set-append [] rest x y v w = refl
  set-set-append (b ∷ before) rest x y v w = ap (◌∷◌ b) (set-set-append before rest x y v w)

  pub get_or-append_suc :
      (before rest : List A) (x y d : A)
      → get_or (before ++ x ∷ y ∷ rest) (suc (length before)) d ≡ y
  get_or-append_suc [] rest x y d = refl
  get_or-append_suc (b ∷ before) rest x y d = get_or-append_suc before rest x y d

  pub drop-cons :
      (n : ℕ) (xs : List A) (d : A) → n < length xs → drop n xs ≡ get_or xs n d ∷ drop (suc n) xs
  drop-cons n [] d h = absurd (omega arith)
  drop-cons zero (x ∷ xs) d h = refl
  drop-cons (suc n) (x ∷ xs) d h = drop-cons n xs d (omega arith)

module _ {ℓ} {A : Type ℓ} where
  -- The entries one after another from place `i` on.
  abbrev pub store : ℕ → List A → List A → List A
  store i [] output = output
  store i (v ∷ vs) output = store (i + 1) vs (set output i v)

  pub length-replicate : (n : ℕ) (x : A) → length (replicate n x) ≡ n
  length-replicate zero x = refl
  length-replicate (suc n) x = omega (arith, length-replicate n x)

  pub length-store : (i : ℕ) (vs output : List A) → length (store i vs output) ≡ length output
  length-store i [] output = refl
  length-store i (v ∷ vs) output = length-store (i + 1) vs (set output i v) ∙ length-set output i v

  pub store_lem :
      (vs before output : List A) (i : ℕ)
      → i ≡ length before
      → length vs ≤ length output
      → store i vs (before ++ output) ≡ before ++ (vs ++ drop (length vs) output)
  store_lem [] before output i e h = refl
  store_lem (v ∷ vs) before [] i e h = absurd (omega arith)
  store_lem (v ∷ vs) before (x ∷ output) i e h =
      rw (e, set-append before output x v)
        (ap (store (length before + 1) vs) (sym (append_assoc before (v ∷ []) output))
          ∙ store_lem vs (before ++ v ∷ []) output (length before + 1)
              (omega (arith, length-append before (v ∷ []))) (omega arith)
          ∙ append_assoc before (v ∷ []) (vs ++ drop (length vs) output))

  pub take-append_suc :
      (before rest : List A) (x : A)
      → take (suc (length before)) (before ++ x ∷ rest) ≡ before ++ x ∷ []
  take-append_suc [] rest x = refl
  take-append_suc (b ∷ before) rest x = ap (◌∷◌ b) (take-append_suc before rest x)

-- A prefix filled up to a length.
module _ {ℓ} {A : Type ℓ} where
  take-replicate : (n m : ℕ) (x : A) → n ≤ m → take n (replicate m x) ≡ replicate n x
  take-replicate zero m x h = refl
  take-replicate (suc n) zero x h = absurd (omega arith)
  take-replicate (suc n) (suc m) x h = ap (◌∷◌ x) (take-replicate n m x (omega arith))

  pub take-padded :
      (n m k : ℕ) (xs : List A) (x : A)
      → n ≤ m
      → k ≤ length xs
      → take n (take k xs ++ replicate m x) ≡ take (min k n) xs ++ replicate (n - min k n) x
  take-padded zero m k xs x h e = let none : min k 0 ≡ 0 = omega arith in rw none refl
  take-padded (suc n) m zero xs x h e =
      let none : min 0 (suc n) ≡ 0 = omega arith in
      let all : suc n - 0 ≡ suc n = omega arith in rw (none, all) (take-replicate (suc n) m x h)
  take-padded (suc n) m (suc k) [] x h e = absurd (omega arith)
  take-padded (suc n) m (suc k) (y ∷ ys) x h e =
      let both : min (suc k) (suc n) ≡ suc (min k n) = omega arith in
      let rest : suc n - suc (min k n) ≡ n - min k n = omega arith in
      rw (both, rest) (ap (◌∷◌ y) (take-padded n m k ys x (omega arith) (omega arith)))

module _ {ℓ κ} {A : Type ℓ} (P : A → Type κ) where
  pub All-append : (xs ys : List A) → All P xs → All P ys → All P (xs ++ ys)
  All-append [] ys h k = k
  All-append (x ∷ xs) ys h k = (h.0, All-append xs ys h.1 k)

  pub All-take : (n : ℕ) (xs : List A) → All P xs → All P (take n xs)
  All-take zero xs h = tt
  All-take (suc n) [] h = tt
  All-take (suc n) (x ∷ xs) h = (h.0, All-take n xs h.1)

  pub All-set : (xs : List A) (i : ℕ) (v : A) → All P xs → P v → All P (set xs i v)
  All-set [] i v h p = tt
  All-set (x ∷ xs) zero v h p = (p, h.1)
  All-set (x ∷ xs) (suc i) v h p = (h.0, All-set xs i v h.1 p)
