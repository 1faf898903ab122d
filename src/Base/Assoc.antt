-- ===== src/Base/Assoc.antt =====
-- Maps with number keys as association lists, and cells of a list by position.
use Prim.Native.Nat.{ℕ, zero, suc, ◌<◌}
use mathlib.Core.Path.{◌≡◌, refl, ap, subst, sym}
use mathlib.Core.Logic.{◌≢◌, ◌⊎◌, inl, inr}
use mathlib.Core.Bool.{Bool, true, false}
use mathlib.Core.List.{List, [], ◌∷◌, ◌++◌}
use mathlib.Core.Option.{Option, none, some, some-injective}
use native.Mathlib.Omega.{arith}
use side_wire_kernel_su.Base.Tests.{◌==◌, if◌then◌else◌, branch_intro}
use side_wire_kernel_su.Base.Lists.{length, All}

module _ {ℓ} {V : Type ℓ} where
  abbrev pub lookup : ℕ → List (ℕ × V) → Option V
  lookup k [] = none
  lookup k ((j, v) ∷ m) = if j == k then some v else lookup k m

  abbrev pub remove : ℕ → List (ℕ × V) → List (ℕ × V)
  remove k [] = []
  remove k ((j, v) ∷ m) = if j == k then remove k m else (j, v) ∷ remove k m

  -- `insert` replaces what stands under the key.
  abbrev pub insert : ℕ → V → List (ℕ × V) → List (ℕ × V)
  insert k v m = (k, v) ∷ remove k m

  pub lookup-remove :
      (k j : ℕ) (m : List (ℕ × V)) → lookup j (remove k m) ≡ (if k == j then none else lookup j m)
  lookup-remove k j [] = ground arith
  lookup-remove k j ((i, v) ∷ m) = ground (arith, lookup-remove k j m)

  pub lookup-insert :
      (k j : ℕ) (v : V) (m : List (ℕ × V))
      → lookup j (insert k v m) ≡ (if k == j then some v else lookup j m)
  lookup-insert k j v m = ground (arith, lookup-remove k j m)

  -- What a lookup finds stands in the first entry or behind it.
  pub lookup-cases :
      (k j : ℕ) (v x : V) (m : List (ℕ × V))
      → lookup k ((j, v) ∷ m) ≡ some x
      → (v ≡ x) ⊎ (lookup k m ≡ some x)
  lookup-cases k j v x m = go (j == k) (lookup k m)
    where
      go : (b : Bool) (o : Option V) → (if b then some v else o) ≡ some x → (v ≡ x) ⊎ (o ≡ some x)
      go true o h = inl (some-injective v x h)
      go false o h = inr h

  pub lookup-remove_ne : (k j : ℕ) (m : List (ℕ × V)) → k ≢ j → lookup j (remove k m) ≡ lookup j m
  lookup-remove_ne k j m ne = ground (arith, lookup-remove k j m)

  pub lookup-insert_ne :
      (k j : ℕ) (v : V) (m : List (ℕ × V)) → k ≢ j → lookup j (insert k v m) ≡ lookup j m
  lookup-insert_ne k j v m ne = ground (arith, lookup-insert k j v m)

  pub lookup-insert_self : (k : ℕ) (v : V) (m : List (ℕ × V)) → lookup k (insert k v m) ≡ some v
  lookup-insert_self k v m = ground arith

  pub All-remove {κ} :
      (P : (ℕ × V) → Type κ) (k : ℕ) (m : List (ℕ × V)) → All P m → All P (remove k m)
  All-remove P k [] h = tt
  All-remove P k ((j, v) ∷ m) h = ground (arith, All-remove P k m h.1)

  -- What is left after a removal has another key.
  pub All-remove_ne {κ ν} :
      (P : (ℕ × V) → Type κ) (Q : (ℕ × V) → Type ν) (k : ℕ) (m : List (ℕ × V))
      → ((j : ℕ) (v : V) → j ≢ k → P (j, v) → Q (j, v))
      → All P m
      → All Q (remove k m)
  All-remove_ne P Q k [] weaken h = tt
  All-remove_ne P Q k ((j, v) ∷ m) weaken (first, others) =
      branch_intro (λ t. All Q t) (j == k) (λ _. All-remove_ne P Q k m weaken others)
        (λ ne. (weaken j v (λ e. ground arith) first, All-remove_ne P Q k m weaken others))

module _ {ℓ} {A : Type ℓ} where
  abbrev pub get_elem? : List A → ℕ → Option A
  get_elem? [] i = none
  get_elem? (x ∷ xs) zero = some x
  get_elem? (x ∷ xs) (suc i) = get_elem? xs i

  -- A write out of bounds changes nothing.
  abbrev pub set : List A → ℕ → A → List A
  set [] i v = []
  set (x ∷ xs) zero v = v ∷ xs
  set (x ∷ xs) (suc i) v = x ∷ set xs i v

  pub length-set : (xs : List A) (i : ℕ) (v : A) → length (set xs i v) ≡ length xs
  length-set [] i v = refl
  length-set (x ∷ xs) zero v = refl
  length-set (x ∷ xs) (suc i) v = ap suc (length-set xs i v)

  pub get_elem?-set_self :
      (xs : List A) (i : ℕ) (v w : A) → get_elem? xs i ≡ some w → get_elem? (set xs i v) i ≡ some v
  get_elem?-set_self [] i v w h = cc
  get_elem?-set_self (x ∷ xs) zero v w h = refl
  get_elem?-set_self (x ∷ xs) (suc i) v w h = get_elem?-set_self xs i v w h

  pub get_elem?-set_ne :
      (xs : List A) (i j : ℕ) (v : A) → i ≢ j → get_elem? (set xs i v) j ≡ get_elem? xs j
  get_elem?-set_ne [] i j v h = refl
  get_elem?-set_ne (x ∷ xs) zero zero v h = absurd (h refl)
  get_elem?-set_ne (x ∷ xs) zero (suc j) v h = refl
  get_elem?-set_ne (x ∷ xs) (suc i) zero v h = refl
  get_elem?-set_ne (x ∷ xs) (suc i) (suc j) v h = get_elem?-set_ne xs i j v (λ e. h (ap suc e))

  pub All-set {κ} :
      (P : A → Type κ) (xs : List A) (i : ℕ) (v : A) → All P xs → P v → All P (set xs i v)
  All-set P [] i v h p = tt
  All-set P (x ∷ xs) zero v h p = (p, h.1)
  All-set P (x ∷ xs) (suc i) v h p = (h.0, All-set P xs i v h.1 p)

  pub All-get_elem? {κ} :
      (P : A → Type κ) (xs : List A) (i : ℕ) (v : A) → All P xs → get_elem? xs i ≡ some v → P v
  All-get_elem? P [] i v h e = cc
  All-get_elem? P (x ∷ xs) zero v h e = subst P (some-injective x v e) h.0
  All-get_elem? P (x ∷ xs) (suc i) v h e = All-get_elem? P xs i v h.1 e

  -- Cells keep their positions when the list grows.
  pub get_elem?-append :
      (xs ys : List A) (i : ℕ) (v : A) → get_elem? xs i ≡ some v → get_elem? (xs ++ ys) i ≡ some v
  get_elem?-append [] ys i v h = cc
  get_elem?-append (x ∷ xs) ys zero v h = h
  get_elem?-append (x ∷ xs) ys (suc i) v h = get_elem?-append xs ys i v h

  pub get_elem?-append_end : (xs : List A) (v : A) → get_elem? (xs ++ (v ∷ [])) (length xs) ≡ some v
  get_elem?-append_end [] v = refl
  get_elem?-append_end (x ∷ xs) v = get_elem?-append_end xs v

  -- What a cell of the changed list was before.
  pub get_elem?-set-cases :
      (xs : List A) (i k : ℕ) (v u : A)
      → get_elem? (set xs i v) k ≡ some u
      → ((i ≡ k) × (u ≡ v)) ⊎ (i ≢ k × (get_elem? xs k ≡ some u))
  get_elem?-set-cases [] i k v u h = cc
  get_elem?-set-cases (x ∷ xs) zero zero v u h = inl (refl, sym (some-injective v u h))
  get_elem?-set-cases (x ∷ xs) zero (suc k) v u h = inr (λ e. absurd (omega arith), h)
  get_elem?-set-cases (x ∷ xs) (suc i) zero v u h = inr (λ e. absurd (omega arith), h)
  get_elem?-set-cases (x ∷ xs) (suc i) (suc k) v u h = elim (get_elem?-set-cases xs i k v u h) [
    | inl (e, same) ↦ inl (ap suc e, same)
    | inr (ne, old) ↦ inr (λ e. ne (omega arith), old)
  ]

  pub get_elem?-append-cases :
      (xs : List A) (k : ℕ) (v u : A)
      → get_elem? (xs ++ (v ∷ [])) k ≡ some u
      → (get_elem? xs k ≡ some u) ⊎ ((k ≡ length xs) × (u ≡ v))
  get_elem?-append-cases [] zero v u h = inr (refl, sym (some-injective v u h))
  get_elem?-append-cases [] (suc k) v u h = cc
  get_elem?-append-cases (x ∷ xs) zero v u h = inl h
  get_elem?-append-cases (x ∷ xs) (suc k) v u h = elim (get_elem?-append-cases xs k v u h) [
    | inl old ↦ inl old
    | inr (e, same) ↦ inr (ap suc e, same)
  ]

  pub get_elem?-lt : (xs : List A) (k : ℕ) (u : A) → get_elem? xs k ≡ some u → k < length xs
  get_elem?-lt [] k u h = cc
  get_elem?-lt (x ∷ xs) zero u h = omega arith
  get_elem?-lt (x ∷ xs) (suc k) u h = omega (arith, get_elem?-lt xs k u h)
