-- ===== src/Device/Completion/Extends.antt =====
-- The candidates and what replaces the token begin with the token
-- (apps/sidewired/src/completion.rs).
use side_wire_kernel_su.Base.{
  ℕ, ◌≡◌, refl, sym, ap, ◌∙◌, subst, Bool, true, ◌||◌, List, [], ◌∷◌, ◌++◌, append-nil, ltb, ◌==◌,
  bytes_eq, branch_intro, length, All, arith,
}
use side_wire_kernel_su.Device.Completion.{starts_with}
use side_wire_kernel_su.Device.Completion.Boundary.{byte_len}
use side_wire_kernel_su.Device.Completion.Prefix.{common_completion_prefix-longest}
use side_wire_kernel_su.Device.Completion.Path.{
  text_leb, insert_sorted, sort_unstable, dedup_after, dedup, replacement_of,
}

-- The text begins with what was typed.
abbrev pub Extends : List ℕ → List ℕ → Type 0
Extends typed text = (more : List ℕ) × (text ≡ typed ++ more)

pub Extends-starts_with : (text typed : List ℕ) → starts_with text typed ≡ true → Extends typed text
Extends-starts_with text [] h = (text, refl)
Extends-starts_with [] (c ∷ cs) h = cc
Extends-starts_with (d ∷ ds) (c ∷ cs) h =
    branch_intro (λ (b : Bool). b ≡ true → Extends (c ∷ cs) (d ∷ ds)) (d == c)
      (λ same rest.
        (let (more, e) = Extends-starts_with ds cs rest in
          let first : d ≡ c = ground arith in (more, ap (λ x. x ∷ ds) first ∙ ap (λ t. c ∷ t) e)))
      (λ other wrong. cc) h

starts_with-append : (typed more : List ℕ) → starts_with (typed ++ more) typed ≡ true
starts_with-append [] more = refl
starts_with-append (c ∷ cs) more = ground (arith, starts_with-append cs more)

starts_with-Extends : (text typed : List ℕ) → Extends typed text → starts_with text typed ≡ true
starts_with-Extends text typed (more, e) =
    subst (λ t. starts_with t typed ≡ true) (sym e) (starts_with-append typed more)

insert_sorted-Extends :
    (typed t : List ℕ) (ts : List (List ℕ))
    → Extends typed t
    → All (Extends typed) ts
    → All (Extends typed) (insert_sorted t ts)
insert_sorted-Extends typed t [] h hs = (h, tt)
insert_sorted-Extends typed t (u ∷ us) h (k, ks) =
    branch_intro (All (Extends typed)) (text_leb t u) (λ _. (h, (k, ks)))
      (λ _. (k, insert_sorted-Extends typed t us h ks))

pub sort_unstable-Extends :
    (typed : List ℕ) (ts : List (List ℕ))
    → All (Extends typed) ts
    → All (Extends typed) (sort_unstable ts)
sort_unstable-Extends typed [] h = tt
sort_unstable-Extends typed (t ∷ ts) (h, hs) =
    insert_sorted-Extends typed t (sort_unstable ts) h (sort_unstable-Extends typed ts hs)

dedup_after-Extends :
    (typed t : List ℕ) (ts : List (List ℕ))
    → All (Extends typed) ts
    → All (Extends typed) (dedup_after t ts)
dedup_after-Extends typed t [] h = tt
dedup_after-Extends typed t (u ∷ us) (h, hs) =
    branch_intro (All (Extends typed)) (bytes_eq t u) (λ _. dedup_after-Extends typed u us hs)
      (λ _. (h, dedup_after-Extends typed u us hs))

pub dedup-Extends :
    (typed : List ℕ) (ts : List (List ℕ)) → All (Extends typed) ts → All (Extends typed) (dedup ts)
dedup-Extends typed [] h = tt
dedup-Extends typed (t ∷ ts) (h, hs) = (h, dedup_after-Extends typed t ts hs)

starts_with-All :
    (typed : List ℕ) (ts : List (List ℕ))
    → All (Extends typed) ts
    → All (λ t. starts_with t typed ≡ true) ts
starts_with-All typed [] h = tt
starts_with-All typed (t ∷ ts) (h, hs) =
    (starts_with-Extends t typed h, starts_with-All typed ts hs)

pub replacement_of-Extends :
    (typed : List ℕ) (ts : List (List ℕ))
    → All (Extends typed) ts
    → Extends typed (replacement_of typed ts)
replacement_of-Extends typed [] h = ([], sym (append-nil typed))
replacement_of-Extends typed (first ∷ values) h =
    branch_intro (Extends typed) (length values == 0 || ltb (byte_len typed) _)
      (λ _. Extends-starts_with _ typed (
        common_completion_prefix-longest first values typed
          (starts_with-All typed (first ∷ values) h)))
      (λ _. ([], sym (append-nil typed)))
