-- ===== src/Device/Completion/Cut.antt =====
-- Cuts of a text at a position in bytes: before the cursor and at the start of the token
-- (apps/sidewired/src/completion.rs).
use side_wire_kernel_su.Base.{
  ℕ, ◌+◌, ◌-◌, ◌≤◌, ◌<◌, ◌≡◌, refl, sym, ap, ◌∙◌, subst, true, false, List, [], ◌∷◌, ◌++◌, leb,
  branch_intro, arith,
}
use side_wire_kernel_su.Device.Completion.{len_utf8}
use side_wire_kernel_su.Device.Completion.Boundary.{Boundary, byte_len}
use side_wire_kernel_su.Device.Completion.Path.{cut}
use side_wire_kernel_su.Device.Completion.Token.{IsToken, TokenAt}

leb-fits : (a b : ℕ) → leb a b ≡ true → a ≤ b
leb-fits a b h = ground arith

pub cut-whole : (n : ℕ) (text : List ℕ) → (cut n text).0 ++ (cut n text).1 ≡ text
unfolding cut
cut-whole n [] = refl
cut-whole n (c ∷ cs) =
    branch_intro (λ (x : List ℕ × List ℕ). x.0 ++ x.1 ≡ c ∷ cs) (leb (len_utf8 c) n)
      (λ _. ap (λ t. c ∷ t) (cut-whole (n - len_utf8 c) cs)) (λ _. refl)

-- The characters before the cursor: as many whole ones as its bytes hold.
abbrev pub UpTo : ℕ → List ℕ → List ℕ → Type 0
UpTo cursor front [] = byte_len front ≤ cursor
UpTo cursor front (c ∷ cs) = (byte_len front ≤ cursor) × (cursor < byte_len front + len_utf8 c)

UpTo-behind :
    (n c : ℕ) (front after : List ℕ)
    → len_utf8 c ≤ n
    → UpTo (n - len_utf8 c) front after
    → UpTo n (c ∷ front) after
UpTo-behind n c front [] fits small = omega (arith, fits, small)
UpTo-behind n c front (d ∷ ds) fits (small, full) =
    (omega (arith, fits, small), omega (arith, fits, full))

pub cut-UpTo : (n : ℕ) (text : List ℕ) → UpTo n (cut n text).0 (cut n text).1
unfolding cut
cut-UpTo n [] = omega arith
cut-UpTo n (c ∷ cs) =
    branch_intro (λ (x : List ℕ × List ℕ). UpTo n x.0 x.1) (leb (len_utf8 c) n)
      (λ fits. UpTo-behind n c _ _ (leb-fits (len_utf8 c) n fits) (cut-UpTo (n - len_utf8 c) cs))
      (λ short. (omega arith, ground arith))

len_utf8_pos : (c : ℕ) → 0 < len_utf8 c
len_utf8_pos c = ground arith

-- A cut where a character begins is exact.
cut-append : (front back : List ℕ) → cut (byte_len front) (front ++ back) ≡ (front, back)
unfolding cut
cut-append [] [] = refl
cut-append [] (c ∷ cs) =
    let none_fits : leb (len_utf8 c) 0 ≡ false = ground (arith, len_utf8_pos c) in rw none_fits refl
cut-append (c ∷ front) back =
    let fits : leb (len_utf8 c) (len_utf8 c + byte_len front) ≡ true = ground arith in
    let left : len_utf8 c + byte_len front - len_utf8 c ≡ byte_len front = omega arith in
    rw (fits, left, cut-append front back) refl

pub cut-Boundary : (text : List ℕ) (n : ℕ) → Boundary text n → byte_len (cut n text).0 ≡ n
cut-Boundary text n (front, back, e, size) =
    subst (λ k. byte_len (cut k text).0 ≡ k) size
      (subst (λ t. byte_len (cut (byte_len front) t).0 ≡ byte_len front) (sym e)
        (ap (λ (x : List ℕ × List ℕ). byte_len x.0) (cut-append front back)))

-- The cut at its start takes the token off.
pub cut-TokenAt : (text : List ℕ) (n : ℕ) → TokenAt text n → IsToken (cut n text).0 (cut n text).1
cut-TokenAt text n (front, back, e, size, token) =
    let at_front : cut n text ≡ (front, back) =
      ap (λ k. cut k text) (sym size) ∙ ap (cut (byte_len front)) e ∙ cut-append front back in
    subst (λ (x : List ℕ × List ℕ). IsToken x.0 x.1) (sym at_front) token
