-- ===== src/Device/Completion/Token.antt =====
-- What the token before the cursor is (apps/sidewired/src/completion.rs).
use side_wire_kernel_su.Base.{
  ℕ, ◌≡◌, refl, true, false, Option, none, some, List, [], ◌∷◌, ◌++◌, ◌==◌, if◌then◌else◌,
}
use side_wire_kernel_su.Device.Completion.{is_quote, ends_token}
use side_wire_kernel_su.Device.Completion.Boundary.{byte_len}

-- The quote that is open after a text.
abbrev pub next_quote : Option ℕ → ℕ → Option ℕ
next_quote (some active) c = if c == active then none else some active
next_quote none c = if is_quote c then some c else none

abbrev pub quote_after : Option ℕ → List ℕ → Option ℕ
quote_after quote [] = quote
quote_after quote (c ∷ cs) = quote_after (next_quote quote c) cs

-- Outside of quotes the character separates no tokens.
abbrev pub Joins : Option ℕ → ℕ → Type 0
Joins (some active) c = Unit
Joins none c = ends_token c ≡ false

abbrev pub IsWord : Option ℕ → List ℕ → Type 0
IsWord quote [] = Unit
IsWord quote (c ∷ cs) = Joins quote c × IsWord (next_quote quote c) cs

-- Outside of quotes the text does not begin with a quote.
abbrev pub NoQuoteFirst : Option ℕ → List ℕ → Type 0
NoQuoteFirst none (c ∷ cs) = is_quote c ≡ false
NoQuoteFirst _ _ = Unit

-- A token may begin behind the text: outside of quotes, at the start, behind a character that
-- separates tokens, or behind a quote that stands where a token may begin.
pub data EndsToken : List ℕ → Type 0 where
  at_start : EndsToken []
  behind_separator :
      (front : List ℕ) (c : ℕ)
      → quote_after none front ≡ none
      → ends_token c ≡ true
      → EndsToken (front ++ (c ∷ []))
  behind_quote :
      (front : List ℕ) (c : ℕ)
      → EndsToken front
      → quote_after none front ≡ none
      → is_quote c ≡ true
      → EndsToken (front ++ (c ∷ []))

-- `typed` is the whole token before the cursor: it begins where a token may begin, not with a quote,
-- and no character of it separates tokens, but in quotes.
pub record IsToken (before typed : List ℕ) : Type 0 where
  pub begins : EndsToken before
  pub word : IsWord (quote_after none before) typed
  pub unquoted : NoQuoteFirst (quote_after none before) typed

-- A text with its token, which begins at a position.
abbrev pub TokenAt : List ℕ → ℕ → Type 0
TokenAt text start =
    (before : List ℕ) × (typed : List ℕ) × (text ≡ before ++ typed)
    × (byte_len before ≡ start)
    × IsToken before typed

pub quote_after-append :
    (q : Option ℕ) (xs ys : List ℕ) → quote_after q (xs ++ ys) ≡ quote_after (quote_after q xs) ys
quote_after-append q [] ys = refl
quote_after-append q (x ∷ xs) ys = quote_after-append (next_quote q x) xs ys

pub IsWord-append :
    (q : Option ℕ) (xs : List ℕ) (c : ℕ)
    → IsWord q xs
    → Joins (quote_after q xs) c
    → IsWord q (xs ++ (c ∷ []))
IsWord-append q [] c w j = (j, tt)
IsWord-append q (x ∷ xs) c (here, w) j = (here, IsWord-append (next_quote q x) xs c w j)

pub NoQuoteFirst-nil : (q : Option ℕ) → NoQuoteFirst q []
NoQuoteFirst-nil none = tt
NoQuoteFirst-nil (some a) = tt

pub NoQuoteFirst-append :
    (q : Option ℕ) (xs : List ℕ) (c : ℕ)
    → NoQuoteFirst q xs
    → (xs ≡ [] → NoQuoteFirst q (c ∷ []))
    → NoQuoteFirst q (xs ++ (c ∷ []))
NoQuoteFirst-append q [] c h first = first refl
NoQuoteFirst-append none (x ∷ xs) c h first = h
NoQuoteFirst-append (some a) (x ∷ xs) c h first = tt
