-- ===== src/Device/Completion/Scan.antt =====
-- The scan for the token before the cursor finds it (apps/sidewired/src/completion.rs).
use side_wire_kernel_su.Base.{
  ℕ, ◌+◌, ◌≡◌, refl, sym, ap, ◌∙◌, subst, true, false, Option, none, some, List, [], ◌∷◌, ◌++◌,
  append_assoc, append-nil, ◌==◌, branch_intro, arith,
}
use side_wire_kernel_su.Device.Completion.{
  len_utf8, is_quote, ends_token, token_scan, completion_token_start,
}
use side_wire_kernel_su.Device.Completion.Boundary.{byte_len, byte_len-append}
use side_wire_kernel_su.Device.Completion.Token.{
  next_quote, quote_after, Joins, NoQuoteFirst, EndsToken, at_start, behind_separator, behind_quote,
  TokenAt, quote_after-append, IsWord-append, NoQuoteFirst-nil, NoQuoteFirst-append,
}

-- The scan is behind `seen`, in the quote `quote`.
record At (seen : List ℕ) (index start : ℕ) (quote : Option ℕ) : Type 0 where
  size : byte_len seen ≡ index
  quote_eq : quote_after none seen ≡ quote
  token : TokenAt seen start

len_utf8_pos : (c : ℕ) → (len_utf8 c == 0) ≡ false
len_utf8_pos c = ground arith

empty_of : (xs : List ℕ) → byte_len xs ≡ 0 → xs ≡ []
empty_of [] h = refl
empty_of (x ∷ xs) h = absurd (ground (arith, len_utf8_pos x, h))

At-next_size :
    (seen : List ℕ) (c index : ℕ)
    → byte_len seen ≡ index
    → byte_len (seen ++ (c ∷ [])) ≡ index + len_utf8 c
At-next_size seen c index h = omega (arith, byte_len-append seen (c ∷ []), h)

-- At the start of the token, a token may begin.
At-begins :
    (seen : List ℕ) (index start : ℕ) (quote : Option ℕ)
    → At seen index start quote
    → start ≡ index
    → EndsToken seen
At-begins seen index start quote at here =
    let (before, typed, whole, place, token) = at.token in
    let size : byte_len before + byte_len typed ≡ byte_len before =
      sym (byte_len-append before typed)
      ∙ ap byte_len (sym whole)
      ∙ at.size
      ∙ sym here
      ∙ sym place in
    let empty : typed ≡ [] = empty_of typed (omega (arith, size)) in
    let same : before ≡ seen =
      sym (append-nil before) ∙ ap (λ t. before ++ t) (sym empty) ∙ sym whole in
    subst EndsToken same token.begins

-- The character belongs to the token.
At-more :
    (seen : List ℕ) (c index start : ℕ) (quote next : Option ℕ)
    → At seen index start quote
    → next_quote quote c ≡ next
    → Joins quote c
    → ((start ≡ index) → NoQuoteFirst quote (c ∷ []))
    → At (seen ++ (c ∷ [])) (index + len_utf8 c) start next
At-more seen c index start quote next at e joins first =
    let (before, typed, whole, place, token) = at.token in
    let open_ : quote_after (quote_after none before) typed ≡ quote =
      sym (quote_after-append none before typed)
      ∙ ap (quote_after none) (sym whole)
      ∙ at.quote_eq in
    record {
      size = At-next_size seen c index at.size;
      quote_eq = quote_after-append none seen (c ∷ []) ∙ ap (λ q. next_quote q c) at.quote_eq ∙ e;
      token = (
        before,
        typed ++ (c ∷ []),
        ap (λ t. t ++ (c ∷ [])) whole ∙ append_assoc before typed (c ∷ []),
        place,
        record {
          begins = token.begins;
          word =
              IsWord-append (quote_after none before) typed c token.word
                (subst (λ q. Joins q c) (sym open_) joins);
          unquoted = NoQuoteFirst-append (quote_after none before) typed c token.unquoted (λ empty.
              (let same : quote_after none before ≡ quote =
                  sym (ap (quote_after (quote_after none before)) empty) ∙ open_ in
                let here : start ≡ index =
                  sym place
                  ∙ ap byte_len
                      (sym (append-nil before) ∙ ap (λ t. before ++ t) (sym empty) ∙ sym whole)
                  ∙ at.size in
                subst (λ q. NoQuoteFirst q (c ∷ [])) (sym same) (first here)));
        },
      );
    }

-- The character ends the token, or opens its quote: the next one begins the token.
At-anew :
    (seen : List ℕ) (c index start : ℕ) (next : Option ℕ)
    → At seen index start none
    → next_quote none c ≡ next
    → EndsToken (seen ++ (c ∷ []))
    → At (seen ++ (c ∷ [])) (index + len_utf8 c) (index + len_utf8 c) next
At-anew seen c index start next at e why = record {
  size = At-next_size seen c index at.size;
  quote_eq = quote_after-append none seen (c ∷ []) ∙ ap (λ q. next_quote q c) at.quote_eq ∙ e;
  token = (
    seen ++ (c ∷ []),
    [],
    sym (append-nil (seen ++ (c ∷ []))),
    At-next_size seen c index at.size,
    record {
      begins = why;
      word = tt;
      unquoted = NoQuoteFirst-nil (quote_after none (seen ++ (c ∷ [])));
    },
  );
}

quote_joins : (c : ℕ) → is_quote c ≡ true → ends_token c ≡ false
quote_joins c h = ground arith

open_quote : (c : ℕ) → is_quote c ≡ true → next_quote none c ≡ some c
open_quote c h = rw h refl

no_quote : (c : ℕ) → is_quote c ≡ false → next_quote none c ≡ none
no_quote c h = rw h refl

token_scan-TokenAt :
    (seen cs : List ℕ) (index start : ℕ) (quote : Option ℕ)
    → At seen index start quote
    → TokenAt (seen ++ cs) (token_scan index start quote cs)
unfolding token_scan
token_scan-TokenAt seen [] index start quote at =
    subst (λ t. TokenAt t start) (sym (append-nil seen)) at.token
token_scan-TokenAt seen (c ∷ cs) index start (some active) at =
    let seen' : List ℕ = seen ++ (c ∷ []) in
    let next : ℕ = index + len_utf8 c in
    let on : (q : Option ℕ)
        → next_quote (some active) c ≡ q
        → TokenAt (seen ++ (c ∷ cs)) (token_scan next start q cs) =
      λ q e.
        subst (λ t. TokenAt t (token_scan next start q cs)) (append_assoc seen (c ∷ []) cs)
          (token_scan-TokenAt seen' cs next start q
            (At-more seen c index start (some active) q at e tt (λ _. tt))) in
    branch_intro (TokenAt (seen ++ (c ∷ cs))) (c == active) (λ h. on none (rw h refl))
      (λ h. on (some active) (rw h refl))
token_scan-TokenAt seen (c ∷ cs) index start none at =
    let seen' : List ℕ = seen ++ (c ∷ []) in
    let next : ℕ = index + len_utf8 c in
    let on : (q : Option ℕ) (n : ℕ)
        → At seen' next n q
        → TokenAt (seen ++ (c ∷ cs)) (token_scan next n q cs) =
      λ q n at'.
        subst (λ t. TokenAt t (token_scan next n q cs)) (append_assoc seen (c ∷ []) cs)
          (token_scan-TokenAt seen' cs next n q at') in
    branch_intro (TokenAt (seen ++ (c ∷ cs))) (is_quote c)
      (λ quote. on (some c) _ (
        branch_intro (λ n. At seen' next n (some c)) (start == index)
          (λ here. At-anew seen c index start (some c) at (open_quote c quote) (
            behind_quote seen c (At-begins seen index start none at (ground arith)) at.quote_eq
              quote))
          (λ inside.
            At-more seen c index start none (some c) at (open_quote c quote) (quote_joins c quote)
              (λ same. absurd (ground (arith, inside, same))))))
      (λ plain.
        branch_intro (TokenAt (seen ++ (c ∷ cs))) (ends_token c)
          (λ ends. on none next (
            At-anew seen c index start none at (no_quote c plain)
              (behind_separator seen c at.quote_eq ends)))
          (λ joins.
            on none start
              (At-more seen c index start none none at (no_quote c plain) joins (λ _. plain))))

pub completion_token_start-TokenAt : (front : List ℕ) → TokenAt front (completion_token_start front)
unfolding completion_token_start
completion_token_start-TokenAt front = token_scan-TokenAt [] front 0 0 none (record {
  size = refl;
  quote_eq = refl;
  token = ([], [], refl, refl, record { begins = at_start; word = tt; unquoted = tt });
})
