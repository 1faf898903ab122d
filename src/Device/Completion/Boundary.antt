-- ===== src/Device/Completion/Boundary.antt =====
-- The positions that the completion cuts the line at (apps/sidewired/src/completion.rs).
use side_wire_kernel_su.Base.{
  ℕ, ◌+◌, ◌≡◌, refl, sym, ap, ◌∙◌, subst, Option, none, some, List, [], ◌∷◌, ◌++◌, append_assoc,
  append-nil, ◌==◌, arith, branch_intro,
}
use side_wire_kernel_su.Device.Completion.{
  len_utf8, is_quote, ends_segment, ends_token, token_scan, completion_token_start, segment_scan,
  command_segment_start,
}

abbrev pub byte_len : List ℕ → ℕ
byte_len [] = 0
byte_len (c ∷ cs) = len_utf8 c + byte_len cs

-- `n` is the number of bytes of some characters at the front of the text.
abbrev pub Boundary : List ℕ → ℕ → Type 0
Boundary text n = (front : List ℕ) × (back : List ℕ) × (text ≡ front ++ back) × (byte_len front ≡ n)

pub byte_len-append : (xs ys : List ℕ) → byte_len (xs ++ ys) ≡ byte_len xs + byte_len ys
byte_len-append [] ys = omega arith
byte_len-append (x ∷ xs) ys = omega (arith, byte_len-append xs ys)

Boundary-more : (text : List ℕ) (c n : ℕ) → Boundary text n → Boundary (text ++ (c ∷ [])) n
Boundary-more text c n (front, back, e, size) =
    (front, back ++ (c ∷ []), ap (λ t. t ++ (c ∷ [])) e ∙ append_assoc front back (c ∷ []), size)

Boundary-here : (text : List ℕ) → Boundary text (byte_len text)
Boundary-here text = (text, [], sym (append-nil text), refl)

Boundary-next :
    (seen : List ℕ) (c index : ℕ)
    → byte_len seen ≡ index
    → Boundary (seen ++ (c ∷ [])) (index + len_utf8 c)
Boundary-next seen c index h =
    subst (Boundary (seen ++ (c ∷ []))) (omega (arith, byte_len-append seen (c ∷ []), h))
      (Boundary-here (seen ++ (c ∷ [])))

-- The scan is at `index`, after the characters `seen`.
token_scan-Boundary :
    (seen cs : List ℕ) (index start : ℕ) (quote : Option ℕ)
    → byte_len seen ≡ index
    → Boundary seen start
    → Boundary (seen ++ cs) (token_scan index start quote cs)
unfolding token_scan
token_scan-Boundary seen [] index start quote h b =
    subst (λ t. Boundary t start) (sym (append-nil seen)) b
token_scan-Boundary seen (c ∷ cs) index start (some active) h b =
    let seen' : List ℕ = seen ++ (c ∷ []) in
    let next : ℕ = index + len_utf8 c in
    let h' : byte_len seen' ≡ next = omega (arith, byte_len-append seen (c ∷ []), h) in
    let on : (q : Option ℕ) → Boundary (seen ++ (c ∷ cs)) (token_scan next start q cs) = λ q.
      subst (λ t. Boundary t (token_scan next start q cs)) (append_assoc seen (c ∷ []) cs)
        (token_scan-Boundary seen' cs next start q h' (Boundary-more seen c start b)) in
    branch_intro (Boundary (seen ++ (c ∷ cs))) (c == active) (λ _. on none) (λ _. on (some active))
token_scan-Boundary seen (c ∷ cs) index start none h b =
    let seen' : List ℕ = seen ++ (c ∷ []) in
    let next : ℕ = index + len_utf8 c in
    let h' : byte_len seen' ≡ next = omega (arith, byte_len-append seen (c ∷ []), h) in
    let kept : Boundary seen' start = Boundary-more seen c start b in
    let moved : Boundary seen' next = Boundary-next seen c index h in
    let on : (q : Option ℕ) (n : ℕ)
        → Boundary seen' n
        → Boundary (seen ++ (c ∷ cs)) (token_scan next n q cs) =
      λ q n at.
        subst (λ t. Boundary t (token_scan next n q cs)) (append_assoc seen (c ∷ []) cs)
          (token_scan-Boundary seen' cs next n q h' at) in
    branch_intro (Boundary (seen ++ (c ∷ cs))) (is_quote c)
      (λ _. on (some c) _ (branch_intro (Boundary seen') (start == index) (λ _. moved) (λ _. kept)))
      (λ _.
        branch_intro (Boundary (seen ++ (c ∷ cs))) (ends_token c) (λ _. on none next moved)
          (λ _. on none start kept))

segment_scan-Boundary :
    (seen cs : List ℕ) (index start : ℕ) (quote : Option ℕ)
    → byte_len seen ≡ index
    → Boundary seen start
    → Boundary (seen ++ cs) (segment_scan index start quote cs)
unfolding segment_scan
segment_scan-Boundary seen [] index start quote h b =
    subst (λ t. Boundary t start) (sym (append-nil seen)) b
segment_scan-Boundary seen (c ∷ cs) index start (some active) h b =
    let seen' : List ℕ = seen ++ (c ∷ []) in
    let next : ℕ = index + len_utf8 c in
    let h' : byte_len seen' ≡ next = omega (arith, byte_len-append seen (c ∷ []), h) in
    let on : (q : Option ℕ) → Boundary (seen ++ (c ∷ cs)) (segment_scan next start q cs) = λ q.
      subst (λ t. Boundary t (segment_scan next start q cs)) (append_assoc seen (c ∷ []) cs)
        (segment_scan-Boundary seen' cs next start q h' (Boundary-more seen c start b)) in
    branch_intro (Boundary (seen ++ (c ∷ cs))) (c == active) (λ _. on none) (λ _. on (some active))
segment_scan-Boundary seen (c ∷ cs) index start none h b =
    let seen' : List ℕ = seen ++ (c ∷ []) in
    let next : ℕ = index + len_utf8 c in
    let h' : byte_len seen' ≡ next = omega (arith, byte_len-append seen (c ∷ []), h) in
    let on : (q : Option ℕ) (n : ℕ)
        → Boundary seen' n
        → Boundary (seen ++ (c ∷ cs)) (segment_scan next n q cs) =
      λ q n at.
        subst (λ t. Boundary t (segment_scan next n q cs)) (append_assoc seen (c ∷ []) cs)
          (segment_scan-Boundary seen' cs next n q h' at) in
    let kept : Boundary seen' start = Boundary-more seen c start b in
    branch_intro (Boundary (seen ++ (c ∷ cs))) (is_quote c) (λ _. on (some c) start kept)
      (λ _.
        branch_intro (Boundary (seen ++ (c ∷ cs))) (ends_segment c)
          (λ _. on none next (Boundary-next seen c index h)) (λ _. on none start kept))

-- The token before the cursor and the command segment before it begin where a character begins, no
-- further than the text before the cursor: the text can be cut there without a panic.
pub completion_starts-Boundary :
    (front : List ℕ)
    → Boundary front (completion_token_start front) × Boundary front (command_segment_start front)
unfolding completion_token_start command_segment_start
completion_starts-Boundary front = (
  token_scan-Boundary [] front 0 0 none refl ([], [], refl, refl),
  segment_scan-Boundary [] front 0 0 none refl ([], [], refl, refl),
)
