-- ===== src/Transfer/Paths.antt =====
-- `remote_join` and `local_relative` of apps/sidewire/src/transfer.rs.
use side_wire_kernel_su.Base.{
  ℕ, ◌≡◌, ◌≢◌, refl, sym, ap, ◌∙◌, subst, inl, inr, false, Bool-cases, some, List, [], ◌∷◌, ◌++◌,
  append-nil, append_assoc, Result, ok, err, ◌>>=◌, context, Yields, Yields-bind, Yields-weaken,
  Option, none, ◌==◌, branch_intro, bytes_eq, bytes_eq→eq, All, arith,
}
use side_wire_kernel_su.Text.Lines.{strip_prefix-append, add_char}
use side_wire_kernel_su.Transfer.{
  Component, normal, cur_dir, special, PathError, ends_slash, keep_part, trim_end_slashes,
  trim_start_slashes, with_slash, join_parts, remote_join, split_slash, is_skipped, first_of,
  pushed_name, push_names, relative_part, trimmed, local_relative,
}

-- A name that is one part of a path: not empty, not `.`, and without a slash.
abbrev pub IsName : List ℕ → Type 0
IsName name = (is_skipped name ≡ false) × All (λ c. c ≢ 47) name

abbrev pub names : List (List ℕ) → List Component
names [] = []
names (n ∷ ns) = normal n ∷ names ns

-- The names behind a path.
abbrev pub below : List (List ℕ) → List ℕ
below [] = []
below (n ∷ ns) = 47 ∷ (n ++ below ns)

IsName-not-empty : (name : List ℕ) → IsName name → (c : ℕ) × (cs : List ℕ) × (name ≡ c ∷ cs)
IsName-not-empty [] (skipped, _) = cc
IsName-not-empty (c ∷ cs) h = (c, cs, refl)

ends_slash-name : (c : ℕ) (cs : List ℕ) → All (λ d. d ≢ 47) (c ∷ cs) → ends_slash (c ∷ cs) ≡ false
ends_slash-name c [] (ne, _) = ground arith
ends_slash-name c (d ∷ ds) (_, others) = ends_slash-name d ds others

ends_slash-append :
    (xs : List ℕ) (c : ℕ) (cs : List ℕ) → ends_slash (xs ++ (c ∷ cs)) ≡ ends_slash (c ∷ cs)
ends_slash-append [] c cs = refl
ends_slash-append (x ∷ []) c cs = refl
ends_slash-append (x ∷ y ∷ ys) c cs = ends_slash-append (y ∷ ys) c cs

with_slash-plain :
    (output : List ℕ) → ends_slash output ≡ false → with_slash output ≡ output ++ (47 ∷ [])
with_slash-plain output h = rw h refl

join_parts-names :
    (output : List ℕ) (ns : List (List ℕ))
    → ends_slash output ≡ false
    → All IsName ns
    → join_parts output (names ns) ≡ ok (output ++ below ns)
unfolding join_parts
join_parts-names output [] no_slash all = ap ok (sym (append-nil output))
join_parts-names output (n ∷ ns) no_slash (name, all) =
    let (c, cs, e) = IsName-not-empty n name in
    let ends : ends_slash ((output ++ (47 ∷ [])) ++ n) ≡ false = rw e (
      ends_slash-append (output ++ (47 ∷ [])) c cs
      ∙ ends_slash-name c cs (subst (All (λ d. d ≢ 47)) e name.1)) in
    ap (λ o. join_parts (o ++ n) (names ns)) (with_slash-plain output no_slash)
    ∙ join_parts-names ((output ++ (47 ∷ [])) ++ n) ns ends all
    ∙ ap ok (
        append_assoc (output ++ (47 ∷ [])) n (below ns)
        ∙ append_assoc output (47 ∷ []) (n ++ below ns))

ends-keep_part : (c : ℕ) (cs : List ℕ) → ends_slash cs ≡ false → ends_slash (keep_part c cs) ≡ false
ends-keep_part c [] h = elim (Bool-cases (c == 47)) [
  | inl slash ↦ rw slash refl
  | inr other ↦ rw other (rw other refl)
]
ends-keep_part c (d ∷ ds) h = h

ends-trim_end_slashes : (text : List ℕ) → ends_slash (trim_end_slashes text) ≡ false
ends-trim_end_slashes [] = refl
ends-trim_end_slashes (c ∷ cs) = ends-keep_part c (trim_end_slashes cs) (ends-trim_end_slashes cs)

-- The front of a joined path, before its names.
join_front :
    (base : List ℕ) (n : List ℕ) (ns : List (List ℕ))
    → All IsName (n ∷ ns)
    → remote_join base (names (n ∷ ns)) ≡ ok (trim_end_slashes base ++ below (n ∷ ns))
unfolding remote_join join_parts
join_front base n ns (name, all) = elim (Bool-cases (bytes_eq base (47 ∷ []))) [
  | inl root ↦
      let is : base ≡ 47 ∷ [] = bytes_eq→eq base (47 ∷ []) root in
      let (c, cs, e) = IsName-not-empty n name in
      let ends : ends_slash ((47 ∷ []) ++ n) ≡ false = rw e (
        ends_slash-append (47 ∷ []) c cs
        ∙ ends_slash-name c cs (subst (All (λ d. d ≢ 47)) e name.1)) in
      rw (root, is) (join_parts-names ((47 ∷ []) ++ n) ns ends all)
  | inr other ↦
      rw other
        (join_parts-names (trim_end_slashes base) (n ∷ ns) (ends-trim_end_slashes base) (name, all))
]

ne→==_false : (a b : ℕ) → a ≢ b → (a == b) ≡ false
ne→==_false a b ne = ground arith

-- What `split` and the trimming do with joined names.
trim_start-name : (n rest : List ℕ) → IsName n → trim_start_slashes (47 ∷ (n ++ rest)) ≡ n ++ rest
trim_start-name [] rest (skipped, _) = cc
trim_start-name (c ∷ cs) rest (_, (ne, _)) = rw (ne→==_false c 47 ne) refl

split-last : (n : List ℕ) → All (λ c. c ≢ 47) n → split_slash n ≡ n ∷ []
split-last [] all = refl
split-last (c ∷ cs) (ne, all) = rw (ne→==_false c 47 ne) (ap (add_char c) (split-last cs all))

split-front :
    (n rest : List ℕ) → All (λ c. c ≢ 47) n → split_slash (n ++ (47 ∷ rest)) ≡ n ∷ split_slash rest
split-front [] rest all = refl
split-front (c ∷ cs) rest (ne, all) =
    rw (ne→==_false c 47 ne) (ap (add_char c) (split-front cs rest all))

split-names :
    (n : List ℕ) (ns : List (List ℕ)) → All IsName (n ∷ ns) → split_slash (n ++ below ns) ≡ n ∷ ns
split-names n [] (name, all) = ap split_slash (append-nil n) ∙ split-last n name.1
split-names n (k ∷ ns) (name, all) =
    split-front n (k ++ below ns) name.1 ∙ ap (λ t. n ∷ t) (split-names k ns all)

module _ (components : List ℕ → List Component) where
  -- A name that the platform takes for one plain part.
  abbrev pub IsPlain : List ℕ → Type 0
  IsPlain name = components name ≡ normal name ∷ []

  push_names-names :
      (ns : List (List ℕ)) → All IsName ns → All IsPlain ns → push_names components ns ≡ ok ns
  unfolding push_names
  push_names-names [] all plain = refl
  push_names-names (n ∷ ns) (name, all) (is, plain) =
      rw (name.0, is) (ap (first_of n) (push_names-names ns all plain))

  relative-names :
      (root n : List ℕ) (ns : List (List ℕ))
      → IsName n
      → relative_part root (root ++ below (n ∷ ns)) ≡ some (n ++ below ns)
  relative-names [] n ns name = ap some (trim_start-name n (below ns) name)
  relative-names (c ∷ root) n ns name =
      ap trimmed (strip_prefix-append (c ∷ root) (below (n ∷ ns)))
      ∙ ap some (trim_start-name n (below ns) name)

  -- For any base path, and names that are not empty, not `.`, without a slash and plain parts on
  -- the host's platform: the remote path that joins the base and the names is taken apart into the
  -- same names, relative to that base.
  pub local_relative-remote_join :
      (base n : List ℕ) (ns : List (List ℕ))
      → All IsName (n ∷ ns)
      → All IsPlain (n ∷ ns)
      → (remote_join base (names (n ∷ ns)) >>= local_relative components base) ≡ ok (n ∷ ns)
  unfolding local_relative
  local_relative-remote_join base n ns all plain =
      rw
        (
          join_front base n ns all,
          relative-names (trim_end_slashes base) n ns all.0,
          split-names n ns all,
          push_names-names (n ∷ ns) all plain,
        )
        refl

  -- Where the components of a name lead from a directory of the host, which is the list of the names
  -- down to it. A root, a prefix or a parent directory leads out of it.
  abbrev pub step_into : List (List ℕ) → List Component → Option (List (List ℕ))
  step_into directory [] = some directory
  step_into directory (normal name ∷ more) = step_into (directory ++ (name ∷ [])) more
  step_into directory (cur_dir ∷ more) = step_into directory more
  step_into directory (special ∷ more) = none

  abbrev pub and_into :
      Option (List (List ℕ)) → (List (List ℕ) → Option (List (List ℕ))) → Option (List (List ℕ))
  and_into none next = none
  and_into (some directory) next = next directory

  -- The same for the names of a path, one after the other.
  abbrev pub walk : List (List ℕ) → List (List ℕ) → Option (List (List ℕ))
  walk directory [] = some directory
  walk directory (name ∷ more) =
      and_into (step_into directory (components name)) (λ inner. walk inner more)

  pushed_name-IsPlain :
      (part : List ℕ) (cs : List Component) (rest : Result PathError (List (List ℕ)))
      → ((part name : List ℕ) → components part ≡ normal name ∷ [] → IsPlain name)
      → components part ≡ cs
      → Yields (All IsPlain) rest
      → Yields (All IsPlain) (pushed_name cs rest)
  pushed_name-IsPlain part (normal name ∷ []) (ok ns) again e plain = (again part name e, plain)
  pushed_name-IsPlain part (normal name ∷ []) (err _) again e plain = tt
  pushed_name-IsPlain part (normal name ∷ _ ∷ _) rest again e plain = tt
  pushed_name-IsPlain part (cur_dir ∷ _) rest again e plain = tt
  pushed_name-IsPlain part (special ∷ _) rest again e plain = tt
  pushed_name-IsPlain part [] rest again e plain = tt

  push_names-IsPlain :
      (parts : List (List ℕ))
      → ((part name : List ℕ) → components part ≡ normal name ∷ [] → IsPlain name)
      → Yields (All IsPlain) (push_names components parts)
  unfolding push_names
  push_names-IsPlain [] again = tt
  push_names-IsPlain (part ∷ more) again =
      branch_intro (Yields (All IsPlain)) (is_skipped part) (λ _. push_names-IsPlain more again)
        (λ _.
          pushed_name-IsPlain part (components part) (push_names components more) again refl
            (push_names-IsPlain more again))

  walk-IsPlain :
      (directory ns : List (List ℕ)) → All IsPlain ns → walk directory ns ≡ some (directory ++ ns)
  walk-IsPlain directory [] plain = ap some (sym (append-nil directory))
  walk-IsPlain directory (n ∷ ns) (is, plain) =
      rw is (
        walk-IsPlain (directory ++ (n ∷ [])) ns plain
        ∙ ap some (append_assoc directory (n ∷ []) ns))

  -- From every directory the names lead to their own place below it.
  abbrev pub LeadsBelow : List (List ℕ) → Type 0
  LeadsBelow ns = (directory : List (List ℕ)) → walk directory ns ≡ some (directory ++ ns)

  -- On a platform where the name of a normal component is again that one component: whatever path
  -- the device reports, if it is accepted, the names that are pushed on the local directory lead
  -- from it down through these names and nowhere else, never through a parent directory or a root.
  pub local_relative-LeadsBelow :
      (root path : List ℕ)
      → ((part name : List ℕ) → components part ≡ normal name ∷ [] → IsPlain name)
      → Yields LeadsBelow (local_relative components root path)
  unfolding local_relative
  local_relative-LeadsBelow root path again =
      Yields-bind LeadsBelow (context (relative_part (trim_end_slashes root) path) _) _
        (λ relative _.
          Yields-weaken (All IsPlain) LeadsBelow (push_names components (split_slash relative))
            (λ ns plain directory. walk-IsPlain directory ns plain)
            (push_names-IsPlain (split_slash relative) again))
