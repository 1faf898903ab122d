-- ===== src/Device/Config/Security.antt =====
-- The security mode that `resolve_config` (apps/sidewired/src/main.rs) comes to.
use side_wire_kernel_su.Base.{
  ℕ, ◌≡◌, refl, sym, ap, subst, ◌∙◌, ◌⊎◌, inl, inr, Bool, true, false, Option, none, some, List, [],
  ◌∷◌, ok, Yields, Yields-bind, if◌then◌else◌, if_intro,
}
use side_wire_kernel_su.Text.Lines.{lines}
use side_wire_kernel_su.Text.Ids.{parse}
use side_wire_kernel_su.Device.Handshake.{SecurityMode, secure, insecure}
use side_wire_kernel_su.Device.Config.{
  Cli, ResolvedConfig, Draft, Key, mode_key, host_key, port_key, name_key, device_id_key,
  security_key, pairing_file_key, pairs_dir_key, pairing_port_key, clipboard_helper_key, other_key,
  security_of, is_blank, with_id, apply_entry, entry_of, apply_if, apply_lines, first_draft,
  checked_id, read_file, resolve_config,
}
use side_wire_kernel_su.Device.Config.Asks.{AsksInsecure, entry_of-AsksInsecure}

-- The mode after an entry, and after the lines of a file: that of the last `security`.
abbrev pub mode_after : SecurityMode → Option (Key × List ℕ) → SecurityMode
mode_after mode (some (security_key, value)) = security_of value
mode_after mode _ = mode

abbrev pub mode_of_lines : SecurityMode → List (List ℕ) → SecurityMode
mode_of_lines mode [] = mode
mode_of_lines mode (raw ∷ more) = mode_of_lines (mode_after mode (entry_of raw)) more

abbrev pub mode_of_file : SecurityMode → Option (Option (List ℕ)) → SecurityMode
mode_of_file mode (some (some text)) = mode_of_lines mode (lines text)
mode_of_file mode _ = mode

abbrev Has : SecurityMode → Draft → Type 0
Has mode d = d.security ≡ mode

with_id-Has : (d : Draft) (o : Option (List ℕ)) → Yields (Has d.security) (with_id d o)
with_id-Has d none = tt
with_id-Has d (some id) = refl

apply_entry-Has :
    (d : Draft) (key : Key) (value : List ℕ)
    → Yields (Has (mode_after d.security (some (key, value)))) (apply_entry d key value)
unfolding apply_entry
apply_entry-Has d mode_key value = refl
apply_entry-Has d host_key value = refl
apply_entry-Has d port_key value = refl
apply_entry-Has d name_key value = refl
apply_entry-Has d device_id_key value =
    if_intro (Yields (Has d.security)) (is_blank value) refl (with_id-Has d (parse value))
apply_entry-Has d security_key value = refl
apply_entry-Has d pairing_file_key value =
    if_intro (Yields (Has d.security)) (is_blank value) refl refl
apply_entry-Has d pairs_dir_key value =
    if_intro (Yields (Has d.security)) (is_blank value) refl refl
apply_entry-Has d pairing_port_key value = refl
apply_entry-Has d clipboard_helper_key value =
    if_intro (Yields (Has d.security)) (is_blank value) refl refl
apply_entry-Has d other_key value = refl

apply_if-Has :
    (d : Draft) (o : Option (Key × List ℕ)) → Yields (Has (mode_after d.security o)) (apply_if d o)
apply_if-Has d none = refl
apply_if-Has d (some (key, value)) = apply_entry-Has d key value

apply_lines-Has :
    (mode : SecurityMode) (d : Draft) (raws : List (List ℕ))
    → d.security ≡ mode
    → Yields (Has (mode_of_lines mode raws)) (apply_lines d raws)
unfolding apply_lines
apply_lines-Has mode d [] e = e
apply_lines-Has mode d (raw ∷ more) e =
    Yields-bind (Has (mode_of_lines (mode_after mode (entry_of raw)) more))
      (apply_if d (entry_of raw)) _
      (λ d' applied. apply_lines-Has (mode_after mode (entry_of raw)) d' more (
        subst (Yields (Has (mode_after d.security (entry_of raw)))) applied
          (apply_if-Has d (entry_of raw))
        ∙ ap (λ m. mode_after m (entry_of raw)) e))

read_file-Has :
    (file : Option (Option (List ℕ))) (d : Draft)
    → Yields (Has (mode_of_file d.security file)) (read_file file d)
read_file-Has none d = refl
read_file-Has (some none) d = tt
read_file-Has (some (some text)) d = apply_lines-Has d.security d (lines text) refl

-- The mode that the command line asks for.
abbrev pub mode_of_flag : Bool → SecurityMode
mode_of_flag is_insecure = if is_insecure then insecure else secure

configured :
    (cli : Cli) (random : List ℕ)
    → Yields
        (λ c. c.security ≡ mode_of_file (mode_of_flag cli.is_insecure) cli.config)
        (resolve_config cli random)
unfolding resolve_config first_draft
configured cli random =
    let P : ResolvedConfig → Type 0 =
      λ c. c.security ≡ mode_of_file (mode_of_flag cli.is_insecure) cli.config in
    Yields-bind P (checked_id cli.device_id) _ (λ id _.
      Yields-bind P (read_file cli.config (first_draft cli id)) _ (λ d read.
        subst (Yields (Has (mode_of_file (mode_of_flag cli.is_insecure) cli.config))) read
          (read_file-Has cli.config (first_draft cli id))))

abbrev pub SomeLine : (List ℕ → Type 0) → List (List ℕ) → Type 0
SomeLine P [] = ⊥
SomeLine P (raw ∷ more) = P raw ⊎ SomeLine P more

abbrev pub FileAsks : Option (Option (List ℕ)) → Type 0
FileAsks (some (some text)) = SomeLine AsksInsecure (lines text)
FileAsks _ = ⊥

asked_by_entry :
    (mode : SecurityMode) (raw : List ℕ) (o : Option (Key × List ℕ))
    → entry_of raw ≡ o
    → mode_after mode o ≡ insecure
    → (mode ≡ insecure) ⊎ AsksInsecure raw
asked_by_entry mode raw none at h = inl h
asked_by_entry mode raw (some (security_key, value)) at h =
    inr (entry_of-AsksInsecure raw value at h)
asked_by_entry mode raw (some (_, value)) at h = inl h

asked_by_lines :
    (mode : SecurityMode) (raws : List (List ℕ))
    → mode_of_lines mode raws ≡ insecure
    → (mode ≡ insecure) ⊎ SomeLine AsksInsecure raws
asked_by_lines mode [] h = inl h
asked_by_lines mode (raw ∷ more) h = elim (asked_by_lines (mode_after mode (entry_of raw)) more h) [
  | inl after ↦ elim (asked_by_entry mode raw (entry_of raw) refl after) [
    | inl before ↦ inl before
    | inr here ↦ inr (inl here)
  ]
  | inr there ↦ inr (inr there)
]

asked_by_flag : (is_insecure : Bool) → mode_of_flag is_insecure ≡ insecure → is_insecure ≡ true
asked_by_flag true h = refl
asked_by_flag false h = cc

asked :
    (is_insecure : Bool) (file : Option (Option (List ℕ)))
    → mode_of_file (mode_of_flag is_insecure) file ≡ insecure
    → (is_insecure ≡ true) ⊎ FileAsks file
asked is_insecure none h = inl (asked_by_flag is_insecure h)
asked is_insecure (some none) h = inl (asked_by_flag is_insecure h)
asked is_insecure (some (some text)) h =
    elim (asked_by_lines (mode_of_flag is_insecure) (lines text) h) [
      | inl flag ↦ inl (asked_by_flag is_insecure flag)
      | inr line ↦ inr line
    ]

-- A daemon comes to the insecure mode only if it was asked to: by the flag, or by a line of its
-- file that is no comment, with the word `security` before its first `=` and the word `insecure`, in
-- upper or lower case and perhaps in quotes, behind it.
pub resolve_config-insecure :
    (cli : Cli) (random : List ℕ) (c : ResolvedConfig)
    → resolve_config cli random ≡ ok c
    → c.security ≡ insecure
    → (cli.is_insecure ≡ true) ⊎ FileAsks cli.config
resolve_config-insecure cli random c done_ mode = asked cli.is_insecure cli.config (
    sym (
      subst (Yields (λ c'. c'.security ≡ mode_of_file (mode_of_flag cli.is_insecure) cli.config))
        done_ (configured cli random))
    ∙ mode)
