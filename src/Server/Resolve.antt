-- ===== src/Server/Resolve.antt =====
-- Which device `resolve_device` finds (apps/sidewire/src/server.rs).
use side_wire_kernel_su.Base.{
  ℕ, ◌≤◌, ◌==◌, ◌++◌, ◌≡◌, ◌⊎◌, inl, inr, refl, ap, ◌∙◌, sym, Bool, true, false, not, Bool-cases,
  Option, none, some, List, [], ◌∷◌, ok, leb, bytes_eq→eq, bytes_eq_refl, branch_intro, arith,
  length, all, All, All-weaken, all→All, All→all,
}
use mathlib.Core.Option.{some-injective}
use side_wire_kernel_su.Text.Hex.{is_ascii_hexdigit}
use side_wire_kernel_su.Text.Lines.{strip_prefix, strip_prefix-append}
use side_wire_kernel_su.Text.Ids.{id_to_hex, without_dashes}
use side_wire_kernel_su.Server.Registry.{DeviceMap}
use side_wire_kernel_su.Server.Selector.{
  ascii_lowercase, selector_is_id_prefix, is_some, selector_matches_id, name_matches, Device,
  filter_devices, by_id, by_name, only_match, or_names, resolve_device,
}

-- No other device passes the test.
abbrev pub Only : (Device → Bool) → Device → DeviceMap → Type 0
Only p d devices = (p d ≡ true) × All (λ e. (e ≡ d) ⊎ (p e ≡ false)) devices

abbrev pub None : (Device → Bool) → DeviceMap → Type 0
None p devices = All (λ e. p e ≡ false) devices

filter_devices-nil : (p : Device → Bool) (ds : DeviceMap) → filter_devices p ds ≡ [] → None p ds
filter_devices-nil p [] h = tt
filter_devices-nil p (e ∷ ds) h = elim (Bool-cases (p e)) [
  | inl pass ↦ let h' : e ∷ filter_devices p ds ≡ [] = rw pass at h in cc
  | inr miss ↦ (miss, filter_devices-nil p ds (rw miss at h))
]

only-of_None :
    (p : Device → Bool) (d : Device) (ds : DeviceMap)
    → None p ds
    → All (λ e. (e ≡ d) ⊎ (p e ≡ false)) ds
only-of_None p d [] h = tt
only-of_None p d (e ∷ ds) (h, hs) = (inr h, only-of_None p d ds hs)

filter_devices-one :
    (p : Device → Bool) (d : Device) (ds : DeviceMap) → filter_devices p ds ≡ d ∷ [] → Only p d ds
filter_devices-one p d [] h = cc
filter_devices-one p d (e ∷ ds) h = elim (Bool-cases (p e)) [
  | inl pass ↦
      let h' : e ∷ filter_devices p ds ≡ d ∷ [] = rw pass at h in
      let same : e ≡ d = cc in
      let none_left : filter_devices p ds ≡ [] = cc in
      (ap p (sym same) ∙ pass, (inl same, only-of_None p d ds (filter_devices-nil p ds none_left)))
  | inr miss ↦
      let (passes, others) = filter_devices-one p d ds (rw miss at h) in
      (passes, (inr miss, others))
]

only_match-eq-ok : (ds : DeviceMap) (d : Device) → only_match ds ≡ ok d → ds ≡ d ∷ []
only_match-eq-ok [] d h = cc
only_match-eq-ok (e ∷ []) d h = ap (λ x. x ∷ []) cc
only_match-eq-ok (e ∷ f ∷ ds) d h = cc

or_names-one :
    (ids names : DeviceMap) (d : Device)
    → or_names ids names ≡ d ∷ []
    → (ids ≡ d ∷ []) ⊎ ((◌≡◌ {A = DeviceMap} ids []) × (names ≡ d ∷ []))
or_names-one [] names d h = inr (refl, h)
or_names-one (e ∷ ds) names d h = inl h

-- What a selector is as the front of an id: its digits in lower case, without dashes.
abbrev pub compact : List ℕ → List ℕ
compact selector = ascii_lowercase (without_dashes selector)

-- The selector has four hexadecimal digits or more, and the id of the device begins with them.
pub record IsFront (selector : List ℕ) (d : Device) : Type 0 where
  pub four : 4 ≤ length (compact selector)
  pub digits : All (λ c. is_ascii_hexdigit c ≡ true) (compact selector)
  pub rest : List ℕ
  pub begins : id_to_hex d.0 ≡ compact selector ++ rest

-- The selector is the name of the device, but for upper and lower case.
abbrev pub IsNameOf : List ℕ → Device → Type 0
IsNameOf selector d = ascii_lowercase d.1.name ≡ ascii_lowercase selector

strip_prefix-eq-some :
    (prefix text rest : List ℕ) → strip_prefix prefix text ≡ some rest → text ≡ prefix ++ rest
unfolding strip_prefix
strip_prefix-eq-some [] text rest h = some-injective text rest h
strip_prefix-eq-some (p ∷ ps) [] rest h = cc
strip_prefix-eq-some (p ∷ ps) (c ∷ cs) rest h =
    branch_intro (λ o. o ≡ some rest → c ∷ cs ≡ p ∷ (ps ++ rest)) (p == c)
      (λ same found.
        (let first : c ≡ p = ground arith in
          ap (λ x. x ∷ cs) first ∙ ap (λ t. p ∷ t) (strip_prefix-eq-some ps cs rest found)))
      (λ _ wrong. cc) h

is_some-strip_prefix :
    (prefix text : List ℕ) (o : Option (List ℕ))
    → strip_prefix prefix text ≡ o
    → is_some o ≡ true
    → (rest : List ℕ) × (text ≡ prefix ++ rest)
is_some-strip_prefix prefix text none at h = cc
is_some-strip_prefix prefix text (some rest) at h = (rest, strip_prefix-eq-some prefix text rest at)

by_id-IsFront : (selector : List ℕ) (d : Device) → by_id selector d ≡ true → IsFront selector d
unfolding selector_matches_id selector_is_id_prefix
by_id-IsFront selector d h =
    branch_intro (λ b. b ≡ true → IsFront selector d) (not (selector_is_id_prefix selector))
      (λ _ wrong. cc)
      (λ is found.
        (let (rest, begins) =
            is_some-strip_prefix (compact selector) (id_to_hex d.0) _ refl found in
          record {
            four = ground arith;
            digits = all→All is_ascii_hexdigit (compact selector) (ground arith);
            rest = rest;
            begins = begins;
          }))
      h

IsFront-by_id : (selector : List ℕ) (d : Device) → IsFront selector d → by_id selector d ≡ true
unfolding selector_matches_id selector_is_id_prefix
IsFront-by_id selector d f =
    let long : leb 4 (length (compact selector)) ≡ true = ground (arith, f.four) in
    let hex : all is_ascii_hexdigit (compact selector) ≡ true =
      All→all is_ascii_hexdigit (compact selector) f.digits in
    rw (long, hex, f.begins, strip_prefix-append (compact selector) f.rest) refl

not_front : (selector : List ℕ) (d : Device) → by_id selector d ≡ false → IsFront selector d → ⊥
not_front selector d miss f = let hit : by_id selector d ≡ true = IsFront-by_id selector d f in cc

by_name-IsNameOf :
    (selector : List ℕ) (d : Device) → by_name selector d ≡ true → IsNameOf selector d
unfolding name_matches
by_name-IsNameOf selector d h = bytes_eq→eq (ascii_lowercase d.1.name) (ascii_lowercase selector) h

not_name : (selector : List ℕ) (d : Device) → by_name selector d ≡ false → IsNameOf selector d → ⊥
unfolding name_matches
not_name selector d miss e =
    let hit : by_name selector d ≡ true = rw e (bytes_eq_refl (ascii_lowercase selector)) in cc

abbrev pub IsIn : Device → DeviceMap → Type 0
IsIn d [] = ⊥
IsIn d (e ∷ es) = (e ≡ d) ⊎ IsIn d es

-- The one device of the map of which this holds.
abbrev pub TheOne : (Device → Type 0) → Device → DeviceMap → Type 0
TheOne P d devices = IsIn d devices × P d × All (λ e. (e ≡ d) ⊎ (P e → ⊥)) devices

filter_devices-IsIn :
    (p : Device → Bool) (d : Device) (ds : DeviceMap) → filter_devices p ds ≡ d ∷ [] → IsIn d ds
filter_devices-IsIn p d [] h = cc
filter_devices-IsIn p d (e ∷ ds) h = elim (Bool-cases (p e)) [
  | inl pass ↦ let h' : e ∷ filter_devices p ds ≡ d ∷ [] = rw pass at h in inl cc
  | inr miss ↦ inr (filter_devices-IsIn p d ds (rw miss at h))
]

TheOne-filter_devices :
    (p : Device → Bool) (P : Device → Type 0) (d : Device) (ds : DeviceMap)
    → ((e : Device) → p e ≡ true → P e)
    → ((e : Device) → p e ≡ false → P e → ⊥)
    → filter_devices p ds ≡ d ∷ []
    → TheOne P d ds
TheOne-filter_devices p P d ds sound complete h =
    let (passes, others) = filter_devices-one p d ds h in
    (
      filter_devices-IsIn p d ds h,
      sound d passes,
      All-weaken (λ e. (e ≡ d) ⊎ (p e ≡ false)) (λ e. (e ≡ d) ⊎ (P e → ⊥)) ds
          (λ e. elim [ inl same ↦ inl same | inr miss ↦ inr (complete e miss) ]) others,
    )

-- A selector that is resolved leads to one device of the map: either it has four hexadecimal digits
-- or more, and that device's id and no other id in the map begins with them, or no id in the map
-- does in that sense, and of the devices in the map that device alone has the selector as its name,
-- but for upper and lower case.
pub resolve_device-eq-ok :
    (devices : DeviceMap) (selector : List ℕ) (d : Device)
    → resolve_device devices (some selector) ≡ ok d
    → TheOne (IsFront selector) d devices
      ⊎ (All (λ e. IsFront selector e → ⊥) devices × TheOne (IsNameOf selector) d devices)
unfolding resolve_device
resolve_device-eq-ok devices selector d h =
    let ids : DeviceMap = filter_devices (by_id selector) devices in
    let names : DeviceMap = filter_devices (by_name selector) devices in
    elim (or_names-one ids names d (only_match-eq-ok (or_names ids names) d h)) [
      | inl one ↦ inl (
          TheOne-filter_devices (by_id selector) (IsFront selector) d devices
            (by_id-IsFront selector) (not_front selector) one)
      | inr (none_left, one) ↦ inr (
        All-weaken (λ e. by_id selector e ≡ false) (λ e. IsFront selector e → ⊥) devices
            (not_front selector) (filter_devices-nil (by_id selector) devices none_left),
        TheOne-filter_devices (by_name selector) (IsNameOf selector) d devices
            (by_name-IsNameOf selector) (not_name selector) one,
      )
    ]
