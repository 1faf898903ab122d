-- ===== src/Server/Selector.antt =====
-- apps/sidewire/src/server.rs: `resolve_device` and the selectors.
use side_wire_kernel_su.Base.{
  ℕ, ◌+◌, Bool, true, false, not, ◌&&◌, Option, none, some, List, [], ◌∷◌, Result, ok, err, leb,
  if◌then◌else◌, bytes_eq, length, all,
}
use side_wire_kernel_su.Text.Hex.{is_ascii_hexdigit}
use side_wire_kernel_su.Text.Lines.{strip_prefix}
use side_wire_kernel_su.Text.Ids.{id_to_hex, without_dashes}
use side_wire_kernel_su.Server.Registry.{DeviceSession, DeviceMap}

-- `to_ascii_lowercase`
abbrev pub ascii_lowercase : List ℕ → List ℕ
ascii_lowercase [] = []
ascii_lowercase (c ∷ cs) = (if leb 65 c && leb c 90 then c + 32 else c) ∷ ascii_lowercase cs

unfoldable pub selector_is_id_prefix : List ℕ → Bool
selector_is_id_prefix selector =
    let compact = ascii_lowercase (without_dashes selector) in
    leb 4 (length compact) && all is_ascii_hexdigit compact

abbrev pub is_some : Option (List ℕ) → Bool
is_some none = false
is_some (some rest) = true

unfoldable pub selector_matches_id : List ℕ → List ℕ → Bool
unfolding selector_is_id_prefix
selector_matches_id id selector =
    if not (selector_is_id_prefix selector)
    then false
    else is_some (strip_prefix (ascii_lowercase (without_dashes selector)) (id_to_hex id))

-- `eq_ignore_ascii_case`
unfoldable pub name_matches : List ℕ → List ℕ → Bool
name_matches name selector = bytes_eq (ascii_lowercase name) (ascii_lowercase selector)

abbrev pub Device : Type 0
Device = List ℕ × DeviceSession

abbrev pub filter_devices : (Device → Bool) → DeviceMap → DeviceMap
filter_devices p [] = []
filter_devices p (d ∷ ds) = let rest = filter_devices p ds in if p d then d ∷ rest else rest

abbrev pub by_id : List ℕ → Device → Bool
by_id selector d = selector_matches_id d.0 selector

abbrev pub by_name : List ℕ → Device → Bool
by_name selector d = name_matches d.1.name selector

pub data ResolveError : Type 0 where
  no_match ambiguous no_devices several_devices : ResolveError

-- The one match, or an error.
abbrev pub only_match : DeviceMap → Result ResolveError Device
only_match [] = err no_match
only_match (d ∷ []) = ok d
only_match (d ∷ e ∷ ds) = err ambiguous

-- Ids come before names.
abbrev pub or_names : DeviceMap → DeviceMap → DeviceMap
or_names [] names = names
or_names (d ∷ ds) names = d ∷ ds

abbrev pub only_device : DeviceMap → Result ResolveError Device
only_device [] = err no_devices
only_device (d ∷ []) = ok d
only_device (d ∷ e ∷ ds) = err several_devices

unfoldable pub resolve_device : DeviceMap → Option (List ℕ) → Result ResolveError Device
resolve_device devices (some selector) =
    only_match (
      or_names (filter_devices (by_id selector) devices)
        (filter_devices (by_name selector) devices))
resolve_device devices none = only_device devices
