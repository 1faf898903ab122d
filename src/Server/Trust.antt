-- ===== src/Server/Trust.antt =====
-- apps/sidewire/src/trust.rs: the store of the paired devices, under their ids in hexadecimal. Its
-- file is read and written as a whole, which is taken to succeed.
use mathlib.Core.Option.{some-injective}
use side_wire_kernel_su.Base.{
  ℕ, ◌≡◌, ◌≢◌, refl, ap, ◌∙◌, sym, ◌||◌, false, Bool-cases, inl, inr, Option, none, some, List, [],
  ◌∷◌, Result, ok, err, if◌then◌else◌, bytes_eq, bytes_eq_refl, bytes_eq→eq, length, All,
}
use side_wire_kernel_su.Base.Bytes.{IsByte}
use side_wire_kernel_su.Text.Lines.{strip_prefix, trim}
use side_wire_kernel_su.Text.Ids.{
  id_to_hex, key_to_hex, key_from_hex-key_to_hex, decode_digits, decode_digits-to_hex,
}
use side_wire_kernel_su.Device.Pairing.Hosts.{KeyError, secret_of}
use side_wire_kernel_su.Server.Selector.{ascii_lowercase, is_some, name_matches}

pub record TrustedDevice : Type 0 where
  pub id : List ℕ
  pub name : List ℕ
  pub shared_secret : List ℕ

-- `devices`, a map from ids in hexadecimal.
abbrev pub Store : Type 0
Store = List (List ℕ × TrustedDevice)

abbrev pub get_trusted : List ℕ → Store → Option TrustedDevice
get_trusted key [] = none
get_trusted key ((j, d) ∷ more) = if bytes_eq j key then some d else get_trusted key more

abbrev pub remove_trusted : List ℕ → Store → Store
remove_trusted key [] = []
remove_trusted key ((j, d) ∷ more) =
    let rest = remove_trusted key more in if bytes_eq j key then rest else (j, d) ∷ rest

abbrev pub secret_text : Option TrustedDevice → Option (List ℕ)
secret_text none = none
secret_text (some d) = some d.shared_secret

unfoldable pub device_secret : Store → List ℕ → Result KeyError (Option (List ℕ))
device_secret store id = secret_of (secret_text (get_trusted (id_to_hex id) store))

unfoldable pub save_device : Store → List ℕ → List ℕ → List ℕ → Store
save_device store id name secret =
    (id_to_hex id, record { id = id; name = name; shared_secret = key_to_hex secret })
    ∷ remove_trusted (id_to_hex id) store

pub data TrustError : Type 0 where
  not_found ambiguous : TrustError

-- The keys that a selector, trimmed and in lower case, matches: a prefix of an id, or a name.
abbrev pub matching_keys : List ℕ → Store → List (List ℕ)
matching_keys selector [] = []
matching_keys selector ((key, d) ∷ more) =
    let rest = matching_keys selector more in
    if is_some (strip_prefix selector key) || name_matches d.name selector then key ∷ rest else rest

abbrev pub remove_matching : Store → List (List ℕ) → Result TrustError Store
remove_matching store [] = err not_found
remove_matching store (key ∷ []) = ok (remove_trusted key store)
remove_matching store (key ∷ other ∷ keys) = err ambiguous

-- `remove_device`, with the store that it leaves.
unfoldable pub forget_device : List ℕ → Store → Result TrustError Store
forget_device selector store =
    remove_matching store (matching_keys (ascii_lowercase (trim selector)) store)

get_trusted-remove_trusted :
    (k j : List ℕ) (store : Store)
    → bytes_eq k j ≡ false
    → get_trusted j (remove_trusted k store) ≡ get_trusted j store
get_trusted-remove_trusted k j [] ne = refl
get_trusted-remove_trusted k j ((i, d) ∷ more) ne = elim (Bool-cases (bytes_eq i k)) [
  | inl same ↦
      let i_is_k : i ≡ k = bytes_eq→eq i k same in
      let other : bytes_eq i j ≡ false = ap (λ t. bytes_eq t j) i_is_k ∙ ne in
      rw (same, other) (get_trusted-remove_trusted k j more ne)
  | inr other ↦
      rw other
        (ap (λ t. if bytes_eq i j then some d else t) (get_trusted-remove_trusted k j more ne))
]

-- Two ids with the same digits are the same id.
id_to_hex-differ :
    (a b : List ℕ)
    → length a ≡ 16
    → All IsByte a
    → length b ≡ 16
    → All IsByte b
    → a ≢ b
    → bytes_eq (id_to_hex a) (id_to_hex b) ≡ false
unfolding id_to_hex
id_to_hex-differ a b size_a bytes_a size_b bytes_b ne =
    elim (Bool-cases (bytes_eq (id_to_hex a) (id_to_hex b))) [
      | inl same ↦ absurd (
          ne (
            some-injective a b (
              sym (decode_digits-to_hex 16 a size_a bytes_a)
              ∙ ap (decode_digits 16) (bytes_eq→eq (id_to_hex a) (id_to_hex b) same)
              ∙ decode_digits-to_hex 16 b size_b bytes_b)))
      | inr other ↦ other
    ]

-- What is asked for after a device was saved.
pub record Saved (store : Store) (id name secret : List ℕ) : Type 0 where
  pub found : device_secret (save_device store id name secret) id ≡ ok (some secret)
  pub others :
      (other : List ℕ)
      → length other ≡ 16
      → All IsByte other
      → id ≢ other
      → device_secret (save_device store id name secret) other ≡ device_secret store other

-- Whatever the store holds: once a device with an id of 16 bytes and a key of 32 bytes is saved,
-- its key is found under its id, in place of any key that was there, and the keys of all other
-- devices are as they were.
pub save_device-Saved :
    (store : Store) (id name secret : List ℕ)
    → length id ≡ 16
    → All IsByte id
    → length secret ≡ 32
    → All IsByte secret
    → Saved store id name secret
unfolding device_secret save_device
save_device-Saved store id name secret size bytes size_key bytes_key = record {
  found = rw (bytes_eq_refl (id_to_hex id), key_from_hex-key_to_hex secret size_key bytes_key) refl;
  others = λ other size' bytes' ne.
      (let differ : bytes_eq (id_to_hex id) (id_to_hex other) ≡ false =
          id_to_hex-differ id other size bytes size' bytes' ne in
        rw (differ, get_trusted-remove_trusted (id_to_hex id) (id_to_hex other) store differ) refl);
}
