-- ===== src/Device/Config.antt =====
-- apps/sidewired/src/main.rs: `resolve_config`, the configuration of the daemon from its command
-- line and its file. The file is its text, if it can be read; a random id is an argument.
pub mod Asks
pub mod Security
mod Tests
use side_wire_kernel_su.Base.{
  ℕ, ◌+◌, ◌*◌, ◌-◌, ◌^◌, Bool, true, false, not, ◌&&◌, ◌||◌, Option, none, some, List, [], ◌∷◌,
  ◌++◌, Result, ok, err, ◌>>=◌, context, leb, ltb, ◌==◌, if◌then◌else◌, bytes_eq,
}
use side_wire_kernel_su.Text.Lines.{lines, trim}
use side_wire_kernel_su.Text.Ids.{parse}
use side_wire_kernel_su.Device.Handshake.{SecurityMode, secure, insecure, decimal}
use side_wire_kernel_su.Server.Selector.{ascii_lowercase}

pub data Mode : Type 0 where
  inbound outbound : Mode

pub record Cli : Type 0 where
  pub mode : Mode
  pub listen : List ℕ
  pub server : List ℕ
  pub name : List ℕ
  pub device_id : Option (List ℕ)
  pub is_insecure : Bool  -- insecure
  pub config : Option (Option (List ℕ))  -- the text of the file that is named, if it can be read

pub record ResolvedConfig : Type 0 where
  pub mode : Mode
  pub endpoint : List ℕ
  pub name : List ℕ
  pub device_id : List ℕ
  pub security : SecurityMode
  pub pairing_file : Option (List ℕ)
  pub pairs_dir : Option (List ℕ)
  pub pairing_port : ℕ
  pub clipboard_helper : Option (List ℕ)

pub data ConfigError : Type 0 where
  invalid_device_id unreadable : ConfigError

-- The local variables of the function.
pub record Draft : Type 0 where
  pub mode : Mode
  pub host : List ℕ
  pub port : ℕ
  pub name : List ℕ
  pub device_id : Option (List ℕ)
  pub security : SecurityMode
  pub pairing_file : Option (List ℕ)
  pub pairs_dir : Option (List ℕ)
  pub pairing_port : ℕ
  pub clipboard_helper : Option (List ℕ)

abbrev pub equals_ignoring_case : List ℕ → List ℕ → Bool
equals_ignoring_case a b = bytes_eq (ascii_lowercase a) (ascii_lowercase b)

abbrev pub split_more : ℕ → Option (List ℕ × List ℕ) → Option (List ℕ × List ℕ)
split_more c none = none
split_more c (some (key, value)) = some (c ∷ key, value)

-- `split_once('=')`
abbrev pub split_once : List ℕ → Option (List ℕ × List ℕ)
split_once [] = none
split_once (c ∷ cs) =
    let rest = split_once cs in if c == 61 then some ([], cs) else split_more c rest

abbrev pub drop_quotes : List ℕ → List ℕ
drop_quotes [] = []
drop_quotes (c ∷ cs) = let rest = drop_quotes cs in if c == 34 then rest else c ∷ cs

abbrev pub keep_unquoted : ℕ → List ℕ → List ℕ
keep_unquoted c [] = if c == 34 then [] else c ∷ []
keep_unquoted c (d ∷ ds) = c ∷ d ∷ ds

abbrev pub drop_end_quotes : List ℕ → List ℕ
drop_end_quotes [] = []
drop_end_quotes (c ∷ cs) = keep_unquoted c (drop_end_quotes cs)

-- `trim_matches('"')`
abbrev pub trim_quotes : List ℕ → List ℕ
trim_quotes text = drop_end_quotes (drop_quotes text)

abbrev pub security_of : List ℕ → SecurityMode
security_of value =
    if equals_ignoring_case value (b'i' ∷ b'n' ∷ b's' ∷ b'e' ∷ b'c' ∷ b'u' ∷ b'r' ∷ b'e' ∷ [])
    then insecure
    else secure

abbrev pub mode_of : List ℕ → Mode
mode_of value =
    if equals_ignoring_case value (b'i' ∷ b'n' ∷ b'b' ∷ b'o' ∷ b'u' ∷ b'n' ∷ b'd' ∷ [])
    then inbound
    else outbound

-- The keys of the file.
pub data Key : Type 0 where
  mode_key host_key port_key name_key device_id_key security_key pairing_file_key : Key
  pairs_dir_key pairing_port_key clipboard_helper_key other_key : Key

abbrev pub is_blank : List ℕ → Bool
is_blank [] = true
is_blank (c ∷ cs) = false

-- `DeviceId::parse(value)?`
abbrev pub with_id : Draft → Option (List ℕ) → Result ConfigError Draft
with_id d none = err invalid_device_id
with_id d (some id) = ok (record d { device_id = some id })

-- `value.parse().unwrap_or(default)` of a u16
abbrev pub or_port : Option ℕ → ℕ → ℕ
or_port none default = default
or_port (some port) default = port

-- The bytes of the keys, in the order of the `match`.
abbrev pub key_texts : List (List ℕ × Key)
key_texts =
    ((b'm' ∷ b'o' ∷ b'd' ∷ b'e' ∷ []), mode_key)
    ∷ ((b'h' ∷ b'o' ∷ b's' ∷ b't' ∷ []), host_key)
    ∷ ((b'p' ∷ b'o' ∷ b'r' ∷ b't' ∷ []), port_key)
    ∷ ((b'n' ∷ b'a' ∷ b'm' ∷ b'e' ∷ []), name_key)
    ∷ ((b'd' ∷ b'e' ∷ b'v' ∷ b'i' ∷ b'c' ∷ b'e' ∷ b'_' ∷ b'i' ∷ b'd' ∷ []), device_id_key)
    ∷ ((b's' ∷ b'e' ∷ b'c' ∷ b'u' ∷ b'r' ∷ b'i' ∷ b't' ∷ b'y' ∷ []), security_key)
    ∷ (
      (b'p' ∷ b'a' ∷ b'i' ∷ b'r' ∷ b'i' ∷ b'n' ∷ b'g' ∷ b'_' ∷ b'f' ∷ b'i' ∷ b'l' ∷ b'e' ∷ []),
      pairing_file_key,
    )
    ∷ ((b'p' ∷ b'a' ∷ b'i' ∷ b'r' ∷ b's' ∷ b'_' ∷ b'd' ∷ b'i' ∷ b'r' ∷ []), pairs_dir_key)
    ∷ (
      (b'p' ∷ b'a' ∷ b'i' ∷ b'r' ∷ b'i' ∷ b'n' ∷ b'g' ∷ b'_' ∷ b'p' ∷ b'o' ∷ b'r' ∷ b't' ∷ []),
      pairing_port_key,
    )
    ∷ (
      (b'c' ∷ b'l' ∷ b'i' ∷ b'p' ∷ b'b' ∷ b'o' ∷ b'a' ∷ b'r' ∷ b'd' ∷ b'_' ∷ b'h' ∷ b'e' ∷ b'l'
          ∷ b'p' ∷ b'e' ∷ b'r' ∷ []),
      clipboard_helper_key,
    )
    ∷ []

abbrev pub find_key : List ℕ → List (List ℕ × Key) → Key
find_key text [] = other_key
find_key text ((t, key) ∷ more) = if bytes_eq t text then key else find_key text more

abbrev pub key_of : List ℕ → Key
key_of text = find_key text key_texts

abbrev pub more_digits : (ℕ → Option ℕ) → ℕ → ℕ → Option ℕ
more_digits next value c =
    if not (leb 48 c && leb c 57)
    then none
    else if leb (2 ^ 16) (value * 10 + (c - 48))
    then none
    else next (value * 10 + (c - 48))

abbrev pub digits_value : List ℕ → ℕ → Option ℕ
digits_value [] value = some value
digits_value (c ∷ cs) value = more_digits (λ v. digits_value cs v) value c

abbrev pub unsigned : List ℕ → Option ℕ
unsigned [] = none
unsigned (c ∷ cs) = digits_value (c ∷ cs) 0

-- `str::parse::<u16>`: digits, with an optional plus in front.
abbrev pub parse_port : List ℕ → Option ℕ
parse_port [] = none
parse_port (c ∷ cs) = if c == 43 then unsigned cs else unsigned (c ∷ cs)

abbrev pub default_pairing_port : ℕ
default_pairing_port = 58323

-- An arm of the `match`; the keys with a guard pass over an empty value.
unfoldable pub apply_entry : Draft → Key → List ℕ → Result ConfigError Draft
apply_entry d mode_key value = ok (record d { mode = mode_of value })
apply_entry d host_key value = ok (record d { host = value })
apply_entry d port_key value = ok (record d { port = or_port (parse_port value) 58321 })
apply_entry d name_key value = ok (record d { name = value })
apply_entry d device_id_key value = if is_blank value then ok d else with_id d (parse value)
apply_entry d security_key value = ok (record d { security = security_of value })
apply_entry d pairing_file_key value =
    if is_blank value then ok d else ok (record d { pairing_file = some value })
apply_entry d pairs_dir_key value =
    if is_blank value then ok d else ok (record d { pairs_dir = some value })
apply_entry d pairing_port_key value =
    ok (record d { pairing_port = or_port (parse_port value) default_pairing_port })
apply_entry d clipboard_helper_key value =
    if is_blank value then ok d else ok (record d { clipboard_helper = some value })
apply_entry d other_key value = ok d

abbrev pub starts_comment : List ℕ → Bool
starts_comment [] = true
starts_comment (c ∷ cs) = c == 35

-- The entry that a line has: a key and its value.
abbrev pub trimmed_entry : Option (List ℕ × List ℕ) → Option (Key × List ℕ)
trimmed_entry none = none
trimmed_entry (some (key, value)) = some (key_of (trim key), trim_quotes (trim value))

unfoldable pub entry_of : List ℕ → Option (Key × List ℕ)
entry_of raw = if starts_comment (trim raw) then none else trimmed_entry (split_once (trim raw))

abbrev pub apply_if : Draft → Option (Key × List ℕ) → Result ConfigError Draft
apply_if d none = ok d
apply_if d (some (key, value)) = apply_entry d key value

unfoldable pub apply_lines : Draft → List (List ℕ) → Result ConfigError Draft
apply_lines d [] = ok d
apply_lines d (raw ∷ more) = apply_if d (entry_of raw) >>= λ d'. apply_lines d' more

-- The endpoint of a configuration with a file.
abbrev pub file_endpoint : Mode → List ℕ → ℕ → List ℕ
file_endpoint inbound host port =
    (b'0' ∷ b'.' ∷ b'0' ∷ b'.' ∷ b'0' ∷ b'.' ∷ b'0' ∷ b':' ∷ []) ++ decimal 5 port
file_endpoint outbound host port =
    (if is_blank host
      then b'1' ∷ b'2' ∷ b'7' ∷ b'.' ∷ b'0' ∷ b'.' ∷ b'0' ∷ b'.' ∷ b'1' ∷ []
      else host)
    ++ (58 ∷ decimal 5 port)

abbrev pub cli_endpoint : Mode → Cli → List ℕ
cli_endpoint inbound cli = cli.listen
cli_endpoint outbound cli = cli.server

abbrev pub endpoint_of : Option (Option (List ℕ)) → Draft → Cli → List ℕ
endpoint_of none d cli = cli_endpoint d.mode cli
endpoint_of (some _) d cli = file_endpoint d.mode d.host d.port

abbrev pub id_or : Option (List ℕ) → List ℕ → List ℕ
id_or none random = random
id_or (some id) random = id

unfoldable pub first_draft : Cli → Option (List ℕ) → Draft
first_draft cli id = record {
  mode = cli.mode;
  host = [];
  port = 58321;
  name = cli.name;
  device_id = id;
  security = if cli.is_insecure then insecure else secure;
  pairing_file = none;
  pairs_dir = none;
  pairing_port = default_pairing_port;
  clipboard_helper = none;
}

-- `transpose()?` of the id on the command line
abbrev pub checked_id : Option (List ℕ) → Result ConfigError (Option (List ℕ))
checked_id none = ok none
checked_id (some text) = elim (parse text) [ none ↦ err invalid_device_id | some id ↦ ok (some id) ]

abbrev pub read_file : Option (Option (List ℕ)) → Draft → Result ConfigError Draft
read_file none d = ok d
read_file (some none) d = err unreadable
read_file (some (some text)) d = apply_lines d (lines text)

abbrev pub resolved : Cli → List ℕ → Draft → ResolvedConfig
resolved cli random d = record {
  mode = d.mode;
  endpoint = endpoint_of cli.config d cli;
  name = d.name;
  device_id = id_or d.device_id random;
  security = d.security;
  pairing_file = d.pairing_file;
  pairs_dir = d.pairs_dir;
  pairing_port = d.pairing_port;
  clipboard_helper = d.clipboard_helper;
}

unfoldable pub resolve_config : Cli → List ℕ → Result ConfigError ResolvedConfig
resolve_config cli random = do
  id ← checked_id cli.device_id
  d ← read_file cli.config (first_draft cli id)
  ok (resolved cli random d)
