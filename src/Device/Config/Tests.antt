-- ===== src/Device/Config/Tests.antt =====
-- The theorem on the configuration, applied to a file that asks for the insecure mode.
use side_wire_kernel_su.Base.{ℕ, ◌≡◌, refl, ◌⊎◌, true, false, some, none, List, [], ◌∷◌, replicate}
use side_wire_kernel_su.Text.Lines.{lines, trim, trim_start, trim_end}
use side_wire_kernel_su.Device.Handshake.{insecure, decimal}
use side_wire_kernel_su.Device.Config
use side_wire_kernel_su.Device.Config.{Cli, Mode, ResolvedConfig, resolve_config}
use side_wire_kernel_su.Device.Config.Security.{FileAsks, resolve_config-insecure}

-- `security = INsecure`
abbrev line : List ℕ
line =
    b's' ∷ b'e' ∷ b'c' ∷ b'u' ∷ b'r' ∷ b'i' ∷ b't' ∷ b'y' ∷ b' ' ∷ b'=' ∷ b' ' ∷ b'I' ∷ b'N' ∷ b's'
    ∷ b'e' ∷ b'c' ∷ b'u' ∷ b'r' ∷ b'e' ∷ []

abbrev cli : Cli
cli = record {
  mode = Mode.inbound;
  listen = [];
  server = [];
  name = 112 ∷ [];
  device_id = none;
  is_insecure = false;
  config = some (some line);
}

abbrev expected : ResolvedConfig
expected = record {
  mode = Mode.inbound;
  endpoint =
      b'0' ∷ b'.' ∷ b'0' ∷ b'.' ∷ b'0' ∷ b'.' ∷ b'0' ∷ b':' ∷ b'5' ∷ b'8' ∷ b'3' ∷ b'2' ∷ b'1' ∷ [];
  name = 112 ∷ [];
  device_id = replicate 16 7;
  security = insecure;
  pairing_file = none;
  pairs_dir = none;
  pairing_port = 58323;
  clipboard_helper = none;
}

resolve_config-insecure_example : (false ≡ true) ⊎ FileAsks cli.config
unfolding Config.resolve_config Config.apply_lines Config.apply_entry Config.entry_of
    Config.first_draft lines trim trim_start trim_end decimal
resolve_config-insecure_example = resolve_config-insecure cli (replicate 16 7) expected refl refl
