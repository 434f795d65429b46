-- ===== src/Node/Interface/Again.antt =====
-- The peers of the file are kept, and a configuration that is asked for again changes nothing.
use vpn_management_panel.Prelude.{ℕ, String, ◌≡◌, false, Option}
use Prim.Native.Char.{Char}
use vpn_management_panel.Node.Interface.{
  InterfaceConfig, split_config_sections, existing_text, configure_interface,
}

module _ (str_of : ℕ → String) (cfg : InterfaceConfig) where
  -- The file after a configuration.
  abbrev pub file_after : Option String → Option String
  file_after file = (configure_interface str_of cfg file).1

  -- What a configuration of a file promises of the file afterwards.
  abbrev pub IsConfigured : Option String → Option String → Type 0
  IsConfigured file after =
      ((split_config_sections (existing_text after)).1
        ≡ (split_config_sections (existing_text file)).1)
      × (configure_interface str_of cfg after ≡ (false, after))
