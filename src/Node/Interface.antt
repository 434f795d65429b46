-- ===== src/Node/Interface.antt =====
-- node/agent/agent.py: the interface section of the configuration file, which PUT /interface writes. The
-- file is its text, `str_of` is the text of a number.
pub mod Again
mod Tests
use vpn_management_panel.Prelude.{
  ℕ, String, Bool, true, false, not, Option, none, some, starts_with, filled, str_eq, ◌<>◌,
  if◌then◌else◌,
}

-- `InterfaceConfig`
pub record InterfaceConfig : Type 0 where
  pub private_key : String
  pub address : String
  pub listen_port : ℕ
  pub jc : ℕ
  pub jmin : ℕ
  pub jmax : ℕ
  pub s1 : ℕ
  pub s2 : ℕ
  pub s3 : ℕ
  pub s4 : ℕ
  pub h1 : String
  pub h2 : String
  pub h3 : String
  pub h4 : String
  pub i1 : String
  pub i2 : String
  pub i3 : String
  pub i4 : String
  pub i5 : String
  pub post_up : String
  pub post_down : String

-- `text.partition('[Peer]')`, when the text has it: what comes before, and the text from there on.
unfoldable pub partition_peers : String → Option (String × String)
partition_peers String.[] = none
partition_peers (String.◌∷◌ c text) =
    let rest = partition_peers text in
    if starts_with "[Peer]" (String.◌∷◌ c text) then some ("", String.◌∷◌ c text) else elim rest [
      | none ↦ none
      | some (interface_part, peers) ↦ some (String.◌∷◌ c interface_part, peers)
    ]

unfoldable pub split_config_sections : String → String × String
unfolding partition_peers ◌<>◌
split_config_sections config_text = elim (partition_peers config_text) [
  | none ↦ (config_text, "")
  | some (interface_part, peers) ↦ (interface_part, "\n" <> peers)
]

-- A line of the section, and one that is left out when there is no value.
unfoldable pub config_line : String → String → String
unfolding ◌<>◌
config_line key val = key <> " = " <> val <> "\n"

unfoldable pub optional_line : String → String → String
unfolding config_line filled
optional_line key val = if filled val then config_line key val else ""

unfoldable pub build_interface_block : (ℕ → String) → InterfaceConfig → String
unfolding config_line optional_line ◌<>◌
build_interface_block str_of cfg =
    "[Interface]\n"
    <> config_line "PrivateKey" cfg.private_key
    <> config_line "Address" cfg.address
    <> config_line "ListenPort" (str_of cfg.listen_port)
    <> config_line "Jc" (str_of cfg.jc)
    <> config_line "Jmin" (str_of cfg.jmin)
    <> config_line "Jmax" (str_of cfg.jmax)
    <> config_line "S1" (str_of cfg.s1)
    <> config_line "S2" (str_of cfg.s2)
    <> config_line "S3" (str_of cfg.s3)
    <> config_line "S4" (str_of cfg.s4)
    <> config_line "H1" cfg.h1
    <> config_line "H2" cfg.h2
    <> config_line "H3" cfg.h3
    <> config_line "H4" cfg.h4
    <> optional_line "I1" cfg.i1
    <> optional_line "I2" cfg.i2
    <> optional_line "I3" cfg.i3
    <> optional_line "I4" cfg.i4
    <> optional_line "I5" cfg.i5
    <> optional_line "PostUp" cfg.post_up
    <> optional_line "PostDown" cfg.post_down

-- The text of the file, which is empty when there is none.
abbrev pub existing_text : Option String → String
existing_text none = ""
existing_text (some text) = text

-- The text that the file must have.
unfoldable pub desired_text : String → String → String
unfolding split_config_sections ◌<>◌
desired_text interface_block existing = interface_block <> (split_config_sections existing).1

-- Whether the live interface is updated, and the file afterwards.
unfoldable pub configure_interface :
    (ℕ → String) → InterfaceConfig → Option String → Bool × Option String
unfolding build_interface_block desired_text str_eq
configure_interface str_of cfg file =
    let desired = desired_text (build_interface_block str_of cfg) (existing_text file) in
    if str_eq (existing_text file) desired then (false, file) else (true, some desired)
