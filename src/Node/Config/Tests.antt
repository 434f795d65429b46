-- ===== src/Node/Config/Tests.antt =====
-- A configuration with two peers.
use vpn_management_panel.Prelude.{
  true, String, ◌≡◌, ◌≢◌, refl, List, [], ◌∷◌, none, some, All, strip, filled, starts_with,
  before_char, after_char, has_char, ◌<>◌, str_eq,
}
use vpn_management_panel.Node.Config.{
  has_break, written_lines, configured, configured_peers, persist_peer, unpersist_peer, lower_is,
}
use vpn_management_panel.Node.Config.Lines.{IsPlain}
use vpn_management_panel.Node.Config.Block.{IsClean, entry_of}
use vpn_management_panel.Node.Config.Persisted.{persist_peer-configured, unpersist_peer-configured}

abbrev sample_config : List String
sample_config =
    "[Interface]" ∷ "Address = 10.8.0.1/24" ∷ "" ∷ "[Peer]" ∷ "PublicKey = bGFwdG9w"
    ∷ "PresharedKey = old" ∷ "AllowedIPs = 10.8.0.2/32" ∷ "" ∷ "[Peer]" ∷ "PublicKey = cGhvbmU="
    ∷ "AllowedIPs = 10.8.0.3/32" ∷ []

sample_config-IsPlain : All IsPlain sample_config
unfolding starts_with filled has_char lower_is before_char strip str_eq
sample_config-IsPlain = (
  (refl, refl),
  (
    (refl, refl),
    (
      (refl, refl),
      (
        (refl, refl),
        (
          (refl, refl),
          (
            (refl, refl),
            ((refl, refl), ((refl, refl), ((refl, refl), ((refl, refl), ((refl, refl), tt))))),
          ),
        ),
      ),
    ),
  ),
)

laptop-IsClean : IsClean "bGFwdG9w"
unfolding has_break
laptop-IsClean = record { left = refl; right = refl; not_blank = refl; one_line = refl }

address-IsClean : IsClean ("10.8.0.9" <> "/32")
unfolding ◌<>◌ has_break
address-IsClean = record { left = refl; right = refl; not_blank = refl; one_line = refl }

new-IsClean : IsClean "new"
unfolding has_break
new-IsClean = record { left = refl; right = refl; not_blank = refl; one_line = refl }

-- The file after the laptop's peer is written again: its block is replaced.
replaced : persist_peer "bGFwdG9w" "10.8.0.9" "new" (some sample_config) ≡ (
    "[Interface]" ∷ "Address = 10.8.0.1/24" ∷ "" ∷ "" ∷ "[Peer]" ∷ "PublicKey = bGFwdG9w"
    ∷ "PresharedKey = new" ∷ "AllowedIPs = 10.8.0.9/32" ∷ "[Peer]" ∷ "PublicKey = cGhvbmU="
    ∷ "AllowedIPs = 10.8.0.3/32" ∷ [])
unfolding written_lines persist_peer starts_with after_char filled strip str_eq
replaced = refl

laptop_full : filled "bGFwdG9w" ≡ true
unfolding filled
laptop_full = refl

persist_peer-configured_example :
    (configured "bGFwdG9w"
        (configured_peers (persist_peer "bGFwdG9w" "10.8.0.9" "new" (some sample_config)))
      ≡ some (entry_of "bGFwdG9w" "10.8.0.9" "new"))
    × ((other : String)
        → other ≢ "bGFwdG9w"
        → configured other
            (configured_peers (persist_peer "bGFwdG9w" "10.8.0.9" "new" (some sample_config)))
          ≡ configured other (configured_peers sample_config))
persist_peer-configured_example =
    persist_peer-configured "bGFwdG9w" "10.8.0.9" "new" laptop_full laptop-IsClean address-IsClean
      (λ full. new-IsClean) sample_config sample_config-IsPlain

unpersist_peer-configured_example :
    (configured "cGhvbmU=" (configured_peers (unpersist_peer "cGhvbmU=" sample_config)) ≡ none)
    × ((other : String)
        → other ≢ "cGhvbmU="
        → configured other (configured_peers (unpersist_peer "cGhvbmU=" sample_config))
          ≡ configured other (configured_peers sample_config))
unpersist_peer-configured_example =
    unpersist_peer-configured "cGhvbmU=" sample_config sample_config-IsPlain

-- A key with a line feed in it is written on two lines.
broken_key : written_lines "PublicKey = a\nb" ≡ "PublicKey = a" ∷ "b" ∷ []
unfolding written_lines
broken_key = refl

-- A carriage return before the line feed is no further line.
returned_key : written_lines "PublicKey = a\r\nb\r" ≡ "PublicKey = a" ∷ "b" ∷ []
unfolding written_lines
returned_key = refl
