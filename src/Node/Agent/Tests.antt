-- ===== src/Node/Agent/Tests.antt =====
-- An interface that takes every command, and a node with one peer.
use vpn_management_panel.Prelude.{
  ℕ, suc, String, ◌≡◌, refl, true, List, [], ◌∷◌, none, some, All, strip, filled, starts_with,
  before_char, after_char, has_char, ◌<>◌, str_eq, text_or,
}
use vpn_management_panel.Node.Config.{
  has_break, written_lines, configured, configured_peers, persist_peer, lower_is,
}
use vpn_management_panel.Node.Config.Lines.{IsPlain}
use vpn_management_panel.Node.Config.Block.{IsClean}
use vpn_management_panel.Node.Agent.{
  SyncPeerRequest, Awg, Agent, http_error, sync_peer, delete_peer, status,
}
use vpn_management_panel.Node.Agent.Peers.{Tells, sync_peer-Tells}

-- It counts the commands and shows one peer.
abbrev counting : Awg ℕ
counting = record {
  show = λ n.
      some
        (record { public_key = "bGFwdG9w"; allowed_ips = "10.8.0.2/32" ∷ []; psk_key = none } ∷ []);
  set_peer = λ key ip psk n. (true, suc n);
  remove_peer = λ key n. (true, suc n);
}

abbrev peer_lines : List String
peer_lines = "[Interface]" ∷ "[Peer]" ∷ "PublicKey = cGhvbmU=" ∷ "AllowedIPs = 10.8.0.3/32" ∷ []

abbrev node : Agent ℕ
node = record { kernel = 0; config = some peer_lines }

abbrev laptop : SyncPeerRequest
laptop = record { public_key = "bGFwdG9w"; allowed_ip = "10.8.0.9"; psk_key = some "new" }

-- The laptop's key is shown once its peer is put.
shown_key :
    status counting (sync_peer counting laptop node).1
    ≡ some (
        record { public_key = "bGFwdG9w"; allowed_ips = "10.8.0.2/32" ∷ []; psk_key = some "new" }
        ∷ [])
unfolding written_lines sync_peer status persist_peer configured configured_peers starts_with
    after_char before_char filled strip str_eq text_or lower_is has_char
shown_key = refl

-- A key of less than 32 bytes is refused before awg is asked.
short_key :
    delete_peer counting (λ key. some (7 ∷ [])) (λ raw. "cGhvbmU=") "cGhvbmU" node
    ≡ (http_error 400, node)
unfolding delete_peer
short_key = refl

abbrev raw_key : List ℕ
raw_key =
    7 ∷ 7 ∷ 7 ∷ 7 ∷ 7 ∷ 7 ∷ 7 ∷ 7 ∷ 7 ∷ 7 ∷ 7 ∷ 7 ∷ 7 ∷ 7 ∷ 7 ∷ 7 ∷ 7 ∷ 7 ∷ 7 ∷ 7 ∷ 7 ∷ 7 ∷ 7 ∷ 7
    ∷ 7 ∷ 7 ∷ 7 ∷ 7 ∷ 7 ∷ 7 ∷ 7 ∷ 7 ∷ []

-- Without a configuration a peer leaves the interface, and the answer is an error.
not_configured :
    delete_peer counting
      (λ key. some raw_key)
      (λ raw. "cGhvbmU=")
      "cGhvbmU"
      (record node { config = none })
    ≡ (http_error 500, record { kernel = 1; config = none })
unfolding delete_peer
not_configured = refl

peer_lines-IsPlain : All IsPlain peer_lines
unfolding starts_with filled has_char lower_is before_char strip str_eq
peer_lines-IsPlain = ((refl, refl), ((refl, refl), ((refl, refl), ((refl, refl), tt))))

laptop_full : filled "bGFwdG9w" ≡ true
unfolding filled
laptop_full = refl

key-IsClean : IsClean "bGFwdG9w"
unfolding has_break
key-IsClean = record { left = refl; right = refl; not_blank = refl; one_line = refl }

address-IsClean : IsClean ("10.8.0.9" <> "/32")
unfolding ◌<>◌ has_break
address-IsClean = record { left = refl; right = refl; not_blank = refl; one_line = refl }

psk-IsClean : IsClean (text_or (some "new") "")
unfolding text_or filled has_break
psk-IsClean = record { left = refl; right = refl; not_blank = refl; one_line = refl }

sync_peer-Tells_example : Tells laptop node peer_lines (sync_peer counting laptop node)
sync_peer-Tells_example =
    sync_peer-Tells counting laptop node peer_lines refl peer_lines-IsPlain laptop_full key-IsClean
      address-IsClean (λ e. psk-IsClean)
