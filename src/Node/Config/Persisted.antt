-- ===== src/Node/Config/Persisted.antt =====
-- A peer that is written to the configuration is read from it, one that is removed is not, and the other
-- peers are read as before.
use vpn_management_panel.Prelude.{
  String, ◌≡◌, ◌≢◌, refl, sym, ap, ◌∙◌, inl, inr, Bool, true, Option, none, some, List, [],
  str_eq_iff, filled, ◌<>◌, Bool-cases, All,
}
use vpn_management_panel.Node.Config.{
  Entry, Parse, commit, configured, parse_lines, no_peers, finish, flush_peer_buffer, scan_lines,
  start_scan, configured_peers, peer_block, persist_peer, unpersist_peer,
}
use vpn_management_panel.Node.Config.Lines.{IsPlain, parse_lines-append, configured-other}
use vpn_management_panel.Node.Config.Scanned.{IsBlock, scan-Written}
use vpn_management_panel.Node.Config.Block.{IsClean, entry_of, block-read}

module _ (key ip psk : String) (full : filled key ≡ true) (clean : IsClean key)
    (clean_ip : IsClean (ip <> "/32")) (clean_psk : filled psk ≡ true → IsClean psk) where
  -- Once a peer is replaced, it is the one that is written.
  abbrev Replaced : Bool → Option Entry → Type 0
  Replaced replaced found = replaced ≡ true → found ≡ some (entry_of key ip psk)

  block-others :
      (p : Parse) (other : String)
      → other ≢ key
      → configured other (finish (parse_lines p (peer_block key ip psk)))
        ≡ configured other (finish p)
  block-others p other apart =
      ap (λ (q : Parse). configured other (finish q))
        (block-read p key ip psk clean clean_ip clean_psk)
      ∙ configured-other other (entry_of key ip psk) (finish p) (inl (λ r. apart (sym r)))

  block-own :
      (p : Parse)
      → configured key (finish (parse_lines p (peer_block key ip psk))) ≡ some (entry_of key ip psk)
  unfolding configured commit
  block-own p =
      ap (λ (q : Parse). configured key (finish q))
        (block-read p key ip psk clean clean_ip clean_psk)
      ∙ rw (full, (str_eq_iff key key).1 refl) refl

  peer_block-IsBlock : IsBlock key (peer_block key ip psk) Replaced
  peer_block-IsBlock = record {
    others = block-others;
    own = λ p replaced held done. block-own p;
    start = λ e. cc;
  }

  -- A peer that is written to a configuration of plain lines is read from it with its preshared key
  -- and its address, and every other peer is read as before. The key, the preshared key and the
  -- address are texts of one line without space at their ends.
  pub persist_peer-configured :
      (lines : List String)
      → All IsPlain lines
      → (configured key (configured_peers (persist_peer key ip psk (some lines)))
          ≡ some (entry_of key ip psk))
        × ((other : String)
            → other ≢ key
            → configured other (configured_peers (persist_peer key ip psk (some lines)))
              ≡ configured other (configured_peers lines))
  unfolding persist_peer configured_peers commit
  persist_peer-configured lines plain =
      let block = peer_block key ip psk in
      let (others, held) = scan-Written key block Replaced peer_block-IsBlock lines plain in
      let scan = flush_peer_buffer block key (scan_lines block key start_scan lines) in
      elim (Bool-cases scan.replaced) [
        | inl replaced ↦ rw replaced (held replaced, others)
        | inr absent ↦
            let read = ap finish (parse_lines-append no_peers scan.new_lines block) in
            rw absent (
              ap (configured key) read ∙ block-own (parse_lines no_peers scan.new_lines),
              λ other apart.
                  ap (configured other) read
                  ∙ block-others (parse_lines no_peers scan.new_lines) other apart
                  ∙ others other apart,
            )
      ]

-- A peer that is removed from a configuration of plain lines is not read from it, and every other peer is
-- read as before.
pub unpersist_peer-configured :
    (key : String) (lines : List String)
    → All IsPlain lines
    → (configured key (configured_peers (unpersist_peer key lines)) ≡ none)
      × ((other : String)
          → other ≢ key
          → configured other (configured_peers (unpersist_peer key lines))
            ≡ configured other (configured_peers lines))
unfolding unpersist_peer parse_lines
unpersist_peer-configured key lines plain =
    let law : IsBlock key [] (λ replaced found. found ≡ none) = record {
      others = λ p other apart. refl;
      own = λ p replaced held. held;
      start = refl;
    } in
    let (others, held) = scan-Written key [] (λ replaced found. found ≡ none) law lines plain in
    (held, others)
