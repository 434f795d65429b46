-- ===== src/Node/Config/Scanned.antt =====
-- The loops over the lines of the configuration, whatever lines they put in a peer's place: what is read
-- of the other peers stays.
use vpn_management_panel.Prelude.{
  String, ◌≡◌, ◌≢◌, refl, sym, ap, ◌∙◌, subst, ◌⊎◌, inl, inr, Bool, true, false, Option, none, some,
  List, [], ◌∷◌, ◌++◌, str_eq, str_eq_iff, same_text, strip, if◌then◌else◌, Bool-cases, All,
}
use vpn_management_panel.Node.Config.{
  Entry, new_entry, Parse, commit, configured, parse_line, parse_lines, no_peers, finish, Scan,
  flush_peer_buffer, key_after, scan_line, scan_lines, start_scan, configured_peers,
}
use vpn_management_panel.Node.Config.Lines.{
  IsPlain, parse_lines-append, next, header, body, before_peers, AgreesOn, AgreesOn-next,
  configured-commit, configured-other,
}

abbrev pub scan_of : List String → List String → Option String → Bool → Scan
scan_of lines buffer pubkey replaced = record {
  new_lines = lines;
  peer_buffer = buffer;
  peer_pubkey = pubkey;
  replaced = replaced;
}

-- A block for a key: reading it leaves what is read of the other keys, and keeps what is held of this one.
pub record IsBlock (key : String) (block : List String) (Held : Bool → Option Entry → Type 0)
    : Type 0 where
  pub others :
      (p : Parse) (other : String)
      → other ≢ key
      → configured other (finish (parse_lines p block)) ≡ configured other (finish p)
  pub own :
      (p : Parse) (replaced : Bool)
      → Held replaced (configured key (finish p))
      → Held true (configured key (finish (parse_lines p block)))
  pub start : Held false none

same_key :
    (key : String) (pubkey : Option String) (c : Entry)
    → AgreesOn pubkey c
    → same_text pubkey (some key) ≡ true
    → c.public_key ≡ key
same_key key none c (inl (p, q)) e = cc
same_key key (some k) c (inl (p, q)) e = cc
same_key key none c (inr p) e = cc
same_key key (some k) c (inr p) e =
    let is : k ≡ c.public_key = cc in sym is ∙ (str_eq_iff k key).0 e

other_key :
    (key : String) (pubkey : Option String) (c : Entry)
    → AgreesOn pubkey c
    → same_text pubkey (some key) ≡ false
    → (c.public_key ≢ key) ⊎ (c.public_key ≡ "")
other_key key pubkey c (inl (p, q)) e = inr q
other_key key none c (inr p) e = inl (λ r. cc)
other_key key (some k) c (inr p) e =
    inl (λ r. let is : k ≡ c.public_key = cc in let hit = (str_eq_iff k key).1 (is ∙ r) in cc)

module _ (key : String) (block : List String) (Held : Bool → Option Entry → Type 0)
    (law : IsBlock key block Held) where
  -- Where a loop stands beside the reader of the same lines.
  pub data Follows : Scan → Parse → Type 0 where
    in_head :
        (lines : List String)
        → parse_lines no_peers lines ≡ no_peers
        → Follows (scan_of lines [] none false) no_peers
    in_peer :
        (lines : List String) (first : String) (rest : List String) (pubkey : Option String)
        (replaced : Bool) (peers : List Entry) (c : Entry)
        → AgreesOn pubkey c
        → parse_lines (parse_lines no_peers lines) (first ∷ rest)
          ≡ record { peers = finish (parse_lines no_peers lines); current = some c }
        → ((other : String)
            → other ≢ key
            → configured other (finish (parse_lines no_peers lines)) ≡ configured other peers)
        → Held replaced (configured key (finish (parse_lines no_peers lines)))
        → Follows
            (scan_of lines (first ∷ rest) pubkey replaced)
            (record { peers = peers; current = some c })

  -- Lines that are read as the peers given, but for the key.
  abbrev pub Written : List String → Bool → List Entry → Type 0
  Written lines replaced peers =
      ((other : String)
        → other ≢ key
        → configured other (configured_peers lines) ≡ configured other peers)
      × Held replaced (configured key (configured_peers lines))

  flushed-Written :
      (lines : List String) (first : String) (rest : List String) (pubkey : Option String)
      (replaced : Bool) (peers : List Entry) (c : Entry)
      → AgreesOn pubkey c
      → parse_lines (parse_lines no_peers lines) (first ∷ rest)
        ≡ record { peers = finish (parse_lines no_peers lines); current = some c }
      → ((other : String)
          → other ≢ key
          → configured other (finish (parse_lines no_peers lines)) ≡ configured other peers)
      → Held replaced (configured key (finish (parse_lines no_peers lines)))
      → Written
          (lines ++ (if same_text pubkey (some key) then block else (first ∷ rest)))
          (if same_text pubkey (some key) then true else replaced)
          (commit (some c) peers)
  unfolding configured_peers
  flushed-Written lines first rest pubkey replaced peers c agree reads others held =
      elim (Bool-cases (same_text pubkey (some key))) [
        | inl same ↦
            let is = same_key key pubkey c agree same in
            let read = ap finish (parse_lines-append no_peers lines block) in
            rw same (
              λ other apart.
                  ap (configured other) read
                  ∙ law.others (parse_lines no_peers lines) other apart
                  ∙ others other apart
                  ∙ sym (configured-other other c peers (inl (λ r. apart (sym r ∙ is)))),
              subst (λ (ps : List Entry). Held true (configured key ps)) (sym read)
                  (law.own (parse_lines no_peers lines) replaced held),
            )
        | inr differs ↦
            let read = ap finish (parse_lines-append no_peers lines (first ∷ rest) ∙ reads) in
            rw differs (
              λ other apart.
                  ap (configured other) read ∙ configured-commit other c _ _ (others other apart),
              subst (λ (o : Option Entry). Held replaced o)
                  (sym (
                    ap (configured key) read
                    ∙ configured-other key c _ (other_key key pubkey c agree differs)))
                  held,
            )
      ]

  -- One line further.
  scan_line-Follows :
      (scan : Scan) (p : Parse) (line : String)
      → Follows scan p
      → IsPlain line
      → Follows (scan_line block key scan line) (parse_line p line)
  unfolding scan_line flush_peer_buffer parse_lines configured configured_peers
  scan_line-Follows scan p line (in_head lines none_yet) (starts, keyed) =
      elim (Bool-cases (str_eq (strip line) "[Peer]")) [
        | inl opens ↦
            let none_read : configured key (finish (parse_lines no_peers lines)) ≡ none =
              ap (λ (q : Parse). configured key (finish q)) none_yet in
            rw (starts ∙ opens, header no_peers line opens)
              (in_peer lines line [] none false [] new_entry (inl (refl, refl))
                (header (parse_lines no_peers lines) line opens)
                (λ other apart. ap (λ (q : Parse). configured other (finish q)) none_yet)
                (subst (λ (o : Option Entry). Held false o) (sym none_read) law.start))
        | inr stays ↦
            rw (starts ∙ stays, before_peers line stays)
              (in_head (lines ++ line ∷ []) (
                parse_lines-append no_peers lines (line ∷ [])
                ∙ ap (λ (q : Parse). parse_line q line) none_yet
                ∙ before_peers line stays))
      ]
  scan_line-Follows scan p line
        (in_peer lines first rest pubkey replaced peers c agree reads others held) (starts, keyed) =
      elim (Bool-cases (str_eq (strip line) "[Peer]")) [
        | inl opens ↦
            let (others', held') =
              flushed-Written lines first rest pubkey replaced peers c agree reads others held in
            rw (starts ∙ opens, header (record { peers = peers; current = some c }) line opens)
              (in_peer (lines ++ (if same_text pubkey (some key) then block else (first ∷ rest)))
                line [] none (if same_text pubkey (some key) then true else replaced)
                (commit (some c) peers) new_entry (inl (refl, refl)) (header _ line opens) others'
                held')
        | inr stays ↦
            rw (starts ∙ stays, body peers c line stays)
              (in_peer lines first (rest ++ line ∷ []) (key_after (strip line) pubkey) replaced
                peers (next (strip line) c) (AgreesOn-next pubkey c line (starts, keyed) agree)
                (parse_lines-append (parse_lines no_peers lines) (first ∷ rest) (line ∷ [])
                  ∙ ap (λ (q : Parse). parse_line q line) reads
                  ∙ body (finish (parse_lines no_peers lines)) c line stays)
                others held)
      ]

  scan_lines-Follows :
      (scan : Scan) (p : Parse) (lines : List String)
      → Follows scan p
      → All IsPlain lines
      → Follows (scan_lines block key scan lines) (parse_lines p lines)
  unfolding scan_lines parse_lines
  scan_lines-Follows scan p [] follows plain = follows
  scan_lines-Follows scan p (line ∷ lines) follows (here, plain) =
      scan_lines-Follows (scan_line block key scan line) (parse_line p line) lines
        (scan_line-Follows scan p line follows here) plain

  -- The last flush.
  flush-Written :
      (scan : Scan) (p : Parse)
      → Follows scan p
      → Written
          (flush_peer_buffer block key scan).new_lines
          (flush_peer_buffer block key scan).replaced
          (finish p)
  unfolding flush_peer_buffer configured_peers configured
  flush-Written scan p (in_head lines none_yet) = (
    λ other apart. ap (λ (q : Parse). configured other (finish q)) none_yet,
    subst (λ (q : Parse). Held false (configured key (finish q))) (sym none_yet) law.start,
  )
  flush-Written scan p (in_peer lines first rest pubkey replaced peers c agree reads others held) =
      flushed-Written lines first rest pubkey replaced peers c agree reads others held

  -- The loop over plain lines and its last flush leave the other peers, and hold what the block gives.
  pub scan-Written :
      (lines : List String)
      → All IsPlain lines
      → Written
          (flush_peer_buffer block key (scan_lines block key start_scan lines)).new_lines
          (flush_peer_buffer block key (scan_lines block key start_scan lines)).replaced
          (configured_peers lines)
  unfolding parse_lines configured_peers
  scan-Written lines plain =
      flush-Written _ _ (scan_lines-Follows start_scan no_peers lines (in_head [] refl) plain)
