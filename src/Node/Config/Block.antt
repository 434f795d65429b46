-- ===== src/Node/Config/Block.antt =====
-- The lines that are written for a peer, as they are read.
use vpn_management_panel.Prelude.{
  String, ◌≡◌, refl, sym, ap, ◌∙◌, inl, inr, true, false, not, some, List, map, select, str_eq,
  str_eq_iff, filled, strip, lstrip, rstrip, is_blank, starts_with, before_char, after_char,
  has_char, ◌<>◌, Bool-cases, false, [], ◌∷◌,
}
use Prim.Native.Char.{code}
use vpn_management_panel.Node.Config.{
  Entry, new_entry, Parse, set_field, split, parse_line, parse_lines, finish, peer_block, is_break,
  has_break, written_lines,
}
use vpn_management_panel.Node.Config.Lines.{next, body}

-- A text of one line without space at either end, and not empty.
pub record IsClean (t : String) : Type 0 where
  pub left : lstrip t ≡ t
  pub right : rstrip t ≡ t
  pub not_blank : is_blank t ≡ false
  pub one_line : has_break t ≡ false

not_header :
    (first line : String)
    → starts_with first line ≡ true
    → starts_with first "[Peer]" ≡ false
    → str_eq line "[Peer]" ≡ false
not_header first line starts differs = elim (Bool-cases (str_eq line "[Peer]")) [
  | inr e ↦ e
  | inl e ↦
      let is : line ≡ "[Peer]" = (str_eq_iff line "[Peer]").0 e in
      let both = sym starts ∙ ap (starts_with first) is ∙ differs in cc
]

filled_start :
    (first line : String)
    → starts_with first line ≡ true
    → starts_with first "" ≡ false
    → filled line ≡ true
unfolding filled
filled_start first line starts differs = elim (Bool-cases (str_eq line "")) [
  | inr e ↦ rw e refl
  | inl e ↦
      let is : line ≡ "" = (str_eq_iff line "").0 e in
      let both = sym starts ∙ ap (starts_with first) is ∙ differs in cc
]

-- A space before a clean text is stripped, and the end of a line that is one is not.
strip-space : (t : String) → IsClean t → strip (" " <> t) ≡ t
unfolding strip ◌<>◌
strip-space t clean = rw (clean.left, clean.right) refl

strip-public_key : (t : String) → IsClean t → strip ("PublicKey = " <> t) ≡ "PublicKey = " <> t
unfolding strip ◌<>◌
strip-public_key t clean = rw (clean.not_blank, clean.right) refl

strip-preshared_key :
    (t : String) → IsClean t → strip ("PresharedKey = " <> t) ≡ "PresharedKey = " <> t
unfolding strip ◌<>◌
strip-preshared_key t clean = rw (clean.not_blank, clean.right) refl

strip-allowed_ips : (t : String) → IsClean t → strip ("AllowedIPs = " <> t) ≡ "AllowedIPs = " <> t
unfolding strip ◌<>◌
strip-allowed_ips t clean = rw (clean.not_blank, clean.right) refl

-- What the three lines set.
next-public_key :
    (c : Entry) (t : String)
    → IsClean t
    → next ("PublicKey = " <> t) c ≡ record c { public_key = t }
unfolding ◌<>◌ has_char set_field before_char after_char strip starts_with
next-public_key c t clean =
    let full = filled_start "P" ("PublicKey = " <> t) refl refl in
    let value = strip-space t clean in rw (full, value) refl

next-preshared_key :
    (c : Entry) (t : String)
    → IsClean t
    → next ("PresharedKey = " <> t) c ≡ record c { psk_key = t }
unfolding ◌<>◌ has_char set_field before_char after_char strip starts_with
next-preshared_key c t clean =
    let full = filled_start "P" ("PresharedKey = " <> t) refl refl in
    let value = strip-space t clean in rw (full, value) refl

-- The addresses that are read of a text.
abbrev pub addresses : String → List String
addresses t = select filled (map strip (split 44 t))

next-allowed_ips :
    (c : Entry) (t : String)
    → IsClean t
    → next ("AllowedIPs = " <> t) c ≡ record c { allowed_ips = addresses t }
unfolding ◌<>◌ has_char set_field before_char after_char strip starts_with
next-allowed_ips c t clean =
    let full = filled_start "A" ("AllowedIPs = " <> t) refl refl in
    let value = strip-space t clean in rw (full, value) refl

-- A line of a peer that starts with a text that the header does not start with.
line-read :
    (first line : String) (peers : List Entry) (c : Entry)
    → strip line ≡ line
    → starts_with first line ≡ true
    → starts_with first "[Peer]" ≡ false
    → parse_line (record { peers = peers; current = some c }) line
      ≡ record { peers = peers; current = some (next line c) }
line-read first line peers c same starts differs =
    let apart : str_eq (strip line) "[Peer]" ≡ false =
      ap (λ (t : String). str_eq t "[Peer]") same ∙ not_header first line starts differs in
    body peers c line apart
    ∙ ap (λ (t : String). record { peers = peers; current = some (next t c) }) same

abbrev pub entry_of : String → String → String → Entry
entry_of key ip psk = record {
  public_key = key;
  psk_key = psk;
  allowed_ips = addresses (ip <> "/32");
}

abbrev opened : Parse → String → Parse
opened p key = record { peers = finish p; current = some (record new_entry { public_key = key }) }

header-read :
    (p : Parse)
    → parse_line (parse_line p "") "[Peer]" ≡ record { peers = finish p; current = some new_entry }
unfolding parse_line filled strip str_eq
header-read p = refl

opened-read :
    (p : Parse) (key : String)
    → IsClean key
    → parse_line (parse_line (parse_line p "") "[Peer]") ("PublicKey = " <> key) ≡ opened p key
unfolding starts_with ◌<>◌
opened-read p key clean =
    ap (λ (q : Parse). parse_line q ("PublicKey = " <> key)) (header-read p)
    ∙ line-read "Pu" ("PublicKey = " <> key) (finish p) new_entry (strip-public_key key clean) refl
        refl
    ∙ ap (λ (c : Entry). record { peers = finish p; current = some c })
        (next-public_key new_entry key clean)

psk-read :
    (p : Parse) (key psk : String)
    → IsClean psk
    → parse_line (opened p key) ("PresharedKey = " <> psk) ≡ record {
      peers = finish p;
      current = some (record new_entry { public_key = key; psk_key = psk });
    }
unfolding starts_with ◌<>◌
psk-read p key psk clean =
    line-read "Pr" ("PresharedKey = " <> psk) (finish p) (record new_entry { public_key = key })
      (strip-preshared_key psk clean) refl refl
    ∙ ap (λ (c : Entry). record { peers = finish p; current = some c })
        (next-preshared_key (record new_entry { public_key = key }) psk clean)

ips-read :
    (peers : List Entry) (c : Entry) (t : String)
    → IsClean t
    → parse_line (record { peers = peers; current = some c }) ("AllowedIPs = " <> t)
      ≡ record { peers = peers; current = some (record c { allowed_ips = addresses t }) }
unfolding starts_with ◌<>◌
ips-read peers c t clean =
    line-read "A" ("AllowedIPs = " <> t) peers c (strip-allowed_ips t clean) refl refl
    ∙ ap (λ (c : Entry). record { peers = peers; current = some c }) (next-allowed_ips c t clean)

-- A text without a break is read as the line that it is.
written_lines-one_line : (t : String) → has_break t ≡ false → written_lines t ≡ t ∷ []
unfolding written_lines has_break
written_lines-one_line String.[] e = refl
written_lines-one_line (String.◌∷◌ c t) e = elim (Bool-cases (is_break (code c))) [
  | inl breaks ↦
      let hit : has_break (String.◌∷◌ c t) ≡ true = rw breaks refl in
      let both : true ≡ false = sym hit ∙ e in cc
  | inr apart ↦
      let rest : has_break t ≡ false = sym (rw apart refl) ∙ e in
      rw (apart, written_lines-one_line t rest) refl
]

written_lines-public_key :
    (t : String) → IsClean t → written_lines ("PublicKey = " <> t) ≡ ("PublicKey = " <> t) ∷ []
unfolding ◌<>◌ has_break
written_lines-public_key t clean = written_lines-one_line ("PublicKey = " <> t) clean.one_line

written_lines-preshared_key :
    (t : String)
    → IsClean t
    → written_lines ("PresharedKey = " <> t) ≡ ("PresharedKey = " <> t) ∷ []
unfolding ◌<>◌ has_break
written_lines-preshared_key t clean = written_lines-one_line ("PresharedKey = " <> t) clean.one_line

written_lines-allowed_ips :
    (t : String) → IsClean t → written_lines ("AllowedIPs = " <> t) ≡ ("AllowedIPs = " <> t) ∷ []
unfolding ◌<>◌ has_break
written_lines-allowed_ips t clean = written_lines-one_line ("AllowedIPs = " <> t) clean.one_line

-- An empty preshared key is not written.
blank_psk : (psk : String) → filled psk ≡ false → psk ≡ ""
unfolding filled
blank_psk psk e = elim (Bool-cases (str_eq psk "")) [
  | inl h ↦ (str_eq_iff psk "").0 h
  | inr h ↦ let hit : not (str_eq psk "") ≡ true = ap not h in cc
]

pub block-read :
    (p : Parse) (key ip psk : String)
    → IsClean key
    → IsClean (ip <> "/32")
    → (filled psk ≡ true → IsClean psk)
    → parse_lines p (peer_block key ip psk)
      ≡ record { peers = finish p; current = some (entry_of key ip psk) }
unfolding peer_block parse_lines
block-read p key ip psk clean clean_ip clean_psk =
    let rest =
      ips-read (finish p) (record new_entry { public_key = key; psk_key = psk }) (ip <> "/32")
        clean_ip in
    let key_line = written_lines-public_key key clean in
    let ip_line = written_lines-allowed_ips (ip <> "/32") clean_ip in
    elim (Bool-cases (filled psk)) [
      | inl full ↦
          rw (full, key_line, ip_line, written_lines-preshared_key psk (clean_psk full))
            (ap
                (λ (q : Parse).
                  parse_line (parse_line q ("PresharedKey = " <> psk))
                    ("AllowedIPs = " <> (ip <> "/32")))
                (opened-read p key clean)
              ∙ ap (λ (q : Parse). parse_line q ("AllowedIPs = " <> (ip <> "/32")))
                  (psk-read p key psk (clean_psk full))
              ∙ rest)
      | inr blank ↦
          rw (blank, key_line, ip_line)
            (ap (λ (q : Parse). parse_line q ("AllowedIPs = " <> (ip <> "/32")))
                (opened-read p key clean)
              ∙ ips-read (finish p) (record new_entry { public_key = key }) (ip <> "/32") clean_ip
              ∙ ap
                  (λ (t : String). record {
                    peers = finish p;
                    current = some (record {
                      public_key = key;
                      psk_key = t;
                      allowed_ips = addresses (ip <> "/32");
                    });
                  })
                  (sym (blank_psk psk blank)))
    ]
