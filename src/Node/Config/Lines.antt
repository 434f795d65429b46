-- ===== src/Node/Config/Lines.antt =====
-- What the loops over the lines of the configuration do to the peers that are read from it.
use vpn_management_panel.Prelude.{
  String, ◌≡◌, ◌≢◌, refl, sym, ap, ◌∙◌, ◌⊎◌, inl, inr, Bool, true, false, ◌&&◌, Option, none, some,
  List, [], ◌∷◌, ◌++◌, str_eq, str_eq_iff, filled, strip, starts_with, before_char, after_char,
  has_char, if◌then◌else◌, Bool-cases,
}
use vpn_management_panel.Node.Config.{
  Entry, new_entry, Parse, commit, configured, set_field, parse_line, parse_lines, no_peers,
  key_after, lower_is,
}

-- The two loops and the reader agree on what a line is: a peer's header, its public key, or neither.
abbrev pub IsPlain : String → Type 0
IsPlain line =
    let stripped = strip line in
    (starts_with "[Peer]" stripped ≡ str_eq stripped "[Peer]")
    × (starts_with "PublicKey = " stripped ≡ (
        filled stripped
        && has_char 61 stripped
        && lower_is (strip (before_char 61 stripped)) "publickey"))

pub parse_lines-append :
    (p : Parse) (xs ys : List String) → parse_lines p (xs ++ ys) ≡ parse_lines (parse_lines p xs) ys
unfolding parse_lines
parse_lines-append p [] ys = refl
parse_lines-append p (x ∷ xs) ys = parse_lines-append (parse_line p x) xs ys

-- The entry after a further line of its peer.
abbrev pub next : String → Entry → Entry
next line c = if filled line then (if has_char 61 line then set_field line c else c) else c

header_filled : (line : String) → str_eq line "[Peer]" ≡ true → filled line ≡ true
unfolding filled str_eq
header_filled line e = ap filled ((str_eq_iff line "[Peer]").0 e)

pub header :
    (p : Parse) (line : String)
    → str_eq (strip line) "[Peer]" ≡ true
    → parse_line p line ≡ record { peers = commit p.current p.peers; current = some new_entry }
unfolding parse_line
header p line e = let full = header_filled (strip line) e in rw (full, e) refl

pub body :
    (peers : List Entry) (c : Entry) (line : String)
    → str_eq (strip line) "[Peer]" ≡ false
    → parse_line (record { peers = peers; current = some c }) line
      ≡ record { peers = peers; current = some (next (strip line) c) }
unfolding parse_line
body peers c line e = elim (Bool-cases (filled (strip line))) [
  | inr blank ↦ rw blank refl
  | inl full ↦ elim (Bool-cases (has_char 61 (strip line))) [
    | inl has ↦ rw (full, e, has) refl
    | inr has ↦ rw (full, e, has) refl
  ]
]

pub before_peers :
    (line : String) → str_eq (strip line) "[Peer]" ≡ false → parse_line no_peers line ≡ no_peers
unfolding parse_line
before_peers line e = elim (Bool-cases (filled (strip line))) [
  | inr blank ↦ rw blank refl
  | inl full ↦ rw (full, e) refl
]

-- The loops' key of a buffer and the reader's key of its entry.
abbrev pub AgreesOn : Option String → Entry → Type 0
AgreesOn pubkey c = ((pubkey ≡ none) × (c.public_key ≡ "")) ⊎ (pubkey ≡ some c.public_key)

all_three : (a b c : Bool) → (a && b && c) ≡ true → (a ≡ true) × (b ≡ true) × (c ≡ true)
all_three true true true e = (refl, refl, refl)
all_three true true false e = cc
all_three true false c e = cc
all_three false b c e = cc

third_false : (a b c : Bool) → a ≡ true → b ≡ true → (a && b && c) ≡ false → c ≡ false
third_false true true c p q e = e
third_false true false c p q e = cc
third_false false b c p q e = cc

-- The reader's test of a public key's line.
abbrev sets_key : String → Bool
sets_key line =
    filled line && has_char 61 line && lower_is (strip (before_char 61 line)) "publickey"

key_after-hit :
    (line : String) (pubkey : Option String)
    → starts_with "PublicKey = " line ≡ true
    → key_after line pubkey ≡ some (strip (after_char 61 line))
key_after-hit line pubkey e = rw e refl

key_after-miss :
    (line : String) (pubkey : Option String)
    → starts_with "PublicKey = " line ≡ false
    → key_after line pubkey ≡ pubkey
key_after-miss line pubkey e = rw e refl

next-hit :
    (line : String) (c : Entry)
    → sets_key line ≡ true
    → (next line c).public_key ≡ strip (after_char 61 line)
unfolding set_field
next-hit line c e =
    let (full, has, low) =
      all_three (filled line) (has_char 61 line)
        (lower_is (strip (before_char 61 line)) "publickey") e in
    rw (full, has, low) refl

next-miss :
    (line : String) (c : Entry) → sets_key line ≡ false → (next line c).public_key ≡ c.public_key
unfolding set_field
next-miss line c e = elim (Bool-cases (filled line)) [
  | inr blank ↦ rw blank refl
  | inl full ↦ elim (Bool-cases (has_char 61 line)) [
    | inr has ↦ rw (full, has) refl
    | inl has ↦
        let low = third_false (filled line) (has_char 61 line) _ full has e in
        elim (Bool-cases (lower_is (strip (before_char 61 line)) "presharedkey")) [
          | inl psk ↦ rw (full, has, low, psk) refl
          | inr psk ↦ elim (Bool-cases (lower_is (strip (before_char 61 line)) "allowedips")) [
            | inl ips ↦ rw (full, has, low, psk, ips) refl
            | inr ips ↦ rw (full, has, low, psk, ips) refl
          ]
        ]
  ]
]

pub AgreesOn-next :
    (pubkey : Option String) (c : Entry) (line : String)
    → IsPlain line
    → AgreesOn pubkey c
    → AgreesOn (key_after (strip line) pubkey) (next (strip line) c)
unfolding set_field
AgreesOn-next pubkey c line (_, plain) agree = elim (Bool-cases (sets_key (strip line))) [
  | inl hit ↦ inr (
      key_after-hit (strip line) pubkey (plain ∙ hit) ∙ ap some (sym (next-hit (strip line) c hit)))
  | inr miss ↦
      let same = next-miss (strip line) c miss in
      let kept = key_after-miss (strip line) pubkey (plain ∙ miss) in
      elim agree [
        | inl (p, q) ↦ inl (kept ∙ p, same ∙ q)
        | inr p ↦ inr (kept ∙ p ∙ ap some (sym same))
      ]
]

pub configured-commit :
    (key : String) (c : Entry) (xs ys : List Entry)
    → configured key xs ≡ configured key ys
    → configured key (commit (some c) xs) ≡ configured key (commit (some c) ys)
unfolding configured commit
configured-commit key c xs ys e = elim (Bool-cases (filled c.public_key)) [
  | inr blank ↦ rw blank e
  | inl full ↦ elim (Bool-cases (str_eq c.public_key key)) [
    | inl hit ↦ rw (full, hit) refl
    | inr miss ↦ rw (full, miss) e
  ]
]

not_other :
    (key : String) (c : Entry)
    → filled c.public_key ≡ true
    → str_eq c.public_key key ≡ true
    → (c.public_key ≢ key) ⊎ (c.public_key ≡ "")
    → ⊥
unfolding filled str_eq
not_other key c full hit (inl apart) = apart ((str_eq_iff c.public_key key).0 hit)
not_other key c full hit (inr blank) = let both = sym full ∙ ap filled blank in cc

pub configured-other :
    (key : String) (c : Entry) (xs : List Entry)
    → (c.public_key ≢ key) ⊎ (c.public_key ≡ "")
    → configured key (commit (some c) xs) ≡ configured key xs
unfolding configured commit
configured-other key c xs e = elim (Bool-cases (filled c.public_key)) [
  | inr blank ↦ rw blank refl
  | inl full ↦ elim (Bool-cases (str_eq c.public_key key)) [
    | inr miss ↦ rw (full, miss) refl
    | inl hit ↦ absurd (not_other key c full hit e)
  ]
]
