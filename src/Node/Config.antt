-- ===== src/Node/Config.antt =====
-- node/agent/agent.py: the peers in the interface's configuration file, which is the list of its lines,
-- read and written under the file's lock. Every line of the file ends in a line feed.
pub mod Lines
pub mod Scanned
pub mod Block
pub mod Persisted
mod Tests
use Prim.Native.Char.{code}
use vpn_management_panel.Prelude.{
  ◌||◌, ℕ, ◌+◌, String, Bool, true, false, not, ◌&&◌, Option, none, some, List, [], ◌∷◌, ◌++◌, map,
  select, find, leb, ◌==◌, str_eq, same_text, filled, strip, starts_with, before_char, after_char,
  has_char, ◌<>◌, if◌then◌else◌,
}

-- The code of a character's lower case, as far as it is an ASCII letter: the sign of the kelvin has one.
abbrev pub lower_code : ℕ → ℕ
lower_code c = if leb 65 c && leb c 90 then c + 32 else if c == 8490 then 107 else c

-- `text.lower() == word`, for a word in lower case
unfoldable pub lower_is : String → String → Bool
lower_is String.[] String.[] = true
lower_is (String.◌∷◌ c text) (String.◌∷◌ d word) =
    lower_code (code c) == code d && lower_is text word
lower_is _ _ = false

-- `text.split(chr(c))`
unfoldable pub split : ℕ → String → List String
split a String.[] = String.[] ∷ []
split a (String.◌∷◌ c text) =
    let rest = split a text in
    if code c == a
    then String.[] ∷ rest
    else elim rest [ [] ↦ [] | ◌∷◌ first others ↦ String.◌∷◌ c first ∷ others ]

-- A peer of the file; the empty text is a key that is not set.
pub record Entry : Type 0 where
  pub public_key : String
  pub psk_key : String
  pub allowed_ips : List String

abbrev pub new_entry : Entry
new_entry = record { public_key = ""; psk_key = ""; allowed_ips = [] }

-- The dictionary `peers`, latest first, and `current`.
pub record Parse : Type 0 where
  pub peers : List Entry
  pub current : Option Entry

-- `if current and current.get('public_key'): peers[current['public_key']] = current`
unfoldable pub commit : Option Entry → List Entry → List Entry
commit none peers = peers
commit (some entry) peers = if filled entry.public_key then entry ∷ peers else peers

-- `peers.get(key)`
unfoldable pub configured : String → List Entry → Option Entry
configured key = find (λ (e : Entry). str_eq e.public_key key)

-- A line `key = value` of a peer.
unfoldable pub set_field : String → Entry → Entry
unfolding lower_is split
set_field line entry =
    let key = strip (before_char 61 line) in
    let value = strip (after_char 61 line) in
    if lower_is key "publickey"
    then record entry { public_key = value }
    else if lower_is key "presharedkey"
    then record entry { psk_key = value }
    else if lower_is key "allowedips"
    then record entry { allowed_ips = select filled (map strip (split 44 value)) }
    else entry

abbrev pub set_current : String → Option Entry → Option Entry
set_current line none = none
set_current line (some entry) = if has_char 61 line then some (set_field line entry) else some entry

-- The body of the loop of `_configured_peers`.
unfoldable pub parse_line : Parse → String → Parse
unfolding commit set_field
parse_line p raw =
    let line = strip raw in
    if not (filled line)
    then p
    else if str_eq line "[Peer]"
    then record { peers = commit p.current p.peers; current = some new_entry }
    else record p { current = set_current line p.current }

unfoldable pub parse_lines : Parse → List String → Parse
unfolding parse_line
parse_lines p [] = p
parse_lines p (line ∷ lines) = parse_lines (parse_line p line) lines

abbrev pub no_peers : Parse
no_peers = record { peers = []; current = none }

abbrev pub finish : Parse → List Entry
finish p = commit p.current p.peers

-- `_configured_peers`, of a file that exists
unfoldable pub configured_peers : List String → List Entry
unfolding parse_lines
configured_peers lines = finish (parse_lines no_peers lines)

-- The variables of the loops of `_persist_peer` and `_unpersist_peer`.
pub record Scan : Type 0 where
  pub new_lines : List String
  pub peer_buffer : List String
  pub peer_pubkey : Option String
  pub replaced : Bool

abbrev pub start_scan : Scan
start_scan = record { new_lines = []; peer_buffer = []; peer_pubkey = none; replaced = false }

abbrev pub flushed : List String → String → Scan → List String → Scan
flushed block pubkey scan buffer = record {
  new_lines =
      scan.new_lines ++ (if same_text scan.peer_pubkey (some pubkey) then block else buffer);
  peer_buffer = [];
  peer_pubkey = none;
  replaced = if same_text scan.peer_pubkey (some pubkey) then true else scan.replaced;
}

-- `flush_peer_buffer`, with the lines that stand for the peer afterwards: none when it is removed.
unfoldable pub flush_peer_buffer : List String → String → Scan → Scan
flush_peer_buffer block pubkey scan = elim scan.peer_buffer [
  | [] ↦ scan
  | ◌∷◌ first rest ↦ flushed block pubkey scan (first ∷ rest)
]

-- The public key of a buffer after a further line.
abbrev pub key_after : String → Option String → Option String
key_after stripped pubkey =
    if starts_with "PublicKey = " stripped then some (strip (after_char 61 stripped)) else pubkey

-- The body of the loops over the lines.
unfoldable pub scan_line : List String → String → Scan → String → Scan
unfolding flush_peer_buffer starts_with
scan_line block pubkey scan line =
    let stripped = strip line in
    if starts_with "[Peer]" stripped
    then record (flush_peer_buffer block pubkey scan) { peer_buffer = line ∷ [] }
    else elim scan.peer_buffer [
      | [] ↦ record scan { new_lines = scan.new_lines ++ line ∷ [] }
      | ◌∷◌ first rest ↦ record scan {
        peer_buffer = (first ∷ rest) ++ line ∷ [];
        peer_pubkey = key_after stripped scan.peer_pubkey;
      }
    ]

unfoldable pub scan_lines : List String → String → Scan → List String → Scan
unfolding scan_line
scan_lines block pubkey scan [] = scan
scan_lines block pubkey scan (line ∷ lines) =
    scan_lines block pubkey (scan_line block pubkey scan line) lines

-- Where `splitlines` breaks a text.
abbrev pub is_break : ℕ → Bool
is_break a =
    a == 10
    || a == 13
    || a == 11
    || a == 12
    || a == 28
    || a == 29
    || a == 30
    || a == 133
    || a == 8232
    || a == 8233

unfoldable pub has_break : String → Bool
has_break String.[] = false
has_break (String.◌∷◌ c text) = is_break (code c) || has_break text

-- A carriage return is no line of its own before a line feed, which also follows the whole text.
abbrev pub feed_follows : String → Bool
feed_follows String.[] = true
feed_follows (String.◌∷◌ c text) = code c == 10

-- The lines that are read of a text that is written with a line feed after it.
unfoldable pub written_lines : String → List String
written_lines String.[] = String.[] ∷ []
written_lines (String.◌∷◌ c text) =
    let rest = written_lines text in
    if is_break (code c)
    then (if code c == 13 && feed_follows text then rest else String.[] ∷ rest)
    else elim rest [ [] ↦ [] | ◌∷◌ first others ↦ String.◌∷◌ c first ∷ others ]

-- The lines of a peer: what is written of it, as it is read.
unfoldable pub peer_block : String → String → String → List String
unfolding ◌<>◌ written_lines
peer_block pubkey allowed_ip psk_key =
    ""
    ∷ "[Peer]"
    ∷ (written_lines ("PublicKey = " <> pubkey)
        ++ ((if filled psk_key then written_lines ("PresharedKey = " <> psk_key) else [])
            ++ written_lines ("AllowedIPs = " <> (allowed_ip <> "/32"))))

-- `_persist_peer`, on a file that may not exist yet
unfoldable pub persist_peer : String → String → String → Option (List String) → List String
unfolding peer_block scan_lines
persist_peer pubkey allowed_ip psk_key none = peer_block pubkey allowed_ip psk_key
persist_peer pubkey allowed_ip psk_key (some lines) =
    let block = peer_block pubkey allowed_ip psk_key in
    let scan = flush_peer_buffer block pubkey (scan_lines block pubkey start_scan lines) in
    if scan.replaced then scan.new_lines else scan.new_lines ++ block

-- `_unpersist_peer`
unfoldable pub unpersist_peer : String → List String → List String
unfolding scan_lines
unpersist_peer pubkey lines =
    (flush_peer_buffer [] pubkey (scan_lines [] pubkey start_scan lines)).new_lines
