-- ===== src/Panel/Crypto.antt =====
-- panel/backend/app/crypto.py: `allocate_ip`. The host addresses of the subnet, which the standard
-- library's `ipaddress` lists, are a parameter.
use vpn_management_panel.Prelude.{
  String, Option, none, some, List, [], ◌∷◌, mem_text, if◌then◌else◌,
}

-- `hosts[1:]`: the first host is the server's gateway.
abbrev pub clients : List String → List String
clients [] = []
clients (gateway ∷ rest) = rest

-- The loop: the first address that is not in use.
unfoldable pub first_free : List String → List String → Option String
first_free used [] = none
first_free used (ip ∷ rest) =
    let later = first_free used rest in if mem_text ip used then later else some ip

-- `none` is the RuntimeError of an exhausted subnet.
unfoldable pub allocate_ip : List String → List String → Option String
unfolding first_free
allocate_ip hosts used = first_free used (clients hosts)
