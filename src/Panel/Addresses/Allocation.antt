-- ===== src/Panel/Addresses/Allocation.antt =====
-- panel/backend/app/services/devices.py: `allocate_device_ip` against the rows that hold addresses.
use vpn_management_panel.Prelude.{
  String, Bool, true, false, ◌&&◌, ◌||◌, ◌≡◌, refl, sym, ap, ◌∙◌, Option, none, some, List, [], ◌∷◌,
  ◌++◌, All, mem_text, filled, same_text, str_eq_iff, arith, inl, inr, Bool-cases,
}
use vpn_management_panel.Panel.Models.{Device}
use vpn_management_panel.Panel.Errors.{device_ip_pool_exhausted, Result, ok, err}
use vpn_management_panel.Panel.Crypto.{clients, first_free, allocate_ip}
use vpn_management_panel.Panel.Addresses.{reserve, reserving, allocate_device_ip}

-- A row, tombstoned or not, has this non-empty address.
abbrev pub is_held : List Device → String → Bool
is_held [] ip = false
is_held (d ∷ devices) ip = filled ip && same_text d.vpn_ip (some ip) || is_held devices ip

mem_text-reserve :
    (held : Option String) (rest : List String) (ip : String)
    → mem_text ip (reserve held rest) ≡ (filled ip && same_text held (some ip) || mem_text ip rest)
unfolding mem_text filled
mem_text-reserve none rest ip = ground arith
mem_text-reserve (some s) rest ip =
    ground (arith, str_eq_iff s ip, str_eq_iff ip s, str_eq_iff s "", str_eq_iff ip "")

mem_text-reserving :
    (devices : List Device) (ip : String) → mem_text ip (reserving devices) ≡ is_held devices ip
unfolding reserving mem_text
mem_text-reserving [] ip = refl
mem_text-reserving (d ∷ devices) ip =
    mem_text-reserve d.vpn_ip (reserving devices) ip
    ∙ ap (λ b. filled ip && same_text d.vpn_ip (some ip) || b) (mem_text-reserving devices ip)

-- The first address of a list that no row holds, or none where all are held.
abbrev pub IsAllocated : List Device → List String → Option String → Type 0
IsAllocated devices hosts none = All (λ ip. is_held devices ip ≡ true) hosts
IsAllocated devices hosts (some ip) =
    (before : List String) × (after : List String) × (hosts ≡ before ++ ip ∷ after)
    × All (λ x. is_held devices x ≡ true) before
    × (is_held devices ip ≡ false)

later-IsAllocated :
    (devices : List Device) (x : String) (hosts : List String) (found : Option String)
    → is_held devices x ≡ true
    → IsAllocated devices hosts found
    → IsAllocated devices (x ∷ hosts) found
later-IsAllocated devices x hosts none h i = (h, i)
later-IsAllocated devices x hosts (some ip) h (before, after, e, held, free) =
    (x ∷ before, after, ap (λ xs. x ∷ xs) e, (h, held), free)

first_free-IsAllocated :
    (devices : List Device) (hosts : List String)
    → IsAllocated devices hosts (first_free (reserving devices) hosts)
unfolding first_free
first_free-IsAllocated devices [] = tt
first_free-IsAllocated devices (x ∷ hosts) =
    let same = mem_text-reserving devices x in
    elim (Bool-cases (mem_text x (reserving devices))) [
      | inl e ↦ rw e (
          later-IsAllocated devices x hosts (first_free (reserving devices) hosts) (sym same ∙ e)
            (first_free-IsAllocated devices hosts))
      | inr e ↦ rw e ([], hosts, refl, tt, sym same ∙ e)
    ]

abbrev pub answer_of : Option String → Result String
answer_of none = err device_ip_pool_exhausted
answer_of (some ip) = ok ip

-- The allocation answers with the first client address of the subnet that no device holds, tombstoned
-- devices included, and it raises that the pool is exhausted only where every one is held.
pub allocate_device_ip-IsAllocated :
    (hosts : List String) (devices : List Device)
    → (found : Option String) × IsAllocated devices (clients hosts) found
      × (allocate_device_ip hosts devices ≡ answer_of found)
unfolding allocate_device_ip allocate_ip
allocate_device_ip-IsAllocated hosts devices = (
  first_free (reserving devices) (clients hosts),
  first_free-IsAllocated devices (clients hosts),
  ground arith,
)
