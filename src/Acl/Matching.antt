-- ===== src/Acl/Matching.antt =====
-- common/acl_processor.rs: whether a rule matches a packet, and what that means.
pub mod Meaning
use peer_link.Common.{
  ℕ, Bool, true, false, List, [], ◌∷◌, ◌&&◌, ◌||◌, not, Option, none, some, ◌==◌, leb,
  if◌then◌else◌,
}
use peer_link.Acl.{
  Text, protocol_number, IpAddr, v4, v6, IpCidr, cidr4, cidr6, CidrCrate, FastLookupRule,
  PacketInfo, same_text,
}

abbrev pub is_empty : {A : Type 0} → List A → Bool
is_empty [] = true
is_empty (_ ∷ _) = false

-- `iter().any`
abbrev pub any_of : {A : Type 0} → (A → Bool) → List A → Bool
any_of p [] = false
any_of p (x ∷ xs) = p x || any_of p xs

abbrev pub contains_addr : CidrCrate → IpAddr → IpCidr → Bool
contains_addr cidr (v4 a) (cidr4 address len) = cidr.contains_v4 address len a
contains_addr cidr (v6 a) (cidr6 address len) = cidr.contains_v6 address len a
contains_addr cidr _ _ = false

abbrev pub in_port_range : ℕ → ℕ × ℕ → Bool
in_port_range port (start, end) = leb start port && leb port end

-- No range is configured, or one of them has the value.
abbrev pub empty_or_any : {A : Type 0} → (A → Bool) → List A → Bool
empty_or_any p xs = is_empty xs || any_of p xs

abbrev pub port_matches : Option ℕ → List (ℕ × ℕ) → Bool
port_matches none ranges = true
port_matches (some port) ranges = empty_or_any (in_port_range port) ranges

abbrev pub member : List Text → Text → Bool
member groups g = any_of (same_text g) groups

-- The checks' early returns, in their order.
unfoldable pub rule_matches : CidrCrate → FastLookupRule → PacketInfo → Bool
rule_matches cidr rule packet =
    if not (protocol_number rule.protocol == 5)
      && not (protocol_number rule.protocol == protocol_number packet.protocol)
    then false
    else if not (empty_or_any (contains_addr cidr packet.src_ip) rule.src_ip_ranges)
    then false
    else if not (empty_or_any (contains_addr cidr packet.dst_ip) rule.dst_ip_ranges)
    then false
    else if not (port_matches packet.src_port rule.src_port_ranges)
    then false
    else if not (port_matches packet.dst_port rule.dst_port_ranges)
    then false
    else if not
        (is_empty rule.source_groups || any_of (member rule.source_groups) packet.src_groups)
    then false
    else if not (
        is_empty rule.destination_groups
        || any_of (member rule.destination_groups) packet.dst_groups)
    then false
    else true
