-- ===== src/Acl/Matching/Meaning.antt =====
-- common/acl_processor.rs: what it means that a rule matches a packet.
use peer_link.Common.{
  ℕ, ◌≤◌, ◌≡◌, ◌↔◌, ◌⊎◌, inl, inr, refl, Bool, true, false, List, [], ◌∷◌, ◌&&◌, ◌||◌, not, Option,
  none, some, ==_iff, arith, if◌then◌else◌,
}
use peer_link.Acl.{
  Text, protocol_number, IpAddr, IpCidr, CidrCrate, FastLookupRule, PacketInfo, same_text,
}
use peer_link.Acl.Matching.{
  is_empty, any_of, contains_addr, in_port_range, empty_or_any, port_matches, member, rule_matches,
}

-- One of the elements.
abbrev pub OneOf : {A : Type 0} → (A → Type 0) → List A → Type 0
OneOf P [] = ¬ Unit {0}
OneOf P (x ∷ xs) = P x ⊎ OneOf P xs

-- There are no elements, or one of them is meant.
abbrev pub NoneOrOneOf : {A : Type 0} → (A → Type 0) → List A → Type 0
NoneOrOneOf P xs = (xs ≡ []) ⊎ OneOf P xs

abbrev pub PortMeant : Option ℕ → List (ℕ × ℕ) → Type 0
PortMeant none ranges = Unit {0}
PortMeant (some port) ranges = NoneOrOneOf (λ r. (r.0 ≤ port) × (port ≤ r.1)) ranges

-- What a rule asks of a packet: its protocol, unless the rule is for any; and of the addresses, the
-- ports that the packet has and the groups of either end, that the rule lists none, or one that fits.
pub record Matches (cidr : CidrCrate) (rule : FastLookupRule) (packet : PacketInfo) : Type 0 where
  pub same_protocol :
      (protocol_number rule.protocol ≡ 5)
      ⊎ (protocol_number rule.protocol ≡ protocol_number packet.protocol)
  pub from_range : NoneOrOneOf (λ c. contains_addr cidr packet.src_ip c ≡ true) rule.src_ip_ranges
  pub to_range : NoneOrOneOf (λ c. contains_addr cidr packet.dst_ip c ≡ true) rule.dst_ip_ranges
  pub from_port : PortMeant packet.src_port rule.src_port_ranges
  pub to_port : PortMeant packet.dst_port rule.dst_port_ranges
  pub from_group :
      (rule.source_groups ≡ [])
      ⊎ OneOf (λ g. OneOf (λ h. same_text g h ≡ true) rule.source_groups) packet.src_groups
  pub to_group :
      (rule.destination_groups ≡ [])
      ⊎ OneOf (λ g. OneOf (λ h. same_text g h ≡ true) rule.destination_groups) packet.dst_groups

-- A test decides a predicate.
abbrev Decides : {A : Type 0} → (A → Bool) → (A → Type 0) → Type 0
Decides {A = A} p P = (x : A) → (p x ≡ true) ↔ P x

or_iff :
    {X Y : Type 0} (a b : Bool) → ((a ≡ true) ↔ X) → ((b ≡ true) ↔ Y) → (a || b ≡ true) ↔ (X ⊎ Y)
or_iff true b x y = ((λ _. inl (x.0 refl)), λ _. refl)
or_iff false b x y = ((λ e. inr (y.0 e)), λ h. elim h [ inl a ↦ cc (x.1 a) | inr c ↦ y.1 c ])

any_of_iff :
    {A : Type 0} (p : A → Bool) (P : A → Type 0) (xs : List A)
    → Decides p P
    → (any_of p xs ≡ true) ↔ OneOf P xs
any_of_iff p P [] d = ((λ e. cc e), λ no. absurd (no tt))
any_of_iff p P (x ∷ xs) d = or_iff (p x) (any_of p xs) (d x) (any_of_iff p P xs d)

empty_or_iff :
    {A : Type 0} {X : Type 0} (xs : List A) (b : Bool)
    → ((b ≡ true) ↔ X)
    → (is_empty xs || b ≡ true) ↔ ((xs ≡ []) ⊎ X)
empty_or_iff [] b d = ((λ e. inl refl), λ a. refl)
empty_or_iff (x ∷ xs) b d = ((λ e. inr (d.0 e)), λ a. elim a [ inl e ↦ cc e | inr y ↦ d.1 y ])

in_port_range-Decides : (port : ℕ) → Decides (in_port_range port) (λ r. (r.0 ≤ port) × (port ≤ r.1))
in_port_range-Decides port (a, b) =
    ((λ e. (ground (arith, e), ground (arith, e))), λ h. ground (arith, h.0, h.1))

port_matches_iff :
    (port : Option ℕ) (ranges : List (ℕ × ℕ))
    → (port_matches port ranges ≡ true) ↔ PortMeant port ranges
port_matches_iff none ranges = ((λ e. tt), λ a. refl)
port_matches_iff (some port) ranges =
    empty_or_iff ranges _ (any_of_iff (in_port_range port) _ ranges (in_port_range-Decides port))

-- The groups of an end: none is listed, or the packet has one of them.
group_iff :
    (listed groups : List Text)
    → (is_empty listed || any_of (member listed) groups ≡ true)
      ↔ ((listed ≡ []) ⊎ OneOf (λ g. OneOf (λ h. same_text g h ≡ true) listed) groups)
group_iff listed groups = empty_or_iff listed _ (
    any_of_iff (member listed) _ groups
      (λ g. any_of_iff (same_text g) _ listed (λ h. ((λ e. e), λ e. e))))

-- An early return, and what comes after it.
guard :
    {X R : Type 0} (x rest : Bool)
    → ((x ≡ true) ↔ X)
    → ((rest ≡ true) ↔ R)
    → ((if not x then false else rest) ≡ true) ↔ (X × R)
guard true rest d r = ((λ e. (d.0 refl, r.0 e)), λ h. r.1 h.1)
guard false rest d r = ((λ e. cc e), λ h. cc (d.1 h.0))

guard_protocol :
    {X Y R : Type 0} (x y rest : Bool)
    → ((x ≡ true) ↔ X)
    → ((y ≡ true) ↔ Y)
    → ((rest ≡ true) ↔ R)
    → ((if not x && not y then false else rest) ≡ true) ↔ ((X ⊎ Y) × R)
guard_protocol true y rest d e r = ((λ h. (inl (d.0 refl), r.0 h)), λ h. r.1 h.1)
guard_protocol false true rest d e r = ((λ h. (inr (e.0 refl), r.0 h)), λ h. r.1 h.1)
guard_protocol false false rest d e r =
    ((λ h. cc h), λ h. elim h.0 [ inl x ↦ cc (d.1 x) | inr y ↦ cc (e.1 y) ])

addr_iff :
    (cidr : CidrCrate) (a : IpAddr) (ranges : List IpCidr)
    → (empty_or_any (contains_addr cidr a) ranges ≡ true)
      ↔ NoneOrOneOf (λ c. contains_addr cidr a c ≡ true) ranges
addr_iff cidr a ranges =
    empty_or_iff ranges _ (any_of_iff (contains_addr cidr a) _ ranges (λ c. ((λ e. e), λ e. e)))

-- `rule_matches` answers true exactly for the packets that the rule asks for.
pub rule_matches_lem :
    (cidr : CidrCrate) (rule : FastLookupRule) (packet : PacketInfo)
    → (rule_matches cidr rule packet ≡ true) ↔ Matches cidr rule packet
unfolding rule_matches
rule_matches_lem cidr rule packet =
    let (to, from) =
      guard_protocol _ _ _ (==_iff (protocol_number rule.protocol) 5)
        (==_iff (protocol_number rule.protocol) (protocol_number packet.protocol))
        (guard _ _ (addr_iff cidr packet.src_ip rule.src_ip_ranges) (
          guard _ _ (addr_iff cidr packet.dst_ip rule.dst_ip_ranges) (
            guard _ _ (port_matches_iff packet.src_port rule.src_port_ranges) (
              guard _ _ (port_matches_iff packet.dst_port rule.dst_port_ranges) (
                guard _ _ (group_iff rule.source_groups packet.src_groups) (
                  guard {R = Unit {0}} _ true (group_iff rule.destination_groups packet.dst_groups)
                    ((λ _. tt), λ _. refl))))))) in
    (
      (λ e.
          let (a, (b, (c, (d, (f, (g, (h, _))))))) = to e in
          record {
            same_protocol = a;
            from_range = b;
            to_range = c;
            from_port = d;
            to_port = f;
            from_group = g;
            to_group = h;
          }),
      λ m. from (
        m.same_protocol,
        (m.from_range, (m.to_range, (m.from_port, (m.to_port, (m.from_group, (m.to_group, tt)))))),
      ),
    )
