-- ===== src/Acl/Rules.antt =====
-- common/acl_processor.rs: the rules of each chain, made from the configuration.
use peer_link.Common.{ℕ, ◌+◌, List, [], ◌∷◌, ◌++◌, Option, none, some, ◌==◌, leb, if◌then◌else◌}
use peer_link.Acl.{
  Rule, Chain, ChainType, inbound, outbound, forward, unspecified_chain, chain_number, Action,
  allow, CidrCrate, FastLookupRule, Heap, StatItem,
}
use peer_link.Acl.Parse.{parse_port_range}

abbrev pub filter_map : {A B : Type 0} → (A → Option B) → List A → List B
filter_map f [] = []
filter_map f (x ∷ xs) = elim (f x) [ none ↦ filter_map f xs | some y ↦ y ∷ filter_map f xs ]

abbrev pub zero_stat : StatItem
zero_stat = record { packet_count = 0; byte_count = 0 }

-- `Arc::new` of fresh statistics.
unfoldable pub alloc : Option Rule → Heap → Heap × ℕ
alloc rule heap = (
  record {
    next = heap.next + 1;
    at = λ i. if i == heap.next then record { rule = rule; stat = zero_stat } else heap.at i;
  },
  heap.next,
)

-- The groups' set is the list of its members.
unfoldable pub convert_to_fast_lookup_rule : CidrCrate → Heap → Rule → Heap × FastLookupRule
unfolding alloc parse_port_range
convert_to_fast_lookup_rule cidr heap rule =
    let (next_heap, place) = alloc (some rule) heap in
    (
      next_heap,
      record {
        priority = rule.priority;
        protocol = rule.protocol;
        src_ip_ranges = filter_map cidr.from_str rule.source_ips;
        dst_ip_ranges = filter_map cidr.from_str rule.destination_ips;
        src_port_ranges = filter_map parse_port_range rule.source_ports;
        dst_port_ranges = filter_map parse_port_range rule.ports;
        source_groups = rule.source_groups;
        destination_groups = rule.destination_groups;
        action = rule.action;
        enabled = rule.enabled;
        stateful = rule.stateful;
        rate_limit = rule.rate_limit;
        burst_limit = rule.burst_limit;
        rule_stats = place;
      },
    )

-- The enabled rules, converted.
unfoldable pub convert_rules : CidrCrate → Heap → List Rule → Heap × List FastLookupRule
convert_rules cidr heap [] = (heap, [])
convert_rules cidr heap (rule ∷ rules) =
    if rule.enabled
    then (let (h, fast) = convert_to_fast_lookup_rule cidr heap rule in
        let (k, rest) = convert_rules cidr h rules in (k, fast ∷ rest))
    else convert_rules cidr heap rules

-- `sort_by`, which is stable, the higher priority first.
unfoldable pub insert_by_priority : FastLookupRule → List FastLookupRule → List FastLookupRule
insert_by_priority r [] = r ∷ []
insert_by_priority r (s ∷ ss) =
    if leb s.priority r.priority then r ∷ s ∷ ss else s ∷ insert_by_priority r ss

unfoldable pub sort_by_priority : List FastLookupRule → List FastLookupRule
sort_by_priority [] = []
sort_by_priority (r ∷ rs) = insert_by_priority r (sort_by_priority rs)

pub record RuleSets : Type 0 where
  pub inbound_rules : List FastLookupRule
  pub outbound_rules : List FastLookupRule
  pub forward_rules : List FastLookupRule

unfoldable pub extend : ChainType → List FastLookupRule → RuleSets → RuleSets
extend inbound rules s = record s { inbound_rules = s.inbound_rules ++ rules }
extend outbound rules s = record s { outbound_rules = s.outbound_rules ++ rules }
extend forward rules s = record s { forward_rules = s.forward_rules ++ rules }
extend unspecified_chain rules s = s

unfoldable pub add_chains : CidrCrate → List Chain → Heap → RuleSets → Heap × RuleSets
add_chains cidr [] heap s = (heap, s)
add_chains cidr (chain ∷ chains) heap s =
    if chain.enabled
    then (let (h, rules) = convert_rules cidr heap chain.rules in
        add_chains cidr chains h (extend chain.chain_type (sort_by_priority rules) s))
    else add_chains cidr chains heap s

-- The configuration's `acl_v1` is its chains, or none.
unfoldable pub build_rules : CidrCrate → Option (List Chain) → Heap → Heap × RuleSets
build_rules cidr none heap =
    (heap, record { inbound_rules = []; outbound_rules = []; forward_rules = [] })
build_rules cidr (some chains) heap =
    add_chains cidr chains heap
      (record { inbound_rules = []; outbound_rules = []; forward_rules = [] })

-- The action of the first chain of a type, enabled or not.
unfoldable pub default_action_of : ChainType → List Chain → Action
default_action_of type [] = allow
default_action_of type (chain ∷ chains) =
    if chain_number chain.chain_type == chain_number type
    then chain.default_action
    else default_action_of type chains

unfoldable pub build_default_actions : Option (List Chain) → Action × Action × Action
unfolding default_action_of
build_default_actions none = (allow, allow, allow)
build_default_actions (some chains) = (
  default_action_of inbound chains,
  default_action_of outbound chains,
  default_action_of forward chains,
)
