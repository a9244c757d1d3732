-- ===== src/Acl/Process/Decision.antt =====
-- common/acl_processor.rs: what a packet is to be answered with, by the rules of its chain.
use peer_link.Common.{
  Exec, done, panic, ◌==◌, ◌≡◌, ◌≢◌, ◌⊎◌, inl, inr, refl, ap, sym, subst, Bool, true, false, List,
  [], ◌∷◌, ◌++◌, ◌||◌, Option, none, some, if◌then◌else◌, Bool-cases,
}
use peer_link.Common.Tables.{AllOf}
use peer_link.Acl.{
  Action, noop, allow, drop_packet, ChainType, unspecified_chain, inbound, outbound, forward,
  CidrCrate, FastLookupRule, PacketInfo,
}
use peer_link.Acl.Matching.{rule_matches}
use peer_link.Acl.Process.{
  lookup, same_limit, AclResult, AclProcessor, by_priority, stateful, by_default, stateful_match,
  rule_match, default_drop, default_allow, unsupported_chain_type, rate_limit_drop,
}
use peer_link.TokenBucket.{TokenBucket, try_consume}
use peer_link.TokenBucket as Bucket
use peer_link.Acl.Process.Steps.{bucket_of, check_rate_limit, is_allow, is_drop, limited}
use peer_link.Acl.Process.Priority.{first_match-step}
use peer_link.Acl.Process.Handle.{rule_result, first_match}

-- A rule that is enabled and matches the packet.
abbrev Applies : CidrCrate → PacketInfo → FastLookupRule → Type 0
Applies cidr packet rule = (rule.enabled ≡ true) × (rule_matches cidr rule packet ≡ true)

-- The first of the rules that applies.
abbrev IsFirst : CidrCrate → PacketInfo → List FastLookupRule → FastLookupRule → Type 0
IsFirst cidr packet rules rule =
    (before : List FastLookupRule) × (behind : List FastLookupRule) × (rules
      ≡ before ++ (rule ∷ behind))
    × AllOf (λ q. ¬ Applies cidr packet q) before
    × Applies cidr packet rule

-- The bucket of a rule: the one there is, or a full one.
abbrev bucket : FastLookupRule → Option TokenBucket → TokenBucket
bucket rule none = Bucket.new rule.burst_limit rule.rate_limit 10
bucket rule (some there) = there

-- Whether a rule has no limit, or its bucket has a token.
abbrev pub is_within : ChainType → FastLookupRule → AclProcessor → Bool
is_within chain rule s =
    rule.rate_limit == 0
    || (try_consume 1 (
        bucket rule (
          lookup same_limit (record { chain_type = chain; rule_priority = rule.priority })
            s.rate_limiters))).1

-- A rule over its limit drops. One within it that allows and keeps the state of connections allows
-- and says so, and any other has its action done.
abbrev IsRuleAnswer : Bool → FastLookupRule → PacketInfo → AclResult → Type 0
IsRuleAnswer false rule packet r = r ≡ record {
  action = drop_packet;
  matched_rule = some (by_priority rule.priority);
  should_log = false;
  log_context = some rate_limit_drop;
}
IsRuleAnswer true rule packet r =
    (((rule.stateful ≡ true) × (rule.action ≡ allow))
      × (r ≡ record {
        action = allow;
        matched_rule = some (stateful rule.priority);
        should_log = false;
        log_context = some (stateful_match packet.src_ip packet.dst_ip);
      }))
    ⊎ ((¬ ((rule.stateful ≡ true) × (rule.action ≡ allow)))
        × (r ≡ record {
          action = rule.action;
          matched_rule = some (by_priority rule.priority);
          should_log = false;
          log_context = some (rule_match packet.src_ip packet.dst_ip rule.action);
        }))

-- The default action of a chain is logged as a drop if it is one.
abbrev IsDefaultAnswer : Action → AclResult → Type 0
IsDefaultAnswer default r =
    (r.action ≡ default)
    × (r.matched_rule ≡ some by_default)
    × (r.should_log ≡ false)
    × (((default ≡ drop_packet) × (r.log_context ≡ some default_drop))
        ⊎ ((default ≢ drop_packet) × (r.log_context ≡ some default_allow)))

-- The first rule that applies answers, and the default action where none does.
abbrev IsDecided :
    CidrCrate
    → ChainType
    → PacketInfo
    → AclProcessor
    → List FastLookupRule
    → Action
    → AclResult
    → Type 0
IsDecided cidr chain packet s rules default r =
    ((rule : FastLookupRule) × IsFirst cidr packet rules rule
      × IsRuleAnswer (is_within chain rule s) rule packet r)
    ⊎ (AllOf (λ q. ¬ Applies cidr packet q) rules × IsDefaultAnswer default r)

-- Each chain has its rules and its default action; a packet of no chain is dropped.
abbrev pub IsAnswer : CidrCrate → ChainType → PacketInfo → AclProcessor → AclResult → Type 0
IsAnswer cidr inbound packet s r =
    IsDecided cidr inbound packet s s.rules.inbound_rules s.default_inbound_action r
IsAnswer cidr outbound packet s r =
    IsDecided cidr outbound packet s s.rules.outbound_rules s.default_outbound_action r
IsAnswer cidr forward packet s r =
    IsDecided cidr forward packet s s.rules.forward_rules s.default_forward_action r
IsAnswer cidr unspecified_chain packet s r = r ≡ record {
  action = drop_packet;
  matched_rule = some by_default;
  should_log = false;
  log_context = some unsupported_chain_type;
}

-- What the search for a rule finds.
abbrev IsFound : CidrCrate → PacketInfo → List FastLookupRule → Option FastLookupRule → Type 0
IsFound cidr packet rules none = AllOf (λ q. ¬ Applies cidr packet q) rules
IsFound cidr packet rules (some rule) = IsFirst cidr packet rules rule

IsFound-skip :
    (cidr : CidrCrate) (packet : PacketInfo) (q : FastLookupRule) (rules : List FastLookupRule)
    (found : Option FastLookupRule)
    → ¬ Applies cidr packet q
    → IsFound cidr packet rules found
    → IsFound cidr packet (q ∷ rules) found
IsFound-skip cidr packet q rules none skips h = (skips, h)
IsFound-skip cidr packet q rules (some rule) skips (before, behind, e, all, applies) =
    (q ∷ before, behind, ap (λ rs. q ∷ rs) e, (skips, all), applies)

first_match-IsFound :
    (cidr : CidrCrate) (packet : PacketInfo) (rules : List FastLookupRule)
    → IsFound cidr packet rules (first_match cidr packet rules)
unfolding first_match
first_match-IsFound cidr packet [] = tt
first_match-IsFound cidr packet (q ∷ rules) =
    let rest = first_match-IsFound cidr packet rules in
    let found = first_match cidr packet rules in
    elim (Bool-cases q.enabled) [
      | inr off ↦
          subst (IsFound cidr packet (q ∷ rules))
            (sym (first_match-step cidr packet q rules off refl))
            (IsFound-skip cidr packet q rules found (λ a. cc (a.0, off)) rest)
      | inl on ↦ elim (Bool-cases (rule_matches cidr q packet)) [
        | inr other ↦
            subst (IsFound cidr packet (q ∷ rules))
              (sym (first_match-step cidr packet q rules on other))
              (IsFound-skip cidr packet q rules found (λ a. cc (a.1, other)) rest)
        | inl same ↦
            subst (IsFound cidr packet (q ∷ rules))
              (sym (first_match-step cidr packet q rules on same)) ([], rules, refl, tt, (on, same))
      ]
    ]

is_allow-≡ : (a : Action) → is_allow a ≡ true → a ≡ allow
is_allow-≡ noop e = cc e
is_allow-≡ allow e = refl
is_allow-≡ drop_packet e = cc e

rule_result-IsRuleAnswer :
    (rule : FastLookupRule) (packet : PacketInfo)
    → IsRuleAnswer true rule packet (rule_result rule packet)
unfolding rule_result
rule_result-IsRuleAnswer rule packet = elim (Bool-cases rule.stateful) [
  | inr off ↦ inr ((λ h. cc (h.0, off)), rw off refl)
  | inl on ↦ elim (Bool-cases (is_allow rule.action)) [
    | inl allows ↦ inl ((on, is_allow-≡ rule.action allows), rw (on, allows) refl)
    | inr other ↦ inr (
      (λ h. let f : is_allow rule.action ≡ true = ap is_allow h.1 in cc (f, other)),
      rw (on, other) refl,
    )
  ]
]

-- The answer where no rule applies.
abbrev pub by_action : Action → AclResult
by_action action = record {
  action = action;
  matched_rule = some by_default;
  should_log = false;
  log_context = some (if is_drop action then default_drop else default_allow);
}

by_action-IsDefaultAnswer : (action : Action) → IsDefaultAnswer action (by_action action)
by_action-IsDefaultAnswer noop = (refl, refl, refl, inr ((λ e. cc e), refl))
by_action-IsDefaultAnswer allow = (refl, refl, refl, inr ((λ e. cc e), refl))
by_action-IsDefaultAnswer drop_packet = (refl, refl, refl, inl (refl, refl))

-- The answer that goes with what is found.
abbrev pub GoesWith :
    ChainType → PacketInfo → AclProcessor → Action → AclResult → Option FastLookupRule → Type 0
GoesWith chain packet s default r none = r ≡ by_action default
GoesWith chain packet s default r (some rule) = r ≡ (
    if is_within chain rule s then rule_result rule packet else limited (by_priority rule.priority))

within-IsRuleAnswer :
    (within : Bool) (rule : FastLookupRule) (packet : PacketInfo)
    → IsRuleAnswer within rule packet
        (if within then rule_result rule packet else limited (by_priority rule.priority))
within-IsRuleAnswer true rule packet = rule_result-IsRuleAnswer rule packet
within-IsRuleAnswer false rule packet = refl

pub GoesWith-IsDecided :
    (cidr : CidrCrate) (chain : ChainType) (packet : PacketInfo) (s : AclProcessor)
    (rules : List FastLookupRule) (default : Action) (r : AclResult)
    → GoesWith chain packet s default r (first_match cidr packet rules)
    → IsDecided cidr chain packet s rules default r
GoesWith-IsDecided cidr chain packet s rules default r h =
    by_found (first_match cidr packet rules) (first_match-IsFound cidr packet rules) h
  where
    by_found :
        (found : Option FastLookupRule)
        → IsFound cidr packet rules found
        → GoesWith chain packet s default r found
        → IsDecided cidr chain packet s rules default r
    by_found none all e =
        inr (all, subst (IsDefaultAnswer default) (sym e) (by_action-IsDefaultAnswer default))
    by_found (some rule) first e =
        let within = is_within chain rule s in
        inl (
          rule,
          first,
          subst (IsRuleAnswer within rule packet) (sym e) (within-IsRuleAnswer within rule packet),
        )

abbrev answer_of : Bool → Exec (AclProcessor × Bool) → Bool
answer_of b panic = b
answer_of b (done x) = x.1

-- The bucket that the limit of a rule is checked on.
pub check_rate_limit-is_within :
    (chain : ChainType) (rule : FastLookupRule) (s t : AclProcessor) (b : Bool)
    → (rule.rate_limit == 0) ≡ false
    → check_rate_limit
        (record { chain_type = chain; rule_priority = rule.priority })
        rule.rate_limit
        rule.burst_limit
        true
        s
      ≡ done (t, b)
    → b ≡ is_within chain rule s
unfolding check_rate_limit bucket_of
check_rate_limit-is_within chain rule s t b limit runs =
    by_bucket
      (lookup same_limit (record { chain_type = chain; rule_priority = rule.priority })
        s.rate_limiters)
      refl
  where
    by_bucket :
        (found : Option TokenBucket)
        → lookup same_limit
            (record { chain_type = chain; rule_priority = rule.priority })
            s.rate_limiters
          ≡ found
        → b ≡ is_within chain rule s
    by_bucket none e = let f = rw (limit, e) at runs in rw (limit, e) (sym (ap (answer_of b) f))
    by_bucket (some there) e =
        let f = rw (limit, e) at runs in rw (limit, e) (sym (ap (answer_of b) f))
