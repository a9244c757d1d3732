-- ===== src/Acl/Process/Priority.antt =====
-- common/acl_processor.rs: the rule that decides is the first of the rules in order of priority.
use peer_link.Common.{
  ◌≤◌, ◌≡◌, ◌⊎◌, inl, inr, refl, sym, ap₂, subst, Bool, true, false, List, [], ◌∷◌, ◌&&◌, ◌||◌, not,
  Option, none, some, leb, arith, if◌then◌else◌, Bool-cases,
}
use peer_link.Acl.{CidrCrate, FastLookupRule, PacketInfo}
use peer_link.Acl.Rules.{insert_by_priority, sort_by_priority}
use peer_link.Acl.Matching.{rule_matches}
use peer_link.Acl.Matching.Meaning.{OneOf}
use peer_link.Acl.Process.Handle.{first_match}
use peer_link.Common.Tables.{AllOf, AllOf-map}

-- Enabled, and the packet matches.
abbrev pub applies : CidrCrate → PacketInfo → FastLookupRule → Bool
applies cidr packet rule = rule.enabled && rule_matches cidr rule packet

abbrev IsSorted : List FastLookupRule → Type 0
IsSorted [] = Unit {0}
IsSorted (r ∷ rs) = AllOf (λ q. q.priority ≤ r.priority) rs × IsSorted rs

module _ (P : FastLookupRule → Type 0) where
  AllOf-insert :
      (r : FastLookupRule) (ss : List FastLookupRule)
      → P r
      → AllOf P ss
      → AllOf P (insert_by_priority r ss)
  unfolding insert_by_priority
  AllOf-insert r [] p a = (p, tt)
  AllOf-insert r (s ∷ ss) p a = elim (Bool-cases (leb s.priority r.priority)) [
    | inl e ↦ rw e (p, a)
    | inr e ↦ rw e (a.0, AllOf-insert r ss p a.1)
  ]

  AllOf-of_insert :
      (r : FastLookupRule) (ss : List FastLookupRule)
      → AllOf P (insert_by_priority r ss)
      → P r × AllOf P ss
  unfolding insert_by_priority
  AllOf-of_insert r [] a = a
  AllOf-of_insert r (s ∷ ss) a = elim (Bool-cases (leb s.priority r.priority)) [
    | inl e ↦ rw e at a
    | inr e ↦
        let b : P s × AllOf P (insert_by_priority r ss) = rw e at a in
        let (p, rest) = AllOf-of_insert r ss b.1 in (p, (b.0, rest))
  ]

  AllOf-of_sort : (rs : List FastLookupRule) → AllOf P (sort_by_priority rs) → AllOf P rs
  unfolding sort_by_priority
  AllOf-of_sort [] a = a
  AllOf-of_sort (r ∷ rs) a =
      let (p, rest) = AllOf-of_insert r (sort_by_priority rs) a in (p, AllOf-of_sort rs rest)

  OneOf-of_insert :
      (r : FastLookupRule) (ss : List FastLookupRule)
      → OneOf P (insert_by_priority r ss)
      → P r ⊎ OneOf P ss
  unfolding insert_by_priority
  OneOf-of_insert r [] a = a
  OneOf-of_insert r (s ∷ ss) a = elim (Bool-cases (leb s.priority r.priority)) [
    | inl e ↦ rw e at a
    | inr e ↦
        let b : P s ⊎ OneOf P (insert_by_priority r ss) = rw e at a in
        elim b [
          | inl p ↦ inr (inl p)
          | inr q ↦ elim (OneOf-of_insert r ss q) [ inl p ↦ inl p | inr p ↦ inr (inr p) ]
        ]
  ]

  OneOf-of_sort : (rs : List FastLookupRule) → OneOf P (sort_by_priority rs) → OneOf P rs
  unfolding sort_by_priority
  OneOf-of_sort [] a = a
  OneOf-of_sort (r ∷ rs) a = elim (OneOf-of_insert r (sort_by_priority rs) a) [
    | inl p ↦ inl p
    | inr p ↦ inr (OneOf-of_sort rs p)
  ]

insert_by_priority-IsSorted :
    (r : FastLookupRule) (ss : List FastLookupRule)
    → IsSorted ss
    → IsSorted (insert_by_priority r ss)
unfolding insert_by_priority
insert_by_priority-IsSorted r [] h = (tt, tt)
insert_by_priority-IsSorted r (s ∷ ss) h = elim (Bool-cases (leb s.priority r.priority)) [
  | inl e ↦
      let le : s.priority ≤ r.priority = ground arith in
      rw e (
        (
          le,
          AllOf-map (λ q. q.priority ≤ s.priority) (λ q. q.priority ≤ r.priority) ss
              (λ q l. omega (arith, le)) h.0,
        ),
        h,
      )
  | inr e ↦ rw e (
    AllOf-insert (λ q. q.priority ≤ s.priority) r ss (ground arith) h.0,
    insert_by_priority-IsSorted r ss h.1,
  )
]

sort_by_priority-IsSorted : (rs : List FastLookupRule) → IsSorted (sort_by_priority rs)
unfolding sort_by_priority
sort_by_priority-IsSorted [] = tt
sort_by_priority-IsSorted (r ∷ rs) =
    insert_by_priority-IsSorted r (sort_by_priority rs) (sort_by_priority-IsSorted rs)

-- What is found among sorted rules.
abbrev pub IsDecisive :
    CidrCrate → PacketInfo → List FastLookupRule → Option FastLookupRule → Type 0
IsDecisive cidr packet rules none = AllOf (λ q. applies cidr packet q ≡ false) rules
IsDecisive cidr packet rules (some r) =
    OneOf (λ q. q ≡ r) rules
    × (applies cidr packet r ≡ true)
    × AllOf (λ q. applies cidr packet q ≡ true → q.priority ≤ r.priority) rules

module _ (cidr : CidrCrate) (packet : PacketInfo) where
  skip :
      (r : FastLookupRule) (rs : List FastLookupRule) (found : Option FastLookupRule)
      → applies cidr packet r ≡ false
      → IsDecisive cidr packet rs found
      → IsDecisive cidr packet (r ∷ rs) found
  skip r rs none e d = (e, d)
  skip r rs (some q) e (a, b, c) = (inr a, b, ((λ f. cc (e, f)), c))

  pub first_match-step :
      (r : FastLookupRule) (rs : List FastLookupRule) {e m : Bool}
      → r.enabled ≡ e
      → rule_matches cidr r packet ≡ m
      → first_match cidr packet (r ∷ rs)
        ≡ (if not e || not m then first_match cidr packet rs else some r)
  unfolding first_match
  first_match-step r rs e m =
      ap₂ (λ x y. if not x || not y then first_match cidr packet rs else some r) e m

  first_match-sorted :
      (rules : List FastLookupRule)
      → IsSorted rules
      → IsDecisive cidr packet rules (first_match cidr packet rules)
  unfolding first_match
  first_match-sorted [] h = tt
  first_match-sorted (r ∷ rs) h =
      let rest = first_match-sorted rs h.1 in
      elim (Bool-cases r.enabled) [
        | inr off ↦
            subst (IsDecisive cidr packet (r ∷ rs)) (sym (first_match-step r rs off refl))
              (skip r rs (first_match cidr packet rs) (ap₂ ◌&&◌ off refl) rest)
        | inl on ↦ elim (Bool-cases (rule_matches cidr r packet)) [
          | inr other ↦
              subst (IsDecisive cidr packet (r ∷ rs)) (sym (first_match-step r rs on other))
                (skip r rs (first_match cidr packet rs) (ap₂ ◌&&◌ on other) rest)
          | inl same ↦
              subst (IsDecisive cidr packet (r ∷ rs)) (sym (first_match-step r rs on same)) (
                inl refl,
                ap₂ ◌&&◌ on same,
                (
                  (λ _. omega arith),
                  AllOf-map (λ q. q.priority ≤ r.priority)
                      (λ q. applies cidr packet q ≡ true → q.priority ≤ r.priority) rs
                      (λ q le _. le) h.0,
                ),
              )
        ]
      ]

-- The rule that the loop of `process_packet` stops at, among rules sorted as `build_rules` sorts those of a
-- chain, is one of the rules, is enabled and matches the packet, and no rule of the chain that is
-- enabled and matches has a higher priority; where the loop finds none, no rule is enabled and matches.
pub first_match-sort_by_priority :
    (cidr : CidrCrate) (packet : PacketInfo) (rules : List FastLookupRule)
    → IsDecisive cidr packet rules (first_match cidr packet (sort_by_priority rules))
first_match-sort_by_priority cidr packet rules =
    of_sort (first_match cidr packet (sort_by_priority rules))
      (first_match-sorted cidr packet (sort_by_priority rules) (sort_by_priority-IsSorted rules))
  where
    of_sort :
        (found : Option FastLookupRule)
        → IsDecisive cidr packet (sort_by_priority rules) found
        → IsDecisive cidr packet rules found
    of_sort none a = AllOf-of_sort (λ q. applies cidr packet q ≡ false) rules a
    of_sort (some r) (a, b, c) = (
      OneOf-of_sort (λ q. q ≡ r) rules a,
      b,
      AllOf-of_sort (λ q. applies cidr packet q ≡ true → q.priority ≤ r.priority) rules c,
    )
