-- ===== src/Route/Trust/Tests.antt =====
-- peers/peer_ospf_route.rs: concrete proofs of groups, with a hash that writes the secret in front.
use peer_link.Common.{ℕ, ◌≡◌, refl, ap, inl, inr, List, [], ◌∷◌, ◌++◌}
use peer_link.Common.Tables.{Text, lookup, insert}
use peer_link.Route.{RoutePeerInfo, SyncedRouteInfo}
use peer_link.Route.Samples.{info, sender}
use peer_link.Route.Graph.Heap.{In}
use peer_link.Route.Trust.{
  GroupIdentity, generate_with_proof, trust_peers, trust_peer, store_trusted, verify_groups, verify,
  is_unchanged, is_proved, secrets, verify_and_update_group_trusts, get_peer_groups,
}
use peer_link.Route.Trust.Genuine.{IsSound, verify_and_update_group_trusts-IsSound}

abbrev written : Text → List ℕ → List ℕ
written secret bytes = secret ++ bytes

abbrev admins : GroupIdentity
admins = record { group_name = 97 ∷ []; group_secret = 1 ∷ 2 ∷ [] }

-- The peer 2 proves that it is an admin, and claims another group without a proof.
abbrev infos : List RoutePeerInfo
infos =
    record (info 2 22 6) {
      groups =
          generate_with_proof written (97 ∷ []) (1 ∷ 2 ∷ []) 2
          ∷ record { group_name = 98 ∷ []; group_proof = [] }
          ∷ [];
    }
    ∷ []

abbrev after : SyncedRouteInfo ℕ
after = verify_and_update_group_trusts written infos (admins ∷ []) sender

abbrev IsAdmins : Text → Text → Type 0
IsAdmins name secret = (name ≡ 97 ∷ []) × (secret ≡ 1 ∷ 2 ∷ [])

declared : (g : GroupIdentity) → In g (admins ∷ []) → IsAdmins g.group_name g.group_secret
declared g (inl e) = (ap name_of e, ap secret_of e)
  where
    name_of : GroupIdentity → Text
    name_of g = g.group_name

    secret_of : GroupIdentity → Text
    secret_of g = g.group_secret
declared g (inr i) = absurd i

sender-IsSound : IsSound written IsAdmins sender
unfolding lookup
sender-IsSound = ((λ p groups e. cc e), (λ p. refl))

only_admin : get_peer_groups 2 after ≡ (97 ∷ []) ∷ []
unfolding verify_and_update_group_trusts get_peer_groups generate_with_proof trust_peers trust_peer
    store_trusted verify_groups verify is_unchanged is_proved secrets lookup insert
only_admin = refl

verify_and_update_group_trusts-IsSound_example : IsSound written IsAdmins after
verify_and_update_group_trusts-IsSound_example =
    verify_and_update_group_trusts-IsSound written IsAdmins infos (admins ∷ []) sender declared
      sender-IsSound
