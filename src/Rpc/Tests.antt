-- ===== src/Rpc/Tests.antt =====
-- Calls cut into pieces and merged, at concrete inputs.
use peer_link.Common.{
  ℕ, ◌≡◌, refl, true, false, inl, arith, List, [], ◌∷◌, some, none, map, length, replicate,
}
use peer_link.Rpc.Split.{IsNumbered, build_pieces_lem}
use peer_link.Rpc.Merge.{feed_all, arrivals, replies, whole, feed_all-build_pieces}
use peer_link.Rpc.{BuildRpcPacketArgs, build_pieces, bodies, new, feed, store, try_merge_pieces, ok}

abbrev args : List ℕ → BuildRpcPacketArgs ℕ
args content = record {
  from_peer = 3;
  to_peer = 4;
  rpc_desc = 77;
  transaction_id = 12;
  is_req = true;
  content = content;
  trace_id = 5;
  compression_info = record { algo = 2; accepted_algo = 2 };
}

build_three :
    map (λ p. length p.body) (build_pieces (args (replicate 2700 8))) ≡ 1300 ∷ 1300 ∷ 100 ∷ []
unfolding build_pieces
build_three = refl

build_empty :
    map {B = ℕ × ℕ} (λ p. (p.total_pieces, length p.body)) (build_pieces (args [])) ≡ (0, 0) ∷ []
unfolding build_pieces
build_empty = refl

-- Two pieces.
abbrev call : BuildRpcPacketArgs ℕ
call = args (replicate 1400 8)

-- The second piece twice, then the first.
abbrev order : List (ℕ × ℕ)
order = (1, 10) ∷ (1, 11) ∷ (0, 12) ∷ []

build_pieces_lem_example :
    (bodies (build_pieces call) ≡ replicate 1400 8)
    × (length (build_pieces call) ≡ 2)
    × IsNumbered 2 12 3 0 (build_pieces call)
build_pieces_lem_example = build_pieces_lem call (omega arith) (omega arith)

merged_at_last :
    feed_all (new 0) (arrivals (build_pieces call) order)
    ≡ ok none ∷ ok none ∷ ok (some (whole call)) ∷ []
unfolding feed_all feed store try_merge_pieces build_pieces new
merged_at_last = refl

feed_all-build_pieces_example :
    feed_all (new 0) (arrivals (build_pieces call) order)
    ≡ replies (some (whole call)) (false ∷ false ∷ []) order
unfolding new
feed_all-build_pieces_example =
    feed_all-build_pieces call (new 0) order (omega arith) (omega arith) (inl refl) (omega arith)
