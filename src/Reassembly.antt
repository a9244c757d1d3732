-- ===== src/Reassembly.antt =====
-- gateway/ip_reassembler.rs: IPv4 datagrams put together from their fragments. A sum or difference of
-- `u16` that overflows is a panic, as in a build with overflow checks. Times are arguments.
pub mod Entries
pub mod Fragments
pub mod Assemble
pub mod Datagram
pub mod Sequence
mod Tests
use Prim.Native.Nat.{bit_and}
use peer_link.Common.{
  ℕ, ◌+◌, ◌-◌, ◌*◌, ◌%◌, ◌^◌, Bool, true, false, List, [], ◌∷◌, ◌++◌, ◌&&◌, ◌||◌, not, Option, none,
  some, length, replicate, ltb, leb, ◌==◌, if◌then◌else◌, Exec, done, panic, ◌>>=◌,
}
use peer_link.Packet.Buffer.{copy_slice}

-- What the code reads of pnet's `Ipv4Packet`.
pub record Ipv4Packet : Type 0 where
  pub identification : ℕ
  pub fragment_offset : ℕ
  pub flags : ℕ
  pub total_length : ℕ
  pub header_length : ℕ
  pub payload : List ℕ

pub record IpFragment : Type 0 where
  pub id : ℕ
  pub offset : ℕ
  pub data_bytes : List ℕ

pub record IpPacket : Type 0 where
  pub source : ℕ
  pub destination : ℕ
  pub total_length : Option ℕ
  pub fragments : List IpFragment

-- `data.len() as u16`
abbrev pub len16 : IpFragment → ℕ
len16 f = length f.data_bytes % 2 ^ 16

unfoldable pub add16 : ℕ → ℕ → Exec ℕ
add16 a b = if ltb (a + b) (2 ^ 16) then done (a + b) else panic

unfoldable pub sub16 : ℕ → ℕ → Exec ℕ
sub16 a b = if ltb a b then panic else done (a - b)

unfoldable pub from_packet : Ipv4Packet → Exec IpFragment
from_packet packet =
    if ltb (packet.fragment_offset * 8) (2 ^ 16)
    then done (record {
      id = packet.identification;
      offset = packet.fragment_offset * 8;
      data_bytes = packet.payload;
    })
    else panic

unfoldable pub new_packet : ℕ → ℕ → IpPacket
new_packet source destination = record {
  source = source;
  destination = destination;
  total_length = none;
  fragments = [];
}

-- Whether `g` starts inside `f`.
unfoldable pub starts_inside : IpFragment → IpFragment → Exec Bool
starts_inside f g =
    if leb f.offset g.offset
    then (add16 f.offset (len16 f) >>= λ end. done (ltb g.offset end))
    else done false

-- The loop of `IpPacket::add_fragment`: whether an earlier fragment overlaps the new one.
unfoldable pub overlaps_any : List IpFragment → IpFragment → Exec Bool
unfolding starts_inside
overlaps_any [] g = done false
overlaps_any (f ∷ fs) g = starts_inside f g >>= λ first.
    if first
    then done true
    else (starts_inside g f >>= λ second.
        let rest = overlaps_any fs g in if second then done true else rest)

unfoldable pub add_to_packet : IpPacket → IpFragment → Exec IpPacket
add_to_packet p g = overlaps_any p.fragments g >>= λ overlap.
    done (if overlap then p else record p { fragments = p.fragments ++ (g ∷ []) })

unfoldable pub sum_lengths : ℕ → List IpFragment → Exec ℕ
unfolding add16
sum_lengths acc [] = done acc
sum_lengths acc (f ∷ fs) = add16 acc (len16 f) >>= λ total. sum_lengths total fs

unfoldable pub is_complete : IpPacket → Exec Bool
is_complete p = elim p.total_length [
  | none ↦ done false
  | some expected ↦ sum_lengths 0 p.fragments >>= λ total. done (total == expected)
]

-- `sort_by_key`, which is stable.
unfoldable pub insert_sorted : IpFragment → List IpFragment → List IpFragment
insert_sorted f [] = f ∷ []
insert_sorted f (g ∷ gs) = if leb f.offset g.offset then f ∷ (g ∷ gs) else g ∷ insert_sorted f gs

unfoldable pub sort_by_offset : List IpFragment → List IpFragment
unfolding insert_sorted
sort_by_offset [] = []
sort_by_offset (f ∷ fs) = insert_sorted f (sort_by_offset fs)

unfoldable pub copy_fragments : List IpFragment → List ℕ → Exec (List ℕ)
unfolding copy_slice
copy_fragments [] packet = done packet
copy_fragments (f ∷ fs) packet =
    copy_slice f.offset (f.offset + length f.data_bytes) f.data_bytes packet >>= λ next.
    copy_fragments fs next

abbrev pub unwrap_or_zero : Option ℕ → ℕ
unwrap_or_zero none = 0
unwrap_or_zero (some n) = n

-- The packet is left with its fragments sorted. (`total_length` is some where it is unwrapped.)
unfoldable pub assemble : IpPacket → Exec (IpPacket × Option (List ℕ))
assemble p = is_complete p >>= λ complete.
    if complete
    then (copy_fragments (sort_by_offset p.fragments) (replicate (unwrap_or_zero p.total_length) 0)
        >>= λ bytes. done (record p { fragments = sort_by_offset p.fragments }, some bytes))
    else done (p, none)

pub record IpResemblerKey : Type 0 where
  pub source : ℕ
  pub destination : ℕ
  pub id : ℕ

pub record IpResemblerValue : Type 0 where
  pub packet : IpPacket
  pub timestamp : ℕ

abbrev pub Packets : Type 0
Packets = List (IpResemblerKey × IpResemblerValue)

pub record IpReassembler : Type 0 where
  pub packets : Packets
  pub timeout : ℕ

abbrev pub same_key : IpResemblerKey → IpResemblerKey → Bool
same_key a b = a.source == b.source && (a.destination == b.destination && a.id == b.id)

unfoldable pub find : IpResemblerKey → Packets → Option IpResemblerValue
find key [] = none
find key ((k, v) ∷ rest) = if same_key k key then some v else find key rest

unfoldable pub remove : IpResemblerKey → Packets → Packets
remove key [] = []
remove key ((k, v) ∷ rest) = if same_key k key then remove key rest else (k, v) ∷ remove key rest

unfoldable pub put : IpResemblerKey → IpResemblerValue → Packets → Packets
unfolding remove
put key v packets = (key, v) ∷ remove key packets

unfoldable pub new : ℕ → IpReassembler
new timeout = record { packets = []; timeout = timeout }

-- `Ipv4Flags::MoreFragments`
abbrev pub more_fragments : ℕ
more_fragments = 1

unfoldable pub is_packet_fragmented : Ipv4Packet → Bool
is_packet_fragmented packet =
    not (packet.fragment_offset == 0) || not (bit_and packet.flags more_fragments == 0)

unfoldable pub is_last_fragment : Ipv4Packet → Bool
is_last_fragment packet = bit_and packet.flags more_fragments == 0

-- The entry of the key, made where there is none.
abbrev pub entry_or_new : ℕ → ℕ → Option IpResemblerValue → IpPacket
entry_or_new source destination none = new_packet source destination
entry_or_new source destination (some v) = v.packet

-- The length is set by the last fragment.
unfoldable pub set_total_length : Ipv4Packet → ℕ → IpFragment → IpPacket → Exec IpPacket
unfolding is_last_fragment
set_total_length packet total f p =
    if is_last_fragment packet
    then (add16 total f.offset >>= λ n. done (record p { total_length = some n }))
    else done p

-- What is done with the packet of the key.
unfoldable pub update_entry :
    Ipv4Packet → ℕ → IpFragment → IpPacket → Exec (IpPacket × Option (List ℕ))
update_entry packet total f p =
    set_total_length packet total f p >>= λ q. add_to_packet q f >>= λ r. assemble r

abbrev pub finish :
    ℕ
    → IpResemblerKey
    → IpReassembler
    → IpPacket × Option (List ℕ)
    → IpReassembler × Option (List ℕ)
finish now key s (p, some bytes) = (record s { packets = remove key s.packets }, some bytes)
finish now key s (p, none) =
    (record s { packets = put key (record { packet = p; timestamp = now }) s.packets }, none)

unfoldable pub add_fragment :
    ℕ → IpReassembler → ℕ → ℕ → Ipv4Packet → Exec (IpReassembler × Option (List ℕ))
add_fragment now s source destination packet =
    sub16 packet.total_length (packet.header_length * 4) >>= λ total.
    if total == length packet.payload % 2 ^ 16
    then (from_packet packet >>= λ f.
        let key : IpResemblerKey = record {
          source = source;
          destination = destination;
          id = packet.identification;
        } in
        update_entry packet total f (entry_or_new source destination (find key s.packets))
        >>= λ result. done (finish now key s result))
    else done (s, none)

-- `v.timestamp.elapsed() <= timeout`, the elapsed time counted from 0.
unfoldable pub keep_fresh : ℕ → ℕ → Packets → Packets
keep_fresh now timeout [] = []
keep_fresh now timeout ((k, v) ∷ rest) =
    if leb (now - v.timestamp) timeout
    then (k, v) ∷ keep_fresh now timeout rest
    else keep_fresh now timeout rest

unfoldable pub remove_expired_packets : ℕ → IpReassembler → IpReassembler
unfolding keep_fresh
remove_expired_packets now s = record s { packets = keep_fresh now s.timeout s.packets }
