-- ===== src/Directory.antt =====
-- include/fsnet/directory.hpp: ServiceDirectory, the leases of the peers of a service and the
-- choice of a peer for a key.
pub mod Locate
mod Tests
use fsnet.Base.{
  ℕ, zero, suc, ◌+◌, ◌*◌, ◌/◌, ◌%◌, ◌^◌, Bool, true, false, not, ◌&&◌, ◌||◌, List, [], ◌∷◌, Option,
  none, some, ltb, ◌==◌, if◌then◌else◌, is_empty, Bytes,
}
use fsnet.Base.Errors.{invalid_argument, Outcome, ok, ◌>>◌, throw_if}
use fsnet.Base.Int.{ℤ, pos_part, is_negative}
use fsnet.Base.Maps.{Map, find, insert_or_assign}
use Prim.Native.Nat.{bit_xor}

-- A lease; times are those of the steady clock, which is taken not to run before its epoch or beyond
-- its range.
pub record Entry : Type 0 where
  pub peer : ℕ
  pub expires : ℕ

-- `hash = (hash ^ byte) * 1099511628211ULL` on a std::uint64_t
abbrev pub mix : ℕ → ℕ → ℕ
mix hash byte = bit_xor hash byte * 1099511628211 % 2 ^ 64

unfoldable pub mix_text : Bytes → ℕ → ℕ
mix_text [] hash = hash
mix_text (byte ∷ key) hash = mix_text key (mix hash byte)

-- The bytes of the peer from the lowest; `i` are left.
unfoldable pub mix_peer : ℕ → ℕ → ℕ → ℕ
mix_peer zero peer hash = hash
mix_peer (suc i) peer hash = mix_peer i (peer / 256) (mix hash (peer % 256))

unfoldable pub score : Bytes → ℕ → ℕ
unfolding mix_text mix_peer
score key peer = mix_peer 8 peer (mix_text key 14695981039346656037)

abbrev pub entries_of : Option (List Entry) → List Entry
entries_of none = []
entries_of (some entries) = entries

unfoldable pub renew_entry : ℕ → ℕ → List Entry → List Entry
renew_entry peer expires [] = record { peer = peer; expires = expires } ∷ []
renew_entry peer expires (entry ∷ entries) = elim (entry.peer == peer) [
  | true ↦ record entry { expires = expires } ∷ entries
  | false ↦ entry ∷ renew_entry peer expires entries
]

unfoldable pub renew : Bytes → ℕ → ℤ → ℕ → Map (List Entry) → Outcome (Map (List Entry))
unfolding renew_entry
renew service peer ttl now services = do
  throw_if (is_empty service || peer == 0 || is_negative ttl || pos_part ttl == 0) invalid_argument
  ok (
      insert_or_assign service
        (renew_entry peer (now + pos_part ttl) (entries_of (find service services))) services)

unfoldable pub erase_peer : ℕ → List Entry → List Entry
erase_peer peer [] = []
erase_peer peer (entry ∷ entries) = elim (entry.peer == peer) [
  | true ↦ erase_peer peer entries
  | false ↦ entry ∷ erase_peer peer entries
]

unfoldable pub remove : ℕ → Map (List Entry) → Map (List Entry)
unfolding erase_peer
remove peer [] = []
remove peer ((name, entries) ∷ services) = (name, erase_peer peer entries) ∷ remove peer services

-- `!selected || value > best || (value == best && entry.peer < *selected)`
abbrev pub is_better : ℕ → ℕ → Option ℕ → ℕ → Bool
is_better value peer none best = true
is_better value peer (some selected) best = ltb best value || (value == best && ltb peer selected)

unfoldable pub select : Bytes → ℕ → List Entry → Option ℕ → ℕ → Option ℕ
select key now [] selected best = selected
select key now (entry ∷ entries) selected best =
    elim (ltb now entry.expires && is_better (score key entry.peer) entry.peer selected best) [
      | true ↦ select key now entries (some entry.peer) (score key entry.peer)
      | false ↦ select key now entries selected best
    ]

unfoldable pub locate : Bytes → Bytes → ℕ → Map (List Entry) → Option ℕ
unfolding select
locate service key now services = select key now (entries_of (find service services)) none 0
