-- ===== src/Peer.antt =====
-- src/BLEPacket/Peer.h and Peer.cpp: a node that announced itself.
use ble_smoke_detector.Common.{ℕ, Bool, List, [], ◌==◌}

pub record Peer : Type 0 where
  pub id : ℕ
  pub name : List ℕ
  pub public_key : List ℕ
  pub max_ttl : ℕ
  pub connection_handle : ℕ

-- `Peer()`
unfoldable pub new_peer : Peer
new_peer = record { id = 0; name = []; public_key = []; max_ttl = 0; connection_handle = 0 }

-- `operator==`: peers are the same by their id alone.
pub same_peer : Peer → Peer → Bool
same_peer p other = p.id == other.id

abbrev pub set_id : ℕ → Peer → Peer
set_id new_id p = record p { id = new_id }

abbrev pub update_name : List ℕ → Peer → Peer
update_name peer_name p = record p { name = peer_name }

abbrev pub update_noise_public_key : List ℕ → Peer → Peer
update_noise_public_key key p = record p { public_key = key }

abbrev pub set_announce_ttl : ℕ → Peer → Peer
set_announce_ttl ttl p = record p { max_ttl = ttl }

abbrev pub set_connection_handle : ℕ → Peer → Peer
set_connection_handle handle p = record p { connection_handle = handle }
