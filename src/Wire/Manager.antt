-- ===== src/Wire/Manager.antt =====
-- crates/dogeos-scroll-wire/src/manager.rs: the manager of the connections. A channel is a number; its
-- queue of messages is `none` once the receiver is gone. The events are those that are there.
use dogeos_reth.Prelude.{
  ℕ, Option, none, some, List, [], ◌∷◌, ◌++◌, Result, ok, err, ◌==◌, if◌then◌else◌,
}
use dogeos_reth.Wire.Message.{
  NewBlock, ScrollMessage, new_block_message, ScrollWireEvent, connection_established,
  new_block_event,
}

pub data AnnounceBlockError : Type 0 where
  peer_not_connected send_failed : ℕ → AnnounceBlockError

pub record ScrollWireManager (B Sig : Type 0) : Type 0 where
  pub events : List (ScrollWireEvent B Sig ℕ)
  pub connections : ℕ → Option ℕ

abbrev pub insert : {V : Type 0} → ℕ → V → (ℕ → Option V) → ℕ → Option V
insert key value map k = if k == key then some value else map k

abbrev pub remove : {V : Type 0} → ℕ → (ℕ → Option V) → ℕ → Option V
remove key map k = if k == key then none else map k

-- The messages that wait in each channel.
abbrev pub Channels : Type 0 → Type 0
Channels B = ℕ → Option (List (ScrollMessage B))

module _ {B Sig : Type 0} where
  -- ScrollWireManager::new
  unfoldable pub new_manager : List (ScrollWireEvent B Sig ℕ) → ScrollWireManager B Sig
  new_manager events = record { events = events; connections = λ peer. none }

  abbrev pub send :
      ℕ
      → ℕ
      → Option (List (ScrollMessage B))
      → NewBlock B
      → ScrollWireManager B Sig
      → Channels B
      → Result AnnounceBlockError (Unit {0}) × ScrollWireManager B Sig × Channels B
  send peer channel (some queue) block m channels =
      (ok tt, m, insert channel (queue ++ (new_block_message block ∷ [])) channels)
  send peer channel none block m channels =
      (err (send_failed peer), record m { connections = remove peer m.connections }, channels)

  abbrev pub announce_to :
      ℕ
      → Option ℕ
      → NewBlock B
      → ScrollWireManager B Sig
      → Channels B
      → Result AnnounceBlockError (Unit {0}) × ScrollWireManager B Sig × Channels B
  announce_to peer none block m channels = (err (peer_not_connected peer), m, channels)
  announce_to peer (some channel) block m channels =
      send peer channel (channels channel) block m channels

  unfoldable pub announce_block :
      ScrollWireManager B Sig
      → Channels B
      → ℕ
      → NewBlock B
      → Result AnnounceBlockError (Unit {0}) × ScrollWireManager B Sig × Channels B
  announce_block m channels peer block = announce_to peer (m.connections peer) block m channels

  -- The loop of `poll` over the events that are there; `none` is pending.
  unfoldable pub poll_events :
      List (ScrollWireEvent B Sig ℕ)
      → (ℕ → Option ℕ)
      → Option (ScrollWireEvent B Sig ℕ) × ScrollWireManager B Sig
  poll_events [] connections = (none, record { events = []; connections = connections })
  poll_events (new_block_event peer block signature ∷ events) connections = (
    some (new_block_event peer block signature),
    record { events = events; connections = connections },
  )
  poll_events (connection_established peer channel ∷ events) connections =
      poll_events events (insert peer channel connections)

  unfoldable pub poll :
      ScrollWireManager B Sig → Option (ScrollWireEvent B Sig ℕ) × ScrollWireManager B Sig
  poll m = poll_events m.events m.connections
