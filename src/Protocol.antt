-- ===== src/Protocol.antt =====
-- source/protocol: the enumerations that client and server share, and source/game/RulesType.h.
use durak.Base.{ℕ, List}

pub data ClientRole : Type 0 where
  host regular : ClientRole

pub data DisconnectReason : Type 0 where
  server_is_closed server_is_full game_already_started invalid_token : DisconnectReason
  kicked_by_host timeout quit : DisconnectReason

pub data SessionPhase : Type 0 where
  no_phase lobby_phase game_phase : SessionPhase

pub data SnapshotType : Type 0 where
  no_snapshot lobby_snapshot game_snapshot : SnapshotType

pub data SyncState : Type 0 where
  unsynced syncing synced : SyncState

pub data RulesType : Type 0 where
  classic_rules : RulesType

-- source/game/PlayerProfile.h. A nickname is its bytes.
pub record Profile : Type 0 where
  pub id : ℕ
  pub token : ℕ
  pub nickname : List ℕ
  pub role : ClientRole

abbrev pub set_nickname : List ℕ → Profile → Profile
set_nickname name p = record p { nickname = name }

abbrev pub set_role : ClientRole → Profile → Profile
set_role value p = record p { role = value }
