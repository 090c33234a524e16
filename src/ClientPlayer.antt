-- ===== src/ClientPlayer.antt =====
-- source/game/ClientPlayerData.{h,cpp}: what a client knows of a player.
-- A nickname is its bytes; a getter is the field it reads.
use durak.Base.{ℕ, List, Bool, false, ℤ, pos}
use durak.Protocol.{ClientRole}

pub record ClientPlayer : Type 0 where
  pub id : ℕ
  pub nickname : List ℕ
  pub role : ClientRole
  pub hand_size : ℤ
  pub pass_action : Bool
  pub winner : Bool
  pub loser : Bool
  pub ready : Bool

-- The constructor, whose body is `init`.
abbrev pub new_client_player : ℕ → List ℕ → ClientRole → ClientPlayer
new_client_player player name part = record {
  id = player;
  nickname = name;
  role = part;
  hand_size = pos 0;
  pass_action = false;
  winner = false;
  loser = false;
  ready = false;
}

abbrev pub set_id : ℕ → ClientPlayer → ClientPlayer
set_id value p = record p { id = value }

abbrev pub set_nickname : List ℕ → ClientPlayer → ClientPlayer
set_nickname value p = record p { nickname = value }

abbrev pub set_role : ClientRole → ClientPlayer → ClientPlayer
set_role value p = record p { role = value }

abbrev pub set_hand_size : ℤ → ClientPlayer → ClientPlayer
set_hand_size value p = record p { hand_size = value }

abbrev pub set_pass_action : Bool → ClientPlayer → ClientPlayer
set_pass_action value p = record p { pass_action = value }

abbrev pub set_winner : Bool → ClientPlayer → ClientPlayer
set_winner value p = record p { winner = value }

abbrev pub set_loser : Bool → ClientPlayer → ClientPlayer
set_loser value p = record p { loser = value }

abbrev pub set_ready : Bool → ClientPlayer → ClientPlayer
set_ready value p = record p { ready = value }
