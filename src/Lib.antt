-- ===== src/Lib.antt =====
-- Durak, a card game for several players: a model of its server, its client and its game rules.
--
-- The program's parts and the files that model them (paths from the root of the repository):
--
-- - Seats: source/states/SeatPositionsState, who sits where. Two maps, from seats to players and back.
-- - Lobby: source/states/server/LobbyState, the players of a lobby, the queue and the seats.
-- - LobbyLogic: source/game/LobbyLogic, the requests of players that the server grants or refuses.
-- - Cards: source/game/CardData and source/game/PlayerData, cards and hands.
-- - GameState: source/states/server/GameState, deck, table, boneyard, players and roles.
-- - GameLogic: source/game/GameLogic, the moves of cards between the places of a GameState.
-- - Rules: source/game/ClassicRules, the machine of phases that `update` drives. It reads and writes
--   the GameState, asks GameLogic to move cards, and publishes events.
-- - Packet: source/network/Packet.h and source/network/PacketFactory, the bytes of messages.
-- - Connection: the code that source/network/Client and source/network/ClientSession share, which cuts
--   the bytes of a socket into packets and sends packets from a queue.
-- - EventSystem: source/core/EventSystem.h, through which the client's parts and the rules are connected:
--   subscriptions by type of event, and the dispatch of what is published.
-- - Session: the rest of source/network/ClientSession, what the server keeps of a client.
-- - Server: source/network/Server and ServerPacketDispatcher.h. It hands packets to LobbyLogic, makes
--   what is granted known by broadcasts, and sends snapshots of the lobby.
-- - ClientPlayer and ClientLobby: source/game/ClientPlayerData and
--   source/states/client/ClientLobbyState, the client's copy of the lobby.
-- - ClientLobbyLogic: source/game/ClientLobbyLogic, what the client does with the server's
--   notifications and with the user's wishes.
-- - ClientModel: source/network/ClientModel, ClientPacketDispatcher.h and
--   source/core/ClientContext.h, the client's side of the protocol.
-- - Protocol: source/protocol and source/game/PlayerProfile.h, enumerations and profiles.
-- - Base: shared lists, integers, maps and results.
--
-- How the code becomes definitions. A class is a record, its getters are the fields, and a method is a
-- function of the same name from the state to the new state. An `int` is an integer, a `uint32_t` or a
-- `size_t` a natural number; where the code mixes signs or subtracts below 0, the conversion to
-- `2 ^ 32` or `2 ^ 64` is written out (to_u32, to_size, no_room). An `unordered_map` is an association
-- list. A method that may throw, read a null pointer or an empty optional, or fail an assert returns an
-- Outcome; nothing in the program catches, so a fault has no state. Asserts are live, as in the debug
-- configurations of Durak.vcxproj.
--
-- Conditions used throughout. A lobby is well formed (Lobby.Invariant.IsWellFormed) if every player is
-- listed once, there are at most eight, the game has two to four seats, the seat maps mirror one
-- another, nobody sits on a negative seat, and every listed player, and no other, is either in the
-- queue once or on one seat. A count of cards "of any kind" (GameState.Totals.total) is the number of
-- cards in deck, table, boneyard and hands that pass a test, for any test.
--
-- A client's lobby mirrors the server's (ClientLobby.Mirror.Mirrors) if both have the same players, seats,
-- queue, size of the game and openness. A socket is as documented (Connection.Sending.IsSocket) if it
-- takes no more bytes than it is given, and all of them when it answers `Done`.
--
-- Loops. Loops over vectors are recursion on the list. `drain_rows` and `skip_winners` run on fuel: one
-- more than the table has positions, because each round moves to the next position, and one more than
-- there are players, because a round over all seats meets every player. `read_packets` has one round
-- more than there are unread bytes, because each packet takes at least one byte and the last round finds
-- none, and `send_pending_packets` one more than there are packets, because each round that goes on
-- takes one off the queue. `EventSystem.dispatch` has 1003 rounds: at most 1000 events are processed, and
-- every round but the first processes one.
--
-- Left out. The sockets of SFML are parameters of the model: what they receive is a list of chunks, what
-- they do with bytes to send is a function, and whether the listener has a new client is a Boolean. What
-- the rules, the server and the client publish is kept as a list, and the methods that EventSystem calls
-- are a parameter of it, which do not subscribe while they run. Everything on SFML
-- (source/ui, scenes, resources) has no model. Times are whole milliseconds in place of `float` seconds.
-- The commented-out handlers of ClassicRules have no model.
pub mod Base
pub mod Seats
pub mod Protocol
pub mod Packet
pub mod Lobby
pub mod LobbyLogic
pub mod Cards
pub mod GameState
pub mod GameLogic
pub mod Rules
pub mod ClientPlayer
pub mod ClientLobby
pub mod ClientLobbyLogic
pub mod EventSystem
pub mod Connection
pub mod Session
pub mod Server
pub mod ClientModel
