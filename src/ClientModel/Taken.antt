-- ===== src/ClientModel/Taken.antt =====
-- The last packets of a snapshot, taken in by a client.
use durak.Base.{
  ℕ, ◌<◌, ◌≡◌, true, List, [], ◌∷◌, ◌++◌, length, none, some, ℤ, arith, ok, sym, ◌∙◌, All,
}
use mathlib.Core.List.{append-nil}
use durak.Protocol.{synced, lobby_snapshot}
use durak.Packet.{Packet, new_packet, write_uint, to_bytes}
use durak.Packet.Kinds.{packet_code, snapshot_lobby_seat_positions, snapshot_lobby_queue_positions}
use durak.Packet.RoundTrip.{read_uint-to_bytes, advance}
use durak.Packet.Factory.{
  make_snapshot_end_packet, make_snapshot_lobby_seat_positions_packet,
  make_snapshot_lobby_queue_positions_packet, make_snapshot_ack_packet,
}
use durak.Connection.Frames.{arrived}
use durak.ClientLobby.{ClientLobby}
use durak.ClientModel.{ClientModel, send, publish, snapshot_applied}
use durak.ClientModel.Building.{
  on_snapshot_end_packet, apply_snapshot, on_snapshot_lobby_seat_positions_packet,
  on_snapshot_lobby_queue_positions_packet,
}
use durak.ClientModel.Dispatch.{process_packet, dispatch_syncing}
use durak.ClientModel.Reading.{
  write_seats-payload, write_all-payload, seats_bytes, ids_bytes, IsEntry, IsId, assign_each,
  enqueue_all, read_seats-assign_each, read_queue-enqueue_all,
}
use durak.ClientModel.Snapshot.{in_snapshot}

seats_dispatched :
    (p : Packet) (c : ClientLobby) (m : ClientModel)
    → p.kind ≡ packet_code snapshot_lobby_seat_positions
    → process_packet p (in_snapshot m c)
      ≡ on_snapshot_lobby_seat_positions_packet p (in_snapshot m c)
unfolding process_packet dispatch_syncing packet_code
seats_dispatched p c m h = rw h

queue_dispatched :
    (p : Packet) (c : ClientLobby) (m : ClientModel)
    → p.kind ≡ packet_code snapshot_lobby_queue_positions
    → process_packet p (in_snapshot m c)
      ≡ on_snapshot_lobby_queue_positions_packet p (in_snapshot m c)
unfolding process_packet dispatch_syncing packet_code
queue_dispatched p c m h = rw h

pub seats_taken :
    (xs : List (ℤ × ℕ)) (c c' : ClientLobby) (m : ClientModel)
    → All IsEntry xs
    → length xs < 256
    → assign_each xs c ≡ ok c'
    → process_packet (arrived (make_snapshot_lobby_seat_positions_packet xs)) (in_snapshot m c)
      ≡ ok (in_snapshot m c')
unfolding make_snapshot_lobby_seat_positions_packet on_snapshot_lobby_seat_positions_packet
    new_packet write_uint
seats_taken xs c c' m small few made =
    let q = arrived (make_snapshot_lobby_seat_positions_packet xs) in
    let (bytes, kind) =
      write_seats-payload xs
        (write_uint 1 (length xs) (new_packet snapshot_lobby_seat_positions)) in
    let (r1, d1) = read_uint-to_bytes 1 (length xs) q (seats_bytes xs) (omega (arith, few)) bytes in
    let read = read_seats-assign_each xs (advance 1 q) c small d1 in
    seats_dispatched q c m kind ∙ ground (arith, r1, read, made)

pub queue_taken :
    (xs : List ℕ) (c c' : ClientLobby) (m : ClientModel)
    → All IsId xs
    → length xs < 256
    → enqueue_all xs c ≡ ok c'
    → process_packet (arrived (make_snapshot_lobby_queue_positions_packet xs)) (in_snapshot m c)
      ≡ ok (in_snapshot m c')
unfolding make_snapshot_lobby_queue_positions_packet on_snapshot_lobby_queue_positions_packet
    new_packet write_uint
queue_taken xs c c' m small few made =
    let q = arrived (make_snapshot_lobby_queue_positions_packet xs) in
    let (bytes, kind) =
      write_all-payload xs (write_uint 1 (length xs) (new_packet snapshot_lobby_queue_positions)) in
    let (r1, d1) = read_uint-to_bytes 1 (length xs) q (ids_bytes xs) (omega (arith, few)) bytes in
    let read = read_queue-enqueue_all xs (advance 1 q) c small d1 in
    queue_dispatched q c m kind ∙ ground (arith, r1, read, made)

-- The client when a snapshot is complete.
abbrev pub settled : ClientModel → ClientLobby → ClientModel
settled m c = send make_snapshot_ack_packet (
    publish (snapshot_applied (some c)) (record m {
      sync_state = synced;
      initialized = true;
      states_to_delete = m.states_to_delete ++ (m.lobby ∷ []);
      lobby = some c;
      temp_lobby = none;
    }))

pub end_taken :
    (c : ClientLobby) (m : ClientModel)
    → process_packet (arrived (make_snapshot_end_packet lobby_snapshot)) (in_snapshot m c)
      ≡ ok (settled m c)
unfolding process_packet dispatch_syncing packet_code make_snapshot_end_packet new_packet write_uint
    on_snapshot_end_packet apply_snapshot
end_taken c m =
    let (r1, _) =
      read_uint-to_bytes 1 1 (arrived (make_snapshot_end_packet lobby_snapshot)) [] (omega arith)
        (sym (append-nil (to_bytes 1 1))) in
    rw r1
