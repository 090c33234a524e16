-- ===== src/ClientModel/Deaf.antt =====
-- `sendSnapshotUpdateRequest`, and what the server makes of it.
use durak.Packet.{Packet}
use durak.Connection as Connection
use durak.Server.{Server}
use durak.ClientModel.{ClientModel}
