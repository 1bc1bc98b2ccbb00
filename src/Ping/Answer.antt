-- ===== src/Ping/Answer.antt =====
-- The way of a ping between neighbours: ping-client, the MIP daemon of its host, the link, the MIP daemon
-- of the other host, ping-server, and back to that daemon.
use network_course_uio.Prelude.{some}
use network_course_uio.Commons.MipdMessage.{MipdMessage}
use network_course_uio.Commons.MipdMessage.Roundtrip.{IsMessage, message_bytes}
use network_course_uio.Mipd.Packaging.MipPackage.{MipPackage}
use network_course_uio.Mipd.Server.{MipdServer}
use network_course_uio.Mipd.Server.Loop.{Event}

-- The daemon of the client's host
module _ (event : Event) (server : MipdServer) (m : MipdMessage) (ok : IsMessage m) where
  abbrev asked : Event
  asked = record event { bytes = some (message_bytes m) }
