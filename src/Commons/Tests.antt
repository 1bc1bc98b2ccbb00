-- ===== src/Commons/Tests.antt =====
-- Runs of the shared data on small inputs.
use network_course_uio.Prelude.{
  ℕ, ◌+◌, ◌≡◌, refl, some, List, [], ◌∷◌, ◌++◌, take, replicate, arith, pos,
}
use network_course_uio.Prelude.Bytes.{u16}
use network_course_uio.Commons.MipdMessage.{MipdMessage}
use network_course_uio.Commons.MipdMessage
use network_course_uio.Commons.MipdMessage.Roundtrip.{IsMessage, mipd_message_roundtrip}
use network_course_uio.Commons.ClientPackage.{ClientPackage}
use network_course_uio.Commons.ClientPackage
use network_course_uio.Commons.ClientPackage.Roundtrip.{IsPackage, client_package_roundtrip}

abbrev buffer : List ℕ
buffer = replicate 20 0

abbrev others : List ℕ
others = 1 ∷ 2 ∷ []

abbrev message : MipdMessage
message = record { mip_address = 20; data_size = 3; bytes = 7 ∷ 8 ∷ 9 ∷ [] }

message-IsMessage : IsMessage message
message-IsMessage = record { stored = refl; small = omega arith }

mipd_message_roundtrip_example :
    (written : List ℕ) × (MipdMessage.serialize buffer message
      ≡ some (pos (3 + message.data_size), written))
    × (MipdMessage.deserialize (take (3 + message.data_size) written ++ others)
        ≡ some (some message))
mipd_message_roundtrip_example =
    mipd_message_roundtrip buffer others message message-IsMessage (omega arith)

abbrev client_package : ClientPackage
client_package = record {
  port = 700;
  destination = 20;
  client_type = 1;
  data_size = 3;
  bytes = 7 ∷ 8 ∷ 9 ∷ [];
}

client_package-IsPackage : IsPackage client_package
client_package-IsPackage = record {
  stored = refl;
  port_fits = omega arith;
  type_fits = omega arith;
  size_fits = omega arith;
}

client_package_roundtrip_example :
    (written : List ℕ) × (ClientPackage.serialize buffer client_package
      ≡ some (u16 (16 + client_package.data_size), written))
    × (ClientPackage.deserialize (take (9 + client_package.data_size) written ++ others)
        ≡ some (some client_package))
client_package_roundtrip_example =
    client_package_roundtrip buffer others client_package client_package-IsPackage (omega arith)
