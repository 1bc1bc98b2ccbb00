-- ===== src/Miptpd/AppController/Sending.antt =====
-- miptpd/src/lib/miptp_app_controller.c: a package on its way to the MIP daemon.
use network_course_uio.Prelude.{
  ℕ, ◌+◌, ◌≤◌, ◌≡◌, refl, ◌∙◌, ap, true, none, some, List, ◌++◌, length, take, drop, arith,
  length-append, length-take, take-append_left, leb, le→leb, if◌then◌else◌,
}
use network_course_uio.Prelude.Bytes.{bytes16, copy_out, copy_out_inside}
use network_course_uio.Commons.MipdMessage.{MipdMessage}
use network_course_uio.Commons.MipdMessage
use network_course_uio.Commons.MipdMessage.Roundtrip.{IsMessage, message_bytes}
use network_course_uio.Commons.MipdMessage.Roundtrip
use network_course_uio.Miptpd.MiptpPackage.{MiptpPackage, header_bytes}
use network_course_uio.Miptpd.MiptpPackage.Shifted.{IsMiptp, front_lem}
use network_course_uio.Miptpd.MiptpPackage.Shifted
use network_course_uio.Miptpd.AppController.{World, send_mipd_message, send_package}

-- The buffers on the stack have the sizes of `MAX_MIPTP_PACKAGE_SIZE` and `MAX_MIPMESSAGE_SIZE`.
pub record IsWorld (world : World) : Type 0 where
  pub p_room : length world.p_buffer ≡ 1496
  pub m_room : length world.m_buffer ≡ 1500

-- The message that carries a package: the header, and the data behind its size, cut to the size
abbrev pub message_of : (destination : ℕ) → MiptpPackage → MipdMessage
message_of destination p = record {
  mip_address = destination;
  data_size = 4 + p.data_size;
  bytes = header_bytes p.miptp_header ++ take p.data_size (bytes16 p.data_size ++ p.bytes);
}

pub message_of-IsMessage :
    (destination : ℕ) (p : MiptpPackage)
    → IsMiptp p
    → p.data_size ≤ 1490
    → IsMessage (message_of destination p)
unfolding header_bytes
message_of-IsMessage destination p ok small = record {
  stored = omega (arith, ok.stored, length-take p.data_size (bytes16 p.data_size ++ p.bytes));
  small = omega arith;
}

create_message :
    (destination : ℕ) (p : MiptpPackage) (left : List ℕ)
    → IsMiptp p
    → p.data_size ≤ 1490
    → MipdMessage.create destination
        (4 + p.data_size)
        (header_bytes p.miptp_header ++ (bytes16 p.data_size ++ p.bytes ++ left))
      ≡ some (some (message_of destination p))
unfolding MipdMessage.create header_bytes
create_message destination p left ok small =
    let n = 4 + p.data_size in
    let written = header_bytes p.miptp_header ++ (bytes16 p.data_size ++ p.bytes ++ left) in
    let inside : copy_out 0 n written ≡ some (take n written) =
      copy_out_inside 0 n written (omega (arith, ok.stored, length-append p.bytes left)) in
    let fits : leb n 1496 ≡ true = le→leb n 1496 (omega arith) in
    rw fits (rw inside (rw (front_lem p ok left) refl))

send_mipd_message_lem :
    (world : World) (i : ℕ) (m : MipdMessage)
    → IsWorld world
    → IsMessage m
    → send_mipd_message world i m ≡ some (if world.sends i then some (message_bytes m) else none)
unfolding send_mipd_message
send_mipd_message_lem world i m room ok =
    let count : 3 + m.data_size ≡ length (message_bytes m) = omega (arith, ok.stored) in
    let left = drop (length m.bytes) (drop 2 (drop 1 world.m_buffer)) in
    let front : take (3 + m.data_size) (message_bytes m ++ left) ≡ message_bytes m =
      ap (λ n. take n (message_bytes m ++ left)) count ∙ take-append_left (message_bytes m) left in
    rw
      (
        Roundtrip.serialize_lem world.m_buffer m ok (omega (arith, room.m_room, ok.small)),
        send_mipd_message,
      )
      (rw front refl)

-- A package of 1490 bytes of data at most goes to the MIP daemon as one message, unless the socket
-- refuses it.
pub send_package_lem :
    (world : World) (i destination : ℕ) (p : MiptpPackage)
    → IsWorld world
    → IsMiptp p
    → p.data_size ≤ 1490
    → send_package world i destination p
      ≡ some (if world.sends i then some (message_bytes (message_of destination p)) else none)
unfolding send_package
send_package_lem world i destination p room ok small =
    let left = drop (length p.bytes) (drop 2 (drop 4 world.p_buffer)) in
    rw (Shifted.serialize_lem p ok world.p_buffer small room.p_room, send_package)
      (rw (create_message destination p left ok small) (
        send_mipd_message_lem world i (message_of destination p) room
          (message_of-IsMessage destination p ok small)))
