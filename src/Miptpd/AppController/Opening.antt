-- ===== src/Miptpd/AppController/Opening.antt =====
-- miptpd/src/lib/miptp_app_controller.c: an application opens its connection, and its data is sent.
use network_course_uio.Prelude.{
  ℕ, ◌^◌, ◌<◌, ◌≤◌, ◌%◌, ◌≡◌, refl, ◌∙◌, ap, sym, true, false, some, List, [], ◌∷◌, ◌++◌, All,
  append_assoc, All-append, arith, ℤ, pos, minus_one, ◌==◌, ◌||◌,
}
use network_course_uio.Commons.ClientPackage.{ClientPackage, miptp_sender, miptp_receiver}
use network_course_uio.Commons.ClientPackage.Roundtrip.{
  IsPackage, serialized_bytes, deserialize_lem,
}
use network_course_uio.Miptpd.SendJob.Small.{package_for}
use network_course_uio.Miptpd.AppConnection.{AppConnection, connection_type}
use network_course_uio.Miptpd.AppController.{
  AppController, has_socket, complete_connection, handle_app_package,
}
use network_course_uio.Miptpd.AppController.Outgoing.{IsConnection, due}
use network_course_uio.Miptpd.AppController.Requests.{
  complete_connection_sender, complete_connection_receiver,
}
use network_course_uio.Miptpd.AppController.Making.{IsShort, IsSenderOf}
use network_course_uio.Miptpd.AppController.{World, handle_outgoing}
use network_course_uio.Miptpd.AppController.Sending.{IsWorld, message_of}
use network_course_uio.Miptpd.AppController.Outgoing.{due_messages, messages, handle_outgoing_lem}
use network_course_uio.Commons.MipdMessage.Roundtrip.{message_bytes}

due_messages-append :
    (xs ys : List AppConnection) → due_messages (xs ++ ys) ≡ due_messages xs ++ due_messages ys
due_messages-append [] ys = refl
due_messages-append (x ∷ xs) ys =
    ap (λ l. messages x.connected_mip (due x) ++ l) (due_messages-append xs ys)
    ∙ sym (append_assoc (messages x.connected_mip (due x)) (due_messages xs) (due_messages ys))

module _ (now : ℕ) (controller : AppController) (socket : ℤ) (p : ClientPackage) (rest : List ℕ)
    (valid : IsPackage p) (to_port : 0 < p.port) (to_host : 0 < p.destination)
    (xs : List AppConnection) (c : AppConnection) (ys : List AppConnection)
    (all : controller.connections ≡ xs ++ c ∷ ys) (away : has_socket socket xs ≡ false)
    (there : c.socket ≡ socket) where
  good : ((p.port == 0) || (p.destination == 0)) ≡ false
  good = ground arith

  -- The request of a sender with 1490 bytes of data at most: the first connection with its socket gives
  -- way to one at the end of the list, which sends the data, in one package with the port of the
  -- request modulo 2^14, to the host of the request.
  pub handle_app_package_sender :
      p.client_type ≡ miptp_sender
      → p.data_size ≤ 1490
      → (new : AppConnection) × (handle_app_package now controller socket
            (serialized_bytes p ++ rest)
          ≡ some (pos 1, record controller { connections = xs ++ ys ++ new ∷ [] }))
        × IsSenderOf p socket new
  unfolding handle_app_package connection_type
  handle_app_package_sender sender small =
      let short : IsShort p = record { stored = valid.stored; small = small } in
      let (new, run, made) =
        complete_connection_sender now controller.timeout socket p short xs c ys
          (ap connection_type sender) away there in
      let found = ap (complete_connection now controller.timeout socket p) all ∙ run in
      (new, rw (deserialize_lem p valid rest, handle_app_package) (rw good (rw found refl)), made)

  -- A valid request of a receiver for a port and a host, on a socket with a connection, always fails and
  -- leaves the connections as they are.
  pub handle_app_package_receiver :
      p.client_type ≡ miptp_receiver
      → handle_app_package now controller socket (serialized_bytes p ++ rest)
        ≡ some (minus_one, controller)
  unfolding handle_app_package connection_type
  handle_app_package_receiver receiver =
      let found =
        ap (complete_connection now controller.timeout socket p) all
        ∙ complete_connection_receiver now controller.timeout socket p xs c ys
            (ap connection_type receiver) away there in
      rw (deserialize_lem p valid rest, handle_app_package) (rw good (rw found refl))

  -- A valid request of a sender, with 1490 bytes of data at most, for a port and a host, on a socket with
  -- a connection, is taken. If the connections in front of that one and behind it wait or send short
  -- data, and the socket of the MIP daemon takes everything, the next round sends their packages and,
  -- last, one message for the host of the request: the package for the port of the request, modulo
  -- 2^14, as it is serialised, which has its size where the data should begin and lacks the last two
  -- bytes of the data.
  pub handle_outgoing-handle_app_package :
      (world : World)
      → p.client_type ≡ miptp_sender
      → p.data_size ≤ 1490
      → IsWorld world
      → ((k : ℕ) → world.sends k ≡ true)
      → All IsConnection xs
      → All IsConnection ys
      → (after : AppController) × (handle_app_package now controller socket
            (serialized_bytes p ++ rest)
          ≡ some (pos 1, after))
        × (handle_outgoing world after
            ≡ some (
              pos 1,
              due_messages xs
                  ++ due_messages ys
                  ++ message_bytes
                      (message_of p.destination (package_for (p.port % 2 ^ 14) p.bytes p.data_size))
                    ∷ [],
              after,
            ))
  handle_outgoing-handle_app_package world sender small room success sound_xs sound_ys =
      let (new, run, made) = handle_app_package_sender sender small in
      let after = record controller { connections = xs ++ ys ++ new ∷ [] } in
      let sound =
        All-append IsConnection (xs ++ ys) (new ∷ [])
          (All-append IsConnection xs ys sound_xs sound_ys) (made.sound, tt) in
      let last : due_messages (new ∷ [])
          ≡ message_bytes
              (message_of p.destination (package_for (p.port % 2 ^ 14) p.bytes p.data_size))
            ∷ [] =
        ap (λ d. messages new.connected_mip d ++ []) made.sends
        ∙ ap
            (λ a.
              message_bytes (message_of a (package_for (p.port % 2 ^ 14) p.bytes p.data_size)) ∷ [])
            made.to in
      let sent =
        due_messages-append (xs ++ ys) (new ∷ [])
        ∙ ap (λ l. l ++ due_messages (new ∷ [])) (due_messages-append xs ys)
        ∙ ap (λ l. due_messages xs ++ due_messages ys ++ l) last in
      (
        after,
        run,
        handle_outgoing_lem world after room success sound ∙ ap (λ l. some (pos 1, l, after)) sent,
      )
