-- ===== src/Miptpd/AppController/Requests.antt =====
-- miptpd/src/lib/miptp_app_controller.c: the package with which an application opens its connection.
use network_course_uio.Prelude.{
  ℕ, ◌≡◌, ◌⊎◌, refl, ◌∙◌, ap, true, false, none, some, List, [], ◌∷◌, ◌++◌, All, All-append, ℤ, pos,
  minus_one, eq_int, eq_int_refl, inl, inr, Bool-cases, ◌==◌, ◌||◌,
}
use network_course_uio.Commons.ClientPackage.{ClientPackage}
use network_course_uio.Miptpd.AppConnection.{
  AppConnection, conn_sender, conn_receiver, connection_type, create,
}
use network_course_uio.Miptpd.AppController.{
  AppController, has_socket, complete_connection, handle_app_package,
}
use network_course_uio.Miptpd.AppController.Outgoing.{IsConnection}
use network_course_uio.Miptpd.AppController.Making.{
  IsRequest, IsShort, IsSenderOf, deserialize-IsShort, create_sender, create_cases, neither,
}

module _ (now timeout : ℕ) (socket : ℤ) (p : ClientPackage) (ok : IsShort p) where
  -- A request is taken or refused, and the connections stay sound.
  complete_connection_total :
      (cs : List AppConnection)
      → All IsConnection cs
      → (complete_connection now timeout socket p cs ≡ some none)
        ⊎ ((cs' : List AppConnection) × (complete_connection now timeout socket p cs
              ≡ some (some cs'))
            × All IsConnection cs')
  unfolding complete_connection
  complete_connection_total [] sound = inr ([], refl, tt)
  complete_connection_total (c ∷ cs) sound = elim (Bool-cases (eq_int c.socket socket)) [
    | inl here ↦ elim (create_cases now timeout socket p ok) [
      | inl refused ↦ inl (rw (here, complete_connection) (rw (refused, complete_connection) refl))
      | inr (new, run, new_sound, _) ↦ inr (
        cs ++ new ∷ [],
        rw (here, complete_connection) (rw (run, complete_connection) refl),
        All-append IsConnection cs (new ∷ []) sound.1 (new_sound, tt),
      )
    ]
    | inr other ↦ elim (complete_connection_total cs sound.1) [
      | inl refused ↦ inl (rw (other, complete_connection) (rw refused refl))
      | inr (cs', run, rest) ↦
          inr (c ∷ cs', rw (other, complete_connection) (rw run refl), (sound.0, rest))
    ]
  ]

  -- The connection of a sender's socket is found and gives way to one that sends the data.
  pub complete_connection_sender :
      (xs : List AppConnection) (c : AppConnection) (ys : List AppConnection)
      → connection_type p.client_type ≡ conn_sender
      → has_socket socket xs ≡ false
      → c.socket ≡ socket
      → (new : AppConnection) × (complete_connection now timeout socket p (xs ++ c ∷ ys)
          ≡ some (some (xs ++ ys ++ new ∷ [])))
        × IsSenderOf p socket new
  unfolding complete_connection
  complete_connection_sender [] c ys sender away there =
      let (new, run, made) = create_sender now timeout socket p ok in
      let here : eq_int c.socket socket ≡ true =
        ap (λ s. eq_int s socket) there ∙ eq_int_refl socket in
      (new, rw (here, complete_connection) (rw sender (rw (run, complete_connection) refl)), made)
  complete_connection_sender (x ∷ xs) c ys sender away there =
      let (other, rest) = neither (eq_int x.socket socket) (has_socket socket xs) away in
      let (new, run, made) = complete_connection_sender xs c ys sender rest there in
      (new, rw (other, complete_connection) (rw run refl), made)

-- The connection of a receiver's socket cannot be made.
pub complete_connection_receiver :
    (now timeout : ℕ) (socket : ℤ) (p : ClientPackage) (xs : List AppConnection) (c : AppConnection)
    (ys : List AppConnection)
    → connection_type p.client_type ≡ conn_receiver
    → has_socket socket xs ≡ false
    → c.socket ≡ socket
    → complete_connection now timeout socket p (xs ++ c ∷ ys) ≡ some none
unfolding complete_connection create
complete_connection_receiver now timeout socket p [] c ys receiver away there =
    let here : eq_int c.socket socket ≡ true =
      ap (λ s. eq_int s socket) there ∙ eq_int_refl socket in
    rw (here, complete_connection) (rw receiver refl)
complete_connection_receiver now timeout socket p (x ∷ xs) c ys receiver away there =
    let (other, rest) = neither (eq_int x.socket socket) (has_socket socket xs) away in
    rw (other, complete_connection)
      (rw (complete_connection_receiver now timeout socket p xs c ys receiver rest there) refl)

-- A request with a short package keeps the connections sound, whatever it asks for.
pub handle_app_package_total :
    (now : ℕ) (controller : AppController) (socket : ℤ) (buffer : List ℕ)
    → IsRequest buffer
    → All IsConnection controller.connections
    → (rc : ℤ) × (after : AppController) × (handle_app_package now controller socket buffer
        ≡ some (rc, after))
      × All IsConnection after.connections
unfolding handle_app_package
handle_app_package_total now controller socket buffer request sound =
    let (p, made, short) = deserialize-IsShort buffer request in
    elim (Bool-cases ((p.port == 0) || (p.destination == 0))) [
      | inl bad ↦ (minus_one, controller, rw (made, handle_app_package) (rw bad refl), sound)
      | inr good ↦
          elim (complete_connection_total now controller.timeout socket p short
            controller.connections sound) [
              | inl refused ↦ (
                minus_one,
                controller,
                rw (made, handle_app_package) (rw good (rw refused refl)),
                sound,
              )
              | inr (cs, run, rest) ↦ (
                pos 1,
                record controller { connections = cs },
                rw (made, handle_app_package) (rw good (rw run refl)),
                rest,
              )
            ]
    ]
