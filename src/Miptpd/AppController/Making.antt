-- ===== src/Miptpd/AppController/Making.antt =====
-- miptpd/src/lib/miptp_app_controller.c: the connection that is made for a
-- package of an application.
use network_course_uio.Prelude.{
  ℕ, ◌^◌, ◌≤◌, ◌%◌, ◌≡◌, ◌⊎◌, refl, ◌∙◌, ap, sym, true, false, none, some, List, [], ◌∷◌, length,
  arith, drop, ℤ, Bool, inl, inr, Bool-cases, length-take, length-drop, leb, le→leb, ◌==◌, ◌||◌,
}
use network_course_uio.Prelude.Bytes.{slice, copy_out, copy_out_inside, copy_whole}
use network_course_uio.Commons.ClientPackage.{
  ClientPackage, miptp_sender, miptp_receiver, deserialize, get_data, get_data_size, get_port,
  get_destination, get_type,
}
use network_course_uio.Commons.ClientPackage
use network_course_uio.Miptpd.SendJob.Small.{create-IsSmall, package_for}
use network_course_uio.Miptpd.AppConnection.{
  AppConnection, conn_sender, conn_receiver, conn_not_ready, connection_type, create,
}
use network_course_uio.Miptpd.AppController.Outgoing.{IsConnection, due, waits, sends_job}

-- A request of an application, as it stands in the read buffer: its data is short.
pub record IsRequest (buffer : List ℕ) : Type 0 where
  pub room : length buffer ≡ 65535
  pub small : get_data_size buffer ≤ 1490

-- A package whose data is as long as it says, and short
pub record IsShort (p : ClientPackage) : Type 0 where
  pub stored : length p.bytes ≡ p.data_size
  pub small : p.data_size ≤ 1490

pub deserialize-IsShort :
    (buffer : List ℕ)
    → IsRequest buffer
    → (p : ClientPackage) × (deserialize buffer ≡ some (some p)) × IsShort p
unfolding deserialize get_data ClientPackage.create
deserialize-IsShort buffer ok =
    let n = get_data_size buffer in
    let bytes = slice 9 n buffer in
    let all : copy_out 9 n buffer ≡ some bytes =
      copy_out_inside 9 n buffer (omega (arith, ok.room, ok.small)) in
    let stored : length bytes ≡ n =
      omega (arith, ok.room, ok.small, length-take n (drop 9 buffer), length-drop 9 buffer) in
    let copied : copy_out 0 n bytes ≡ some bytes =
      ap (λ k. copy_out 0 k bytes) (sym stored) ∙ copy_whole bytes in
    let fits : leb n 65535 ≡ true = le→leb n 65535 (omega (arith, ok.small)) in
    (
      record {
        port = get_port buffer;
        destination = get_destination buffer;
        client_type = get_type buffer;
        data_size = n;
        bytes = bytes;
      },
      rw (all, deserialize) (rw (fits, copied) refl),
      record { stored = stored; small = ok.small },
    )

pub neither : (a b : Bool) → (a || b) ≡ false → (a ≡ false) × (b ≡ false)
neither a b h = ground (arith, h)

-- A connection that sends the data of a package
pub record IsSenderOf (p : ClientPackage) (socket : ℤ) (c : AppConnection) : Type 0 where
  pub sound : IsConnection c
  pub on_socket : c.socket ≡ socket
  pub to : c.connected_mip ≡ p.destination
  pub sends : due c ≡ package_for (p.port % 2 ^ 14) p.bytes p.data_size ∷ []

connection_type-cases :
    (t : ℕ)
    → (connection_type t ≡ conn_sender)
      ⊎ ((connection_type t ≡ conn_receiver) ⊎ (connection_type t ≡ conn_not_ready))
unfolding connection_type
connection_type-cases t = elim (Bool-cases (t == 1)) [
  | inl sender ↦ inl (rw sender refl)
  | inr other ↦ elim (Bool-cases (t == 2)) [
    | inl receiver ↦ inr (inl (rw (other, receiver) refl))
    | inr neither ↦ inr (inr (rw (other, neither) refl))
  ]
]

module _ (now timeout : ℕ) (socket : ℤ) (p : ClientPackage) (ok : IsShort p) where
  -- The connection that a sender gets
  pub create_sender :
      (c : AppConnection) × (create now conn_sender socket p.port p.destination p.bytes p.data_size
          timeout
        ≡ some (some c))
      × IsSenderOf p socket c
  unfolding create
  create_sender =
      let (job, run, small, only) =
        create-IsSmall now (p.port % 2 ^ 14) p.destination p.bytes p.data_size timeout ok.stored
          ok.small in
      let port : p.port % 2 ^ 14 % 2 ^ 14 ≡ p.port % 2 ^ 14 = omega arith in
      (
        record {
          port = p.port % 2 ^ 14;
          socket = socket;
          connected_mip = p.destination;
          status = conn_sender;
          s_job = some job;
          r_job = none;
        },
        rw (run, create) refl,
        record {
          sound = sends_job small;
          on_socket = refl;
          to = refl;
          sends = ap (λ q. q ∷ []) (only ∙ ap (λ c. package_for c p.bytes p.data_size) port);
        },
      )

  -- What becomes of a package of any type
  pub create_cases :
      (create now
          (connection_type p.client_type)
          socket
          p.port
          p.destination
          p.bytes
          p.data_size
          timeout
        ≡ some none)
      ⊎ ((c : AppConnection) × (create now
              (connection_type p.client_type)
              socket
              p.port
              p.destination
              p.bytes
              p.data_size
              timeout
            ≡ some (some c))
          × IsConnection c
          × (c.socket ≡ socket))
  unfolding create
  create_cases = elim (connection_type-cases p.client_type) [
    | inl sender ↦
        let (c, run, made) = create_sender in inr (c, rw sender run, made.sound, made.on_socket)
    | inr (inl receiver) ↦ inl (rw receiver refl)
    | inr (inr neither) ↦ inr (
      record {
        port = p.port % 2 ^ 14;
        socket = socket;
        connected_mip = p.destination;
        status = conn_not_ready;
        s_job = none;
        r_job = none;
      },
      rw neither refl,
      waits,
      refl,
    )
  ]
