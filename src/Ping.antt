-- ===== src/Ping.antt =====
-- ping-client/src/ping_client.c and ping-server/src/ping_server.c: the programs that send a message over
-- the MIP daemon and answer it.
pub mod Answer
mod Tests
use network_course_uio.Prelude.{
  ℕ, ◌+◌, ◌<◌, ◌≤◌, ◌-◌, ◌≡◌, refl, ◌∙◌, ap, sym, Option, none, some, List, [], ◌∷◌, ◌++◌, length,
  take, drop, replicate, arith, append_assoc, All, map, zero, ℤ, pos, negsuc, minus_one,
  length-append, take-append_left, length-replicate, length-drop, length-take, leb, le→leb,
}
use network_course_uio.Prelude.Bytes.{copy_in, copy_out, copy_out_inside, copy_in_end, copy_out_lem}
use network_course_uio.Commons.MipdMessage.{
  MipdMessage, create, serialize, deserialize, max_mipmessage_data_size, max_mipmessage_size,
}
use network_course_uio.Commons.MipdMessage.Roundtrip.{
  IsMessage, message_bytes, serialize_lem, deserialize_lem, create_lem,
}

-- The part of the client's `main` up to its `send`: the text is copied with the 0 at its end. None is a
-- write behind one of the buffers on the stack, or a null pointer that is used.
unfoldable pub client_message :
    (buffer s_message : List ℕ) (destination : ℕ) (text : List ℕ) → Option (List ℕ)
client_message buffer s_message destination text = elim (copy_in 0 (text ++ 0 ∷ []) buffer) [
  | none ↦ none
  | some with_text ↦ elim (create destination (length text) with_text) [
    | none ↦ none
    | some none ↦ none
    | some (some message) ↦ elim (serialize s_message message) [
      | none ↦ none
      | some (negsuc n, written) ↦ none
      | some (pos size, written) ↦ some (take size written)
    ]
  ]
]

-- "PONG"
abbrev pub pong : List ℕ
pong = 80 ∷ 79 ∷ 78 ∷ 71 ∷ []

-- The body of the loop of the server's `main`, between `recv` and `write`
unfoldable pub server_response : (m_buffer r_buffer : List ℕ) → Option (List ℕ)
server_response m_buffer r_buffer = elim (deserialize m_buffer) [
  | none ↦ none
  | some none ↦ none
  | some (some message) ↦ elim (create message.mip_address 4 (pong ++ 0 ∷ [])) [
    | none ↦ none
    | some none ↦ none
    | some (some response) ↦ elim (serialize r_buffer response) [
      | none ↦ none
      | some (negsuc n, written) ↦ none
      | some (pos size, written) ↦ some (take size written)
    ]
  ]
]

-- The server's loop over what `recv` fills its buffer with; it ends with -1 when the MIP daemon has
-- gone, which is the end of the list.
unfoldable pub serve : List (List ℕ) → Option (List (List ℕ))
serve [] = some []
serve (m_buffer ∷ rest) = elim (server_response m_buffer (replicate max_mipmessage_size 0)) [
  | none ↦ none
  | some response ↦ elim (serve rest) [ none ↦ none | some responses ↦ some (response ∷ responses) ]
]

-- What a message comes to between the buffers of two programs
serialized :
    (buffer : List ℕ) (m : MipdMessage)
    → IsMessage m
    → length buffer ≡ 1500
    → (written : List ℕ) × (serialize buffer m ≡ some (pos (3 + m.data_size), written))
      × (take (3 + m.data_size) written ≡ message_bytes m)
serialized buffer m ok room =
    let left = drop (length m.bytes) (drop 2 (drop 1 buffer)) in
    let count : 3 + m.data_size ≡ length (message_bytes m) = omega (arith, ok.stored) in
    (
      message_bytes m ++ left,
      serialize_lem buffer m ok (omega (arith, room, ok.small)),
      ap (λ n. take n (message_bytes m ++ left)) count ∙ take-append_left (message_bytes m) left,
    )

abbrev pub message_to : (destination : ℕ) → List ℕ → MipdMessage
message_to destination text = record {
  mip_address = destination;
  data_size = length text;
  bytes = text;
}

-- A text of 1495 bytes at most is sent as a message with that text, without the 0 at its end.
pub client_message_lem :
    (buffer s_message : List ℕ) (destination : ℕ) (text : List ℕ)
    → length buffer ≡ 1496
    → length s_message ≡ 1500
    → length text ≤ 1495
    → client_message buffer s_message destination text
      ≡ some (message_bytes (message_to destination text))
unfolding client_message create
client_message_lem buffer s_message destination text room s_room small =
    let string = text ++ 0 ∷ [] in
    let n = length text in
    let is_n = length-append text (0 ∷ []) in
    let copied = copy_in_end [] string buffer (omega (arith, is_n, room, small)) in
    let behind = drop (length string) buffer in
    let out : copy_out 0 n (string ++ behind) ≡ some text =
      ap (copy_out 0 n) (append_assoc text (0 ∷ []) behind) ∙ copy_out_lem [] text (0 ∷ behind) in
    let ok : IsMessage (message_to destination text) = record {
      stored = refl;
      small = omega arith;
    } in
    let (written, run, front) = serialized s_message (message_to destination text) ok s_room in
    rw (copied, client_message)
      (rw (le→leb n 1496 (omega (arith, small)), out) (rw run (rw front refl)))

pong_created :
    (source : ℕ) → create source 4 (pong ++ 0 ∷ []) ≡ some (some (message_to source pong))
unfolding create copy_out
pong_created source = refl

-- A message that the server reads is answered with "PONG" to the address that it came from.
pub answer_lem :
    (m_buffer r_buffer : List ℕ) (m : MipdMessage)
    → deserialize m_buffer ≡ some (some m)
    → length r_buffer ≡ 1500
    → server_response m_buffer r_buffer ≡ some (message_bytes (message_to m.mip_address pong))
unfolding server_response
answer_lem m_buffer r_buffer m read room =
    let response = message_to m.mip_address pong in
    let response-IsMessage : IsMessage response = record { stored = refl; small = omega arith } in
    let (written, run, front) = serialized r_buffer response response-IsMessage room in
    rw (read, server_response) (rw (pong_created m.mip_address) (rw run (rw front refl)))

-- The server never stops answering, and gives every message in turn its answer: what it reads are
-- messages, each followed by anything in the buffer.
pub serve_lem :
    (messages : List (MipdMessage × List ℕ))
    → All (λ x. IsMessage x.0) messages
    → serve (map (λ x. message_bytes x.0 ++ x.1) messages)
      ≡ some (map (λ x. message_bytes (message_to x.0.mip_address pong)) messages)
unfolding serve
serve_lem [] ok = refl
serve_lem ((m, rest) ∷ messages) ok =
    let answer =
      answer_lem (message_bytes m ++ rest) (replicate 1500 0) m (deserialize_lem m rest ok.0)
        (length-replicate 1500 zero) in
    rw (answer, serve) (rw (serve_lem messages ok.1) refl)
