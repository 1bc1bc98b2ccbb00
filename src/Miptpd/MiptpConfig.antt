-- ===== src/Miptpd/MiptpConfig.antt =====
-- miptpd/src/lib/miptp_config.{h,c}: the command line of the transport daemon. A string is the list of
-- its bytes, without the 0 at its end.
use network_course_uio.Prelude.{
  ℕ, zero, suc, ◌<◌, ◌≤◌, ◌≡◌, refl, ◌∙◌, ap, sym, Bool, true, false, ◌&&◌, ◌||◌, Option, none,
  some, List, [], ◌∷◌, ◌++◌, ltb, ◌==◌, if◌then◌else◌, length, arith, replicate, drop,
  length-append, length-replicate, inl, inr, Bool-cases, take-append_left, leb, leb→le, ==→eq,
  length-take, append-nil,
}
use network_course_uio.Prelude.Bytes.{
  copy_in, copy_out, copy_out_inside, copy_out_outside, copy_in_end, copy_in_outside, slice,
}

-- `struct MIPTPConfig`; the two strings are the objects that hold their bytes.
pub record MiptpConfig : Type 0 where
  pub mipd_socket : List ℕ
  pub app_socket : List ℕ
  pub debug_active : Bool
  pub timeout : ℕ

-- `strnlen`, for the object of a string with the 0 at its end
abbrev pub strnlen : List ℕ → (limit : ℕ) → ℕ
strnlen string limit = if ltb (length string) limit then length string else limit

-- A zeroed object of the length of a string, which has no room for the 0 at its end, after a `memcpy`
-- of `n` bytes of the string; none is an access behind one of the two.
unfoldable pub copy_string : (string : List ℕ) (n : ℕ) → Option (List ℕ)
copy_string string n = elim (copy_out 0 n (string ++ 0 ∷ [])) [
  | none ↦ none
  | some bytes ↦ copy_in 0 bytes (replicate (strnlen string 257) 0)
]

-- `MIPTPConfig_create`: both strings are copied with the length of the first. The inner none is NULL.
unfoldable pub create :
    (mipd_socket app_socket : List ℕ) (debug_active : Bool) (timeout : ℕ)
    → Option (Option MiptpConfig)
create mipd_socket app_socket debug_active timeout =
    if ltb (strnlen mipd_socket 257) 257 && ltb (strnlen app_socket 257) 257
    then elim (copy_string mipd_socket (strnlen mipd_socket 256)) [
      | none ↦ none
      | some mipd ↦ elim (copy_string app_socket (strnlen mipd_socket 256)) [
        | none ↦ none
        | some app ↦ some (
            some (record {
              mipd_socket = mipd;
              app_socket = app;
              debug_active = debug_active;
              timeout = timeout;
            }))
      ]
    ]
    else some none

-- The loop over the options: `getopt` is a parameter, the letters that it gives, of which 104 is `h`,
-- 100 is `d` and 63 the `?` of an unknown one. None is the end of the program.
unfoldable pub read_options : (options : List ℕ) → (debug_active : Bool) → Option Bool
read_options [] debug_active = some debug_active
read_options (opt ∷ rest) debug_active = elim ((opt == 104) || (opt == 63)) [
  | true ↦ none
  | false ↦ read_options rest (if opt == 100 then true else debug_active)
]

-- The loop over the arguments that are not options, of which the last after the two paths is the
-- timeout. `sscanf` for it is `scan`, which is none if it finds no number.
unfoldable pub read_timeout : (scan : List ℕ → Option ℕ) → List (List ℕ) → (timeout : ℕ) → ℕ
read_timeout scan [] timeout = timeout
read_timeout scan (argument ∷ rest) timeout =
    read_timeout scan rest (elim (scan argument) [ none ↦ timeout | some n ↦ n ])

-- `MIPTPConfig_parse_arguments`: the inner none is NULL.
unfoldable pub parse_arguments :
    (scan : List ℕ → Option ℕ) (options : List ℕ) (arguments : List (List ℕ))
    → Option (Option MiptpConfig)
parse_arguments scan options arguments = elim (read_options options false) [
  | none ↦ some none
  | some debug_active ↦ elim arguments [
    | [] ↦ some none
    | mipd_socket ∷ behind ↦ elim behind [
      | [] ↦ some none
      | app_socket ∷ rest ↦ create mipd_socket app_socket debug_active (read_timeout scan rest 0)
    ]
  ]
]

strnlen_lem :
    (string : List ℕ) (limit : ℕ) → length string ≤ limit → strnlen string limit ≡ length string
strnlen_lem string limit small = ground (arith, small)

drop-replicate : (n : ℕ) → drop {A = ℕ} n (replicate n 0) ≡ []
drop-replicate zero = refl
drop-replicate (suc n) = drop-replicate n

copy_string_whole :
    (string : List ℕ) (n : ℕ)
    → length string ≤ 256
    → n ≡ length string
    → copy_string string n ≡ some string
unfolding copy_string
copy_string_whole string n small is_length =
    let object : List ℕ = replicate (length string) 0 in
    let out : copy_out 0 n (string ++ 0 ∷ []) ≡ some string =
      ap (λ k. copy_out 0 k (string ++ 0 ∷ [])) is_length
      ∙ copy_out_inside 0 (length string) (string ++ 0 ∷ [])
          (omega (arith, length-append string (0 ∷ [])))
      ∙ ap some (take-append_left string (0 ∷ [])) in
    let filled : copy_in 0 string object ≡ some string =
      copy_in_end [] string object (omega (arith, length-replicate (length string) zero))
      ∙ ap (λ l. some (string ++ l)) (drop-replicate (length string))
      ∙ ap some (append-nil string) in
    rw (out, copy_string)
      (ap (λ k. copy_in 0 string (replicate k 0)) (strnlen_lem string 257 (omega (arith, small)))
        ∙ filled)

copy_string_overrun :
    (string : List ℕ) (n : ℕ) → length string < n → n ≤ 256 → copy_string string n ≡ none
unfolding copy_string
copy_string_overrun string n longer small =
    let source = string ++ 0 ∷ [] in
    let room = length-append string (0 ∷ []) in
    elim (Bool-cases (leb n (length source))) [
      | inl inside ↦
          let bytes = slice 0 n source in
          let size : length bytes ≡ n =
            omega (arith, length-take n source, leb→le n (length source) inside) in
          let object : List ℕ = replicate (strnlen string 257) 0 in
          let target : length object ≡ length string =
            length-replicate (strnlen string 257) zero
            ∙ strnlen_lem string 257 (omega (arith, small, longer)) in
          rw (copy_out_inside 0 n source (ground (arith, inside)), copy_string)
            (copy_in_outside 0 bytes object (omega (arith, size, target, longer)))
      | inr behind ↦ rw (copy_out_outside 0 n source (ground (arith, behind)), copy_string) refl
    ]

-- Two paths of the same length, 256 bytes at most, are kept without the 0 at their ends; a path of the
-- MIP daemon that is longer than that of the applications is copied behind the object of the latter.
pub create_lem :
    (mipd_socket app_socket : List ℕ) (debug_active : Bool) (timeout : ℕ)
    → length mipd_socket ≤ 256
    → length app_socket ≤ length mipd_socket
    → create mipd_socket app_socket debug_active timeout ≡ (
        if length app_socket == length mipd_socket
        then some (
            some (record {
              mipd_socket = mipd_socket;
              app_socket = app_socket;
              debug_active = debug_active;
              timeout = timeout;
            }))
        else none)
unfolding create
create_lem mipd_socket app_socket debug_active timeout small shorter =
    let n : strnlen mipd_socket 256 ≡ length mipd_socket = strnlen_lem mipd_socket 256 small in
    let both : (ltb (strnlen mipd_socket 257) 257 && ltb (strnlen app_socket 257) 257) ≡ true =
      ground (arith, small, shorter) in
    let mipd = copy_string_whole mipd_socket (strnlen mipd_socket 256) small n in
    elim (Bool-cases (length app_socket == length mipd_socket)) [
      | inl same ↦
          let app =
            copy_string_whole app_socket (strnlen mipd_socket 256) (omega (arith, small, shorter))
              (n ∙ sym (==→eq (length app_socket) (length mipd_socket) same)) in
          rw (both, mipd, app, same) refl
      | inr differs ↦
          let app =
            copy_string_overrun app_socket (strnlen mipd_socket 256)
              (ground (arith, n, differs, shorter)) (omega (arith, n, small)) in
          rw (both, mipd, app, differs) refl
    ]
