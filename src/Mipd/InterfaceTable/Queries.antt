-- ===== src/Mipd/InterfaceTable/Queries.antt =====
-- The lookups of interface.c, and which interfaces `collect_intefaces` keeps.
use network_course_uio.Prelude.{
  ℕ, zero, suc, ◌+◌, ◌≤◌, ◌<◌, ◌≡◌, ◌≢◌, ◌⊎◌, inl, inr, refl, Bool, true, false, none, some, List,
  [], ◌∷◌, ltb, ◌==◌, if◌then◌else◌, length, get_or, All, ℤ, pos, minus_one, eq_int, arith,
  Bool-cases, eq_cases, ==→eq, ==→ne,
}
use network_course_uio.Mipd.InterfaceTable.{
  InterfaceRecord, InterfaceTable, SockaddrLl, Ifaddr, position_from, equal_from, interface_equal,
  get_interface_pos_for_socket, get_interface_pos_for_mip_address, is_wanted, collect_from,
  collect_interfaces,
}

-- The test passes at position `i` of the list and nowhere before it.
abbrev pub FirstAt : (InterfaceRecord → Bool) → List InterfaceRecord → ℕ → Type 0
FirstAt test [] i = ⊥
FirstAt test (r ∷ rest) zero = test r ≡ true
FirstAt test (r ∷ rest) (suc i) = (test r ≡ false) × FirstAt test rest i

abbrev pub Nowhere : (InterfaceRecord → Bool) → List InterfaceRecord → Type 0
Nowhere test l = All (λ r. test r ≡ false) l

position_from_lem :
    (test : InterfaceRecord → Bool) (k : ℕ) (l : List InterfaceRecord) (missing : ℤ)
    → ((i : ℕ) × (position_from test k l missing ≡ pos (k + i)) × FirstAt test l i)
      ⊎ ((position_from test k l missing ≡ missing) × Nowhere test l)
unfolding position_from
position_from_lem test k [] missing = inr (refl, tt)
position_from_lem test k (r ∷ rest) missing = elim (Bool-cases (test r)) [
  | inl hit ↦ inl (0, ground arith, hit)
  | inr miss ↦ elim (position_from_lem test (k + 1) rest missing) [
    | inl (i, at, first) ↦ inl (suc i, ground arith, (miss, first))
    | inr (at, none_left) ↦ inr (ground arith, (miss, none_left))
  ]
]

-- The position that `get_interface_pos_for_mip_address` returns is the first that has the address,
-- or -1 if no interface has it.
pub get_interface_pos_for_mip_address_lem :
    (t : InterfaceTable) (address : ℕ)
    → let rc = get_interface_pos_for_mip_address t address in
      ((i : ℕ) × (rc ≡ pos i) × FirstAt (λ r. r.mip_address == address) t.interfaces i)
      ⊎ ((rc ≡ minus_one) × Nowhere (λ r. r.mip_address == address) t.interfaces)
unfolding get_interface_pos_for_mip_address
get_interface_pos_for_mip_address_lem t address =
    elim (position_from_lem (λ r. r.mip_address == address) 0 t.interfaces minus_one) [
      | inl (i, at, first) ↦ inl (i, ground arith, first)
      | inr (at, nowhere) ↦ inr (at, nowhere)
    ]

-- `get_interface_pos_for_socket` returns the first position that has the socket, and 0 if no
-- interface has it, so the tests of its callers for -1 never fail.
pub get_interface_pos_for_socket_lem :
    (t : InterfaceTable) (fd : ℤ)
    → let rc = get_interface_pos_for_socket t fd in
      (((i : ℕ) × (rc ≡ pos i) × FirstAt (λ r. eq_int r.raw_socket fd) t.interfaces i)
        ⊎ ((rc ≡ pos 0) × Nowhere (λ r. eq_int r.raw_socket fd) t.interfaces))
      × (rc ≢ minus_one)
unfolding get_interface_pos_for_socket
get_interface_pos_for_socket_lem t fd =
    elim (position_from_lem (λ r. eq_int r.raw_socket fd) 0 t.interfaces (pos 0)) [
      | inl (i, at, first) ↦ (inl (i, ground arith, first), λ e. ground arith)
      | inr (at, nowhere) ↦ (inr (at, nowhere), λ e. ground arith)
    ]

equal_from_lem :
    (n i : ℕ) (a b : List ℕ)
    → ((equal_from n i a b ≡ i + n) × ((j : ℕ) → i ≤ j → j < i + n → get_or a j 0 ≡ get_or b j 0))
      ⊎ ((equal_from n i a b ≡ 0) × ((j : ℕ) × (j < i + n) × (get_or a j 0 ≢ get_or b j 0)))
unfolding equal_from
equal_from_lem zero i a b = inl (omega arith, λ j lo hi. absurd (omega arith))
equal_from_lem (suc n) i a b = elim (Bool-cases (get_or a i 0 == get_or b i 0)) [
  | inl same ↦ elim (equal_from_lem n (i + 1) a b) [
    | inl (all, h) ↦ inl (
      ground arith,
      λ j lo hi. elim (eq_cases i j) [
        | inl e ↦ rw (← e) (==→eq _ _ same)
        | inr ne ↦ h j (omega arith) (omega arith)
      ],
    )
    | inr (some_ne, (j, lt, ne)) ↦ inr (ground arith, (j, omega arith, ne))
  ]
  | inr differ ↦ inr (ground arith, (i, omega arith, ==→ne _ _ differ))
]

-- `interface_equal` is 6 if the six bytes agree, and 0 if some byte differs.
pub interface_equal_lem :
    (a b : List ℕ)
    → ((interface_equal a b ≡ 6) × ((j : ℕ) → j < 6 → get_or a j 0 ≡ get_or b j 0))
      ⊎ ((interface_equal a b ≡ 0) × ((j : ℕ) × (j < 6) × (get_or a j 0 ≢ get_or b j 0)))
unfolding interface_equal
interface_equal_lem a b = elim (equal_from_lem 6 0 a b) [
  | inl (all, h) ↦ inl (all, λ j lt. h j (omega arith) lt)
  | inr (z, w) ↦ inr (z, w)
]

-- The addresses of the packet family, without the loopback interface
abbrev pub wanted : List Ifaddr → List SockaddrLl
wanted [] = []
wanted (a ∷ rest) = if is_wanted a then a.address ∷ wanted rest else wanted rest

collect_from_lem :
    (buffer_n i : ℕ) (l : List Ifaddr)
    → i < buffer_n
    → collect_from buffer_n i l
      ≡ (if ltb (i + length (wanted l)) buffer_n then some (wanted l) else none)
unfolding collect_from
collect_from_lem buffer_n i [] h = ground arith
collect_from_lem buffer_n i (a ∷ rest) h = elim (Bool-cases (is_wanted a)) [
  | inl keep ↦ ground (arith, collect_from_lem buffer_n (i + 1) rest)
  | inr skip ↦ ground (arith, collect_from_lem buffer_n i rest h)
]

-- `collect_intefaces` stores the packet addresses other than the loopback's, in order, if they are
-- fewer than the buffer has room for, and fails if they are as many or more.
pub collect_interfaces_lem :
    (buffer_n : ℕ) (l : List Ifaddr)
    → 0 < buffer_n
    → collect_interfaces buffer_n (some l)
      ≡ (if ltb (length (wanted l)) buffer_n then some (wanted l) else none)
unfolding collect_interfaces
collect_interfaces_lem buffer_n l h = ground (arith, collect_from_lem buffer_n 0 l h)
