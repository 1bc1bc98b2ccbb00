-- ===== src/Mipd/MipArp/Queries.antt =====
-- Lookups in the ARP cache of mip_arp.c, and what `append_to_cache` makes of them.
use network_course_uio.Prelude.{
  ℕ, zero, suc, ◌+◌, ◌≤◌, ◌<◌, ◌≡◌, ◌≢◌, ◌↔◌, ◌⊎◌, refl, List, [], ◌∷◌, ◌++◌, ◌==◌, if◌then◌else◌,
  length, set, take, arith, ap, length-set, ◌∙◌, Bool-cases, inl, inr, ==→eq, ==→ne, ne→==, All, ℤ,
  pos, minus_one, none, some, lt→ltb, length-take, sym,
}
use network_course_uio.Mipd.MipArp.{
  MipArpCacheEntry, MipArpCache, live, socket_from, pos_from, query_mip_address_src_socket,
  query_mip_address_pos, append_to_cache, cache_slots,
}
use network_course_uio.Mipd.MipArp.Live.{take-set_lt, take-set_end}

-- No entry has the address.
abbrev pub Absent : ℕ → List MipArpCacheEntry → Type 0
Absent m l = All (λ e. m ≢ e.mip_address) l

-- The first entry with the address stands at position `k`.
abbrev pub FirstAt : ℕ → List MipArpCacheEntry → ℕ → Type 0
FirstAt m [] k = ⊥
FirstAt m (e ∷ rest) zero = m ≡ e.mip_address
FirstAt m (e ∷ rest) (suc k) = (m ≢ e.mip_address) × FirstAt m rest k

abbrev pub Distinct : List MipArpCacheEntry → Type 0
Distinct [] = Unit
Distinct (e ∷ rest) = Absent e.mip_address rest × Distinct rest

pos_from_lem :
    (i m : ℕ) (l : List MipArpCacheEntry)
    → ((k : ℕ) × (pos_from i m l ≡ pos (i + k)) × FirstAt m l k)
      ⊎ ((pos_from i m l ≡ minus_one) × Absent m l)
unfolding pos_from
pos_from_lem i m [] = inr (refl, tt)
pos_from_lem i m (e ∷ rest) = elim (Bool-cases (m == e.mip_address)) [
  | inl hit ↦ inl (0, ground arith, ==→eq _ _ hit)
  | inr miss ↦ elim (pos_from_lem (i + 1) m rest) [
    | inl (k, at, first) ↦ inl (suc k, ground arith, (==→ne _ _ miss, first))
    | inr (at, absent) ↦ inr (ground arith, (==→ne _ _ miss, absent))
  ]
]

FirstAt-lt : (m : ℕ) (l : List MipArpCacheEntry) (k : ℕ) → FirstAt m l k → k < length l
FirstAt-lt m [] k h = elim h [ ]
FirstAt-lt m (e ∷ rest) zero h = omega arith
FirstAt-lt m (e ∷ rest) (suc k) h = omega (arith, FirstAt-lt m rest k h.1)

module _ (m : ℕ) (new : MipArpCacheEntry) (named : new.mip_address ≡ m) where
  socket-set :
      (x : ℕ) (l : List MipArpCacheEntry) (k : ℕ)
      → FirstAt m l k
      → socket_from x (set l k new) ≡ (if x == m then new.src_socket else socket_from x l)
  unfolding socket_from
  socket-set x [] k h = elim h [ ]
  socket-set x (e ∷ rest) zero h = ground arith
  socket-set x (e ∷ rest) (suc k) h = ground (arith, socket-set x rest k h.1)

  socket-push :
      (x : ℕ) (l : List MipArpCacheEntry)
      → Absent m l
      → socket_from x (l ++ new ∷ []) ≡ (if x == m then new.src_socket else socket_from x l)
  unfolding socket_from
  socket-push x [] h = ground arith
  socket-push x (e ∷ rest) h = ground (arith, socket-push x rest h.1)

  Absent-set :
      (x : ℕ) (l : List MipArpCacheEntry) (k : ℕ)
      → FirstAt m l k
      → Absent x l
      → Absent x (set l k new)
  Absent-set x [] k h a = elim h [ ]
  Absent-set x (e ∷ rest) zero h a = (λ same. a.0 (same ∙ named ∙ h), a.1)
  Absent-set x (e ∷ rest) (suc k) h a = (a.0, Absent-set x rest k h.1 a.1)

  Absent-push : (x : ℕ) (l : List MipArpCacheEntry) → x ≢ m → Absent x l → Absent x (l ++ new ∷ [])
  Absent-push x [] ne a = (λ same. ne (same ∙ named), tt)
  Absent-push x (e ∷ rest) ne a = (a.0, Absent-push x rest ne a.1)

  Distinct-set :
      (l : List MipArpCacheEntry) (k : ℕ) → FirstAt m l k → Distinct l → Distinct (set l k new)
  Distinct-set [] k h d = elim h [ ]
  Distinct-set (e ∷ rest) zero h d = (rw (named, h) d.0, d.1)
  Distinct-set (e ∷ rest) (suc k) h d =
      (Absent-set e.mip_address rest k h.1 d.0, Distinct-set rest k h.1 d.1)

  Distinct-push : (l : List MipArpCacheEntry) → Absent m l → Distinct l → Distinct (l ++ new ∷ [])
  Distinct-push [] a d = (tt, tt)
  Distinct-push (e ∷ rest) a d =
      (Absent-push e.mip_address rest (λ same. a.0 (sym same)) d.0, Distinct-push rest a.1 d.1)

-- The array is whole, the count is within it, and no two entries share an address.
pub record IsValid (c : MipArpCache) : Type 0 where
  pub whole : length c.entries ≡ cache_slots
  pub inside : c.size ≤ cache_slots
  pub distinct : Distinct (live c)

-- What is known of the cache after the sender of a package has been entered.
pub record Appended (c : MipArpCache) (sock : ℤ) (m : ℕ) (c' : MipArpCache) : Type 0 where
  pub valid : IsValid c'
  pub lookup :
      (x : ℕ)
      → query_mip_address_src_socket c' x
        ≡ (if x == m then sock else query_mip_address_src_socket c x)

append_known :
    (now : ℕ) (c : MipArpCache) (sock : ℤ) (m : ℕ) (mac : List ℕ) (k : ℕ)
    → IsValid c
    → m ≢ 255
    → query_mip_address_pos c m ≡ pos k
    → FirstAt m (live c) k
    → (c' : MipArpCache) × (append_to_cache now c sock m mac ≡ some (pos k, c'))
      × Appended c sock m c'
unfolding append_to_cache
append_known now c sock m mac k v ne at first =
    let new : MipArpCacheEntry = record {
      mip_address = m;
      src_socket = sock;
      dst_interface = take 6 mac;
      last_update = now;
    } in
    let lt : k < c.size =
      omega (arith, FirstAt-lt m (live c) k first, length-take c.size c.entries, v.whole) in
    let written = take-set_lt c.size k c.entries new lt in
    (
      record c { entries = set c.entries k new },
      rw (ne→== m 255 ne, at, append_to_cache),
      record {
        valid = record {
          whole = length-set c.entries k new ∙ v.whole;
          inside = v.inside;
          distinct = rw written (Distinct-set m new refl (live c) k first v.distinct);
        };
        lookup = λ x. rw written (socket-set m new refl x (live c) k first);
      },
    )

append_new :
    (now : ℕ) (c : MipArpCache) (sock : ℤ) (m : ℕ) (mac : List ℕ)
    → IsValid c
    → m ≢ 255
    → c.size < cache_slots
    → query_mip_address_pos c m ≡ minus_one
    → Absent m (live c)
    → (c' : MipArpCache) × (append_to_cache now c sock m mac ≡ some (pos (c.size + 1), c'))
      × Appended c sock m c'
unfolding append_to_cache
append_new now c sock m mac v ne room at absent =
    let new : MipArpCacheEntry = record {
      mip_address = m;
      src_socket = sock;
      dst_interface = take 6 mac;
      last_update = now;
    } in
    let next : c.size + 1 ≡ suc c.size = omega arith in
    let written : take (c.size + 1) (set c.entries c.size new) ≡ live c ++ new ∷ [] =
      rw next (take-set_end c.size c.entries new (omega (arith, v.whole))) in
    (
      record c { entries = set c.entries c.size new; size = c.size + 1 },
      rw (ne→== m 255 ne, at, append_to_cache) (rw (lt→ltb c.size 64 room)),
      record {
        valid = record {
          whole = length-set c.entries c.size new ∙ v.whole;
          inside = omega arith;
          distinct = rw written (Distinct-push m new refl (live c) absent v.distinct);
        };
        lookup = λ x. rw written (socket-push m new refl x (live c) absent);
      },
    )

-- Into a valid cache with a free slot `append_to_cache` enters every address but the broadcast
-- address: the cache stays valid, the address is then found at the socket, and every other address
-- is found as before.
append_to_cache-Appended :
    (now : ℕ) (c : MipArpCache) (sock : ℤ) (m : ℕ) (mac : List ℕ)
    → IsValid c
    → m ≢ 255
    → c.size < cache_slots
    → (rc : ℕ) × (c' : MipArpCache) × (append_to_cache now c sock m mac ≡ some (pos rc, c'))
      × Appended c sock m c'
append_to_cache-Appended now c sock m mac v ne room = elim (pos_from_lem 0 m (live c)) [
  | inl (k, at, first) ↦
      let zero_add : 0 + k ≡ k = omega arith in
      let (c', made, known) = append_known now c sock m mac k v ne (at ∙ ap pos zero_add) first in
      (k, c', made, known)
  | inr (at, absent) ↦
      let (c', made, known) = append_new now c sock m mac v ne room at absent in
      (c.size + 1, c', made, known)
]

-- `append_to_cache` writes behind its array exactly if all 64 slots are in use and the address is
-- neither the broadcast address nor in the cache.
pub append_to_cache-eq-none :
    (now : ℕ) (c : MipArpCache) (sock : ℤ) (m : ℕ) (mac : List ℕ)
    → IsValid c
    → (append_to_cache now c sock m mac ≡ none)
      ↔ ((c.size ≡ cache_slots) × (m ≢ 255) × (query_mip_address_pos c m ≡ minus_one))
unfolding append_to_cache
append_to_cache-eq-none now c sock m mac v = elim (pos_from_lem 0 m (live c)) [
  | inl (k, at, first) ↦ ground (arith, v.inside)
  | inr (at, absent) ↦ ground (arith, v.inside)
]
