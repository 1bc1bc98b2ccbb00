-- ===== src/Mipd/MipArp/Expiry.antt =====
-- The loop of `update_arp_cache`: it ends, and it takes out exactly the entries that are over age.
use network_course_uio.Prelude.{
  ℕ, zero, suc, ◌+◌, ◌*◌, ◌≤◌, ◌<◌, ◌≡◌, refl, List, [], ◌∷◌, ◌++◌, if◌then◌else◌, length, get_or,
  append-nil, append_assoc, take, arith, ap, ◌∙◌, Bool-cases, inl, inr, some, lt→ltb, length-take,
  sym, length-append, true, false,
}
use network_course_uio.Mipd.MipArp.{
  MipArpCacheEntry, MipArpCache, zero_entry, live, remove_from_cache, is_cache_entry_expired,
  expire_from,
}
use network_course_uio.Mipd.MipArp.Live.{
  remove_nth, live-remove_from_cache, length-remove_from_cache,
}
use network_course_uio.Mipd.MipArp.Queries.{Absent, Distinct}

-- The entries that are not over age, the clock read once for each in order
abbrev pub unexpired : (ℕ → ℕ) → (j freq : ℕ) → List MipArpCacheEntry → List MipArpCacheEntry
unexpired clock j freq [] = []
unexpired clock j freq (e ∷ rest) =
    if is_cache_entry_expired (clock j) e freq
    then unexpired clock (j + 1) freq rest
    else e ∷ unexpired clock (j + 1) freq rest

get_or-take :
    (k i : ℕ) (es : List MipArpCacheEntry)
    → i < k
    → get_or (take k es) i zero_entry ≡ get_or es i zero_entry
get_or-take zero i es h = absurd (omega arith)
get_or-take (suc k) i [] h = refl
get_or-take (suc k) zero (e ∷ es) h = refl
get_or-take (suc k) (suc i) (e ∷ es) h = get_or-take k i es (omega arith)

get_or-middle :
    (front : List MipArpCacheEntry) (e : MipArpCacheEntry) (back : List MipArpCacheEntry)
    → get_or (front ++ e ∷ back) (length front) zero_entry ≡ e
get_or-middle [] e back = refl
get_or-middle (f ∷ front) e back = get_or-middle front e back

remove_nth-middle :
    (front : List MipArpCacheEntry) (e : MipArpCacheEntry) (back : List MipArpCacheEntry)
    → remove_nth (length front) (front ++ e ∷ back) ≡ front ++ back
remove_nth-middle [] e back = refl
remove_nth-middle (f ∷ front) e back = ap (λ l. f ∷ l) (remove_nth-middle front e back)

-- What the loop leaves
pub record Expired (clock : ℕ → ℕ) (j : ℕ) (front back : List MipArpCacheEntry) (c c' : MipArpCache)
    : Type 0 where
  pub kept : live c' ≡ front ++ unexpired clock j (c.update_freq * 2) back
  pub whole : length c'.entries ≡ length c.entries
  pub inside : c'.size ≤ c.size
  pub same_freq : c'.update_freq ≡ c.update_freq
  pub same_arp : c'.last_arp ≡ c.last_arp

pub length-live : (c : MipArpCache) → c.size ≤ length c.entries → length (live c) ≡ c.size
length-live c h = omega (arith, length-take c.size c.entries)

module _ (clock : ℕ → ℕ) (f j i : ℕ) (c : MipArpCache) where
  expire_stop : c.size ≤ i → expire_from (suc f) clock j i c ≡ some c
  unfolding expire_from
  expire_stop h = ground arith

  expire_drop :
      i < c.size
      → is_cache_entry_expired (clock j) (get_or c.entries i zero_entry) (c.update_freq * 2) ≡ true
      → expire_from (suc f) clock j i c ≡ expire_from f clock (j + 1) i (remove_from_cache c i)
  unfolding expire_from
  expire_drop h old = rw (old, lt→ltb i c.size h)

  expire_keep :
      i < c.size
      → is_cache_entry_expired (clock j) (get_or c.entries i zero_entry) (c.update_freq * 2) ≡ false
      → expire_from (suc f) clock j i c ≡ expire_from f clock (j + 1) (i + 1) c
  unfolding expire_from
  expire_keep h young = rw (young, lt→ltb i c.size h)

-- The loop ends within a round for each entry and one more.
pub expire_from_lem :
    (clock : ℕ → ℕ) (back front : List MipArpCacheEntry) (j : ℕ) (c : MipArpCache)
    → c.size ≤ length c.entries
    → live c ≡ front ++ back
    → (c' : MipArpCache) × (expire_from (suc (length back)) clock j (length front) c ≡ some c')
      × Expired clock j front back c c'
unfolding remove_from_cache
expire_from_lem clock [] front j c fits split =
    let all : length front ≡ c.size =
      sym (ap length (split ∙ append-nil front)) ∙ length-live c fits in
    (
      c,
      expire_stop clock 0 j (length front) c (omega arith),
      record {
        kept = split;
        whole = refl;
        inside = omega arith;
        same_freq = refl;
        same_arp = refl;
      },
    )
expire_from_lem clock (e ∷ back) front j c fits split =
    elim (Bool-cases (is_cache_entry_expired (clock j) e (c.update_freq * 2))) [
      | inl old ↦
          let c1 = remove_from_cache c (length front) in
          let (c', ran, left) = expire_from_lem clock back front (j + 1) c1 fits1 (
            live-remove_from_cache c (length front) inside fits
            ∙ ap (remove_nth (length front)) split
            ∙ remove_nth-middle front e back) in
          (
            c',
            expire_drop clock (length (e ∷ back)) j (length front) c inside (rw at old) ∙ ran,
            record {
              kept = rw old left.kept;
              whole = left.whole ∙ length-remove_from_cache c (length front);
              inside = omega (arith, left.inside, size1);
              same_freq = left.same_freq;
              same_arp = left.same_arp;
            },
          )
      | inr young ↦
          let (c', ran, left) =
            expire_from_lem clock back (front ++ e ∷ []) (j + 1) c fits
              (split ∙ sym (append_assoc front (e ∷ []) back)) in
          (
            c',
            expire_keep clock (length (e ∷ back)) j (length front) c inside (rw at young)
                ∙ ap (λ n. expire_from (suc (length back)) clock (j + 1) n c)
                    (sym (length-append front (e ∷ [])))
                ∙ ran,
            record {
              kept = rw young (left.kept ∙ append_assoc front (e ∷ []) _);
              whole = left.whole;
              inside = left.inside;
              same_freq = left.same_freq;
              same_arp = left.same_arp;
            },
          )
    ]
  where
    inside : length front < c.size
    inside = omega (arith, length-live c fits, ap length split, length-append front (e ∷ back))

    at : get_or c.entries (length front) zero_entry ≡ e
    at =
        sym (get_or-take c.size (length front) c.entries inside)
        ∙ ap (λ l. get_or l (length front) zero_entry) split
        ∙ get_or-middle front e back

    size1 : (remove_from_cache c (length front)).size ≤ c.size
    size1 = omega arith

    fits1 :
        (remove_from_cache c (length front)).size
        ≤ length (remove_from_cache c (length front)).entries
    fits1 = omega (arith, size1, length-remove_from_cache c (length front))

Absent-unexpired :
    (clock : ℕ → ℕ) (j freq m : ℕ) (l : List MipArpCacheEntry)
    → Absent m l
    → Absent m (unexpired clock j freq l)
Absent-unexpired clock j freq m [] h = tt
Absent-unexpired clock j freq m (e ∷ rest) h =
    ground (arith, Absent-unexpired clock (j + 1) freq m rest h.1)

pub Distinct-unexpired :
    (clock : ℕ → ℕ) (j freq : ℕ) (l : List MipArpCacheEntry)
    → Distinct l
    → Distinct (unexpired clock j freq l)
Distinct-unexpired clock j freq [] d = tt
Distinct-unexpired clock j freq (e ∷ rest) d =
    elim (Bool-cases (is_cache_entry_expired (clock j) e freq)) [
      | inl old ↦ rw old (Distinct-unexpired clock (j + 1) freq rest d.1)
      | inr young ↦ rw young (
        Absent-unexpired clock (j + 1) freq e.mip_address rest d.0,
        Distinct-unexpired clock (j + 1) freq rest d.1,
      )
    ]
