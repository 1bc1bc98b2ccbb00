-- ===== src/Mipd/MipArp/Live.antt =====
-- The slots in use of the ARP cache as a list: what the writes and shifts of mip_arp.c do to it.
use network_course_uio.Prelude.{
  ℕ, zero, suc, ◌+◌, ◌-◌, ◌≤◌, ◌<◌, ◌≡◌, refl, List, [], ◌∷◌, ◌++◌, ◌==◌, if◌then◌else◌, length,
  get_or, set, take, arith, ap, length-set, ◌∙◌, Bool-cases, inl, inr, ==→eq,
}
use network_course_uio.Mipd.MipArp.{
  MipArpCacheEntry, MipArpCache, zero_entry, live, shift_left, remove_from_cache,
}

-- A list without the element at a position
abbrev pub remove_nth : ℕ → List MipArpCacheEntry → List MipArpCacheEntry
remove_nth i [] = []
remove_nth zero (e ∷ es) = es
remove_nth (suc i) (e ∷ es) = e ∷ remove_nth i es

pub take-set_ge :
    (k j : ℕ) (es : List MipArpCacheEntry) (v : MipArpCacheEntry)
    → k ≤ j
    → take k (set es j v) ≡ take k es
take-set_ge zero j es v h = refl
take-set_ge (suc k) j [] v h = refl
take-set_ge (suc k) zero (e ∷ es) v h = absurd (omega arith)
take-set_ge (suc k) (suc j) (e ∷ es) v h = ap (λ l. e ∷ l) (take-set_ge k j es v (omega arith))

pub take-set_lt :
    (k j : ℕ) (es : List MipArpCacheEntry) (v : MipArpCacheEntry)
    → j < k
    → take k (set es j v) ≡ set (take k es) j v
take-set_lt zero j es v h = absurd (omega arith)
take-set_lt (suc k) j [] v h = refl
take-set_lt (suc k) zero (e ∷ es) v h = refl
take-set_lt (suc k) (suc j) (e ∷ es) v h = ap (λ l. e ∷ l) (take-set_lt k j es v (omega arith))

-- A write to the first free slot adds the entry at the end.
pub take-set_end :
    (k : ℕ) (es : List MipArpCacheEntry) (v : MipArpCacheEntry)
    → k < length es
    → take (suc k) (set es k v) ≡ take k es ++ v ∷ []
take-set_end k [] v h = absurd (omega arith)
take-set_end zero (e ∷ es) v h = refl
take-set_end (suc k) (e ∷ es) v h = ap (λ l. e ∷ l) (take-set_end k es v (omega arith))

pub length-shift_left :
    (n i : ℕ) (es : List MipArpCacheEntry) → length (shift_left n i es) ≡ length es
unfolding shift_left
length-shift_left zero i es = refl
length-shift_left (suc n) i es =
    length-shift_left n (i + 1) (set es i (get_or es (i + 1) zero_entry))
    ∙ length-set es i (get_or es (i + 1) zero_entry)

shift_left-cons :
    (n i : ℕ) (e : MipArpCacheEntry) (es : List MipArpCacheEntry)
    → shift_left n (suc i) (e ∷ es) ≡ e ∷ shift_left n i es
unfolding shift_left
shift_left-cons zero i e es = refl
shift_left-cons (suc n) i e es =
    let step : suc i + 1 ≡ suc (i + 1) = omega arith in
    rw step (shift_left-cons n (i + 1) e (set es i (get_or es (i + 1) zero_entry)))

shift_left_head :
    (n : ℕ) (x y : MipArpCacheEntry) (es : List MipArpCacheEntry)
    → shift_left (suc n) 0 (x ∷ y ∷ es) ≡ y ∷ shift_left n 0 (y ∷ es)
unfolding shift_left
shift_left_head n x y es = let one : 0 + 1 ≡ suc 0 = refl in shift_left-cons n 0 y (y ∷ es)

take-shift_left_head :
    (n : ℕ) (es : List MipArpCacheEntry)
    → n < length es
    → take n (shift_left n 0 es) ≡ remove_nth 0 (take (suc n) es)
take-shift_left_head zero [] h = refl
take-shift_left_head zero (x ∷ es) h = refl
take-shift_left_head (suc n) [] h = absurd (omega arith)
take-shift_left_head (suc n) (x ∷ []) h = absurd (omega arith)
take-shift_left_head (suc n) (x ∷ y ∷ es) h =
    rw (shift_left_head n x y es) (ap (λ l. y ∷ l) (take-shift_left_head n (y ∷ es) (omega arith)))

take-shift_left :
    (i n : ℕ) (es : List MipArpCacheEntry)
    → i + n < length es
    → take (i + n) (shift_left n i es) ≡ remove_nth i (take (suc (i + n)) es)
take-shift_left zero n es h =
    let e : 0 + n ≡ n = omega arith in rw e (take-shift_left_head n es (omega arith))
take-shift_left (suc i) n [] h = absurd (omega arith)
take-shift_left (suc i) n (x ∷ es) h =
    let e : suc i + n ≡ suc (i + n) = omega arith in
    rw (e, shift_left-cons n i x es) (ap (λ l. x ∷ l) (take-shift_left i n es (omega arith)))

-- The test that spares the loop changes nothing.
shift_left_test :
    (size position : ℕ) (es : List MipArpCacheEntry)
    → position < size
    → (if position == size - 1 then es else shift_left (size - (position + 1)) position es)
      ≡ shift_left (size - (position + 1)) position es
unfolding shift_left
shift_left_test size position es h = elim (Bool-cases (position == size - 1)) [
  | inl last ↦
      let no_round : size - (position + 1) ≡ 0 = omega (arith, ==→eq position (size - 1) last) in
      rw (last, no_round)
  | inr inside ↦ rw inside
]

-- `remove_from_cache` takes out the entry at its position and keeps the order of the others.
pub live-remove_from_cache :
    (c : MipArpCache) (position : ℕ)
    → position < c.size
    → c.size ≤ length c.entries
    → live (remove_from_cache c position) ≡ remove_nth position (live c)
unfolding remove_from_cache
live-remove_from_cache c position h fits =
    let n = c.size - (position + 1) in
    let before : c.size - 1 ≡ position + n = omega arith in
    let whole : suc (position + n) ≡ c.size = omega arith in
    rw (shift_left_test c.size position c.entries h) (
      take-set_ge (c.size - 1) (c.size - 1) (shift_left n position c.entries) zero_entry
        (omega arith)
      ∙ ap (λ k. take k (shift_left n position c.entries)) before
      ∙ take-shift_left position n c.entries (omega arith)
      ∙ ap (λ k. remove_nth position (take k c.entries)) whole)

pub length-remove_from_cache :
    (c : MipArpCache) (position : ℕ)
    → length (remove_from_cache c position).entries ≡ length c.entries
unfolding remove_from_cache
length-remove_from_cache c position = ground (
  arith,
  length-set c.entries (c.size - 1) zero_entry,
  length-set (shift_left (c.size - (position + 1)) position c.entries) (c.size - 1) zero_entry,
  length-shift_left (c.size - (position + 1)) position c.entries,
)
