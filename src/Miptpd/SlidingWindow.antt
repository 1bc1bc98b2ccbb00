-- ===== src/Miptpd/SlidingWindow.antt =====
-- miptpd/src/lib/sliding_window.{h,c}: the sequence numbers that may be under way.
use network_course_uio.Prelude.{
  ℕ, ◌+◌, ◌-◌, ◌^◌, ◌<◌, ◌≡◌, refl, All, ◌∙◌, ap, ltb, if◌then◌else◌, List, [], ◌∷◌, arith,
}
use network_course_uio.Prelude.Bytes.{u16}

-- `struct SlidingWindow`, of words of 16 bits
pub record SlidingWindow : Type 0 where
  pub window_size : ℕ
  pub sequence_base : ℕ
  pub sequence_max : ℕ

-- `SlidingWindow_create`: the end does not depend on the base.
unfoldable pub create : (sequence_base window_size : ℕ) → SlidingWindow
create sequence_base window_size = record {
  window_size = window_size;
  sequence_base = sequence_base;
  sequence_max = u16 (window_size + 1);
}

-- `SlidingWindow_update`
unfoldable pub update : SlidingWindow → (sequence_nr : ℕ) → SlidingWindow
update window sequence_nr =
    if ltb window.sequence_base sequence_nr
    then record window {
      sequence_max = u16 (window.sequence_max + 2 ^ 16 - window.sequence_base + sequence_nr);
      sequence_base = sequence_nr;
    }
    else window

-- The window begins at a word and ends `window_size + 1` behind its base, modulo 2^16.
abbrev pub IsWindow : SlidingWindow → Type 0
IsWindow w =
    (w.sequence_base < 2 ^ 16) × (w.sequence_max ≡ u16 (w.sequence_base + (w.window_size + 1)))

-- The updates with the numbers of a list, in order
abbrev pub update_all : SlidingWindow → List ℕ → SlidingWindow
update_all window [] = window
update_all window (n ∷ rest) = update_all (update window n) rest

-- The greatest of a number and those of a list
abbrev pub greatest : ℕ → List ℕ → ℕ
greatest base [] = base
greatest base (n ∷ rest) = greatest (if ltb base n then n else base) rest

update-IsWindow : (w : SlidingWindow) (n : ℕ) → n < 2 ^ 16 → IsWindow w → IsWindow (update w n)
unfolding update
update-IsWindow w n fits h = ground arith

base-update :
    (w : SlidingWindow) (n : ℕ)
    → (update w n).sequence_base ≡ (if ltb w.sequence_base n then n else w.sequence_base)
unfolding update
base-update w n = ground arith

-- A window that is created from 0 begins, after any acknowledgements in any order, at the greatest
-- number acknowledged, and ends `window_size + 1` behind it, modulo 2^16: one further than its
-- size says.
pub update_all-create :
    (window_size : ℕ) (numbers : List ℕ)
    → All (λ n. n < 2 ^ 16) numbers
    → let w = update_all (create 0 window_size) numbers in
      (w.sequence_base ≡ greatest 0 numbers) × IsWindow w
unfolding create
update_all-create window_size numbers fits =
    from numbers (create 0 window_size) fits (omega arith, ground arith)
  where
    from :
        (l : List ℕ) (w : SlidingWindow)
        → All (λ n. n < 2 ^ 16) l
        → IsWindow w
        → ((update_all w l).sequence_base ≡ greatest w.sequence_base l) × IsWindow (update_all w l)
    from [] w h ok = (refl, ok)
    from (n ∷ l) w h ok =
        let (base, window) = from l (update w n) h.1 (update-IsWindow w n h.0 ok) in
        (base ∙ ap (λ k. greatest k l) (base-update w n), window)
