-- ===== src/Commons/DomainSocket/Names.antt =====
-- commons/src/domain_socket.c: which name an address has.
use network_course_uio.Prelude.{
  ℕ, zero, suc, ◌-◌, ◌<◌, ◌≤◌, ◌≡◌, refl, ap, ◌∙◌, none, some, List, [], ◌∷◌, ◌++◌, length,
  append_assoc, replicate, ◌==◌, arith, All, if◌then◌else◌,
}
use network_course_uio.Prelude.{
  take, take_all, sym, length-append, length-replicate, length-take, Bool-cases, inl, inr, ltb,
  ltb→lt,
}
use network_course_uio.Commons.DomainSocket.{strlen, strnlen, strncpy}

-- The bytes of a string in front of its end
abbrev pub IsText : List ℕ → Type 0
IsText = All (λ b. 0 < b)

-- The name that an address has: its bytes up to the first zero
abbrev pub name_of : List ℕ → List ℕ
name_of [] = []
name_of (b ∷ bs) = if b == 0 then [] else b ∷ name_of bs

pub strlen-text :
    (text rest : List ℕ) → IsText text → strlen (text ++ 0 ∷ rest) ≡ some (length text)
unfolding strlen
strlen-text [] rest t = refl
strlen-text (b ∷ bs) rest t = ground (arith, strlen-text bs rest t.1, t.0)

-- `strlen` of an object that holds no 0 reads behind it.
pub strlen-behind : (text : List ℕ) → IsText text → strlen text ≡ none
unfolding strlen
strlen-behind [] t = refl
strlen-behind (b ∷ bs) t = ground (arith, strlen-behind bs t.1, t.0)

pub strnlen-text :
    (text rest : List ℕ) (max : ℕ)
    → IsText text
    → length text ≤ max
    → strnlen (text ++ 0 ∷ rest) max ≡ some (length text)
unfolding strnlen
strnlen-text [] rest zero t fits = refl
strnlen-text [] rest (suc max) t fits = refl
strnlen-text (b ∷ bs) rest zero t fits = absurd (omega (arith, fits))
strnlen-text (b ∷ bs) rest (suc max) t fits =
    ground (arith, strnlen-text bs rest max t.1 (omega (arith, fits)), t.0)

pub strnlen-long :
    (text rest : List ℕ) (max : ℕ)
    → IsText text
    → max ≤ length text
    → strnlen (text ++ rest) max ≡ some max
unfolding strnlen
strnlen-long text rest zero t long = refl
strnlen-long [] rest (suc max) t long = absurd (omega (arith, long))
strnlen-long (b ∷ bs) rest (suc max) t long =
    ground (arith, strnlen-long bs rest max t.1 (omega (arith, long)), t.0)

-- A string that is shorter than what is asked for is copied with its end.
pub strncpy-short :
    (text rest : List ℕ) (n : ℕ)
    → IsText text
    → length text < n
    → strncpy (text ++ 0 ∷ rest) n ≡ some (text ++ replicate (n - length text) 0)
unfolding strncpy
strncpy-short text rest zero t short = absurd (omega (arith, short))
strncpy-short [] rest (suc n) t short =
    let whole : suc n ≡ suc n - 0 = omega arith in ap (λ k. some (replicate k 0)) whole
strncpy-short (b ∷ bs) rest (suc n) t short =
    ground (arith, strncpy-short bs rest n t.1 (omega (arith, short)), t.0)

-- An object that holds the bytes of a string without its end is read behind.
pub strncpy-behind : (text : List ℕ) (n : ℕ) → IsText text → length text < n → strncpy text n ≡ none
unfolding strncpy
strncpy-behind text zero t short = absurd (omega (arith, short))
strncpy-behind [] (suc n) t short = refl
strncpy-behind (b ∷ bs) (suc n) t short =
    ground (arith, strncpy-behind bs n t.1 (omega (arith, short)), t.0)

pub name_of-text : (text rest : List ℕ) → IsText text → name_of (text ++ 0 ∷ rest) ≡ text
name_of-text [] rest t = refl
name_of-text (b ∷ bs) rest t = ground (arith, name_of-text bs rest t.1, t.0)

-- One that is not is cut off.
pub strncpy-long :
    (text rest : List ℕ) (n : ℕ)
    → IsText text
    → n ≤ length text
    → strncpy (text ++ rest) n ≡ some (take n text)
unfolding strncpy
strncpy-long text rest zero t long = refl
strncpy-long [] rest (suc n) t long = absurd (omega (arith, long))
strncpy-long (b ∷ bs) rest (suc n) t long =
    ground (arith, strncpy-long bs rest n t.1 (omega (arith, long)), t.0)

IsText-take : (n : ℕ) (text : List ℕ) → IsText text → IsText (take n text)
IsText-take zero text t = tt
IsText-take (suc n) [] t = tt
IsText-take (suc n) (b ∷ bs) t = (t.0, IsText-take n bs t.1)

-- The first 107 bytes of a name are copied to an address that has them as its name, if its last byte is
-- 0 or the name is shorter.
pub strncpy-name_of :
    (text rest : List ℕ)
    → IsText text
    → (path : List ℕ) × (strncpy (text ++ 0 ∷ rest) 107 ≡ some path)
      × (name_of (path ++ 0 ∷ []) ≡ take 107 text)
      × (length path ≡ 107)
      × ((last : ℕ) → length text < 107 → name_of (path ++ last ∷ []) ≡ text)
strncpy-name_of text rest t = elim (Bool-cases (ltb (length text) 107)) [
  | inl below ↦
      let short : length text < 107 = ltb→lt (length text) 107 below in
      let pad = 106 - length text in
      let tail : replicate (107 - length text) 0 ≡ 0 ∷ replicate pad 0 =
        let n : 107 - length text ≡ suc pad = omega (arith, short) in rw n refl in
      let named = λ (last : ℕ).
        ap name_of (append_assoc text (0 ∷ replicate pad 0) (last ∷ []))
        ∙ name_of-text text (replicate pad 0 ++ last ∷ []) t in
      (
        text ++ 0 ∷ replicate pad 0,
        strncpy-short text rest 107 t short ∙ ap (λ z. some (text ++ z)) tail,
        named 0 ∙ sym (take_all 107 text (omega (arith, short))),
        omega (
          arith,
          length-append text (0 ∷ replicate pad 0),
          length-replicate {A = ℕ} pad 0,
          short,
        ),
        λ last _. named last,
      )
  | inr reaches ↦
      let long : 107 ≤ length text = ground (arith, reaches) in
      (
        take 107 text,
        strncpy-long text (0 ∷ rest) 107 t long,
        name_of-text (take 107 text) [] (IsText-take 107 text t),
        omega (arith, length-take 107 text, long),
        λ last short. absurd (omega (arith, long, short)),
      )
]
