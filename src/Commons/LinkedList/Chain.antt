-- ===== src/Commons/LinkedList/Chain.antt =====
-- Chains of the nodes of commons/src/list.c, and how its assignments to the links change them.
use network_course_uio.Prelude.{
  ◌≡◌, refl, ◌∙◌, sym, Bool, true, false, ◌||◌, Option, none, some, List, [], ◌∷◌, ◌++◌, arith,
  ◌==◌,
}
use network_course_uio.Commons.LinkedList.{
  Ptr, null, ListNode, Heap, write, load, set_next, set_prev, free,
}

-- The nodes of a list from its first to its last: their addresses, with their values
abbrev pub Cells : Type 0
Cells = List (Ptr × Ptr)

-- The address of the last cell, or `before` if there is none
abbrev pub last_of : Ptr → Cells → Ptr
last_of before [] = before
last_of before ((p, _) ∷ xs) = last_of p xs

-- Is the address that of one of the cells?
abbrev pub among : Cells → Ptr → Bool
among [] p = false
among ((q, _) ∷ rest) p = (p == q) || among rest p

infix 40 ◌∉◌ ◌∈◌
abbrev pub ◌∉◌ : Ptr → Cells → Type 0
p ∉ cells = among cells p ≡ false

-- Outside the cells nothing has changed.
abbrev pub Spares : Cells → Heap → Heap → Type 0
Spares cells old new = (p : Ptr) → p ∉ cells → new p ≡ old p

abbrev pub ◌∈◌ : Ptr → Cells → Type 0
p ∈ cells = among cells p ≡ true

abbrev pub Apart : Cells → Cells → Type 0
Apart front back = (p : Ptr) → p ∈ front → p ∉ back

-- At `p` there is a node with these links and this value.
pub record Points (h : Heap) (p next prev value : Ptr) : Type 0 where
  pub nonnull : (p == null) ≡ false
  pub there : h p ≡ some (record { next = next; prev = prev; value = value })

-- From `p` the links lead through the distinct nodes of the cells to `after`, and back to `before`.
pub data Chain (h : Heap) (after : Ptr) : (before p : Ptr) → Cells → Type 0 where
  nil : {before : Ptr} → Chain h after before after []
  cons :
      {before p q v : Ptr} {xs : Cells}
      → Points h p q before v
      → p ∉ xs
      → Chain h after p q xs
      → Chain h after before p ((p, v) ∷ xs)

-- A command ends without a fault, and its result and its heap are as `P` says.
abbrev pub Yields : {A : Type 0} → Option (A × Heap) → (A → Heap → Type 0) → Type 0
Yields {A} r P = (a : A) × (g : Heap) × (r ≡ some (a, g)) × P a g

pub among-append :
    (p : Ptr) (front back : Cells) → among (front ++ back) p ≡ (among front p || among back p)
among-append p [] back = refl
among-append p ((q, _) ∷ front) back = ground (arith, among-append p front back)

pub last_of-append : (b : Ptr) (xs ys : Cells) → last_of b (xs ++ ys) ≡ last_of (last_of b xs) ys
last_of-append b [] ys = refl
last_of-append b ((p, _) ∷ xs) ys = last_of-append p xs ys

pub last_of-mem : (b p v : Ptr) (xs : Cells) → last_of b ((p, v) ∷ xs) ∈ (p, v) ∷ xs
last_of-mem b p v [] = ground arith
last_of-mem b p v ((q, w) ∷ xs) = ground (arith, last_of-mem p q w xs)

pub load-ok :
    {h : Heap} {p q b v : Ptr}
    → Points h p q b v
    → load p h ≡ some (record { next = q; prev = b; value = v }, h)
unfolding load
load-ok e = rw (e.nonnull, e.there) refl

pub free-ok : {h : Heap} {p q b v : Ptr} → Points h p q b v → free p h ≡ some (tt, write h p none)
unfolding free
free-ok e = rw (e.nonnull, load-ok e) refl

pub set_prev-ok :
    {h : Heap} {p q b v : Ptr} (c : Ptr)
    → Points h p q b v
    → set_prev p c h ≡ some (tt, write h p (some (record { next = q; prev = c; value = v })))
unfolding set_prev
set_prev-ok c e = rw (load-ok e) refl

pub set_next-ok :
    {h : Heap} {p q b v : Ptr} (c : Ptr)
    → Points h p q b v
    → set_next p c h ≡ some (tt, write h p (some (record { next = c; prev = b; value = v })))
unfolding set_next
set_next-ok c e = rw (load-ok e) refl

pub write-same : (h : Heap) (p : Ptr) (c : Option ListNode) → write h p c p ≡ c
unfolding write
write-same h p c = ground arith

pub write-other :
    (h : Heap) (p : Ptr) (c : Option ListNode) (a : Ptr) → (a == p) ≡ false → write h p c a ≡ h a
unfolding write
write-other h p c a other = rw other refl

module _ {h : Heap} {after : Ptr} where
  -- A chain stays one in another heap that has the same nodes at its addresses.
  pub carry :
      {before first : Ptr} {cells : Cells} {new : Heap}
      → ((a : Ptr) → a ∈ cells → new a ≡ h a)
      → Chain h after before first cells
      → Chain new after before first cells
  carry same nil = nil
  carry same (cons {p = first} node fresh rest) =
      let there = same first (ground arith) ∙ node.there in
      cons (record { nonnull = node.nonnull; there = there }) fresh
        (carry (λ a among_rest. same a (ground arith)) rest)

  -- A write behind no address of the chain
  pub carry-write :
      {before first : Ptr} {cells : Cells} (p : Ptr) (n : Option ListNode)
      → Chain h after before first cells
      → p ∉ cells
      → Chain (write h p n) after before first cells
  unfolding write
  carry-write p n chain away = carry (ground arith) chain

  -- No node of a chain has an address that is not allocated.
  pub not-mem_of_unused :
      {before first : Ptr} {cells : Cells} (p : Ptr)
      → Chain h after before first cells
      → h p ≡ none
      → p ∉ cells
  not-mem_of_unused p nil unused = refl
  not-mem_of_unused p (cons node fresh rest) unused =
      ground (arith, node.there, not-mem_of_unused p rest unused)

  -- A chain that ends where another one begins
  pub join :
      {before first end : Ptr} {front back : Cells}
      → Apart front back
      → Chain h after before first front
      → Chain h end (last_of before front) after back
      → Chain h end before first (front ++ back)
  join apart nil behind = behind
  join {front = (p, _) ∷ front} {back = back} apart (cons node fresh rest) behind =
      cons node (among-append p front back ∙ rw fresh (apart p (ground arith)))
        (join (λ a among_rest. apart a (ground arith)) rest behind)

  pub uncons :
      {b p q v : Ptr} {xs : Cells}
      → Chain h after b p ((q, v) ∷ xs)
      → (next : Ptr) × (p ≡ q) × Points h q next b v × (q ∉ xs) × Chain h after q next xs
  uncons (cons {q = next} e out s) = (next, refl, e, out, s)

  -- A chain in two parts
  pub split :
      {b p : Ptr} (xs : Cells) {ys : Cells}
      → Chain h after b p (xs ++ ys)
      → (m : Ptr) × Chain h m b p xs × Chain h after (last_of b xs) m ys × Apart xs ys
  split {p = p} [] s = (p, nil, s, λ a i. absurd (ground (arith, i)))
  split ((q, v) ∷ xs) {ys} (cons e out s) =
      let (m, front, back, apart) = split xs s in
      let outs = sym (among-append q xs ys) ∙ out in
      (m, cons e (ground (arith, outs)) front, back, λ a i. ground (arith, outs, apart a))

  -- The last node of a chain is given another successor.
  pub relink_last :
      {b p q v : Ptr} (xs : Cells) (stop : Ptr)
      → Chain h after b p ((q, v) ∷ xs)
      → Yields
          (set_next (last_of b ((q, v) ∷ xs)) stop h)
          λ _ g. Chain g stop b p ((q, v) ∷ xs) × Spares ((q, v) ∷ xs) h g
  relink_last {b} {q = q} {v} [] stop (cons e out nil) = (
    tt,
    write h q (some (record { next = stop; prev = b; value = v })),
    set_next-ok stop e,
    (
      cons (record { nonnull = e.nonnull; there = write-same h q _ }) refl nil,
      λ a o. write-other h q _ a (ground (arith, o)),
    ),
  )
  relink_last {q = q} ((r, w) ∷ xs) stop (cons e out s) =
      let (u, g, run, (chain, same)) = relink_last xs stop s in
      (
        u,
        g,
        run,
        (
          cons (record { nonnull = e.nonnull; there = same q out ∙ e.there }) out chain,
          λ a o. same a (ground (arith, o)),
        ),
      )

  -- The first node of a chain is given another predecessor.
  pub relink_first :
      {b p q v : Ptr} {xs : Cells} (c : Ptr)
      → Chain h after b p ((q, v) ∷ xs)
      → Yields (set_prev p c h) λ _ g. Chain g after c p ((q, v) ∷ xs) × Spares ((q, v) ∷ xs) h g
  relink_first {q = q} {v} c (cons {q = next} e out s) = (
    tt,
    write h q (some (record { next = next; prev = c; value = v })),
    set_prev-ok c e,
    (
      cons (record { nonnull = e.nonnull; there = write-same h q _ }) out (carry-write q _ s out),
      λ a o. write-other h q _ a (ground (arith, o)),
    ),
  )
