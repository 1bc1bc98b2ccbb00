-- ===== src/Commons/LinkedList.antt =====
-- commons/src/list.{h,c}: doubly linked lists. A heap maps an address to the node that is allocated
-- there; an access to the null pointer or to an address without a node is a fault.
pub mod Chain
pub mod Ends
pub mod Removal
pub mod Destruction
pub mod Queues
mod Tests
use network_course_uio.Prelude.{
  ℕ, zero, suc, ◌+◌, ◌-◌, ◌^◌, Option, none, some, Bool, ◌==◌, ◌&&◌, ◌||◌, if◌then◌else◌,
}
use network_course_uio.Prelude.Bytes.{u32}

abbrev pub Ptr : Type 0
Ptr = ℕ

-- `NULL`
abbrev pub null : Ptr
null = 0

-- `struct ListNode`; a value is a pointer too.
pub record ListNode : Type 0 where
  pub next : Ptr
  pub prev : Ptr
  pub value : Ptr

-- `struct List`: `count` is the word of 32 bits that holds it.
pub record LinkedList : Type 0 where
  pub count : ℕ
  pub first : Ptr
  pub last : Ptr

abbrev pub Heap : Type 0
Heap = Ptr → Option ListNode

unfoldable pub write : Heap → Ptr → Option ListNode → Heap
write heap at node p = if p == at then node else heap p

-- What a function does to the heap, where none is a fault
abbrev pub Cmd : Type 0 → Type 0
Cmd A = Heap → Option (A × Heap)

abbrev pub pure : {A : Type 0} → A → Cmd A
pure result heap = some (result, heap)

abbrev pub bind : {A B : Type 0} → Option (A × Heap) → (A → Cmd B) → Option (B × Heap)
bind none next = none
bind (some (result, heap)) next = next result heap

infixl 5 ◌>>=◌
abbrev pub ◌>>=◌ : {A B : Type 0} → Cmd A → (A → Cmd B) → Cmd B
first >>= next = λ heap. bind (first heap) next

infixl 5 ◌>>◌
abbrev pub ◌>>◌ : {A B : Type 0} → Cmd A → Cmd B → Cmd B
first >> next = first >>= λ result. next

-- An allocated object is filled with a node, or freed.
abbrev pub store : Ptr → Option ListNode → Cmd (Unit {0})
store at node heap = some (tt, write heap at node)

-- `*p`
unfoldable pub load : Ptr → Cmd ListNode
load p heap =
    if p == null then none else elim (heap p) [ none ↦ none | some node ↦ some (node, heap) ]

-- `p->next = next` and `p->prev = prev`
unfoldable pub set_next : (p next : Ptr) → Cmd (Unit {0})
set_next p next = do old ← load p; store p (some (record old { next = next }))

unfoldable pub set_prev : (p prev : Ptr) → Cmd (Unit {0})
set_prev p prev = do old ← load p; store p (some (record old { prev = prev }))

-- `free`, of which the null pointer is no fault
unfoldable pub free : Ptr → Cmd (Unit {0})
free p = if p == null then pure tt else load p >> store p none

-- `List_create`, when `calloc` succeeds
abbrev pub create : LinkedList
create = record { count = 0; first = null; last = null }

-- `count++` and `count--`
abbrev pub count_up : ℕ → ℕ
count_up n = u32 (n + 1)

abbrev pub count_down : ℕ → ℕ
count_down n = u32 (n + 2 ^ 32 - 1)

-- The node that `calloc` returned at the address `fresh`, joined to the end of the list
abbrev link_last : Ptr → LinkedList → Cmd LinkedList
link_last fresh list =
    if list.last == null
    then pure (record { count = count_up list.count; first = fresh; last = fresh })
    else do
      set_next list.last fresh
      set_prev fresh list.last
      pure (record list { count = count_up list.count; last = fresh })

-- The same at the front
abbrev link_first : Ptr → LinkedList → Cmd LinkedList
link_first fresh list =
    if list.first == null
    then pure (record { count = count_up list.count; first = fresh; last = fresh })
    else do
      set_next fresh list.first
      set_prev list.first fresh
      pure (record list { count = count_up list.count; first = fresh })

-- `List_push`, where `fresh` is what `calloc` returned
unfoldable pub push : (fresh : Ptr) → LinkedList → (value : Ptr) → Cmd LinkedList
push fresh list value =
    if fresh == null
    then pure list
    else store fresh (some (record { next = null; prev = null; value = value }))
      >> link_last fresh list

-- `List_unshift`, where `fresh` is what `calloc` returned
unfoldable pub unshift : (fresh : Ptr) → LinkedList → (value : Ptr) → Cmd LinkedList
unshift fresh list value =
    if fresh == null
    then pure list
    else store fresh (some (record { next = null; prev = null; value = value }))
      >> link_first fresh list

-- `count--`, and the node that leaves the list is freed; its value is the result.
abbrev pub leave : LinkedList → Ptr → Cmd (Ptr × LinkedList)
leave list p = do n ← load p; free p; pure (n.value, record list { count = count_down list.count })

-- The four cases of `List_remove`
abbrev pub remove_only : LinkedList → Ptr → Cmd (Ptr × LinkedList)
remove_only list p = leave (record list { first = null; last = null }) p

abbrev pub remove_first : LinkedList → Ptr → Cmd (Ptr × LinkedList)
remove_first list p = do
  n ← load p
  let without = record list { first = n.next } in
      if n.next == null then pure (null, without) else set_prev n.next null >> leave without p

abbrev pub remove_last : LinkedList → Ptr → Cmd (Ptr × LinkedList)
remove_last list p = do
  n ← load p
  let without = record list { last = n.prev } in
      if n.prev == null then pure (null, without) else set_next n.prev null >> leave without p

abbrev pub remove_between : LinkedList → Ptr → Cmd (Ptr × LinkedList)
remove_between list p = do n ← load p; set_prev n.next n.prev; set_next n.prev n.next; leave list p

-- `List_remove`: the value of the node `p`, or `NULL`
unfoldable pub remove : LinkedList → (p : Ptr) → Cmd (Ptr × LinkedList)
remove list p =
    if (list.first == null) || (list.last == null) || (p == null)
    then pure (null, list)
    else if (p == list.first) && (p == list.last)
    then remove_only list p
    else if p == list.first
    then remove_first list p
    else if p == list.last
    then remove_last list p
    else remove_between list p

-- `List_pop`
unfoldable pub pop : LinkedList → Cmd (Ptr × LinkedList)
pop list = if list.last == null then pure (null, list) else remove list list.last

-- `List_shift`
unfoldable pub shift : LinkedList → Cmd (Ptr × LinkedList)
shift list = if list.first == null then pure (null, list) else remove list list.first

-- The loop of `List_destroy` from the node `cur` on, with fuel for its rounds: every node frees the one
-- before it.
unfoldable pub destroy_nodes : ℕ → (cur : Ptr) → Cmd (Unit {0})
destroy_nodes zero cur = λ h. none
destroy_nodes (suc fuel) cur =
    if cur == null
    then pure tt
    else do n ← load cur; free n.prev; m ← load cur; destroy_nodes fuel m.next

-- `List_destroy`, for the nodes; the list itself is gone with it.
unfoldable pub destroy : (fuel : ℕ) → LinkedList → Cmd (Unit {0})
destroy fuel list = destroy_nodes fuel list.first >> free list.last
