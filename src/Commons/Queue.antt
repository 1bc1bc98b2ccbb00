-- ===== src/Commons/Queue.antt =====
-- commons/src/queue.h: a queue is a list of commons/src/list.{h,c} that is filled at its front and
-- emptied at its back. Here it is the list of its values from first to last, the view that list.c
-- gives its callers; the nodes and their pointers are left out.
use network_course_uio.Prelude.{Option, none, some, List, [], ◌∷◌, ◌++◌}

module _ {ℓ} {A : Type ℓ} where
  -- `Queue_send`
  abbrev pub send : List A → A → List A
  send queue value = value ∷ queue

  -- `Queue_recv`: the value is none, for NULL, if the queue is empty.
  abbrev pub recv : List A → Option A × List A
  recv [] = (none, [])
  recv (x ∷ []) = (some x, [])
  recv (x ∷ y ∷ rest) = let (value, left) = recv (y ∷ rest) in (value, x ∷ left)

  -- The values in the order in which they come out
  abbrev pub waiting : List A → List A
  waiting [] = []
  waiting (x ∷ rest) = waiting rest ++ x ∷ []
