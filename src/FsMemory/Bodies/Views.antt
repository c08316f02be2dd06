-- ===== src/FsMemory/Bodies/Views.antt =====
-- What `create`, `write` and `remove` do at the parent, as changes of the view.
use distributed_sns.Base.{
  ◌≡◌, refl, sym, Bool, true, false, Option, none, some, List, [], ◌∷◌, ◌++◌, arith, Str, str_eq,
  if◌then◌else◌, Option-cases,
}
use distributed_sns.FsTree.{
  Node, node, nil, folder, children, with_children, find_child, erase_child, get_child,
  create_child, remove_child,
}
use distributed_sns.FsTree.Views.{find_child-erase_child}
use distributed_sns.FsMemory.{put_child, create_body, write_body, write_data}
use distributed_sns.FsMemory.View.{Info, view, graft, strip, view-put_child}
use distributed_sns.FsMemory.Effect.{Effect}

-- A new entry with nothing below it.
abbrev pub new_entry : Info → List Str → Option Info
new_entry i [] = some i
new_entry i (_ ∷ _) = none

-- A file that is made, replaced or extended.
abbrev pub written : Str → Bool → Option Info → Info
written new overwrite none = (false, new)
written new overwrite (some (_, old)) = (false, if overwrite then new else old ++ new)

abbrev pub create_effect : Bool → Effect
create_effect is_folder old = new_entry (is_folder, [])

abbrev pub write_effect : Str → Bool → Effect
write_effect new overwrite old [] = some (written new overwrite (old []))
write_effect new overwrite old (u ∷ r) = old (u ∷ r)

abbrev pub remove_effect : Effect
remove_effect old r = none

-- A parent in which the child `a` is another.
pub view-put_child-graft :
    (parent : Node) (a : Str) (child : Node) (w : List Str → Option Info) (r : List Str)
    → ((s : List Str) → view child s ≡ w s)
    → view (put_child a child parent) r ≡ graft (view parent) (a ∷ []) w r
unfolding view strip
view-put_child-graft (node f n d cs) a child w [] e = refl
view-put_child-graft parent a child w (u ∷ r) e =
    ground (arith, view-put_child a u child parent r, e r)

pub view-erased-graft :
    (parent : Node) (a : Str) (old : List Str → Option Info) (r : List Str)
    → view (with_children parent (erase_child a (children parent))) r
      ≡ graft (view parent) (a ∷ []) (remove_effect old) r
unfolding view strip get_child
view-erased-graft (node f n d cs) a old [] = refl
view-erased-graft (node f n d cs) a old (u ∷ r) = ground (arith, find_child-erase_child u a cs)

module _ (parent : Node) (a : Str) where
  pub create_body_done :
      (is_folder : Bool) {parent' : Node}
      → create_body is_folder parent a ≡ (parent', true)
      → (get_child parent a ≡ none) × (parent' ≡ put_child a (node is_folder a [] nil) parent)
  unfolding create_body create_child
  create_body_done is_folder h = ground (arith, Option-cases (get_child parent a))

  pub create_body_failed :
      (is_folder : Bool) {parent' : Node}
      → create_body is_folder parent a ≡ (parent', false)
      → parent' ≡ parent
  unfolding create_body create_child
  create_body_failed is_folder h = ground (arith, Option-cases (get_child parent a))

  pub write_body_new :
      (new : Str) (overwrite : Bool) {parent' : Node}
      → get_child parent a ≡ none
      → write_body new overwrite parent a ≡ (parent', true)
      → parent' ≡ put_child a (node false a new nil) parent
  unfolding write_body create_child
  write_body_new new overwrite e h = ground arith

  pub write_body_old :
      (new : Str) (overwrite : Bool) {parent' next : Node}
      → get_child parent a ≡ some next
      → write_body new overwrite parent a ≡ (parent', true)
      → (folder next ≡ false) × (parent' ≡ put_child a (write_data overwrite new next) parent)
  unfolding write_body
  write_body_old new overwrite e h = ground arith

  pub write_body_failed :
      (new : Str) (overwrite : Bool) {parent' : Node}
      → write_body new overwrite parent a ≡ (parent', false)
      → parent' ≡ parent
  unfolding write_body create_child
  write_body_failed new overwrite h = ground (arith, Option-cases (get_child parent a))

  pub remove_child_done :
      {parent' : Node}
      → remove_child parent a ≡ (parent', true)
      → parent' ≡ with_children parent (erase_child a (children parent))
  unfolding remove_child
  remove_child_done h = ground (arith, Option-cases (find_child a (children parent)))

  pub remove_child_failed :
      {parent' : Node} → remove_child parent a ≡ (parent', false) → parent' ≡ parent
  unfolding remove_child
  remove_child_failed h = ground (arith, Option-cases (find_child a (children parent)))

pub view-new : (f : Bool) (a d : Str) (s : List Str) → view (node f a d nil) s ≡ new_entry (f, d) s
unfolding view get_child
view-new f a d [] = refl
view-new f a d (u ∷ s) = refl

view-child :
    (parent : Node) (a : Str) (s : List Str) {next : Node}
    → get_child parent a ≡ some next
    → view parent (a ∷ s) ≡ view next s
unfolding view
view-child parent a s e = rw (e, view)

pub view-no_child :
    (parent : Node) (a : Str) (s : List Str)
    → get_child parent a ≡ none
    → view parent (a ∷ s) ≡ none
unfolding view
view-no_child parent a s e = rw (e, view)

pub view-written_new :
    (parent : Node) (a new : Str) (overwrite : Bool) (s : List Str)
    → get_child parent a ≡ none
    → view (node false a new nil) s ≡ write_effect new overwrite (λ s. view parent (a ∷ s)) s
view-written_new parent a new overwrite [] e =
    ground (arith, view-no_child parent a [] e, view-new false a new [])
view-written_new parent a new overwrite (u ∷ s) e =
    ground (arith, view-no_child parent a (u ∷ s) e, view-new false a new (u ∷ s))

pub view-written_old :
    (parent : Node) (a new : Str) (overwrite : Bool) (next : Node) (s : List Str)
    → get_child parent a ≡ some next
    → folder next ≡ false
    → view (write_data overwrite new next) s
      ≡ write_effect new overwrite (λ s. view parent (a ∷ s)) s
unfolding view get_child
view-written_old parent a new overwrite (node f n d cs) [] e f' =
    ground (arith, view-child parent a [] e)
view-written_old parent a new overwrite (node f n d cs) (u ∷ s) e f' =
    sym (view-child parent a (u ∷ s) e)
