-- ===== src/FsMemory/Bodies/Outcomes.antt =====
-- When the bodies of `create` and `write` succeed.
use distributed_sns.Base.{
  ◌≡◌, refl, ◌∙◌, ap, Bool, true, false, none, List, [], ◌∷◌, arith, Str, str_eq, ==_refl,
  Option-cases, inl, inr,
}
use distributed_sns.FsTree.{Node, get_child, create_child, remove_child}
use distributed_sns.FsMemory.{create_body, write_body}
use distributed_sns.FsMemory.View.{view, graft}
use distributed_sns.FsMemory.Walk.{fresh}
use distributed_sns.FsMemory.Effect.{IsBody}
use distributed_sns.FsMemory.Bodies.Views.{
  new_entry, create_effect, write_effect, remove_effect, view-put_child-graft, view-erased-graft,
  create_body_done, create_body_failed, write_body_new, write_body_old, write_body_failed,
  remove_child_done, remove_child_failed, view-new, view-written_new, view-written_old,
  view-no_child,
}

create_succeeds :
    (is_folder : Bool) (parent : Node) (a : Str) (parent' : Node)
    → create_body is_folder parent a ≡ (parent', true)
    → (r : List Str) → view parent' r ≡ graft (view parent) (a ∷ []) (new_entry (is_folder, [])) r
create_succeeds is_folder parent a parent' h r =
    let (_, e) = create_body_done parent a is_folder h in
    ap (λ x. view x r) e ∙ view-put_child-graft parent a _ _ r (view-new is_folder a [])

create_in_fresh : (is_folder : Bool) (s a : Str) → (create_body is_folder (fresh s) a).1 ≡ true
unfolding create_body create_child get_child
create_in_fresh is_folder s a = ground (arith, ==_refl {A = Str} [])

write_in_fresh :
    (new : Str) (overwrite : Bool) (s a : Str) → (write_body new overwrite (fresh s) a).1 ≡ true
unfolding write_body create_child get_child
write_in_fresh new overwrite s a = refl

write_succeeds :
    (new : Str) (overwrite : Bool) (parent : Node) (a : Str) (parent' : Node)
    → write_body new overwrite parent a ≡ (parent', true)
    → (r : List Str)
    → view parent' r
      ≡ graft (view parent) (a ∷ []) (write_effect new overwrite (λ s. view parent (a ∷ s))) r
write_succeeds new overwrite parent a parent' h r = elim (Option-cases (get_child parent a)) [
  | inl e ↦
      ap (λ x. view x r) (write_body_new parent a new overwrite e h)
      ∙ view-put_child-graft parent a _ _ r (λ s. view-written_new parent a new overwrite s e)
  | inr (next, e) ↦
      let (file, e') = write_body_old parent a new overwrite e h in
      ap (λ x. view x r) e'
      ∙ view-put_child-graft parent a _ _ r
          (λ s. view-written_old parent a new overwrite next s e file)
]

pub create_body-IsBody :
    (is_folder dirs : Bool) → IsBody (create_body is_folder) dirs (create_effect is_folder)
create_body-IsBody is_folder dirs = record {
  succeeds = create_succeeds is_folder;
  fails = λ parent a parent' h. create_body_failed parent a is_folder h;
  in_fresh = λ on. create_in_fresh is_folder;
}

pub write_body-IsBody :
    (new : Str) (overwrite dirs : Bool)
    → IsBody (write_body new overwrite) dirs (write_effect new overwrite)
write_body-IsBody new overwrite dirs = record {
  succeeds = write_succeeds new overwrite;
  fails = λ parent a parent' h. write_body_failed parent a new overwrite h;
  in_fresh = λ on. write_in_fresh new overwrite;
}

pub remove_child-IsBody : IsBody remove_child false remove_effect
remove_child-IsBody = record {
  succeeds = λ parent a parent' h r.
      ap (λ x. view x r) (remove_child_done parent a h)
      ∙ view-erased-graft parent a (λ s. view parent (a ∷ s)) r;
  fails = λ parent a parent' h. remove_child_failed parent a h;
  in_fresh = λ e. cc;
}

-- `create` finds no entry of that name.
pub create_needs :
    (is_folder : Bool) (parent : Node) (a : Str) (parent' : Node)
    → create_body is_folder parent a ≡ (parent', true)
    → view parent (a ∷ []) ≡ none
create_needs is_folder parent a parent' h =
    view-no_child parent a [] (create_body_done parent a is_folder h).0
