-- ===== src/Publication/Verify/Readers.antt =====
-- read_and_verify_current of src/quantara/publication.py, between the calls of publishers.
use quantara.Prelude.{◌≡◌, refl, sym, ap, ◌∙◌, Option, none, some, List, [], ◌∷◌, subst, All}
use quantara.Text.{Text, codes, text_eq}
use quantara.Errors.{Result, ok, err, ◌>>=◌, >>=-eq-ok, raise_if-eq-ok, ok_injective}
use quantara.Publication.{
  Bytes, Disk, Directory, CurrentPointer, find, object_path, is_none, store_object, publish_commit,
}
use quantara.Json.{Json, Fields}
use quantara.Publication.Refs.{Ref, refs_of}
use quantara.Publication.Keeps.{
  Kept, Grows, store_object-Grows, stage_commit-Grows, publish_commit-Grows,
}
use quantara.Publication.Verify.{
  verify_object, verify_refs, verify_content, verify_commit_graph, verify_commit, read_pointer,
  read_and_verify_current, content_of, Step, store, stage, publish, point, run_step, run_steps,
  disk_or,
}

module _ (sha256 : Bytes → Text) where
  verify_object-some :
      (digest : Text) (o : Option Bytes)
      → verify_object sha256 digest o ≡ ok tt
      → (payload : Bytes) × (o ≡ some payload)
  unfolding verify_object
  verify_object-some digest none h = cc
  verify_object-some digest (some payload) h = (payload, refl)

  -- References that verify do so with more objects.
  verify_refs-Kept :
      (before after : List (Text × Bytes)) (refs : List Ref)
      → Kept before after
      → verify_refs sha256 before refs ≡ ok tt
      → verify_refs sha256 after refs ≡ ok tt
  unfolding verify_refs
  verify_refs-Kept before after [] k h = refl
  verify_refs-Kept before after ((kind, digest) ∷ refs) k h =
      let (path, p, h1) = >>=-eq-ok (object_path kind digest) _ h in
      let (u, v, h2) = >>=-eq-ok (verify_object sha256 digest (find path before)) _ h1 in
      let (payload, q) = verify_object-some digest (find path before) v in
      rw (p, k path payload q, sym (ap (verify_object sha256 digest) q) ∙ v)
        (verify_refs-Kept before after refs k h2)

  module _ (loads : Bytes → Option Json) where
    verify_content-Kept :
        (before after : List (Text × Bytes)) (blob : Option Bytes) (content : Fields)
        → Kept before after
        → verify_content sha256 loads before blob ≡ ok content
        → verify_content sha256 loads after blob ≡ ok content
    unfolding verify_content
    verify_content-Kept before after none content k h = cc
    verify_content-Kept before after (some blob) content k h =
        let (c, e, h1) = >>=-eq-ok (content_of (loads blob)) _ h in
        let (refs, r, h2) = >>=-eq-ok (refs_of c) _ h1 in
        let (u, v, h3) = >>=-eq-ok (verify_refs sha256 before refs) _ h2 in
        rw (e, r, verify_refs-Kept before after refs k v) h3

    verify_commit-Kept :
        (before after : Disk) (commit : Text) (directory : Option Directory) (r : Fields)
        → Kept before.objects after.objects
        → verify_commit sha256 loads before commit directory ≡ ok r
        → verify_commit sha256 loads after commit directory ≡ ok r
    unfolding verify_commit verify_commit_graph
    verify_commit-Kept before after commit none r k h = cc
    verify_commit-Kept before after commit (some directory) r k h =
        let (c, v, h1) =
          >>=-eq-ok (verify_commit_graph sha256 loads before.objects directory) _ h in
        let (marked, w) = raise_if-eq-ok (is_none (find (codes "COMMITTED") directory)) _ _ v in
        rw
          (
            marked,
            verify_content-Kept before.objects after.objects (find (codes "content.json") directory)
                c k w,
          )
          h1

    verify_commit-some :
        (disk : Disk) (commit : Text) (o : Option Directory) (r : Fields)
        → verify_commit sha256 loads disk commit o ≡ ok r
        → (directory : Directory) × (o ≡ some directory)
    unfolding verify_commit
    verify_commit-some disk commit none r h = cc
    verify_commit-some disk commit (some directory) r h = (directory, refl)

    read_pointer-Grows :
        (before after : Disk) (pointer : Option CurrentPointer) (r : Fields)
        → Grows before after
        → read_pointer sha256 loads before pointer ≡ ok r
        → read_pointer sha256 loads after pointer ≡ ok r
    unfolding read_pointer
    read_pointer-Grows before after none r g h = cc
    read_pointer-Grows before after (some pointer) r (objects, commits, same) h =
        let (named, v) = raise_if-eq-ok (text_eq pointer.commit []) _ _ h in
        let (directory, q) =
          verify_commit-some before pointer.commit (find pointer.commit before.commits) r v in
        rw (named, commits pointer.commit directory q)
          (verify_commit-Kept before after pointer.commit (some directory) r objects
            (sym (ap (verify_commit sha256 loads before pointer.commit) q) ∙ v))

-- Every call but the replacement of the pointer.
abbrev pub LeavesPointer : Step → Type 0
LeavesPointer (store kind payload digest) = Unit
LeavesPointer (stage attempt_id files) = Unit
LeavesPointer (publish attempt_id content_hash) = Unit
LeavesPointer (point commit_hash manifest_digest) = ⊥

disk_or-Grows :
    (disk : Disk) (r : Result Disk)
    → ((after : Disk) → r ≡ ok after → Grows disk after)
    → Grows disk (disk_or disk r)
unfolding disk_or
disk_or-Grows disk (ok after) g = g after refl
disk_or-Grows disk (err e) g = (λ name a there. there, λ name a there. there, refl)

module _ (sha256 : Bytes → Text) where
  run_step-Grows : (disk : Disk) (s : Step) → LeavesPointer s → Grows disk (run_step sha256 disk s)
  unfolding run_step
  run_step-Grows disk (store kind payload digest) leaves =
      disk_or-Grows disk (store_object sha256 disk kind payload digest >>= λ x. ok x.1) (λ after h.
        let ((o, d), e, same) =
          >>=-eq-ok (store_object sha256 disk kind payload digest) (λ x. ok x.1) h in
        subst (λ a. Grows disk a) {x = d} (ok_injective same)
          (store_object-Grows sha256 disk kind payload digest o d e))
  run_step-Grows disk (stage attempt_id files) leaves = stage_commit-Grows disk attempt_id files
  run_step-Grows disk (publish attempt_id content_hash) leaves =
      disk_or-Grows disk (publish_commit disk attempt_id content_hash)
        (λ after h. publish_commit-Grows disk attempt_id content_hash after h)
  run_step-Grows disk (point commit_hash manifest_digest) leaves = absurd leaves

  module _ (loads : Bytes → Option Json) where
    -- A commit that a reader finds through the pointer is found and verifies as before after any
    -- calls of any publishers, in any order and cut off anywhere, until one replaces the pointer.
    pub read_and_verify_current-run_steps :
        (disk : Disk) (steps : List Step) (r : Fields)
        → All LeavesPointer steps
        → read_and_verify_current sha256 loads disk ≡ ok r
        → read_and_verify_current sha256 loads (run_steps sha256 disk steps) ≡ ok r
    unfolding read_and_verify_current run_steps
    read_and_verify_current-run_steps disk [] r a h = h
    read_and_verify_current-run_steps disk (s ∷ steps) r a h =
        let g = run_step-Grows disk s a.0 in
        read_and_verify_current-run_steps (run_step sha256 disk s) steps r a.1 (
          rw (g.2)
            (read_pointer-Grows sha256 loads disk (run_step sha256 disk s) disk.current r g h))
